-- ===== src/Host/ReqQueue/Order.antt =====
-- reqQueue.c, issd_Compute_client.c: the request queue keeps the order of the packets.
use issd.Base.{
  ℕ, zero, suc, ◌+◌, ◌≤◌, ◌<◌, ◌≡◌, refl, ap, subst, ◌∙◌, none, some, List, [], ◌∷◌, ◌++◌, arith,
  inl, inr, Option-cases, ◌⊎◌,
}
use issd.Host.ReqQueue.{
  RQueue, create_rqueue, Turn, nobody, entered, finished, Step, wait_empty, wait_producer, put,
  post_producer, post_full, wait_full, wait_consumer, take, post_consumer, post_empty, step, steps,
}
use issd.Host.ReqQueue.Window.{window}
use issd.Host.ReqQueue.Valid.{
  before, behind, IsValid, create_rqueue-IsValid, put-IsValid, take-IsValid, moves-IsValid,
}

count-cases : (k : ℕ) → (k ≡ 0) ⊎ ((j : ℕ) × (k ≡ suc j))
count-cases zero = inl refl
count-cases (suc j) = inr (j, refl)

Turn-cases : (t : Turn) → (t ≡ nobody) ⊎ ((t ≡ entered) ⊎ (t ≡ finished))
Turn-cases nobody = inl refl
Turn-cases entered = inr (inl refl)
Turn-cases finished = inr (inr refl)

module _ {P : Type 0} where
  -- A step keeps the state valid, with some number of packets in the buffer.
  abbrev pub Valid : ℕ → RQueue P → Type 0
  Valid n q = (len : ℕ) × IsValid n len q

  some→≡ : {q r : RQueue P} → some q ≡ some r → q ≡ r
  some→≡ h = cc

  none≢some : {r : RQueue P} → none ≡ some r → ⊥
  none≢some h = cc

  step-Valid :
      (n : ℕ) (q : RQueue P) (a : Step P) {r : RQueue P} → Valid n q → step q a ≡ some r → Valid n r
  unfolding step
  step-Valid n q wait_empty (len, v) e = elim (count-cases q.empty) [
    | inl none_left ↦ absurd (none≢some (rw (none_left, step) at e))
    | inr (k, some_left) ↦ subst (Valid n) (some→≡ (rw (some_left, step) at e)) (
      len,
      moves-IsValid n len q q.full k (q.senders + 1) q.posters q.getters q.leavers q.mutex_producer
          q.mutex_consumer v (omega arith) (omega arith),
    )
  ]
  step-Valid n q wait_producer (len, v) e = elim (count-cases q.senders) [
    | inl none_left ↦ absurd (none≢some (rw (none_left, step) at e))
    | inr (k, some_left) ↦ elim (Turn-cases q.mutex_producer) [
      | inr (inl taken) ↦ absurd (none≢some (rw (some_left, taken, step) at e))
      | inr (inr taken) ↦ absurd (none≢some (rw (some_left, taken, step) at e))
      | inl free ↦ subst (Valid n) (some→≡ (rw (some_left, free, step) at e)) (
        len,
        moves-IsValid n len q q.full q.empty k q.posters q.getters q.leavers entered
            q.mutex_consumer v (omega (arith, ap before free, ap behind free))
            (omega (arith, ap before free, ap behind free)),
      )
    ]
  ]
  step-Valid n q (put p) (len, v) e = elim (Turn-cases q.mutex_producer) [
    | inl free ↦ absurd (none≢some (rw (free, step) at e))
    | inr (inr done) ↦ absurd (none≢some (rw (done, step) at e))
    | inr (inl inside) ↦
        subst (Valid n) (some→≡ (rw (inside, step) at e)) (suc len, put-IsValid n len q p v inside)
  ]
  step-Valid n q post_producer (len, v) e = elim (Turn-cases q.mutex_producer) [
    | inl free ↦ absurd (none≢some (rw (free, step) at e))
    | inr (inl busy) ↦ absurd (none≢some (rw (busy, step) at e))
    | inr (inr done) ↦ subst (Valid n) (some→≡ (rw (done, step) at e)) (
      len,
      moves-IsValid n len q q.full q.empty q.senders (q.posters + 1) q.getters q.leavers nobody
          q.mutex_consumer v (omega (arith, ap before done, ap behind done))
          (omega (arith, ap before done, ap behind done)),
    )
  ]
  step-Valid n q post_full (len, v) e = elim (count-cases q.posters) [
    | inl none_left ↦ absurd (none≢some (rw (none_left, step) at e))
    | inr (k, some_left) ↦ subst (Valid n) (some→≡ (rw (some_left, step) at e)) (
      len,
      moves-IsValid n len q (q.full + 1) q.empty q.senders k q.getters q.leavers q.mutex_producer
          q.mutex_consumer v (omega arith) (omega arith),
    )
  ]
  step-Valid n q wait_full (len, v) e = elim (count-cases q.full) [
    | inl none_left ↦ absurd (none≢some (rw (none_left, step) at e))
    | inr (k, some_left) ↦ subst (Valid n) (some→≡ (rw (some_left, step) at e)) (
      len,
      moves-IsValid n len q k q.empty q.senders q.posters (q.getters + 1) q.leavers q.mutex_producer
          q.mutex_consumer v (omega arith) (omega arith),
    )
  ]
  step-Valid n q wait_consumer (len, v) e = elim (count-cases q.getters) [
    | inl none_left ↦ absurd (none≢some (rw (none_left, step) at e))
    | inr (k, some_left) ↦ elim (Turn-cases q.mutex_consumer) [
      | inr (inl taken) ↦ absurd (none≢some (rw (some_left, taken, step) at e))
      | inr (inr taken) ↦ absurd (none≢some (rw (some_left, taken, step) at e))
      | inl free ↦ subst (Valid n) (some→≡ (rw (some_left, free, step) at e)) (
        len,
        moves-IsValid n len q q.full q.empty q.senders q.posters k q.leavers q.mutex_producer
            entered v (omega (arith, ap before free, ap behind free))
            (omega (arith, ap before free, ap behind free)),
      )
    ]
  ]
  step-Valid n q take (zero, v) e = elim (Turn-cases q.mutex_consumer) [
    | inl free ↦ absurd (none≢some (rw (free, step) at e))
    | inr (inr done) ↦ absurd (none≢some (rw (done, step) at e))
    | inr (inl inside) ↦ absurd (omega (arith, ap before inside, v.packets))
  ]
  step-Valid n q take (suc len, v) e = elim (Turn-cases q.mutex_consumer) [
    | inl free ↦ absurd (none≢some (rw (free, step) at e))
    | inr (inr done) ↦ absurd (none≢some (rw (done, step) at e))
    | inr (inl inside) ↦
        subst (Valid n) (some→≡ (rw (inside, step) at e)) (len, take-IsValid n len q v inside)
  ]
  step-Valid n q post_consumer (len, v) e = elim (Turn-cases q.mutex_consumer) [
    | inl free ↦ absurd (none≢some (rw (free, step) at e))
    | inr (inl busy) ↦ absurd (none≢some (rw (busy, step) at e))
    | inr (inr done) ↦ subst (Valid n) (some→≡ (rw (done, step) at e)) (
      len,
      moves-IsValid n len q q.full q.empty q.senders q.posters q.getters (q.leavers + 1)
          q.mutex_producer nobody v (omega (arith, ap before done, ap behind done))
          (omega (arith, ap before done, ap behind done)),
    )
  ]
  step-Valid n q post_empty (len, v) e = elim (count-cases q.leavers) [
    | inl none_left ↦ absurd (none≢some (rw (none_left, step) at e))
    | inr (k, some_left) ↦ subst (Valid n) (some→≡ (rw (some_left, step) at e)) (
      len,
      moves-IsValid n len q q.full (q.empty + 1) q.senders q.posters q.getters k q.mutex_producer
          q.mutex_consumer v (omega arith) (omega arith),
    )
  ]

  steps-Valid :
      (n : ℕ) (q : RQueue P) (list : List (Step P)) {r : RQueue P}
      → Valid n q
      → steps q list ≡ some r
      → Valid n r
  unfolding steps
  steps-Valid n q [] v e = subst (Valid n) (some→≡ e) v
  steps-Valid n q (a ∷ rest) v e = elim (Option-cases (step q a)) [
    | inl stuck ↦ absurd (none≢some (rw (stuck, steps) at e))
    | inr (r, moved) ↦ steps-Valid n r rest (step-Valid n q a v moved) (rw (moved, steps) at e)
  ]

  -- What is known of a queue of `n` slots: at most `n` packets lie in it, they are what was sent and
  -- not yet taken, in order, and the semaphores do not promise more.
  pub record InOrder (n : ℕ) (q : RQueue P) : Type 0 where
    pub len : ℕ
    pub room : len ≤ n
    pub order : q.sent ≡ q.got ++ window q.shared_buffer n q.rd_idx len
    pub available : q.full ≤ len
    pub free : q.empty + len ≤ n

  -- However the steps of any clients and server threads are interleaved on a new queue with at least
  -- one slot: the packets sent are the packets taken followed by those in the buffer, in the same
  -- order, none is lost, doubled or overwritten, no more than the number of slots lie in the buffer,
  -- and neither semaphore lets anybody past beyond what is there.
  pub steps-InOrder :
      (n : ℕ) (buffer : ℕ → P) (list : List (Step P)) {q : RQueue P}
      → 0 < n
      → steps (create_rqueue n buffer) list ≡ some q
      → InOrder n q
  steps-InOrder n buffer list {q} h e =
      let (len, v) =
        steps-Valid n (create_rqueue n buffer) list (0, create_rqueue-IsValid n buffer h) e in
      let slots = v.slots in
      let packets = v.packets in
      record {
        len = len;
        room = omega arith;
        order = v.order;
        available = omega arith;
        free = omega arith;
      }

  -- Nobody is between two semaphores.
  abbrev pub Quiet : RQueue P → Type 0
  Quiet q =
      (q.senders ≡ 0)
      × (q.posters ≡ 0)
      × (q.getters ≡ 0)
      × (q.leavers ≡ 0)
      × (q.mutex_producer ≡ nobody)
      × (q.mutex_consumer ≡ nobody)

  -- Whenever nobody is inside after such steps, `full` is the number of packets in the buffer and
  -- `empty` the number of slots left: no packet stays unseen and no slot is lost.
  pub steps-Quiet :
      (n : ℕ) (buffer : ℕ → P) (list : List (Step P)) {q : RQueue P}
      → 0 < n
      → steps (create_rqueue n buffer) list ≡ some q
      → Quiet q
      → (q.sent ≡ q.got ++ window q.shared_buffer n q.rd_idx q.full) × (q.full + q.empty ≡ n)
  steps-Quiet n buffer list {q} h e (a, b, c, d, mp, mc) =
      let (len, v) =
        steps-Valid n (create_rqueue n buffer) list (0, create_rqueue-IsValid n buffer h) e in
      let all : len ≡ q.full = omega (arith, v.packets, ap before mc, ap behind mp) in
      (
        v.order ∙ ap (λ k. q.got ++ window q.shared_buffer n q.rd_idx k) all,
        omega (arith, v.slots, v.packets, ap before mp, ap behind mc, ap before mc, ap behind mp),
      )
