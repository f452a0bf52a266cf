-- ===== src/Host/Routines/Conserve.antt =====
-- reqPRoutine.c: no request is lost, answered twice or made up.
use mathlib.Core.List.{Perm, perm_middle, perm_append_comm}
use mathlib.Core.List.Perm
use issd.Base.{
  ℕ, zero, suc, ◌≡◌, Bool, true, false, Option, none, some, List, [], ◌∷◌, ◌++◌, append_assoc,
  arith, inl, inr, Option-cases,
}
use issd.Base.Lists.{get_elem?, set}
use issd.Host.DevMap.{get_process_routine_idx}
use issd.Host.Routines.{
  Packet, Routine, Server, Action, dispatch, timer, take, finish, stop, append_work,
  add_req_work2routine, issd_feedback, dispatch_req_packet, thread_take, thread_finish,
  destroy_process_routine, act, acts,
}

-- The requests that a thread still has to answer.
abbrev pub held : Routine → List Packet
held r = elim r.running [ none ↦ r.req_queue | some p ↦ p ∷ r.req_queue ]

abbrev pub pending : List Routine → List Packet
pending [] = []
pending (r ∷ rs) = held r ++ pending rs

abbrev answered : List (Packet × Bool) → List Packet
answered [] = []
answered ((p, ok) ∷ rest) = p ∷ answered rest

-- Every request that the server has on its hands: answered or pending.
abbrev pub known : Server → List Packet
known s = answered s.answers ++ pending s.routines

-- The requests that a sequence of actions brings in.
abbrev pub dispatched : List Action → List Packet
dispatched [] = []
dispatched (dispatch m p ∷ rest) = p ∷ dispatched rest
dispatched (timer ∷ rest) = dispatched rest
dispatched (take i ∷ rest) = dispatched rest
dispatched (finish i ok ∷ rest) = dispatched rest
dispatched (stop i ∷ rest) = dispatched rest

none≢some : {s : Server} → none ≡ some s → ⊥
none≢some h = cc

append_work-perm : (ms : List Packet) (p : Packet) → Perm (append_work ms p) (p ∷ ms)
unfolding append_work
append_work-perm [] p = Perm.refl (p ∷ [])
append_work-perm (m ∷ ms) p = Perm.trans (Perm.cons m (append_work-perm ms p)) (Perm.swap p m ms)

perm_front {ℓ} : {A : Type ℓ} (a b c : List A) → Perm (a ++ (b ++ c)) (b ++ (a ++ c))
perm_front a b c =
    rw (← append_assoc a b c, ← append_assoc b a c) (Perm.append_right c (perm_append_comm a b))

-- Replacing one routine by one that holds `extra` more.
pending-set :
    (extra : List Packet) (rs : List Routine) (i : ℕ) (r r' : Routine)
    → get_elem? rs i ≡ some r
    → Perm (held r') (extra ++ held r)
    → Perm (pending (set rs i r')) (extra ++ pending rs)
pending-set extra [] i r r' e p = absurd (ground arith)
pending-set extra (q ∷ rs) zero r r' e p =
    let e' : q ≡ r = ground arith in
    rw (e', ← append_assoc extra (held r) (pending rs)) (Perm.append_right (pending rs) p)
pending-set extra (q ∷ rs) (suc i) r r' e p =
    Perm.trans (Perm.append_left (held q) (pending-set extra rs i r r' e p))
      (perm_front (held q) extra (pending rs))

-- Replacing one routine by one that holds `extra` less.
pending-drop :
    (extra : List Packet) (rs : List Routine) (i : ℕ) (r r' : Routine)
    → get_elem? rs i ≡ some r
    → Perm (extra ++ held r') (held r)
    → Perm (extra ++ pending (set rs i r')) (pending rs)
pending-drop extra [] i r r' e p = absurd (ground arith)
pending-drop extra (q ∷ rs) zero r r' e p =
    let e' : q ≡ r = ground arith in
    rw (e', ← append_assoc extra (held r') (pending rs)) (Perm.append_right (pending rs) p)
pending-drop extra (q ∷ rs) (suc i) r r' e p =
    Perm.trans (perm_front extra (held q) (pending (set rs i r')))
      (Perm.append_left (held q) (pending-drop extra rs i r r' e p))

held-append :
    (r : Routine) (p : Packet)
    → Perm (held (record r { req_queue = append_work r.req_queue p })) (p ∷ held r)
held-append r p = go r.running
  where
    open r use {req_queue}

    go :
        (w : Option Packet)
        → Perm
            (elim w [ none ↦ append_work req_queue p | some q ↦ q ∷ append_work req_queue p ])
            (p ∷ elim w [ none ↦ req_queue | some q ↦ q ∷ req_queue ])
    go none = append_work-perm req_queue p
    go (some q) = Perm.trans (Perm.cons q (append_work-perm req_queue p)) (Perm.swap p q req_queue)

thread_take-held : (r : Routine) {t : Routine} → thread_take r ≡ some t → held t ≡ held r
unfolding thread_take
thread_take-held r e = ground arith

thread_finish-held :
    (r : Routine) {p : Packet} {t : Routine} → thread_finish r ≡ some (p, t) → held r ≡ p ∷ held t
unfolding thread_finish
thread_finish-held r e = ground arith

destroy_process_routine-held : (r : Routine) → held (destroy_process_routine r) ≡ held r
unfolding destroy_process_routine
destroy_process_routine-held r = ground arith

-- The routine that an action replaces.
abbrev with_routine : Server → ℕ → Routine → Server
with_routine s i r = record s { routines = set s.routines i r }

act-take :
    (s : Server) (i : ℕ) {t : Server}
    → act s (take i) ≡ some t
    → (r : Routine) × (r' : Routine) × (get_elem? s.routines i ≡ some r)
      × (thread_take r ≡ some r')
      × (t ≡ with_routine s i r')
unfolding act
act-take s i e = ground arith

act-finish :
    (s : Server) (i : ℕ) (ok : Bool) {t : Server}
    → act s (finish i ok) ≡ some t
    → (r : Routine) × (p : Packet) × (r' : Routine) × (get_elem? s.routines i ≡ some r)
      × (thread_finish r ≡ some (p, r'))
      × (t ≡ record (with_routine s i r') { answers = (p, ok) ∷ s.answers })
unfolding act issd_feedback
act-finish s i ok e = ground arith

act-stop :
    (s : Server) (i : ℕ) {t : Server}
    → act s (stop i) ≡ some t
    → (r : Routine) × (get_elem? s.routines i ≡ some r)
      × (t ≡ with_routine s i (destroy_process_routine r))
unfolding act
act-stop s i e = ground arith

act-dispatch :
    (s : Server) (p : Packet) {t : Server}
    → act s (dispatch true p) ≡ some t
    → (i : ℕ) × (r : Routine) × (get_elem? s.routines i ≡ some r)
      × (t.routines ≡ set s.routines i (add_req_work2routine true p r).1)
      × (t.answers ≡ s.answers)
unfolding act dispatch_req_packet add_req_work2routine issd_feedback
act-dispatch s p {t} e = elim (Option-cases (get_process_routine_idx s.map (some p.devname)).0) [
  | inl refused ↦ absurd (ground arith)
  | inr (i, given) ↦ elim (Option-cases (get_elem? s.routines i)) [
    | inl outside ↦ absurd (ground arith)
    | inr (r, at) ↦ (i, r, at, ground arith, ground arith)
  ]
]

-- Without memory for the request, it is answered, and no thread holds more or less.
act-dispatch_failed :
    (s : Server) (p : Packet) {t : Server}
    → act s (dispatch false p) ≡ some t
    → Perm (pending t.routines) (pending s.routines) × (t.answers ≡ (p, false) ∷ s.answers)
unfolding act dispatch_req_packet add_req_work2routine issd_feedback
act-dispatch_failed s p {t} e =
    elim (Option-cases (get_process_routine_idx s.map (some p.devname)).0) [
      | inl refused ↦
          let same : t.routines ≡ s.routines = ground arith in
          (rw same (Perm.refl (pending s.routines)), ground arith)
      | inr (i, given) ↦ elim (Option-cases (get_elem? s.routines i)) [
        | inl outside ↦
            let same : t.routines ≡ s.routines = ground arith in
            (rw same (Perm.refl (pending s.routines)), ground arith)
        | inr (r, at) ↦
            let back : t.routines ≡ set s.routines i r = ground arith in
            (rw back (pending-set [] s.routines i r r at (Perm.refl (held r))), ground arith)
      ]
    ]

-- What an action brings in joins what the server knows.
act-known :
    (s : Server) (a : Action) {t : Server}
    → act s a ≡ some t
    → Perm (known t) (dispatched (a ∷ []) ++ known s)
unfolding act add_req_work2routine
act-known s (dispatch true p) {t} e =
    let (i, r, at, routines, answers) = act-dispatch s p e in
    let p' = pending-set (p ∷ []) s.routines i r _ at (held-append r p) in
    rw (routines, answers)
      (Perm.trans (Perm.append_left (answered s.answers) p')
        (perm_middle (answered s.answers) (pending s.routines)))
act-known s (dispatch false p) {t} e =
    let (p', answers) = act-dispatch_failed s p e in
    rw answers (Perm.cons p (Perm.append_left (answered s.answers) p'))
act-known s timer {t} e =
    let same : known t ≡ known s = ground arith in rw same (Perm.refl (known s))
act-known s (take i) {t} e =
    let (r, r', at, taken, next) = act-take s i e in
    let p' =
      pending-set [] s.routines i r r' at (rw (thread_take-held r taken) (Perm.refl (held r))) in
    rw next (Perm.append_left (answered s.answers) p')
act-known s (finish i ok) {t} e =
    let (r, p, r', at, done, next) = act-finish s i ok e in
    let p' =
      pending-drop (p ∷ []) s.routines i r r' at
        (rw (thread_finish-held r done) (Perm.refl (p ∷ held r'))) in
    rw next (
      Perm.trans (Perm.symm (perm_middle (answered s.answers) (pending (set s.routines i r'))))
        (Perm.append_left (answered s.answers) p'))
act-known s (stop i) {t} e =
    let (r, at, next) = act-stop s i e in
    let p' =
      pending-set [] s.routines i r _ at
        (rw (destroy_process_routine-held r) (Perm.refl (held r))) in
    rw next (Perm.append_left (answered s.answers) p')

-- After any possible sequence of actions, the requests answered by `issd_feedback` together with
-- those queued or in work are, counted with repetitions, the ones that were there before and those
-- dispatched since: no request is lost, answered twice or made up.
pub acts-known :
    (s : Server) (todo : List Action) {t : Server}
    → acts s todo ≡ some t
    → Perm (known t) (dispatched todo ++ known s)
unfolding acts
acts-known s [] {t} e = rw (let same : t ≡ s = ground arith in same) (Perm.refl (known s))
acts-known s (a ∷ rest) {t} e = elim (Option-cases (act s a)) [
  | inl stuck ↦ absurd (none≢some (rw (stuck, acts) at e))
  | inr (u, now) ↦
      Perm.trans (acts-known u rest (rw (now, acts) at e))
        (Perm.trans (Perm.append_left (dispatched rest) (act-known s a now)) (front a))
]
  where
    front :
        (a : Action)
        → Perm
            (dispatched rest ++ (dispatched (a ∷ []) ++ known s))
            (dispatched (a ∷ rest) ++ known s)
    front (dispatch m p) = perm_middle (dispatched rest) (known s)
    front timer = Perm.refl (dispatched rest ++ known s)
    front (take i) = Perm.refl (dispatched rest ++ known s)
    front (finish i ok) = Perm.refl (dispatched rest ++ known s)
    front (stop i) = Perm.refl (dispatched rest ++ known s)
