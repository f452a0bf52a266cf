-- ===== src/Host/Routines/Fifo.antt =====
-- reqPRoutine.c: each thread takes the requests of its queue in the order of arrival; and where
-- the dispatcher leaves `pRoutines`.
use issd.Base.{
  ℕ, zero, suc, ◌<◌, ◌≡◌, refl, sym, ap, ◌∙◌, ◌↔◌, Bool, true, false, none, some, List, [], ◌∷◌,
  ◌++◌, append_assoc, append-nil, arith, inl, inr, Option-cases,
}
use issd.Base.Lists.{length, get_elem?}
use issd.Host.DevMap.{refresh, real_dev, get_process_routine_idx}
use issd.Host.DevMap.Slots.{slot, free_slot}
use issd.Host.DevMap.Affinity.{get_process_routine_idx-lt, get_process_routine_idx-none}
use issd.Host.Routines.{
  Packet, Routine, Server, append_work, add_req_work2routine, dispatch_req_packet, thread_take,
  thread_finish, destroy_process_routine,
}

-- What can happen to one routine.
pub data Turn : Type 0 where
  arrive : Bool → Packet → Turn
  round : Turn
  complete : Turn
  halt : Turn

-- One turn; a turn that is not possible changes nothing.
pub turn : Routine → Turn → Routine
turn r (arrive m p) = (add_req_work2routine m p r).1
turn r round = elim (thread_take r) [ none ↦ r | some t ↦ t ]
turn r complete = elim (thread_finish r) [ none ↦ r | some (p, t) ↦ t ]
turn r halt = destroy_process_routine r

-- The request that the turn hands to `pR->routine`, and the one that it queues.
abbrev pub started : Routine → Turn → List Packet
started r round = elim (thread_take r) [
  | none ↦ []
  | some t ↦ elim t.running [ none ↦ [] | some p ↦ p ∷ [] ]
]
started r other = []

abbrev pub queued : Turn → List Packet
queued (arrive true p) = p ∷ []
queued other = []

pub turns : Routine → List Turn → Routine
unfolding turn
turns r [] = r
turns r (t ∷ ts) = turns (turn r t) ts

abbrev pub all_started : Routine → List Turn → List Packet
all_started r [] = []
all_started r (t ∷ ts) = started r t ++ all_started (turn r t) ts

abbrev pub all_queued : List Turn → List Packet
all_queued [] = []
all_queued (t ∷ ts) = queued t ++ all_queued ts

append_work-append : (ms : List Packet) (p : Packet) → append_work ms p ≡ ms ++ p ∷ []
unfolding append_work
append_work-append [] p = refl
append_work-append (m ∷ ms) p = ap (◌∷◌ m) (append_work-append ms p)

turn-order :
    (r : Routine) (t : Turn) → started r t ++ (turn r t).req_queue ≡ r.req_queue ++ queued t
unfolding turn add_req_work2routine thread_take thread_finish destroy_process_routine
turn-order r (arrive true p) = append_work-append r.req_queue p
turn-order r (arrive false p) = sym (append-nil r.req_queue)
turn-order r round = ground (arith, append-nil r.req_queue)
turn-order r complete = ground (arith, append-nil r.req_queue)
turn-order r halt = ground (arith, append-nil r.req_queue)

-- Whatever happens to a thread, the requests that it has started, in order, followed by its queue,
-- are its first queue followed by the requests queued since, in the order of their arrival.
pub turns-order :
    (r : Routine) (ts : List Turn)
    → all_started r ts ++ (turns r ts).req_queue ≡ r.req_queue ++ all_queued ts
unfolding turns
turns-order r [] = sym (append-nil r.req_queue)
turns-order r (t ∷ ts) =
    append_assoc (started r t) _ _
    ∙ ap (◌++◌ (started r t)) (turns-order (turn r t) ts)
    ∙ sym (append_assoc (started r t) _ _)
    ∙ ap (λ q. q ++ all_queued ts) (turn-order r t)
    ∙ append_assoc r.req_queue _ _

get_elem?-lt {ℓ} :
    {A : Type ℓ} (xs : List A) (i : ℕ) → i < length xs → (a : A) × (get_elem? xs i ≡ some a)
get_elem?-lt [] i h = elim h [ ]
get_elem?-lt (x ∷ xs) zero h = (x, refl)
get_elem?-lt (x ∷ xs) (suc i) h = get_elem?-lt xs i (omega arith)

-- With one routine for each thread number, `dispatchReqPacket` indexes `pRoutines` outside its
-- bounds exactly where `malloc` has given the memory for the request and the device table refuses the
-- device: its name has no used entry, and, after the refresh that may be due, no entry is free.
pub dispatch-none :
    (m : Bool) (p : Packet) (s : Server)
    → 0 < s.map.num_process_routine
    → length s.routines ≡ s.map.num_process_routine
    → (dispatch_req_packet m p s ≡ none) ↔ (
        (m ≡ true)
        × (slot (real_dev p.devname) (refresh s.map).dev2thd ≡ none)
        × (free_slot (refresh s.map).dev2thd ≡ none))
unfolding dispatch_req_packet
dispatch-none m p s pos len =
    elim (Option-cases (get_process_routine_idx s.map (some p.devname)).0) [
      | inl refused ↦ (
        λ h.
            let (no_slot, no_free) = (get_process_routine_idx-none s.map p.devname).0 refused in
            (ground arith, no_slot, no_free),
        λ h. ground arith,
      )
      | inr (i, given) ↦
          let (r, at) =
            get_elem?-lt s.routines i
              (rw len (get_process_routine_idx-lt s.map p.devname pos given)) in
          (
            λ h. absurd (ground arith),
            λ (ok, no_slot, no_free).
                let refused = (get_process_routine_idx-none s.map p.devname).1 (no_slot, no_free) in
                absurd (ground arith),
          )
    ]
