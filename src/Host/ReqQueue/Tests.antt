-- ===== src/Host/ReqQueue/Tests.antt =====
-- Two clients and a server thread on a queue of two slots.
use issd.Base.{ℕ, ◌+◌, ◌≡◌, refl, ◌++◌, Option, none, some, List, [], ◌∷◌, arith}
use issd.Host.ReqQueue.{
  RQueue, create_rqueue, Step, wait_empty, wait_producer, put, post_producer, post_full, steps,
  send_req_packet, get_next_req_packet,
}
use issd.Host.ReqQueue.Window.{window}
use issd.Host.ReqQueue.Order.{InOrder, Quiet, steps-InOrder, steps-Quiet}

abbrev new : RQueue ℕ
new = create_rqueue 2 (λ i. 0)

-- A packet goes through, then two clients pass `empty` before either writes.
abbrev busy : List (Step ℕ)
busy =
    send_req_packet 7
    ++ get_next_req_packet
    ++ (wait_empty
        ∷ wait_empty
        ∷ wait_producer
        ∷ put 8
        ∷ post_producer
        ∷ wait_producer
        ∷ put 9
        ∷ [])

abbrev or_new : Option (RQueue ℕ) → RQueue ℕ
or_new none = new
or_new (some q) = q

-- The two clients leave.
abbrev calm : List (Step ℕ)
calm = busy ++ (post_producer ∷ post_full ∷ post_full ∷ [])

busy_runs : steps new busy ≡ some (or_new (steps new busy))
unfolding steps
busy_runs = refl

calm_runs : steps new calm ≡ some (or_new (steps new calm))
unfolding steps
calm_runs = refl

calm_sent : (or_new (steps new calm)).sent ≡ 7 ∷ 8 ∷ 9 ∷ []
unfolding steps
calm_sent = refl

calm-Quiet : Quiet (or_new (steps new calm))
unfolding steps
calm-Quiet = (refl, refl, refl, refl, refl, refl)

steps-InOrder_example : InOrder 2 (or_new (steps new busy))
steps-InOrder_example = steps-InOrder 2 (λ i. 0) busy (omega arith) busy_runs

steps-Quiet_example :
    ((or_new (steps new calm)).sent
      ≡ (or_new (steps new calm)).got
        ++ window
            (or_new (steps new calm)).shared_buffer
            2
            (or_new (steps new calm)).rd_idx
            (or_new (steps new calm)).full)
    × ((or_new (steps new calm)).full + (or_new (steps new calm)).empty ≡ 2)
steps-Quiet_example = steps-Quiet 2 (λ i. 0) calm (omega arith) calm_runs calm-Quiet
