-- ===== src/Host/Client/Tests.antt =====
-- The client's counters on short runs.
use issd.Base.{◌≡◌, refl, true, false, not, [], ◌∷◌, ◌==◌, arith, List}
use issd.Host.Client.{issd_compute_init, swap, fetch, seq_steps}
use issd.Host.Client.Sequence.{seq_steps-overrun}
use issd.Host.Client.Attach.{
  Call, init, destroy, calls, unattached, inits, calls-attached, inits-after_failed,
}

seq_steps-overrun_example :
    seq_steps (swap ∷ swap ∷ fetch ∷ fetch ∷ swap ∷ fetch ∷ []) 16777214 ≡ 16777217
seq_steps-overrun_example = seq_steps-overrun (swap ∷ fetch ∷ []) (omega arith)

abbrev twice : List Call
twice = init true ∷ init true ∷ destroy ∷ []

calls-attached_example :
    (calls twice unattached).attached ≡ not ((calls twice unattached).issd_init_inv == 0)
calls-attached_example =
    calls-attached twice (refl, omega arith, (refl, omega arith, (omega arith, tt)))

inits-after_failed_example :
    ((issd_compute_init false unattached).0 ≡ false)
    × ((issd_compute_init true (inits 2 (issd_compute_init false unattached).1)).0 ≡ true)
    × ((issd_compute_init true (inits 2 (issd_compute_init false unattached).1)).1.attached ≡ false)
inits-after_failed_example = inits-after_failed 2 (omega arith)
