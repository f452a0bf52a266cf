-- ===== src/Firmware/Backup/Targets.antt =====
-- issd.c (do_issd_backup): the sectors that the extents of a file may name.
use issd.Base.{ℕ, zero, suc, ◌+◌, ◌≤◌, ◌<◌, List, [], ◌∷◌, ◌++◌, arith}
use issd.Base.Lists.{run_of}
use issd.Base.Sectors.{drop, Distinct, Distinct-append, Distinct-drop}
use issd.Firmware.Layout.{num_lsectors}

-- The sectors lie on the device.
abbrev pub OnDevice : List ℕ → Type 0
OnDevice [] = Unit
OnDevice (q ∷ qs) = (q < num_lsectors) × OnDevice qs

OnDevice-append : (qs rs : List ℕ) → OnDevice (qs ++ rs) → OnDevice qs × OnDevice rs
OnDevice-append [] rs on = (tt, on)
OnDevice-append (q ∷ qs) rs (lt, on) =
    let (left, right) = OnDevice-append qs rs on in ((lt, left), right)

OnDevice-drop : (n : ℕ) (qs : List ℕ) → OnDevice qs → OnDevice (drop n qs)
OnDevice-drop zero qs on = on
OnDevice-drop (suc n) [] on = tt
OnDevice-drop (suc n) (q ∷ qs) (lt, on) = OnDevice-drop n qs on

OnDevice-run : (n q : ℕ) → OnDevice (run_of q n) → 0 < n → q + n ≤ num_lsectors
OnDevice-run zero q on pos = absurd (omega arith)
OnDevice-run (suc zero) q (lt, on) pos = omega arith
OnDevice-run (suc (suc n)) q (lt, on) pos =
    omega (arith, OnDevice-run (suc n) (q + 1) on (omega arith))

-- What a copy may write: no sector twice, and none behind the end of the device.
pub record Targets (qs : List ℕ) : Type 0 where
  pub distinct : Distinct qs
  pub inside : OnDevice qs

pub Targets-append : (qs rs : List ℕ) → Targets (qs ++ rs) → Targets rs
Targets-append qs rs t = record {
  distinct = (Distinct-append qs rs t.distinct).0;
  inside = (OnDevice-append qs rs t.inside).1;
}

pub Targets-drop : (n : ℕ) (qs : List ℕ) → Targets qs → Targets (drop n qs)
Targets-drop n qs t = record {
  distinct = (Distinct-drop n qs t.distinct).0;
  inside = OnDevice-drop n qs t.inside;
}

-- A run at the front ends on the device.
pub Targets-run :
    (n q : ℕ) (rs : List ℕ) → Targets (run_of q n ++ rs) → 0 < n → q + n ≤ num_lsectors
Targets-run n q rs t pos = OnDevice-run n q (OnDevice-append (run_of q n) rs t.inside).0 pos
