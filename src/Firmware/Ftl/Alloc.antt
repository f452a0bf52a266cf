-- ===== src/Firmware/Ftl/Alloc.antt =====
-- ftl.c (get_free_page): the page handed out is new, in the bank and in a good block.
use issd.Base.{
  ℕ, zero, suc, ◌+◌, ◌-◌, ◌*◌, ◌/◌, ◌%◌, ◌≤◌, ◌<◌, ◌≡◌, false, Option, none, some, update, leb,
  ◌==◌, if◌then◌else◌, arith, Bool-cases, inl, inr, ◌⊎◌,
}
use issd.Firmware.Layout.{pages_per_vblk, vblks_per_bank, pages_per_bank}
use issd.Firmware.ScanList.{ScanList, is_bad_block}
use issd.Firmware.Ftl.{Ftl, skip_bad, get_free_page}

pub skip_bad-range :
    (list : ScanList) (n v : ℕ) → (v ≤ skip_bad list n v) × (skip_bad list n v ≤ v + n)
unfolding skip_bad
skip_bad-range list zero v = omega arith
skip_bad-range list (suc n) v = ground (arith, skip_bad-range list n (v + 1))

skip_bad-good :
    (list : ScanList) (n v : ℕ)
    → skip_bad list n v < v + n
    → is_bad_block list (skip_bad list n v) ≡ false
unfolding skip_bad
skip_bad-good list zero v h = absurd (omega arith)
skip_bad-good list (suc n) v h = elim (Bool-cases (is_bad_block list v)) [
  | inl bad ↦ rw (bad, skip_bad) (skip_bad-good list n (v + 1) (ground arith))
  | inr good ↦ rw (good, skip_bad) good
]

-- What is known of the bank's next row: behind block 0, and in the middle of a block only if the
-- block is good.
abbrev pub RowReady : ScanList → ℕ → Type 0
RowReady list row =
    (pages_per_vblk ≤ row)
    × ((row % pages_per_vblk ≡ 0) ⊎ (is_bad_block list (row / pages_per_vblk) ≡ false))

-- The page that `get_free_page` hands out.
pub record Fresh {N : Type 0} (s : Ftl N) (bank row : ℕ) (t : Ftl N) : Type 0 where
  pub state : t ≡ record s { target_row = update s.target_row bank (row + 1) }
  pub behind : s.target_row bank ≤ row
  pub inside : row < pages_per_bank
  pub good : is_bad_block (s.scan_list bank) (row / pages_per_vblk) ≡ false

-- The computation, for the block that it settles on.
taken_from : {N : Type 0} → Ftl N → ℕ → ℕ → Option (ℕ × Ftl N)
taken_from s bank v =
    let new_row = v * pages_per_vblk + s.target_row bank % pages_per_vblk in
    if leb vblks_per_bank v
    then none
    else some (new_row, record s { target_row = update s.target_row bank (new_row + 1) })

taken_from-Fresh :
    {N : Type 0} (s : Ftl N) (bank v row : ℕ) {t : Ftl N}
    → s.target_row bank / pages_per_vblk ≤ v
    → (v < vblks_per_bank → is_bad_block (s.scan_list bank) v ≡ false)
    → taken_from s bank v ≡ some (row, t)
    → Fresh s bank row t
unfolding taken_from
taken_from-Fresh s bank v row le good e =
    let at : row ≡ v * pages_per_vblk + s.target_row bank % pages_per_vblk = ground arith in
    let below : v < vblks_per_bank = ground arith in
    let block : row / pages_per_vblk ≡ v = omega arith in
    record {
      state = ground arith;
      behind = omega arith;
      inside = omega arith;
      good = rw block (good below);
    }

-- When the bank's next row is behind block 0 and, in the middle of a block, in a good one, the page
-- that `get_free_page` returns is not before that row, lies in the bank and in a block that
-- `is_bad_block` accepts, and nothing changes but the next row, which is the one behind the page.
pub get_free_page-Fresh :
    {N : Type 0} (s : Ftl N) (bank row : ℕ) {t : Ftl N}
    → RowReady (s.scan_list bank) (s.target_row bank)
    → get_free_page s bank ≡ some (row, t)
    → Fresh s bank row t
unfolding get_free_page taken_from
get_free_page-Fresh s bank row ready e =
    elim (Bool-cases (s.target_row bank % pages_per_vblk == 0)) [
      | inl at_start ↦
          let list = s.scan_list bank in
          let start = s.target_row bank / pages_per_vblk in
          let n = vblks_per_bank - start in
          taken_from-Fresh s bank (skip_bad list n start) row (skip_bad-range list n start).0
            (λ h. skip_bad-good list n start (omega arith)) (rw (at_start, get_free_page) at e)
      | inr inside ↦
          taken_from-Fresh s bank (s.target_row bank / pages_per_vblk) row (omega arith)
            (λ h. ground arith) (rw (inside, get_free_page) at e)
    ]
