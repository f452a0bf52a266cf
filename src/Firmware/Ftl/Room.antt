-- ===== src/Firmware/Ftl/Room.antt =====
-- ftl.c (get_free_page): how many pages a bank can still hand out.
use issd.Base.{
  ℕ, zero, suc, ◌+◌, ◌-◌, ◌*◌, ◌/◌, ◌%◌, ◌≤◌, ◌<◌, ◌≡◌, refl, true, false, Option, some, update,
  leb, ◌==◌, if◌then◌else◌, arith, Bool-cases, inl, inr, ==→≡, ap, ◌∙◌,
}
use issd.Firmware.Layout.{pages_per_vblk, vblks_per_bank}
use issd.Firmware.ScanList.{ScanList, is_bad_block}
use issd.Firmware.ScanList.Lookup.{is_bad_block-none}
use issd.Firmware.Ftl.{Ftl, skip_bad, get_free_page}
use issd.Firmware.Ftl.Alloc.{RowReady, Fresh, get_free_page-Fresh}

-- The good blocks among the `n` from `v` on.
unfoldable pub good_blocks : ScanList → ℕ → ℕ → ℕ
good_blocks list zero v = 0
good_blocks list (suc n) v = (if is_bad_block list v then 0 else 1) + good_blocks list n (v + 1)

-- The good blocks from `v` to the end of the bank.
abbrev pub good_from : ScanList → ℕ → ℕ
good_from list v = good_blocks list (vblks_per_bank - v) v

-- The pages from a bank's next row on: the rest of its block, and the good blocks behind it.
pub capacity : ScanList → ℕ → ℕ
capacity list row =
    let v = row / pages_per_vblk in
    let offset = row % pages_per_vblk in
    if offset == 0
    then good_from list v * pages_per_vblk
    else if leb vblks_per_bank v
    then 0
    else pages_per_vblk - offset + good_from list (v + 1) * pages_per_vblk

none_first : (n : ℕ) → 0 + n ≡ n
none_first n = omega arith

skip_bad-good_blocks :
    (list : ScanList) (n v : ℕ)
    → 0 < good_blocks list n v
    → (skip_bad list n v < v + n)
      × (good_blocks list n v
          ≡ good_blocks list (v + n - (skip_bad list n v + 1)) (skip_bad list n v + 1) + 1)
unfolding skip_bad good_blocks
skip_bad-good_blocks list zero v h = absurd (omega arith)
skip_bad-good_blocks list (suc n) v h = elim (Bool-cases (is_bad_block list v)) [
  | inr good ↦
      let rest : v + suc n - (v + 1) ≡ n = omega arith in
      rw (good, skip_bad, good_blocks)
        (
          let lt : v < v + suc n = omega arith in lt,
          omega (arith, ap (λ k. good_blocks list k (v + 1)) rest),
        )
  | inl bad ↦
      let h' : 0 < good_blocks list n (v + 1) =
        rw (bad, none_first (good_blocks list n (v + 1))) at h in
      let (lt, e) = skip_bad-good_blocks list n (v + 1) h' in
      let s = skip_bad list n (v + 1) in
      let len : v + 1 + n - (s + 1) ≡ v + suc n - (s + 1) = omega arith in
      rw (bad, skip_bad, good_blocks)
        (
          let lt' : s < v + suc n = omega arith in lt',
          omega (arith, e, ap (λ k. good_blocks list k (s + 1)) len),
        )
]

no_blocks : (list : ScanList) (v n : ℕ) → n ≡ 0 → 0 < good_blocks list n v → ⊥
unfolding good_blocks
no_blocks list v zero e h = omega arith
no_blocks list v (suc n) e h = omega arith

skip_bad-good_from :
    (list : ScanList) (v : ℕ)
    → 0 < good_from list v
    → let w = skip_bad list (vblks_per_bank - v) v in
      (w < vblks_per_bank) × (good_from list v ≡ good_from list (w + 1) + 1)
skip_bad-good_from list v h =
    let w = skip_bad list (vblks_per_bank - v) v in
    let inside : v ≤ vblks_per_bank = elim (Bool-cases (leb v vblks_per_bank)) [
      | inl le ↦ ground arith
      | inr gt ↦
          let none_left : vblks_per_bank - v ≡ 0 = ground arith in
          absurd (no_blocks list v (vblks_per_bank - v) none_left h)
    ] in
    let (lt, e) = skip_bad-good_blocks list (vblks_per_bank - v) v h in
    let len : v + (vblks_per_bank - v) - (w + 1) ≡ vblks_per_bank - (w + 1) = omega arith in
    (omega arith, e ∙ ap (λ k. good_blocks list k (w + 1) + 1) len)

-- What a page taken in the middle of a block, or at the start of one, leaves.
capacity-next :
    (list : ScanList) (v offset : ℕ)
    → v < vblks_per_bank
    → offset < pages_per_vblk
    → capacity list (v * pages_per_vblk + offset + 1)
      ≡ pages_per_vblk - (offset + 1) + good_from list (v + 1) * pages_per_vblk
unfolding capacity
capacity-next list v offset h o = elim (Bool-cases (offset + 1 == pages_per_vblk)) [
  | inl full ↦
      let v' : (v * pages_per_vblk + offset + 1) / pages_per_vblk ≡ v + 1 = ground arith in
      let start : (v * pages_per_vblk + offset + 1) % pages_per_vblk ≡ 0 = ground arith in
      let none_left : pages_per_vblk - (offset + 1) ≡ 0 = ground arith in
      rw (v', start, none_left, none_first (good_from list (v + 1) * pages_per_vblk)) refl
  | inr more ↦
      let v' : (v * pages_per_vblk + offset + 1) / pages_per_vblk ≡ v = ground arith in
      let o' : (v * pages_per_vblk + offset + 1) % pages_per_vblk ≡ offset + 1 = ground arith in
      let inside : leb vblks_per_bank v ≡ false = ground arith in
      let behind : (offset + 1 == 0) ≡ false = ground arith in rw (v', o', inside, behind) refl
]

capacity-start :
    (list : ScanList) (row : ℕ)
    → (row % pages_per_vblk == 0) ≡ true
    → capacity list row ≡ good_from list (row / pages_per_vblk) * pages_per_vblk
unfolding capacity
capacity-start list row h = rw h refl

capacity-middle :
    (list : ScanList) (row : ℕ)
    → (row % pages_per_vblk == 0) ≡ false
    → capacity list row ≡ (
        if leb vblks_per_bank (row / pages_per_vblk)
        then 0
        else pages_per_vblk
          - row % pages_per_vblk
          + good_from list (row / pages_per_vblk + 1) * pages_per_vblk)
unfolding capacity
capacity-middle list row h = rw h refl

no_capacity : (list : ScanList) (row : ℕ) → capacity list row ≡ 0 → 0 < capacity list row → ⊥
no_capacity list row e h = omega arith

pub get_free_page-capacity :
    {N : Type 0} (s : Ftl N) (bank : ℕ)
    → 0 < capacity (s.scan_list bank) (s.target_row bank)
    → (row : ℕ) × (get_free_page s bank
        ≡ some (row, record s { target_row = update s.target_row bank (row + 1) }))
      × (capacity (s.scan_list bank) (s.target_row bank)
          ≤ capacity (s.scan_list bank) (row + 1) + 1)
unfolding get_free_page
get_free_page-capacity s bank h =
    let list = s.scan_list bank in
    let v = s.target_row bank / pages_per_vblk in
    let offset = s.target_row bank % pages_per_vblk in
    elim (Bool-cases (offset == 0)) [
      | inl at_start ↦
          let all = capacity-start list (s.target_row bank) at_start in
          let some_good : 0 < good_from list v = omega (arith, all) in
          let (lt, e) = skip_bad-good_from list v some_good in
          let w = skip_bad list (vblks_per_bank - v) v in
          let below : leb vblks_per_bank w ≡ false = ground arith in
          let rest = capacity-next list w offset lt (omega arith) in
          (
            w * pages_per_vblk + offset,
            rw (at_start, below) refl,
            (let zero_offset = ==→≡ offset 0 at_start in omega arith),
          )
      | inr inside ↦ elim (Bool-cases (leb vblks_per_bank v)) [
        | inl over ↦
            let all = capacity-middle list (s.target_row bank) inside in
            absurd (no_capacity list (s.target_row bank) (all ∙ rw over refl) h)
        | inr below ↦
            let rest = capacity-next list v offset (ground arith) (omega arith) in
            (
              v * pages_per_vblk + offset,
              rw (inside, below) refl,
              (let all = capacity-middle list (s.target_row bank) inside in
                  let all' : capacity list (s.target_row bank)
                      ≡ pages_per_vblk - offset + good_from list (v + 1) * pages_per_vblk =
                    all ∙ rw below refl in
                  omega arith),
            )
      ]
    ]

good_blocks-none : (list : ScanList) (n v : ℕ) → list.entries ≡ 0 → good_blocks list n v ≡ n
unfolding good_blocks
good_blocks-none list zero v h = refl
good_blocks-none list (suc n) v h =
    let rest = good_blocks-none list n (v + 1) h in
    rw (is_bad_block-none list v h, rest) (let e : 1 + n ≡ suc n = omega arith in e)

-- Without bad blocks all pages behind block 0 can be handed out.
pub capacity-none :
    (list : ScanList)
    → list.entries ≡ 0
    → capacity list pages_per_vblk ≡ (vblks_per_bank - 1) * pages_per_vblk
capacity-none list h =
    capacity-start list pages_per_vblk refl
    ∙ ap (λ n. n * pages_per_vblk) (good_blocks-none list (vblks_per_bank - 1) 1 h)

-- A bank can hand out the rest of the block it has begun.
pub capacity-inside :
    (list : ScanList) (row : ℕ)
    → row / pages_per_vblk < vblks_per_bank
    → (row % pages_per_vblk == 0) ≡ false
    → pages_per_vblk - row % pages_per_vblk ≤ capacity list row
unfolding capacity
capacity-inside list row inside begun = ground arith

-- A page that has been handed out.
unfoldable pub HandsOut : {N : Type 0} → Ftl N → ℕ → Option (ℕ × Ftl N) → Type 0
HandsOut {N} s bank result =
    (row : ℕ) × (t : Ftl N) × (result ≡ some (row, t))
    × Fresh s bank row t
    × (capacity (s.scan_list bank) (s.target_row bank) ≤ capacity (s.scan_list bank) (row + 1) + 1)

-- When pages are left in the bank from its next row on, in blocks that `is_bad_block` accepts, and that
-- row is behind block 0 and, in the middle of a block, in such a block, `get_free_page` comes out of its
-- loop: the page that it returns is not before that row, lies in the bank and in a block that
-- `is_bad_block` accepts; nothing changes but the next row, which is the one behind the page; and
-- from there on at most one page less is left than before.
pub get_free_page-HandsOut :
    {N : Type 0} (s : Ftl N) (bank : ℕ)
    → RowReady (s.scan_list bank) (s.target_row bank)
    → 0 < capacity (s.scan_list bank) (s.target_row bank)
    → HandsOut s bank (get_free_page s bank)
unfolding HandsOut
get_free_page-HandsOut s bank ready left =
    let (row, got, ahead) = get_free_page-capacity s bank left in
    (row, _, got, get_free_page-Fresh s bank row ready got, ahead)
