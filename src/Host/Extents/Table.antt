-- ===== src/Host/Extents/Table.antt =====
-- issd_compute.c, postProcess: how many extents there are, and where they are stored.
use issd.Base.{
  ℕ, ◌+◌, ◌%◌, ◌≤◌, ◌<◌, ◌≡◌, ◌⊎◌, Option, none, some, List, [], ◌∷◌, leb, ◌==◌, update, u32, arith,
  if◌then◌else◌,
}
use issd.Host.Extents.{ExtArr, Layout, extent_of, scan_blocks, post_process}

-- The places where the next block is not the one after `last`.
abbrev pub breaks : ℕ → List ℕ → ℕ
breaks last [] = 0
breaks last (b ∷ bs) = breaks b bs + (if b == (last + 1) % u32 then 0 else 1)

-- The maximal runs of consecutive blocks.
abbrev pub runs : List ℕ → ℕ
runs [] = 0
runs (b ∷ bs) = breaks b bs + 1

-- What the code returns for a file with `n` runs that is not empty.
abbrev room_for : Layout → ℕ → Option ℕ
room_for l n = if leb l.max_file_ext_num (l.offset + n) then none else some n

module _ (l : Layout) where
  scan_blocks-runs :
      (arr : ExtArr) (cnt start last k : ℕ) (bs : List ℕ)
      → (scan_blocks l arr cnt start last k bs).0 ≡ room_for l (cnt + 1 + breaks last bs)
  unfolding scan_blocks
  scan_blocks-runs arr cnt start last k [] = ground arith
  scan_blocks-runs arr cnt start last k (b ∷ bs) = ground (
    arith,
    scan_blocks-runs arr cnt start b (k + 1) bs,
    scan_blocks-runs (update arr (l.offset + cnt) (extent_of l start k)) (cnt + 1) b b 1 bs,
  )

  -- A slot outside the table, or of another file, keeps its value.
  scan_blocks-outside :
      (arr : ExtArr) (cnt start last k : ℕ) (bs : List ℕ) (j : ℕ)
      → l.offset + cnt < l.max_file_ext_num
      → (j < l.offset + cnt) ⊎ (l.max_file_ext_num ≤ j)
      → (scan_blocks l arr cnt start last k bs).1 j ≡ arr j
  unfolding scan_blocks
  scan_blocks-outside arr cnt start last k [] j room h = ground arith
  scan_blocks-outside arr cnt start last k (b ∷ bs) j room h = ground (
    arith,
    scan_blocks-outside arr cnt start b (k + 1) bs j,
    scan_blocks-outside (update arr (l.offset + cnt) (extent_of l start k)) (cnt + 1) b b 1 bs j,
  )

-- `postProcess` returns the number of maximal runs of consecutive blocks, and -1 exactly where the
-- file has blocks and the table would not have more than that many slots from the offset on.
pub post_process-runs :
    (l : Layout) (arr : ExtArr) (bs : List ℕ)
    → (post_process l arr bs).0 ≡ (
        if runs bs == 0
        then some 0
        else if leb l.max_file_ext_num (l.offset + runs bs)
        then none
        else some (runs bs))
unfolding post_process
post_process-runs l arr [] = ground arith
post_process-runs l arr (b ∷ bs) = ground (arith, scan_blocks-runs l arr 0 b b 1 bs)

-- If the offset lies in the table then, error or not, `postProcess` leaves every slot below the
-- offset and every place at or past the end of the table as it was.
pub post_process-outside :
    (l : Layout) (arr : ExtArr) (bs : List ℕ) (j : ℕ)
    → l.offset < l.max_file_ext_num
    → (j < l.offset) ⊎ (l.max_file_ext_num ≤ j)
    → (post_process l arr bs).1 j ≡ arr j
unfolding post_process
post_process-outside l arr [] j room h = ground arith
post_process-outside l arr (b ∷ bs) j room h =
    scan_blocks-outside l arr 0 b b 1 bs j (omega arith) (ground arith)

-- Where `postProcess` succeeds from an offset in the table, the next file's offset is in it too.
pub post_process-next_offset :
    (l : Layout) (arr : ExtArr) (bs : List ℕ) {c : ℕ}
    → l.offset < l.max_file_ext_num
    → (post_process l arr bs).0 ≡ some c
    → l.offset + c < l.max_file_ext_num
post_process-next_offset l arr bs room r = ground (arith, post_process-runs l arr bs)
