-- ===== src/Host/Extents.antt =====
-- PCModule2/server/issd.h and issd_compute.c (postProcess): the physical blocks of a file turned
-- into sector extents of the active-flash command.
pub mod Cover
pub mod Table
mod Tests
use issd.Base.{
  ℕ, ◌+◌, ◌-◌, ◌*◌, ◌%◌, ◌^◌, Bool, true, false, Option, none, some, List, [], ◌∷◌, leb, ◌==◌,
  update, u32, if◌then◌else◌,
}

-- `lbaExt_t`
pub record LbaExt : Type 0 where
  pub lba : ℕ
  pub len : ℕ

-- `fileExtArr`, and the slots that hold nothing are whatever the caller left there.
abbrev pub ExtArr : Type 0
ExtArr = ℕ → LbaExt

-- What `postProcess` reads besides the blocks: the global `max_fileExt_num`, the offset of the
-- current file in `fileExtArr`, `blkbits` and `part_first_sector`.
pub record Layout : Type 0 where
  pub max_file_ext_num : ℕ
  pub offset : ℕ
  pub blkbits : ℕ
  pub part_first_sector : ℕ

-- `1 << (blkbits - 9)`
abbrev pub sectors_per_block : Layout → ℕ
sectors_per_block l = 2 ^ (l.blkbits - 9)

-- The entry for the blocks `blocks[start .. start + k)`: `part_first_sector + (blocks[start] <<
-- (blkbits - 9))` and `(end - start) << (blkbits - 9)`, in 32 bits.
pub extent_of : Layout → ℕ → ℕ → LbaExt
extent_of l start k = record {
  lba = (l.part_first_sector + start * sectors_per_block l) % u32;
  len = k * sectors_per_block l % u32;
}

-- The two nested loops in one pass. `end` walks over the blocks; `start` is `blocks[start]`, `last`
-- is `blocks[end - 1]` and `k` is `end - start`. Where the inner loop stops, the run is stored in
-- slot `offset + cnt`, and the table is full when the next slot would be the last one or later.
-- `none` is the return value -1.
pub scan_blocks : Layout → ExtArr → ℕ → ℕ → ℕ → ℕ → List ℕ → Option ℕ × ExtArr
unfolding extent_of
scan_blocks l arr cnt start last k [] =
    let arr' = update arr (l.offset + cnt) (extent_of l start k) in
    (if leb l.max_file_ext_num (l.offset + cnt + 1) then none else some (cnt + 1), arr')
scan_blocks l arr cnt start last k (b ∷ bs) = elim (b == (last + 1) % u32) [
  | true ↦ scan_blocks l arr cnt start b (k + 1) bs
  | false ↦
      let arr' = update arr (l.offset + cnt) (extent_of l start k) in
      elim (leb l.max_file_ext_num (l.offset + cnt + 1)) [
        | true ↦ (none, arr')
        | false ↦ scan_blocks l arr' (cnt + 1) b b 1 bs
      ]
]

-- `postProcess`: the number of extents stored, and the table.
unfoldable pub post_process : Layout → ExtArr → List ℕ → Option ℕ × ExtArr
unfolding scan_blocks
post_process l arr [] = (some 0, arr)
post_process l arr (b ∷ bs) = scan_blocks l arr 0 b b 1 bs
