-- ===== src/Host/Extents/Cover.antt =====
-- issd_compute.c, postProcess: the extents cover the file's blocks.
use issd.Base.{
  ℕ, zero, suc, ◌+◌, ◌-◌, ◌*◌, ◌%◌, ◌<◌, ◌≡◌, refl, sym, ap, ◌∙◌, none, some, List, [], ◌∷◌, ◌++◌,
  append_assoc, leb, ◌==◌, update, u32, arith, inl, inr, Bool-cases, ==→≡, ==-refl,
}
use issd.Base.Lists.{run_of, run_of-append}
use issd.Host.Extents.{ExtArr, Layout, sectors_per_block, extent_of, scan_blocks, post_process}

-- The sectors of the blocks, in the file's order.
abbrev pub block_sectors : Layout → List ℕ → List ℕ
block_sectors l [] = []
block_sectors l (b ∷ bs) =
    run_of (l.part_first_sector + b * sectors_per_block l) (sectors_per_block l)
    ++ block_sectors l bs

-- The sectors of the `n` extents from slot `i` on.
abbrev pub extent_sectors : ExtArr → ℕ → ℕ → List ℕ
extent_sectors arr i zero = []
extent_sectors arr i (suc n) = run_of (arr i).lba (arr i).len ++ extent_sectors arr (i + 1) n

-- Every block lies where 32-bit sector numbers do not wrap.
abbrev pub Fits : Layout → List ℕ → Type 0
Fits l [] = Unit
Fits l (b ∷ bs) =
    (l.part_first_sector + (b + 1) * sectors_per_block l < u32) × (b + 1 < u32) × Fits l bs

none≢some : {c : ℕ} → none ≡ some c → ⊥
none≢some h = cc

module _ (l : Layout) where
  -- The sectors of the run of `k` blocks that ends in block `last`.
  abbrev run_sectors : ℕ → ℕ → List ℕ
  run_sectors start k =
      run_of (l.part_first_sector + start * sectors_per_block l) (k * sectors_per_block l)

  extent_of-sectors :
      (start k last : ℕ)
      → start + k ≡ last + 1
      → l.part_first_sector + (last + 1) * sectors_per_block l < u32
      → ((extent_of l start k).lba ≡ l.part_first_sector + start * sectors_per_block l)
        × ((extent_of l start k).len ≡ k * sectors_per_block l)
  unfolding extent_of
  extent_of-sectors start k last e h =
      let m = sectors_per_block l in
      let sum : (last + 1) * m ≡ start * m + k * m = ap (λ t. t * m) (sym e) ∙ grind arith in
      (omega arith, omega arith)

  -- Slots below the next one are not written.
  pub scan_blocks-below :
      (arr : ExtArr) (cnt start last k : ℕ) (bs : List ℕ) (j : ℕ)
      → j < l.offset + cnt
      → (scan_blocks l arr cnt start last k bs).1 j ≡ arr j
  unfolding scan_blocks
  scan_blocks-below arr cnt start last k [] j h = ground arith
  scan_blocks-below arr cnt start last k (b ∷ bs) j h = ground (
    arith,
    scan_blocks-below arr cnt start b (k + 1) bs j,
    scan_blocks-below (update arr (l.offset + cnt) (extent_of l start k)) (cnt + 1) b b 1 bs j,
  )

  scan_blocks-count :
      (arr : ExtArr) (cnt start last k : ℕ) (bs : List ℕ) {c : ℕ}
      → (scan_blocks l arr cnt start last k bs).0 ≡ some c
      → cnt < c
  unfolding scan_blocks
  scan_blocks-count arr cnt start last k [] h = ground arith
  scan_blocks-count arr cnt start last k (b ∷ bs) {c} h = ground (
    arith,
    scan_blocks-count arr cnt start b (k + 1) bs {c = c},
    scan_blocks-count (update arr (l.offset + cnt) (extent_of l start k)) (cnt + 1) b b 1 bs
        {c = c},
  )

  run_sectors-next :
      (start k last b : ℕ) (bs : List ℕ)
      → start + k ≡ last + 1
      → b ≡ last + 1
      → run_sectors start (k + 1) ++ block_sectors l bs
        ≡ run_sectors start k ++ block_sectors l (b ∷ bs)
  run_sectors-next start k last b bs e f =
      let m = sectors_per_block l in
      let p = l.part_first_sector in
      let place : p + b * m ≡ p + start * m + k * m =
        ap (λ t. p + t * m) (let g : b ≡ start + k = omega arith in g) ∙ grind arith in
      rw (
        run_of-append (p + start * m) (k * m) m (p + b * m) ((k + 1) * m) place (grind arith),
        append_assoc,
      )

  scan_blocks-cover :
      (arr : ExtArr) (cnt start last k : ℕ) (bs : List ℕ) (c : ℕ)
      → start + k ≡ last + 1
      → last + 1 < u32
      → l.part_first_sector + (last + 1) * sectors_per_block l < u32
      → Fits l bs
      → (scan_blocks l arr cnt start last k bs).0 ≡ some c
      → extent_sectors (scan_blocks l arr cnt start last k bs).1 (l.offset + cnt) (c - cnt)
        ≡ run_sectors start k ++ block_sectors l bs
  unfolding scan_blocks
  scan_blocks-cover arr cnt start last k [] c e w h f r =
      let one : c - cnt ≡ 1 = ground arith in
      let x = extent_of-sectors start k last e h in
      rw (one, ==-refl (l.offset + cnt), x.0, x.1) refl
  scan_blocks-cover arr cnt start last k (b ∷ bs) c e w h f r =
      elim (Bool-cases (b == (last + 1) % u32)) [
        | inl same ↦
            let next : b ≡ last + 1 = omega (arith, ==→≡ b ((last + 1) % u32) same) in
            rw (same, scan_blocks)
              (scan_blocks-cover arr cnt start b (k + 1) bs c (omega arith) f.1 f.0 f.2
                  (rw (same, scan_blocks) at r)
                ∙ run_sectors-next start k last b bs e next)
        | inr other ↦ elim (Bool-cases (leb l.max_file_ext_num (l.offset + cnt + 1))) [
          | inl full ↦ absurd (none≢some (rw (other, full, scan_blocks) at r))
          | inr room ↦
              let arr' = update arr (l.offset + cnt) (extent_of l start k) in
              let r' = rw (other, room, scan_blocks) at r in
              let x = extent_of-sectors start k last e h in
              let here : (scan_blocks l arr' (cnt + 1) b b 1 bs).1 (l.offset + cnt)
                  ≡ extent_of l start k =
                scan_blocks-below arr' (cnt + 1) b b 1 bs (l.offset + cnt) (omega arith)
                ∙ ground (arith, ==-refl (l.offset + cnt)) in
              let more : c - cnt ≡ suc (c - (cnt + 1)) =
                omega (arith, scan_blocks-count arr' (cnt + 1) b b 1 bs {c = c} r') in
              let slot : l.offset + cnt + 1 ≡ l.offset + (cnt + 1) = omega arith in
              let ih = scan_blocks-cover arr' (cnt + 1) b b 1 bs c (omega arith) f.1 f.0 f.2 r' in
              rw (other, room, scan_blocks)
                (rw (more, here, x.0, x.1, slot, ih)
                  (rw
                    (let unit : 1 * sectors_per_block l ≡ sectors_per_block l = omega arith in unit)
                    refl))
        ]
      ]

-- Whenever `postProcess` reports `c` extents, the `c` entries that it stored at the file's offset
-- list, in order, exactly the sectors of the file's blocks; sector numbers are assumed to fit in
-- 32 bits.
pub post_process-cover :
    (l : Layout) (arr : ExtArr) (bs : List ℕ) (c : ℕ)
    → Fits l bs
    → (post_process l arr bs).0 ≡ some c
    → extent_sectors (post_process l arr bs).1 l.offset c ≡ block_sectors l bs
unfolding post_process
post_process-cover l arr [] c f r = rw (let z : c ≡ 0 = ground arith in z) refl
post_process-cover l arr (b ∷ bs) c f r =
    let ih = scan_blocks-cover l arr 0 b b 1 bs c refl f.1 f.0 f.2 r in
    let start : l.offset + 0 ≡ l.offset = omega arith in
    let all : c - 0 ≡ c = omega arith in
    let unit : 1 * sectors_per_block l ≡ sectors_per_block l = omega arith in
    rw (start, all, unit) at ih
