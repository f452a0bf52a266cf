-- ===== src/Firmware/Greedy/Gc/Ranges.antt =====
-- ftl_greedy/ftl.c (garbage_collection): what the ASSERTs accept of a bank, they accept of it behind a
-- collection.
use issd.Base.{
  ℕ, zero, suc, ◌+◌, ◌-◌, ◌*◌, ◌%◌, ◌<◌, ◌≤◌, ◌≡◌, refl, sym, ap, ◌∙◌, subst, Bool, ◌==◌, arith,
  Bool-cases, inl, inr, update-same,
}
use issd.Firmware.Layout.{pages_per_vblk, num_lpages}
use issd.Firmware.Nand.{Nand}
use issd.Firmware.Greedy.{Greedy, vpn_of, data_block}
use issd.Firmware.Greedy.Lists.{listed}
use issd.Firmware.Greedy.Bank.{Ranged, owner}
use issd.Firmware.Greedy.Gc.{copy_valid, reclaim}
use issd.Firmware.Greedy.Gc.Copying.{entry, copy_page}
use issd.Firmware.Greedy.Gc.Swept.{Swept, busy_t, gc_t}
use issd.Firmware.Greedy.Gc.Reclaim.{of_gc, owner_kept}

module _ (hw : Nand) where
  open hw use {State}

  -- The entries of the list that is in work are logical pages.
  abbrev pub Inside : Greedy State → ℕ → Type 0
  Inside s bank = (p : ℕ) → p < pages_per_vblk - 1 → entry hw s bank p < num_lpages

  copy_page-Inside :
      (s : Greedy State) (bank vt i free : ℕ)
      → i < pages_per_vblk - 1
      → Inside s bank
      → Inside (copy_page hw s bank vt i free) bank
  copy_page-Inside s bank vt i free b h p less =
      let e = ap (λ m. m.lpn_list p) (update-same s.misc bank _) in
      let here = h i b in
      let there = h p less in
      subst (λ l. l < num_lpages) (sym e)
        (elim (Bool-cases (free % pages_per_vblk == p)) [
          | inl same ↦ rw same here
          | inr other ↦ rw other there
        ])

  pub copy_valid-Inside :
      (n : ℕ) (s : Greedy State) (bank vt i free : ℕ)
      → i + n ≤ pages_per_vblk - 1
      → Inside s bank
      → Inside (copy_valid hw n s bank vt i free).1 bank
        × ((copy_valid hw n s bank vt i free).1.bad_blk ≡ s.bad_blk)
  unfolding copy_valid
  copy_valid-Inside zero s bank vt i free b h = (h, refl)
  copy_valid-Inside (suc n) s bank vt i free b h =
      elim (Bool-cases (vpn_of s (entry hw s bank i) == vt * pages_per_vblk + i)) [
        | inl valid ↦
            rw (copy_valid, valid)
              (copy_valid-Inside n (copy_page hw s bank vt i free) bank vt (i + 1) (free + 1)
                (omega arith) (copy_page-Inside s bank vt i free (omega arith) h))
        | inr invalid ↦
            rw (copy_valid, invalid) (copy_valid-Inside n s bank vt (i + 1) free (omega arith) h)
      ]

  module _ {s u : Greedy State} {bank vt k : ℕ} (r : Swept hw s u bank vt k) where
    abbrev gc : ℕ
    gc = (s.misc bank).gc_vblock

    abbrev t : Greedy State
    t = reclaim hw u bank vt gc k (gc * pages_per_vblk + k)

    bad_t : u.bad_blk ≡ s.bad_blk → t.bad_blk ≡ s.bad_blk
    unfolding reclaim
    bad_t e = e

    pub reclaim-Ranged :
        Ranged hw s bank (listed hw s.nand bank)
        → Inside u bank
        → u.bad_blk ≡ s.bad_blk
        → Ranged hw t bank (owner hw t bank)
    reclaim-Ranged ranged inside kept =
        let bad : (v : ℕ) → t.bad_blk bank v ≡ s.bad_blk bank v =
          λ v. ap (λ (f : ℕ → ℕ → Bool). f bank v) (bad_t kept) in
        record {
          bank_lt = ranged.bank_lt;
          gc_data = ap data_block (gc_t hw r) ∙ ranged.in_data vt r.victim;
          gc_good =
              bad (t.misc bank).gc_vblock
              ∙ ap (s.bad_blk bank) (gc_t hw r)
              ∙ ranged.good vt r.victim;
          in_data = λ v h. elim (busy_t hw r v h) [
            | inl e ↦ ap data_block e ∙ ranged.gc_data
            | inr (a, b, old) ↦ ranged.in_data v old
          ];
          good = λ v h. elim (busy_t hw r v h) [
            | inl e ↦ bad v ∙ ap (s.bad_blk bank) e ∙ ranged.gc_good
            | inr (a, b, old) ↦ bad v ∙ ranged.good v old
          ];
          pages = λ v p h less. elim (busy_t hw r v h) [
            | inl e ↦
                subst (λ l. l < num_lpages) (sym (ap (λ x. owner hw t bank x p) e ∙ of_gc hw r p))
                  (inside p less)
            | inr (a, b, old) ↦
                subst (λ l. l < num_lpages) (sym (owner_kept hw r v p a b (omega arith)))
                  (ranged.pages v p old less)
          ];
        }
