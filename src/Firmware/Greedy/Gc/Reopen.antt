-- ===== src/Firmware/Greedy/Gc/Reopen.antt =====
-- ftl_greedy/ftl.c: the end of garbage_collection, from the copied pages to a bank with an open block.
use issd.Base.{
  and-false, u32, ℕ, ◌+◌, ◌*◌, ◌/◌, ◌<◌, ◌≡◌, refl, sym, ap, ◌∙◌, subst, false, ◌&&◌, ◌==◌, arith,
  Bool-cases, inl, inr, ==→≡, ne→not-==, update, update-other,
}
use issd.Firmware.Layout.{pages_per_vblk}
use issd.Firmware.Nand.{Nand}
use issd.Firmware.Greedy.{Greedy, get_num_bank, vpn_of, vc_max}
use issd.Firmware.Greedy.Bank.{stored, Elsewhere, Open, Counted}
use issd.Firmware.Greedy.Gc.{reclaim}
use issd.Firmware.Greedy.Gc.Copying.{entry}
use issd.Firmware.Greedy.Gc.Swept.{Swept, map_t, misc_t, place_u, apart, erased, gc_busy}
use issd.Firmware.Greedy.Gc.Reclaim.{reclaim-Sound, reclaim-Tracked, cur_t, page-div}

module _ (hw : Nand) where
  open hw use {State, page, Blank, erase, Blank-erase, page-erase_ne, Blank-erase_ne}

  module _ {s u : Greedy State} {bank vt k : ℕ} (r : Swept hw s u bank vt k) where
    abbrev gc : ℕ
    gc = (s.misc bank).gc_vblock

    abbrev t : Greedy State
    t = reclaim hw u bank vt gc k (gc * pages_per_vblk + k)

    -- The bank is open, with the copies in the current block.
    pub reclaim-Open : Open hw t bank k
    reclaim-Open = record {
      sound = reclaim-Sound hw r;
      lists = reclaim-Tracked hw r;
      cur_counted = subst (Counted hw t bank) (sym (cur_t hw r)) (gc_busy hw r);
      words = λ p less.
          let (mine, at) = r.copies.live p less in
          let sound = r.closed.sound in
          let pos = sound.gc_positive in
          subst (λ m. m.lpn_list p < u32) (sym (misc_t hw r))
            ((reclaim-Sound hw r).in_word (entry hw u bank p) mine (λ z.
              let e = sym at ∙ sym (map_t hw r (entry hw u bank p)) ∙ z in absurd (omega arith)));
      cur_blank = λ p f b.
          subst (λ g. Blank t.nand bank (g * pages_per_vblk + p)) (sym (cur_t hw r))
            (subst (λ n. Blank n bank (gc * pages_per_vblk + p)) (sym (erased hw r))
              (Blank-erase_ne u.nand bank vt bank (gc * pages_per_vblk + p)
                (and-false (bank == bank)
                  (ne→not-== _ _ (λ x. apart hw r (sym (page-div gc p b) ∙ x))))
                (r.copies.blank p f b)));
      free = ap (λ m. m.free_blk_cnt) (misc_t hw r) ∙ (let e = r.closed.free in omega arith);
    }

    not_erased : (l : ℕ) → (get_num_bank l == bank && vpn_of u l / pages_per_vblk == vt) ≡ false
    not_erased l = elim (Bool-cases (get_num_bank l == bank)) [
      | inl mine ↦ and-false (get_num_bank l == bank) (
          ne→not-== _ _
            (λ x. let (f, b, e) = r.copies.waiting l (==→≡ _ _ mine) x in absurd (omega arith)))
      | inr other ↦ rw other refl
    ]

    -- The victim had no logical page left.
    pub reclaim-stored : (l a : ℕ) → stored hw t l a ≡ stored hw u l a
    reclaim-stored l a =
        ap (λ n. page n (get_num_bank l) (vpn_of t l) a) (erased hw r)
        ∙ ap (λ v. page (erase u.nand bank vt) (get_num_bank l) v a) (map_t hw r l)
        ∙ page-erase_ne u.nand bank vt (get_num_bank l) (vpn_of u l) a (not_erased l)

    reclaim-vcounts : (b : ℕ) → (bank == b) ≡ false → t.vcounts b ≡ s.vcounts b
    unfolding reclaim
    reclaim-vcounts b o =
        update-other (update u.vcounts bank (update (u.vcounts bank) vt vc_max)) bank _ b o
        ∙ update-other u.vcounts bank _ b o
        ∙ ap (λ (f : ℕ → ℕ → ℕ). f b) r.confined.counts

    reclaim-misc : (b : ℕ) → (bank == b) ≡ false → t.misc b ≡ s.misc b
    unfolding reclaim
    reclaim-misc b o = update-other u.misc bank _ b o ∙ r.confined.misc_of_others b o

    pub reclaim-buffers : (t.wr_buf ≡ s.wr_buf) × (t.write_buf_id ≡ s.write_buf_id)
    unfolding reclaim
    reclaim-buffers = r.confined.buffers

    -- The other banks.
    pub reclaim-Elsewhere : Elsewhere hw s bank t
    reclaim-Elsewhere = record {
      map_of = λ l o. map_t hw r l ∙ r.confined.map_of_others l (rw o refl);
      page_of = λ b i a o.
          ap (λ n. page n b i a) (erased hw r)
          ∙ page-erase_ne u.nand bank vt b i a (rw o refl)
          ∙ r.confined.page_of_others b i a (rw o refl);
      blank_of = λ b i o e.
          subst (λ n. Blank n b i) (sym (erased hw r))
            (Blank-erase_ne u.nand bank vt b i (rw o refl)
              (r.confined.blank_of_others b i (rw o refl) e));
      misc_of = reclaim-misc;
      counts_of = reclaim-vcounts;
    }

    mapped_here : (l : ℕ) → get_num_bank l ≡ bank → (vpn_of t l == 0) ≡ (vpn_of s l == 0)
    mapped_here l mine = elim (place_u hw r l mine) [
      | inl (there, now) ↦
          let pos = r.closed.sound.positive vt r.victim in
          let pos' = r.closed.sound.gc_positive in
          let e = map_t hw r l in
          ne→not-== _ _ (λ z. absurd (omega arith))
          ∙ sym (ne→not-== _ _ (λ z. absurd (omega arith)))
      | inr (same, other) ↦ ap (λ v. v == 0) (map_t hw r l ∙ same)
    ]

    -- The same logical pages are mapped.
    pub reclaim-mapped : (l : ℕ) → (vpn_of t l == 0) ≡ (vpn_of s l == 0)
    reclaim-mapped l = elim (Bool-cases (get_num_bank l == bank)) [
      | inl mine ↦ mapped_here l (==→≡ _ _ mine)
      | inr other ↦ ap (λ v. v == 0) (map_t hw r l ∙ r.confined.map_of_others l (rw other refl))
    ]
