-- ===== src/Firmware/Greedy/Gc/Confined.antt =====
-- ftl_greedy/ftl.c (garbage_collection): what the copies of pages leave.
use issd.Base.{
  ℕ, ◌+◌, ◌-◌, ◌*◌, ◌/◌, ◌%◌, ◌<◌, ◌≡◌, refl, sym, ap, ◌∙◌, subst, true, false, ◌&&◌, ◌==◌, arith,
  ne→not-==, update, update-same, update-other,
}
use issd.Firmware.Layout.{pages_per_vblk}
use issd.Firmware.Nand.{Nand}
use issd.Firmware.Greedy.{Misc, Greedy, get_num_bank, vpn_of}
use issd.Firmware.Greedy.Gc.Copying.{Copying, is_valid, entry}
use issd.Firmware.Greedy.Gc.Copy.{next, free, free-div, map_here, map_kept, row, programmed}

module _ (hw : Nand) where
  open hw use {State, page, Blank, program, page-program, page-program_ne, Blank-program_ne}

  -- What the collection may change: the map of the pages of the victim, the pages of the block `gc`,
  -- and the list.
  pub record Confined (s : Greedy State) (bank vt gc : ℕ) (t : Greedy State) : Type 0 where
    pub map_of_others :
        (l : ℕ)
        → (get_num_bank l == bank && vpn_of s l / pages_per_vblk == vt) ≡ false
        → vpn_of t l ≡ vpn_of s l
    pub page_of_others :
        (bank' row' a : ℕ)
        → (bank' == bank && row' / pages_per_vblk == gc) ≡ false
        → page t.nand bank' row' a ≡ page s.nand bank' row' a
    pub blank_of_others :
        (bank' row' : ℕ)
        → (bank' == bank && row' / pages_per_vblk == gc) ≡ false
        → Blank s.nand bank' row'
        → Blank t.nand bank' row'
    pub misc_of_others : (bank' : ℕ) → (bank == bank') ≡ false → t.misc bank' ≡ s.misc bank'
    pub misc_of_bank : t.misc bank ≡ record (s.misc bank) { lpn_list = (t.misc bank).lpn_list }
    pub counts : t.vcounts ≡ s.vcounts
    pub buffers : (t.wr_buf ≡ s.wr_buf) × (t.write_buf_id ≡ s.write_buf_id)

  pub Confined-refl : (s : Greedy State) (bank vt gc : ℕ) → Confined s bank vt gc s
  Confined-refl s bank vt gc = record {
    map_of_others = λ l o. refl;
    page_of_others = λ b r a o. refl;
    blank_of_others = λ b r o e. e;
    misc_of_others = λ b o. refl;
    misc_of_bank = refl;
    counts = refl;
    buffers = (refl, refl);
  }

  pub Confined-trans :
      (s t u : Greedy State) (bank vt gc : ℕ)
      → Confined s bank vt gc t
      → Confined t bank vt gc u
      → Confined s bank vt gc u
  Confined-trans s t u bank vt gc c d = record {
    map_of_others = λ l o.
        let e = c.map_of_others l o in
        d.map_of_others l (ap (λ v. get_num_bank l == bank && v / pages_per_vblk == vt) e ∙ o) ∙ e;
    page_of_others = λ b r a o. d.page_of_others b r a o ∙ c.page_of_others b r a o;
    blank_of_others = λ b r o e. d.blank_of_others b r o (c.blank_of_others b r o e);
    misc_of_others = λ b o. d.misc_of_others b o ∙ c.misc_of_others b o;
    misc_of_bank =
        d.misc_of_bank
        ∙ ap {A = Misc} (λ m. record m { lpn_list = (u.misc bank).lpn_list }) c.misc_of_bank;
    counts = d.counts ∙ c.counts;
    buffers = (d.buffers.0 ∙ c.buffers.0, d.buffers.1 ∙ c.buffers.1);
  }

  module _ (s : Greedy State) (bank vt gc i q : ℕ) (c : Copying hw s bank vt gc i q)
      (h : is_valid hw s bank vt i ≡ true) (bound : i < pages_per_vblk - 1) where
    misc_copied : (next hw s bank vt gc i q c h bound).misc bank ≡ record (s.misc bank) {
      lpn_list =
          update
            (s.misc bank).lpn_list
            (free hw s bank vt gc i q c h bound % pages_per_vblk)
            (entry hw s bank i);
    }
    misc_copied = update-same s.misc bank _

    not_copied :
        (l : ℕ)
        → (get_num_bank l == bank && vpn_of s l / pages_per_vblk == vt) ≡ false
        → (entry hw s bank i == l) ≡ false
    not_copied l o = ne→not-== _ _ (λ same.
        let mine = ap get_num_bank (sym same) ∙ c.own i (omega arith) bound in
        let here = ap (vpn_of s) (sym same) ∙ map_here hw s bank vt gc i q c h bound in
        absurd (ground arith))

    pub Confined-copy : Confined s bank vt gc (next hw s bank vt gc i q c h bound)
    Confined-copy =
        let to = free hw s bank vt gc i q c h bound in
        let d = free-div hw s bank vt gc i q c h bound in
        record {
          map_of_others = λ l o. map_kept hw s bank vt gc i q c h bound l (not_copied l o);
          page_of_others = λ b r a o.
              programmed hw s bank vt gc i q c h bound b r a
              ∙ page-program_ne s.nand bank to _ b r a (ground arith);
          blank_of_others = λ b r o e.
              subst
                (λ x.
                  Blank (program s.nand bank x (page s.nand bank (vt * pages_per_vblk + i))) b r)
                (sym (row hw s bank vt gc i q c h bound))
                (Blank-program_ne s.nand bank to _ b r (ground arith) e);
          misc_of_others = λ b o. update-other s.misc bank _ b o;
          misc_of_bank =
              misc_copied
              ∙ ap {A = Misc} (λ m. record (s.misc bank) { lpn_list = m.lpn_list })
                  (sym misc_copied);
          counts = refl;
          buffers = (refl, refl);
        }
