-- ===== src/Firmware/Greedy/Write/Close.antt =====
-- ftl_greedy/ftl.c (assign_new_write_vpn): a block that is full gets its list.
use issd.Base.{
  and-false, ℕ, ◌+◌, ◌-◌, ◌*◌, ◌/◌, ◌%◌, ◌<◌, ◌≡◌, ◌≢◌, refl, sym, ap, ◌∙◌, subst, false, ◌&&◌,
  ◌==◌, if◌then◌else◌, arith, Bool-cases, inl, inr, ==→≡, not-==→≢, ne→not-==, update-same,
  update-other,
}
use issd.Firmware.Layout.{pages_per_vblk, num_lpages}
use issd.Firmware.Nand.{Nand}
use issd.Firmware.Greedy.{Greedy, get_num_bank, vpn_of, vcount_of, vc_max, data_block}
use issd.Firmware.Greedy.Lists.{listed, listed-with_list, list_of-cong, with_list}
use issd.Firmware.Greedy.Count.{count-cong}
use issd.Firmware.Greedy.Bank.{
  stored, Elsewhere, Closed, Sound, Ranged, Tracked, Open, Counted, live_pages, owner, cur_vblock,
}
use issd.Firmware.Greedy.Write.{close_block}

module _ (hw : Nand) where
  open hw use {State, page, Blank, program, page-program_ne, Blank-program_ne}

  module _ (s : Greedy State) (bank : ℕ) (o : Open hw s bank (pages_per_vblk - 1)) where
    abbrev cur : ℕ
    cur = cur_vblock hw s bank

    abbrev t : Greedy State
    t = close_block hw s bank cur

    abbrev list_row : ℕ
    list_row = cur * pages_per_vblk + (pages_per_vblk - 1)

    misc_t : t.misc bank ≡ record (s.misc bank) {
      lpn_list = λ page_num. 0;
      free_blk_cnt = (s.misc bank).free_blk_cnt - 1;
    }
    unfolding close_block
    misc_t = update-same s.misc bank _

    pub map_t : (l : ℕ) → vpn_of t l ≡ vpn_of s l
    unfolding close_block
    map_t l = refl

    nand_t : t.nand ≡ with_list hw s.nand bank cur (s.misc bank).lpn_list (s.ftl_buf bank)
    unfolding close_block
    nand_t = refl

    pub counts_t : t.vcounts ≡ s.vcounts
    unfolding close_block
    counts_t = refl

    page_t :
        (b row a : ℕ)
        → (b == bank && row == list_row) ≡ false
        → page t.nand b row a ≡ page s.nand b row a
    page_t b row a other =
        ap (λ n. page n b row a) nand_t ∙ page-program_ne s.nand bank list_row _ b row a other

    blank_t :
        (b row : ℕ)
        → (b == bank && row == list_row) ≡ false
        → Blank s.nand b row
        → Blank t.nand b row
    blank_t b row other e =
        subst (λ n. Blank n b row) (sym nand_t)
          (Blank-program_ne s.nand bank list_row _ b row other e)

    busy_t : (v : ℕ) → Counted hw t bank v → Counted hw s bank v
    busy_t v h = subst (λ (f : ℕ → ℕ → ℕ). (f bank v == vc_max) ≡ false) counts_t h

    busy_s : (v : ℕ) → Counted hw s bank v → Counted hw t bank v
    busy_s v h = subst (λ (f : ℕ → ℕ → ℕ). (f bank v == vc_max) ≡ false) (sym counts_t) h

    cur_other : cur ≢ (s.misc bank).gc_vblock
    cur_other e = not-==→≢ _ _ o.cur_counted (ap (vcount_of s bank) e ∙ o.sound.gc_count)

    mapped_t : (l : ℕ) → vpn_of t l ≢ 0 → vpn_of s l ≢ 0
    mapped_t l m z = m (map_t l ∙ z)

    gc_t : (t.misc bank).gc_vblock ≡ (s.misc bank).gc_vblock
    gc_t = ap (λ m. m.gc_vblock) misc_t

    closed-Sound : Sound hw t bank
    closed-Sound = record {
      gc_positive = subst (λ g. 0 < g) (sym gc_t) o.sound.gc_positive;
      gc_count =
          ap (vcount_of t bank) gc_t
          ∙ ap (λ (f : ℕ → ℕ → ℕ). f bank (s.misc bank).gc_vblock) counts_t
          ∙ o.sound.gc_count;
      gc_blank = λ p b.
          subst (λ g. Blank t.nand bank (g * pages_per_vblk + p)) (sym gc_t)
            (blank_t bank ((s.misc bank).gc_vblock * pages_per_vblk + p)
              (and-false (bank == bank) (ne→not-== _ _ (λ e. cur_other (omega arith))))
              (o.sound.gc_blank p b));
      positive = λ v h. o.sound.positive v (busy_t v h);
      in_word = λ l mine m. o.sound.in_word l mine (mapped_t l m);
      low = λ l mine m.
          subst (λ v. v % pages_per_vblk < pages_per_vblk - 1) (sym (map_t l))
            (o.sound.low l mine (mapped_t l m));
      in_counted = λ l mine m.
          subst (λ v. Counted hw t bank (v / pages_per_vblk)) (sym (map_t l))
            (busy_s _ (o.sound.in_counted l mine (mapped_t l m)));
    }

    -- The list of the block is on the flash, and those of the others are where they were.
    listed_t : (v p : ℕ) → p < pages_per_vblk - 1 → listed hw t.nand bank v p ≡ owner hw s bank v p
    listed_t v p b = elim (Bool-cases (v == cur)) [
      | inl same ↦
          ap (λ x. listed hw t.nand bank x p) (==→≡ v cur same)
          ∙ ap (λ n. listed hw n bank cur p) nand_t
          ∙ listed-with_list hw s.nand bank cur (s.misc bank).lpn_list (s.ftl_buf bank) p
              (omega arith) (o.words p b)
              (o.cur_blank (pages_per_vblk - 1) (omega arith) (omega arith))
          ∙ sym (ap (λ c. if c then (s.misc bank).lpn_list p else listed hw s.nand bank v p) same)
      | inr other ↦
          list_of-cong _ _ p (λ i l.
            page_t bank (v * pages_per_vblk + (pages_per_vblk - 1)) i
              (and-false (bank == bank) (ne→not-== _ _ (λ e. not-==→≢ v cur other (omega arith)))))
          ∙ sym (ap (λ c. if c then (s.misc bank).lpn_list p else listed hw s.nand bank v p) other)
    ]

    bound_s :
        (v : ℕ) → (if v == cur then pages_per_vblk - 1 else pages_per_vblk - 1) ≡ pages_per_vblk - 1
    bound_s v = ground arith

    closed-Tracked : Tracked hw t bank (listed hw t.nand bank) (λ v. pages_per_vblk - 1)
    closed-Tracked = record {
      owned = λ l mine m.
          let m' = mapped_t l m in
          ap (λ v. listed hw t.nand bank (v / pages_per_vblk) (v % pages_per_vblk)) (map_t l)
          ∙ listed_t _ _ (o.sound.low l mine m')
          ∙ o.lists.owned l mine m';
      below = closed-Sound.low;
      of_bank = λ v p h b.
          ap get_num_bank (listed_t v p b)
          ∙ o.lists.of_bank v p (busy_t v h) (subst (λ n. p < n) (sym (bound_s v)) b);
      exact = λ v h.
          ap (λ (f : ℕ → ℕ → ℕ). f bank v) counts_t
          ∙ o.lists.exact v (busy_t v h)
          ∙ ap (live_pages hw s (owner hw s bank v) v) (bound_s v)
          ∙ count-cong _ _ 0 (pages_per_vblk - 1) (λ p f b. sym (
              ap (λ l. vpn_of t l == v * pages_per_vblk + p) (listed_t v p (omega arith))
              ∙ ap (λ x. x == v * pages_per_vblk + p) (map_t (owner hw s bank v p))));
    }

    pub close_block-Closed : Closed hw t bank
    close_block-Closed = record {
      sound = closed-Sound;
      lists = closed-Tracked;
      free = ap (λ m. m.free_blk_cnt) misc_t ∙ (let e = o.free in omega arith);
    }

    -- What the ASSERTs accept, they accept of the full block.
    pub close_block-Ranged :
        Ranged hw s bank (owner hw s bank) → Ranged hw t bank (listed hw t.nand bank)
    unfolding close_block
    close_block-Ranged r = record {
      bank_lt = r.bank_lt;
      gc_data = ap data_block gc_t ∙ r.gc_data;
      gc_good = ap (s.bad_blk bank) gc_t ∙ r.gc_good;
      in_data = λ v h. r.in_data v (busy_t v h);
      good = λ v h. r.good v (busy_t v h);
      pages = λ v p h b.
          subst (λ l. l < num_lpages) (sym (listed_t v p b)) (r.pages v p (busy_t v h) b);
    }

    list_row_unused : (l : ℕ) → (get_num_bank l == bank && vpn_of s l == list_row) ≡ false
    list_row_unused l = elim (Bool-cases (get_num_bank l == bank)) [
      | inr other ↦ rw other refl
      | inl mine ↦
          let unused : vpn_of s l ≢ list_row = λ e.
            let low = o.sound.low l (==→≡ _ _ mine) (λ z. absurd (omega arith)) in
            absurd (omega arith) in
          and-false (get_num_bank l == bank) (ne→not-== _ _ unused)
    ]

    pub close_block-stored : (l a : ℕ) → stored hw t l a ≡ stored hw s l a
    close_block-stored l a =
        ap (λ v. page t.nand (get_num_bank l) v a) (map_t l)
        ∙ page_t (get_num_bank l) (vpn_of s l) a (list_row_unused l)

    closed-misc : (b : ℕ) → (bank == b) ≡ false → t.misc b ≡ s.misc b
    unfolding close_block
    closed-misc b other = update-other s.misc bank _ b other

    pub closed-buffers : (t.wr_buf ≡ s.wr_buf) × (t.write_buf_id ≡ s.write_buf_id)
    unfolding close_block
    closed-buffers = (refl, refl)

    pub close_block-Elsewhere : Elsewhere hw s bank t
    close_block-Elsewhere = record {
      map_of = λ l other. map_t l;
      page_of = λ b row a other. page_t b row a (rw other refl);
      blank_of = λ b row other e. blank_t b row (rw other refl) e;
      misc_of = closed-misc;
      counts_of = λ b other. ap (λ (f : ℕ → ℕ → ℕ). f b) counts_t;
    }
