-- ===== src/Firmware/Greedy/Others.antt =====
-- ftl_greedy/ftl.c: an operation on a bank leaves the other banks as they have to be.
use issd.Base.{
  ℕ, ◌+◌, ◌-◌, ◌*◌, ◌/◌, ◌%◌, ◌<◌, ◌≡◌, ◌≢◌, sym, ap, ◌∙◌, subst, false, ◌==◌, u32, if◌then◌else◌,
  arith,
}
use issd.Firmware.Layout.{pages_per_vblk}
use issd.Firmware.Nand.{Nand}
use issd.Firmware.Greedy.{Misc, Greedy, get_num_bank, vpn_of, vcount_of, vc_max}
use issd.Firmware.Greedy.Lists.{listed, list_of-cong}
use issd.Firmware.Greedy.Count.{count-cong}
use issd.Firmware.Greedy.Bank.{
  Elsewhere, Sound, Tracked, Idle, Counted, live_pages, owner, cur_vblock,
}

module _ (hw : Nand) where
  open hw use {State, page, Blank}

  module _ (s t : Greedy State) (bank b : ℕ) (e : Elsewhere hw s bank t)
      (o : (bank == b) ≡ false) where
    other : (b == bank) ≡ false
    other = ground arith

    misc_b : t.misc b ≡ s.misc b
    misc_b = e.misc_of b o

    map_b : (l : ℕ) → get_num_bank l ≡ b → vpn_of t l ≡ vpn_of s l
    map_b l mine = e.map_of l (ap (λ x. x == bank) mine ∙ other)

    count_b : (v : ℕ) → vcount_of t b v ≡ vcount_of s b v
    count_b v = ap (λ f. f v) (e.counts_of b o)

    busy_b : (v : ℕ) → Counted hw t b v → Counted hw s b v
    busy_b v h = subst (λ n. (n == vc_max) ≡ false) (count_b v) h

    busy_back : (v : ℕ) → Counted hw s b v → Counted hw t b v
    busy_back v h = subst (λ n. (n == vc_max) ≡ false) (sym (count_b v)) h

    mapped_b : (l : ℕ) → get_num_bank l ≡ b → vpn_of t l ≢ 0 → vpn_of s l ≢ 0
    mapped_b l mine m z = m (map_b l mine ∙ z)

    cur_b : cur_vblock hw t b ≡ cur_vblock hw s b
    cur_b = ap (λ m. m.cur_write_vpn / pages_per_vblk) misc_b

    owner_b : (v p : ℕ) → owner hw t b v p ≡ owner hw s b v p
    owner_b v p =
        ap (λ c. if v == c then (t.misc b).lpn_list p else listed hw t.nand b v p) cur_b
        ∙ ap (λ (m : Misc). if v == cur_vblock hw s b then m.lpn_list p else listed hw t.nand b v p)
            misc_b
        ∙ ap (λ l. if v == cur_vblock hw s b then (s.misc b).lpn_list p else l)
            (list_of-cong _ _ p
              (λ a h. e.page_of b (v * pages_per_vblk + (pages_per_vblk - 1)) a other))

    others-Sound : Sound hw s b → Sound hw t b
    others-Sound h =
        let gc = ap (λ m. m.gc_vblock) misc_b in
        record {
          gc_positive = subst (λ g. 0 < g) (sym gc) h.gc_positive;
          gc_count = ap (vcount_of t b) gc ∙ count_b _ ∙ h.gc_count;
          gc_blank = λ p l.
              subst (λ g. Blank t.nand b (g * pages_per_vblk + p)) (sym gc)
                (e.blank_of b _ other (h.gc_blank p l));
          positive = λ v c. h.positive v (busy_b v c);
          in_word = λ l mine m. h.in_word l mine (mapped_b l mine m);
          low = λ l mine m.
              subst (λ x. x % pages_per_vblk < pages_per_vblk - 1) (sym (map_b l mine))
                (h.low l mine (mapped_b l mine m));
          in_counted = λ l mine m.
              subst (λ x. Counted hw t b (x / pages_per_vblk)) (sym (map_b l mine))
                (busy_back _ (h.in_counted l mine (mapped_b l mine m)));
        }

    module _ (n : ℕ) where
      abbrev bound_s : ℕ → ℕ
      bound_s v = if v == cur_vblock hw s b then n else pages_per_vblk - 1

      abbrev bound_t : ℕ → ℕ
      bound_t v = if v == cur_vblock hw t b then n else pages_per_vblk - 1

      bound_b : (v : ℕ) → bound_t v ≡ bound_s v
      bound_b v = ap (λ c. if v == c then n else pages_per_vblk - 1) cur_b

      others-Tracked : Tracked hw s b (owner hw s b) bound_s → Tracked hw t b (owner hw t b) bound_t
      others-Tracked h = record {
        owned = λ l mine m.
            owner_b _ _
            ∙ ap (λ x. owner hw s b (x / pages_per_vblk) (x % pages_per_vblk)) (map_b l mine)
            ∙ h.owned l mine (mapped_b l mine m);
        below = λ l mine m.
            subst (λ k. vpn_of t l % pages_per_vblk < k) (sym (bound_b _))
              (subst (λ x. x % pages_per_vblk < bound_s (x / pages_per_vblk)) (sym (map_b l mine))
                (h.below l mine (mapped_b l mine m)));
        of_bank = λ v p c l.
            ap get_num_bank (owner_b v p)
            ∙ h.of_bank v p (busy_b v c) (subst (λ k. p < k) (bound_b v) l);
        exact = λ v c.
            count_b v
            ∙ h.exact v (busy_b v c)
            ∙ sym (
                ap (live_pages hw t (owner hw t b v) v) (bound_b v)
                ∙ count-cong _ _ 0 (bound_s v) (λ p f l.
                  ap (λ x. vpn_of t x == v * pages_per_vblk + p) (owner_b v p)
                  ∙ ap (λ x. x == v * pages_per_vblk + p)
                      (map_b _ (h.of_bank v p (busy_b v c) (omega arith)))));
      }

      pub others-Idle : Idle hw s b n → Idle hw t b n
      others-Idle i =
          let h = i.open_block in
          record {
            open_block = record {
              sound = others-Sound h.sound;
              lists = others-Tracked h.lists;
              cur_counted = subst (Counted hw t b) (sym cur_b) (busy_back _ h.cur_counted);
              words = λ p l. subst (λ (m : Misc). m.lpn_list p < u32) (sym misc_b) (h.words p l);
              cur_blank = λ p f l.
                  subst (λ c. Blank t.nand b (c * pages_per_vblk + p)) (sym cur_b)
                    (e.blank_of b _ other (h.cur_blank p f l));
              free = ap (λ m. m.free_blk_cnt) misc_b ∙ h.free;
            };
            at =
                ap (λ m. m.cur_write_vpn + 1) misc_b
                ∙ i.at
                ∙ ap (λ c. c * pages_per_vblk + n) (sym cur_b);
            bound = i.bound;
          }
