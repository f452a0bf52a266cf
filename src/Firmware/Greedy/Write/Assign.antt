-- ===== src/Firmware/Greedy/Write/Assign.antt =====
-- ftl_greedy/ftl.c: assign_new_write_vpn gives an erased page of the current block, and no logical page changes.
use issd.Base.{
  u32, ℕ, ◌+◌, ◌-◌, ◌*◌, ◌/◌, ◌%◌, ◌<◌, ◌≡◌, refl, sym, ap, ◌∙◌, subst, ◌==◌, if◌then◌else◌, arith,
  Bool-cases, inl, inr, update-same, update-other, Option, some,
}
use issd.Firmware.Layout.{pages_per_vblk, vblks_per_bank, num_lpages}
use issd.Firmware.Nand.{Nand}
use issd.Firmware.Greedy.{Greedy, MemUtil, get_num_bank, vpn_of, vcount_of, data_block}
use issd.Firmware.Greedy.Lists.{listed}
use issd.Firmware.Greedy.Count.{count-cong}
use issd.Firmware.Greedy.Bank.{
  Elsewhere-trans, Sound, Tracked, Open, Ranged, Kept, Idle, Counted, live_pages, owner, cur_vblock,
}
use issd.Firmware.Greedy.Gc.{garbage_collection, get_vt_vblock}
use issd.Firmware.Greedy.Gc.Collect.{garbage_collection-Kept, get_vt_vblock-least}
use issd.Firmware.Greedy.Write.{close_block, assign_new_write_vpn, set_new_write_vpn}
use issd.Firmware.Greedy.Write.Close.{
  close_block-Closed, close_block-Ranged, close_block-stored, close_block-Elsewhere, closed-buffers,
  counts_t, map_t,
}

module _ (hw : Nand) where
  open hw use {State, page, Blank}

  module _ (s : Greedy State) (bank n : ℕ) (i : Idle hw s bank n)
      (more : n < pages_per_vblk - 1) where
    abbrev t : Greedy State
    t = set_new_write_vpn hw s bank ((s.misc bank).cur_write_vpn + 1)

    misc_t : t.misc bank ≡ record (s.misc bank) { cur_write_vpn = (s.misc bank).cur_write_vpn + 1 }
    misc_t = update-same s.misc bank _

    cur_t : cur_vblock hw t bank ≡ cur_vblock hw s bank
    cur_t = ap (λ m. m.cur_write_vpn / pages_per_vblk) misc_t ∙ (let e = i.at in omega arith)

    list_t : (p : ℕ) → (t.misc bank).lpn_list p ≡ (s.misc bank).lpn_list p
    list_t p = ap (λ m. m.lpn_list p) misc_t

    same_owner : (v p : ℕ) → owner hw t bank v p ≡ owner hw s bank v p
    same_owner v p =
        ap (λ c. if v == c then (t.misc bank).lpn_list p else listed hw s.nand bank v p) cur_t
        ∙ ap (λ l. if v == cur_vblock hw s bank then l else listed hw s.nand bank v p) (list_t p)

    bound_t :
        (v : ℕ)
        → (if v == cur_vblock hw t bank then n else pages_per_vblk - 1)
          ≡ (if v == cur_vblock hw s bank then n else pages_per_vblk - 1)
    bound_t v = ap (λ c. if v == c then n else pages_per_vblk - 1) cur_t

    gc_t : (t.misc bank).gc_vblock ≡ (s.misc bank).gc_vblock
    gc_t = ap (λ m. m.gc_vblock) misc_t

    next-Sound : Sound hw t bank
    next-Sound =
        let sound = i.open_block.sound in
        record {
          gc_positive = subst (λ g. 0 < g) (sym gc_t) sound.gc_positive;
          gc_count = ap (vcount_of s bank) gc_t ∙ sound.gc_count;
          gc_blank = λ p b.
              subst (λ g. Blank s.nand bank (g * pages_per_vblk + p)) (sym gc_t)
                (sound.gc_blank p b);
          positive = sound.positive;
          in_word = sound.in_word;
          low = sound.low;
          in_counted = sound.in_counted;
        }

    next-Tracked :
        Tracked hw t bank
          (owner hw t bank)
          (λ v. if v == cur_vblock hw t bank then n else pages_per_vblk - 1)
    next-Tracked =
        let lists = i.open_block.lists in
        record {
          owned = λ l mine m. same_owner _ _ ∙ lists.owned l mine m;
          below = λ l mine m.
              subst (λ k. vpn_of s l % pages_per_vblk < k) (sym (bound_t _)) (lists.below l mine m);
          of_bank = λ v p h b.
              ap get_num_bank (same_owner v p)
              ∙ lists.of_bank v p h (subst (λ k. p < k) (bound_t v) b);
          exact = λ v h.
              lists.exact v h
              ∙ sym (
                  ap (live_pages hw t (owner hw t bank v) v) (bound_t v)
                  ∙ count-cong _ _ 0 _
                      (λ p f b. ap (λ l. vpn_of s l == v * pages_per_vblk + p) (same_owner v p)));
        }

    next-Kept : Kept hw s bank n t
    next-Kept =
        let o = i.open_block in
        record {
          open_block = record {
            sound = next-Sound;
            lists = next-Tracked;
            cur_counted = subst (Counted hw s bank) (sym cur_t) o.cur_counted;
            words = λ p b. subst (λ w. w < u32) (sym (list_t p)) (o.words p b);
            cur_blank = λ p f b.
                subst (λ c. Blank s.nand bank (c * pages_per_vblk + p)) (sym cur_t)
                  (o.cur_blank p f b);
            free = ap (λ m. m.free_blk_cnt) misc_t ∙ o.free;
          };
          at =
              ap (λ m. m.cur_write_vpn) misc_t
              ∙ i.at
              ∙ ap (λ c. c * pages_per_vblk + n) (sym cur_t);
          same = λ l a b. refl;
          mapped = λ l. refl;
          elsewhere = record {
            map_of = λ l o. refl;
            page_of = λ b r a o. refl;
            blank_of = λ b r o e. e;
            misc_of = λ b o. update-other s.misc bank _ b o;
            counts_of = λ b o. refl;
          };
          buffers = (refl, refl);
        }

    next-Ranged : Ranged hw s bank (owner hw s bank) → Ranged hw t bank (owner hw t bank)
    next-Ranged ranged = record {
      bank_lt = ranged.bank_lt;
      gc_data = ap data_block gc_t ∙ ranged.gc_data;
      gc_good = ap (s.bad_blk bank) gc_t ∙ ranged.gc_good;
      in_data = ranged.in_data;
      good = ranged.good;
      pages = λ v p h b. subst (λ l. l < num_lpages) (sym (same_owner v p)) (ranged.pages v p h b);
    }

  -- The bank is open again, with a page that is to be written.
  abbrev pub Assigned : Greedy State → ℕ → Option (Greedy State) → Type 0
  Assigned s bank r =
      (t : Greedy State) × (k : ℕ) × (r ≡ some t)
      × (k < pages_per_vblk - 1)
      × Kept hw s bank k t
      × Ranged hw t bank (owner hw t bank)

  -- The collection behind the last page of a block.
  closed-Assigned :
      (mu : MemUtil) (s : Greedy State) (bank v : ℕ)
      → Open hw s bank (pages_per_vblk - 1)
      → Ranged hw s bank (owner hw s bank)
      → v < vblks_per_bank
      → vcount_of s bank v < pages_per_vblk - 2
      → Assigned s bank
          (garbage_collection hw mu (close_block hw s bank (cur_vblock hw s bank)) bank)
  closed-Assigned mu s bank v o ranged b h =
      let s' = close_block hw s bank (cur_vblock hw s bank) in
      let h' =
        subst (λ (f : ℕ → ℕ → ℕ). f bank v < pages_per_vblk - 2) (sym (counts_t hw s bank o)) h in
      let (t, run, kept, ranged_t) =
        garbage_collection-Kept hw mu s' bank v (close_block-Closed hw s bank o)
          (close_block-Ranged hw s bank o ranged) b h' in
      let least = get_vt_vblock-least hw mu s' bank v b in
      (
        t,
        vcount_of s' bank (get_vt_vblock hw mu s' bank),
        run,
        omega arith,
        record {
          open_block = kept.open_block;
          at = kept.at;
          same = λ l a b. kept.same l a b ∙ close_block-stored hw s bank o l a;
          mapped = λ l. kept.mapped l ∙ ap (λ v. v == 0) (map_t hw s bank o l);
          elsewhere =
              Elsewhere-trans hw s s' t bank (close_block-Elsewhere hw s bank o) kept.elsewhere;
          buffers =
              let (w, i) = closed-buffers hw s bank o in (kept.buffers.0 ∙ w, kept.buffers.1 ∙ i);
        },
        ranged_t,
      )

  -- In a bank where a block has less than 126 valid pages by its count, `assign_new_write_vpn` returns.
  pub assign_new_write_vpn-Assigned :
      (mu : MemUtil) (s : Greedy State) (bank n v : ℕ)
      → Idle hw s bank n
      → Ranged hw s bank (owner hw s bank)
      → v < vblks_per_bank
      → vcount_of s bank v < pages_per_vblk - 2
      → Assigned s bank (assign_new_write_vpn hw mu s bank)
  unfolding assign_new_write_vpn
  assign_new_write_vpn-Assigned mu s bank n v i ranged b h =
      elim (Bool-cases ((s.misc bank).cur_write_vpn % pages_per_vblk == pages_per_vblk - 2)) [
        | inr more ↦
            let less : n < pages_per_vblk - 1 = let e = i.at in let f = i.bound in ground arith in
            rw (assign_new_write_vpn, more)
              (_, n, refl, less, next-Kept s bank n i less, next-Ranged s bank n i less ranged)
        | inl full ↦
            let whole : n ≡ pages_per_vblk - 1 = let e = i.at in let f = i.bound in ground arith in
            let o = subst (Open hw s bank) whole i.open_block in
            let (t, k, run, less, kept, ranged_t) = closed-Assigned mu s bank v o ranged b h in
            let free = (close_block-Closed hw s bank o).free in
            rw (assign_new_write_vpn, full, free) (t, k, run, less, kept, ranged_t)
      ]
