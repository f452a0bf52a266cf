-- ===== src/Firmware/Greedy/Write/Opened.antt =====
-- ftl_greedy/ftl.c (write_page): the bank after a write, with one more page in its current block.
use issd.Base.{
  and-false, u32, ℕ, ◌+◌, ◌-◌, ◌*◌, ◌/◌, ◌%◌, ◌<◌, ◌≤◌, ◌≡◌, ◌≢◌, ◌⊎◌, sym, ap, ◌∙◌, subst, false,
  ◌==◌, Bytes, if◌then◌else◌, arith, Bool-cases, inl, inr, ==→≡, not-==→≢, ne→not-==,
}
use issd.Firmware.Layout.{pages_per_vblk}
use issd.Firmware.Nand.{Nand}
use issd.Firmware.Greedy.{Greedy, get_num_bank, vpn_of, vcount_of}
use issd.Firmware.Greedy.Bank.{Sound, Tracked, Open, Idle, Counted, owner, cur_vblock}
use issd.Firmware.Greedy.Write.Step.{
  Step, new-div, new-mod, map_here, map_there, cur_t, gc_t, list_t, count_idle, count_busy,
  count_was,
}
use issd.Firmware.Greedy.Write.Entries.{row_t, owner_new, owner_kept, bound_t}
use issd.Firmware.Greedy.Write.Exact.{exact_t, not_here, bound_after-cur, bound_after-other}

module _ (hw : Nand) where
  open hw use {State, page, Blank, program, page-program_ne, Blank-program_ne}

  module _ {s : Greedy State} {lpn k : ℕ} {content : Bytes} {t : Greedy State}
      (r : Step hw s lpn k content t) where
    abbrev bank : ℕ
    bank = get_num_bank lpn

    abbrev cur : ℕ
    cur = cur_vblock hw s bank

    abbrev new : ℕ
    new = cur * pages_per_vblk + k

    abbrev old : ℕ
    old = vpn_of s lpn

    abbrev bound : ℕ → ℕ
    bound v = if v == cur then k else pages_per_vblk - 1

    abbrev bound_after : ℕ → ℕ
    bound_after v = if v == cur_vblock hw t bank then k + 1 else pages_per_vblk - 1

    blank_t : (row : ℕ) → row ≢ new → Blank s.nand bank row → Blank t.nand bank row
    blank_t row other e =
        subst (λ n. Blank n bank row) (sym (row_t hw r))
          (Blank-program_ne s.nand bank new content bank row
            (and-false (bank == bank) (ne→not-== _ _ other)) e)

    gc_other : (s.misc bank).gc_vblock ≢ cur
    gc_other e =
        not-==→≢ _ _ r.open_block.cur_counted
          (ap (vcount_of s bank) (sym e) ∙ r.open_block.sound.gc_count)

    -- A logical page of the bank is the one that is written, or it is where it was.
    page_t :
        (l : ℕ)
        → vpn_of t l ≢ 0
        → ((lpn ≡ l) × (vpn_of t l ≡ new))
          ⊎ (((lpn == l) ≡ false) × (vpn_of t l ≡ vpn_of s l) × (vpn_of s l ≢ 0))
    page_t l m = elim (Bool-cases (lpn == l)) [
      | inl same ↦ let at = ==→≡ lpn l same in inl (at, ap (vpn_of t) (sym at) ∙ map_here hw r)
      | inr other ↦ let e = map_there hw r l other in inr (other, e, (λ z. m (e ∙ z)))
    ]

    open-Sound : Sound hw t bank
    open-Sound =
        let sound = r.open_block.sound in
        let small = r.small in
        record {
          gc_positive = subst (λ g. 0 < g) (sym (gc_t hw r)) sound.gc_positive;
          gc_count = ap (vcount_of t bank) (gc_t hw r) ∙ count_idle hw r _ sound.gc_count;
          gc_blank = λ p b.
              subst (λ g. Blank t.nand bank (g * pages_per_vblk + p)) (sym (gc_t hw r))
                (blank_t ((s.misc bank).gc_vblock * pages_per_vblk + p)
                  (λ e. gc_other (omega arith)) (sound.gc_blank p b));
          positive = λ v h. sound.positive v (count_was hw r v h);
          in_word = λ l mine m. elim (page_t l m) [
            | inl (at, e) ↦ subst (λ x. x < u32) at r.word
            | inr (other, e, m') ↦ sound.in_word l mine m'
          ];
          low = λ l mine m. elim (page_t l m) [
            | inl (at, e) ↦ let d = new-mod hw r in omega arith
            | inr (other, e, m') ↦
                let low = sound.low l mine m' in
                subst (λ x. x % pages_per_vblk < pages_per_vblk - 1) (sym e) low
          ];
          in_counted = λ l mine m. elim (page_t l m) [
            | inl (at, e) ↦
                subst (Counted hw t bank) (sym (ap (λ x. x / pages_per_vblk) e ∙ new-div hw r))
                  (count_busy hw r cur r.open_block.cur_counted)
            | inr (other, e, m') ↦
                subst (λ x. Counted hw t bank (x / pages_per_vblk)) (sym e)
                  (count_busy hw r _ (sound.in_counted l mine m'))
          ];
        }

    -- The place of a page of the lists after the write.
    place_t : (v p : ℕ) → p < bound_after v → ((v ≡ cur) × (p ≡ k)) ⊎ (p < bound v)
    place_t v p b = elim (Bool-cases (cur == v)) [
      | inl same ↦
          let at = ==→≡ cur v same in
          let e = ap bound_after (sym at) ∙ bound_after-cur hw r in
          elim (Bool-cases (p == k)) [
            | inl last ↦ inl (sym at, ==→≡ p k last)
            | inr before ↦ inr (ground arith)
          ]
      | inr other ↦ inr (subst (λ n. p < n) (bound_after-other hw r v other) b)
    ]

    bound-grows : (v : ℕ) → bound v ≤ bound_after v
    bound-grows v = subst (λ n. bound v ≤ n) (sym (bound_t hw r v)) (ground arith)

    open-Tracked : Tracked hw t bank (owner hw t bank) bound_after
    open-Tracked =
        let lists = r.open_block.lists in
        record {
          owned = λ l mine m. elim (page_t l m) [
            | inl (at, e) ↦
                ap (λ x. owner hw t bank (x / pages_per_vblk) (x % pages_per_vblk)) e
                ∙ ap (λ v. owner hw t bank v (new % pages_per_vblk)) (new-div hw r)
                ∙ ap (owner hw t bank cur) (new-mod hw r)
                ∙ owner_new hw r
                ∙ at
            | inr (other, e, m') ↦
                ap (λ x. owner hw t bank (x / pages_per_vblk) (x % pages_per_vblk)) e
                ∙ owner_kept hw r _ _ (not_here hw r _ _ (lists.below l mine m')) (omega arith)
                ∙ lists.owned l mine m'
          ];
          below = λ l mine m. elim (page_t l m) [
            | inl (at, e) ↦
                subst (λ x. x % pages_per_vblk < bound_after (x / pages_per_vblk)) (sym e)
                  (subst (λ v. new % pages_per_vblk < bound_after v) (sym (new-div hw r))
                    (subst (λ n. new % pages_per_vblk < n) (sym (bound_after-cur hw r))
                      (let d = new-mod hw r in omega arith)))
            | inr (other, e, m') ↦
                let below = lists.below l mine m' in
                let grows = bound-grows (vpn_of s l / pages_per_vblk) in
                subst (λ x. x % pages_per_vblk < bound_after (x / pages_per_vblk)) (sym e)
                  (omega arith)
          ];
          of_bank = λ v p h b. elim (place_t v p b) [
            | inl (at, last) ↦
                ap (λ x. get_num_bank (owner hw t bank x p)) at
                ∙ ap (λ x. get_num_bank (owner hw t bank cur x)) last
                ∙ ap get_num_bank (owner_new hw r)
            | inr b' ↦
                let small = r.small in
                let most : p < pages_per_vblk = ground arith in
                ap get_num_bank (owner_kept hw r v p (not_here hw r v p b') most)
                ∙ lists.of_bank v p (count_was hw r v h) b'
          ];
          exact = exact_t hw r;
        }

    after_step : Open hw t bank (k + 1)
    after_step = record {
      sound = open-Sound;
      lists = open-Tracked;
      cur_counted =
          subst (Counted hw t bank) (sym (cur_t hw r))
            (count_busy hw r cur r.open_block.cur_counted);
      words = λ p b.
          subst (λ w. w < u32) (sym (list_t hw r p))
            (let word = r.word in
              elim (Bool-cases (k == p)) [
                | inl last ↦ rw last word
                | inr before ↦ rw before (r.open_block.words p (ground arith))
              ]);
      cur_blank = λ p f b.
          subst (λ c. Blank t.nand bank (c * pages_per_vblk + p)) (sym (cur_t hw r))
            (blank_t (cur * pages_per_vblk + p) (λ e. absurd (omega arith))
              (r.open_block.cur_blank p (omega arith) b));
      free = ap (λ m. m.free_blk_cnt) r.commit.misc_new ∙ r.open_block.free;
    }

    -- The bank is as it has to be between two writes.
    pub step-Idle : (s.misc bank).cur_write_vpn ≡ new → Idle hw t bank (k + 1)
    step-Idle at = record {
      open_block = after_step;
      at =
          let e = ap (λ m. m.cur_write_vpn) r.commit.misc_new in
          let c = ap (λ c. c * pages_per_vblk + (k + 1)) (cur_t hw r) in omega arith;
      bound = let small = r.small in omega arith;
    }
