-- ===== src/Firmware/Greedy/Write/Asserted.antt =====
-- ftl_greedy/ftl.c (write_page): the ASSERTs on the old and the new page hold.
use issd.Base.{
  and-false, Bool, not, ◌||◌, ltb, lt→ltb, ℕ, ◌+◌, ◌-◌, ◌*◌, ◌/◌, ◌%◌, ◌<◌, ◌≤◌, ◌≡◌, ◌≢◌, refl,
  sym, ap, ◌∙◌, subst, true, false, ◌&&◌, ◌==◌, Bytes, if◌then◌else◌, arith, Bool-cases, inl, inr,
  ==→≡, ==-refl, not-==→≢, ne→not-==,
}
use issd.Firmware.Layout.{pages_per_vblk, num_lpages}
use issd.Firmware.Nand.{Nand}
use issd.Firmware.Greedy.{Greedy, get_num_bank, vpn_of, vcount_of, data_block, check_vpage}
use issd.Firmware.Greedy.Count.{count-le}
use issd.Firmware.Greedy.Write.Exact.{count_old}
use issd.Firmware.Greedy.Bank.{live_pages, Counted, Ranged, owner, cur_vblock}
use issd.Firmware.Greedy.Write.{vpns_asserted}
use issd.Firmware.Greedy.Write.Step.{Step, new-div, new-mod, count_bound, count_was, gc_t}
use issd.Firmware.Greedy.Write.Entries.{owner_new, owner_kept}

module _ (hw : Nand) where
  open hw use {State}

  module _ {s : Greedy State} {lpn k : ℕ} {content : Bytes} {t : Greedy State}
      (r : Step hw s lpn k content t) where
    abbrev bank : ℕ
    bank = get_num_bank lpn

    abbrev cur : ℕ
    cur = cur_vblock hw s bank

    abbrev new : ℕ
    new = cur * pages_per_vblk + k

    abbrev old : ℕ
    old = vpn_of s lpn

    pub new_positive : 0 < new
    new_positive = let h = r.open_block.sound.positive cur r.open_block.cur_counted in omega arith

    -- No logical page of the bank is there yet.
    pub new_unused : (l : ℕ) → (get_num_bank l == bank && vpn_of s l == new) ≡ false
    new_unused l = elim (Bool-cases (get_num_bank l == bank)) [
      | inr other ↦ rw other refl
      | inl mine ↦
          let unused : vpn_of s l ≢ new = λ e.
            let pos = new_positive in
            let below = r.open_block.lists.below l (==→≡ _ _ mine) (λ z. absurd (omega arith)) in
            let at : vpn_of s l / pages_per_vblk ≡ cur =
              ap (λ x. x / pages_per_vblk) e ∙ new-div hw r in
            let off : vpn_of s l % pages_per_vblk ≡ k =
              ap (λ x. x % pages_per_vblk) e ∙ new-mod hw r in
            let bound =
              ap (λ v. if v == cur then k else pages_per_vblk - 1) at
              ∙ ap (λ c. if c then k else pages_per_vblk - 1) (==-refl cur) in
            absurd (omega arith) in
          and-false (get_num_bank l == bank) (ne→not-== _ _ unused)
    ]

    count_cur : vcount_of s bank cur ≤ k
    count_cur =
        let exact =
          r.open_block.lists.exact cur r.open_block.cur_counted
          ∙ ap (live_pages hw s (owner hw s bank cur) cur)
              (ap (λ c. if c then k else pages_per_vblk - 1) (==-refl cur)) in
        let most =
          count-le (λ p. vpn_of s (owner hw s bank cur p) == cur * pages_per_vblk + p) 0 k in
        omega arith

    one_less :
        (c : Bool) (x : ℕ)
        → x < pages_per_vblk - 1
        → ltb (if c then x - 1 else x) (pages_per_vblk - 1) ≡ true
    one_less c x h = ground arith

    -- The ASSERTs on the old page hold.
    asserted_old :
        ((v : ℕ) → Counted hw s bank v → data_block v ≡ true)
        → (check_vpage old ≡ true)
          × ((old == 0
                || data_block (old / pages_per_vblk)
                  && ltb 0 (vcount_of s bank (old / pages_per_vblk))
                  && ltb (vcount_of s bank (old / pages_per_vblk)) pages_per_vblk)
              ≡ true)
    asserted_old in_data = elim (Bool-cases (old == 0)) [
      | inl missing ↦ (ground arith, rw missing refl)
      | inr there ↦
          let had = not-==→≢ old 0 there in
          let counted = r.open_block.sound.in_counted lpn refl had in
          let d = in_data (old / pages_per_vblk) counted in
          let most = count_bound hw r (old / pages_per_vblk) counted in
          let one = count_old hw r had in
          let some_left : ltb 0 (vcount_of s bank (old / pages_per_vblk)) ≡ true =
            lt→ltb 0 _ (omega arith) in
          let low : ltb (vcount_of s bank (old / pages_per_vblk)) pages_per_vblk ≡ true =
            lt→ltb _ pages_per_vblk (omega arith) in
          (ground arith, rw (there, d, some_left, low) refl)
    ]

    -- The ASSERTs on the two pages hold.
    pub asserted :
        ((v : ℕ) → Counted hw s bank v → data_block v ≡ true) → vpns_asserted hw s lpn new ≡ true
    unfolding vpns_asserted
    asserted in_data =
        let (old_vpn, old_block) = asserted_old in_data in
        let d = in_data cur r.open_block.cur_counted in
        let small = r.small in
        let few = count_cur in
        let new_vpn : check_vpage new ≡ true = ground arith in
        let apart : (old == new) ≡ false =
          ap (λ c. c && old == new) (sym (==-refl bank)) ∙ new_unused lpn in
        let left =
          one_less (not (old == 0) && old / pages_per_vblk == cur) (vcount_of s bank cur)
            (omega arith) in
        rw (new-div hw r, old_vpn, new_vpn, apart, old_block, d, left) refl

    -- The ASSERTs accept the bank again.
    pub step-Ranged :
        lpn < num_lpages → Ranged hw s bank (owner hw s bank) → Ranged hw t bank (owner hw t bank)
    step-Ranged page ranged =
        let bad : (v : ℕ) → t.bad_blk bank v ≡ s.bad_blk bank v =
          λ v. ap (λ (f : ℕ → ℕ → Bool). f bank v) r.commit.bad_new in
        record {
          bank_lt = ranged.bank_lt;
          gc_data = ap data_block (gc_t hw r) ∙ ranged.gc_data;
          gc_good = bad (t.misc bank).gc_vblock ∙ ap (s.bad_blk bank) (gc_t hw r) ∙ ranged.gc_good;
          in_data = λ v h. ranged.in_data v (count_was hw r v h);
          good = λ v h. bad v ∙ ranged.good v (count_was hw r v h);
          pages = λ v p h less. elim (Bool-cases (v == cur && p == k)) [
            | inl here ↦
                let at : v ≡ cur = ground arith in
                let off : p ≡ k = ground arith in
                subst (λ l. l < num_lpages)
                  (sym (
                    ap (λ x. owner hw t bank x p) at
                    ∙ ap (owner hw t bank cur) off
                    ∙ owner_new hw r))
                  page
            | inr other ↦
                subst (λ l. l < num_lpages) (sym (owner_kept hw r v p other (omega arith)))
                  (ranged.pages v p (count_was hw r v h) less)
          ];
        }
