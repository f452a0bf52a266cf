-- ===== src/Firmware/Greedy/Gc/Asserted.antt =====
-- ftl_greedy/ftl.c (garbage_collection): the ASSERTs on the blocks and on the victim's list hold.
use issd.Base.{
  ltb, ℕ, ◌+◌, ◌-◌, ◌/◌, ◌<◌, ◌≤◌, ◌≡◌, refl, ap, ◌∙◌, true, false, zero, suc, Bool-cases, inl, inr,
  ◌==◌, arith, not-==→≢, ne→not-==, update, update-same,
}
use issd.Firmware.Layout.{pages_per_vblk, num_banks, num_lpages}
use issd.Firmware.Nand.{Nand}
use issd.Firmware.Greedy.{
  Greedy, vc_max, check_vpage, get_num_bank, vpn_of, vcount_of, list_of, list_sectors, page_ptread,
  set_misc,
}
use issd.Firmware.Greedy.Lists.{listed, list_of-page_ptread}
use issd.Firmware.Greedy.Bank.{Closed, Ranged, Counted}
use issd.Firmware.Greedy.Gc.{blocks_asserted, pages_asserted}
use issd.Firmware.Greedy.Gc.Copying.{entry}

module _ (hw : Nand) where
  open hw use {State}

  -- The state in which the list of the victim is read.
  abbrev pub victim_listed : Greedy State → ℕ → ℕ → Greedy State
  victim_listed s bank vt =
      let buf =
        page_ptread hw s.nand bank vt (pages_per_vblk - 1) 0 list_sectors (s.ftl_buf bank) in
      let s' = record s {
        gc_cnt = update s.gc_cnt bank (s.gc_cnt bank + 2);
        ftl_buf = update s.ftl_buf bank buf;
      } in
      set_misc s' bank (record (s.misc bank) { lpn_list = list_of buf })

  pub entry_victim :
      (s : Greedy State) (bank vt : ℕ) (p : ℕ)
      → p < pages_per_vblk
      → entry hw (victim_listed s bank vt) bank p ≡ listed hw s.nand bank vt p
  entry_victim s bank vt p b =
      ap (λ m. m.lpn_list p) (update-same s.misc bank _)
      ∙ list_of-page_ptread hw s.nand bank vt (s.ftl_buf bank) p b

  module _ (s : Greedy State) (bank vt : ℕ) (c : Closed hw s bank)
      (small : vcount_of s bank vt < pages_per_vblk - 2) where
    abbrev gc : ℕ
    gc = (s.misc bank).gc_vblock

    pub victim_busy : Counted hw s bank vt
    victim_busy = ground arith

    module _ (ranged : Ranged hw s bank (listed hw s.nand bank)) where
      pub blocks : blocks_asserted hw s bank vt ≡ true
      unfolding blocks_asserted
      blocks =
          let lt : ltb bank num_banks ≡ true = let h = ranged.bank_lt in ground arith in
          let apart : (vt == gc) ≡ false =
            ne→not-== vt gc
              (λ e. not-==→≢ _ _ victim_busy (ap (vcount_of s bank) e ∙ c.sound.gc_count)) in
          let few : ltb (vcount_of s bank vt) (pages_per_vblk - 1) ≡ true = ground arith in
          let free : (vcount_of s bank gc == vc_max) ≡ true =
            ap (λ x. x == vc_max) c.sound.gc_count in
          rw
            (
              lt,
              ranged.in_data vt victim_busy,
              ranged.gc_data,
              apart,
              few,
              free,
              ranged.good vt victim_busy,
              ranged.gc_good,
            )
            refl

      in_bank : (l : ℕ) → get_num_bank l ≡ bank → check_vpage (vpn_of s l) ≡ true
      in_bank l mine = elim (Bool-cases (vpn_of s l == 0)) [
        | inl missing ↦ ground arith
        | inr there ↦
            let below =
              ranged.in_data (vpn_of s l / pages_per_vblk)
                (c.sound.in_counted l mine (not-==→≢ _ _ there)) in
            ground arith
      ]

      pub pages :
          (n p : ℕ)
          → n + p ≤ pages_per_vblk - 1
          → pages_asserted hw n (victim_listed s bank vt) bank p ≡ true
      unfolding pages_asserted
      pages zero p h = refl
      pages (suc n) p h =
          let e = entry_victim s bank vt p (omega arith) in
          let l = listed hw s.nand bank vt p in
          let lt : ltb l num_lpages ≡ true =
            let b = ranged.pages vt p victim_busy (omega arith) in ground arith in
          let mine = c.lists.of_bank vt p victim_busy (omega arith) in
          rw (pages_asserted, e, lt, in_bank l mine) (pages n (p + 1) (omega arith))
