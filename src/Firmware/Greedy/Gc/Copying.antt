-- ===== src/Firmware/Greedy/Gc/Copying.antt =====
-- ftl_greedy/ftl.c (garbage_collection): what holds between the copies of pages.
use issd.Base.{
  ℕ, ◌+◌, ◌-◌, ◌*◌, ◌/◌, ◌%◌, ◌<◌, ◌≤◌, ◌≡◌, ◌≢◌, ap, ◌∙◌, Bool, false, ◌==◌, arith, not-==→≢,
}
use issd.Firmware.Layout.{pages_per_vblk}
use issd.Firmware.Nand.{Nand}
use issd.Firmware.Greedy.{Greedy, get_num_bank, set_lpn, vpn_of, put_vpn, page_copyback}

module _ (hw : Nand) where
  open hw use {State, page, Blank, program, page-program, page-program_ne, Blank-program_ne}

  abbrev pub entry : Greedy State → ℕ → ℕ → ℕ
  entry s bank p = (s.misc bank).lpn_list p

  -- The pages of the victim before `i` are done, `q` of them were copied to the block `gc`.
  pub record Copying (s : Greedy State) (bank vt gc i q : ℕ) : Type 0 where
    pub apart : (gc == vt) ≡ false
    pub fits : q ≤ i
    pub blank : (p : ℕ) → q ≤ p → p < pages_per_vblk → Blank s.nand bank (gc * pages_per_vblk + p)
    pub own : (p : ℕ) → i ≤ p → p < pages_per_vblk - 1 → get_num_bank (entry s bank p) ≡ bank
    pub live :
        (p : ℕ)
        → p < q
        → (get_num_bank (entry s bank p) ≡ bank)
          × (vpn_of s (entry s bank p) ≡ gc * pages_per_vblk + p)
    pub copied :
        (l : ℕ)
        → get_num_bank l ≡ bank
        → vpn_of s l / pages_per_vblk ≡ gc
        → (vpn_of s l % pages_per_vblk < q) × (entry s bank (vpn_of s l % pages_per_vblk) ≡ l)
    pub waiting :
        (l : ℕ)
        → get_num_bank l ≡ bank
        → vpn_of s l / pages_per_vblk ≡ vt
        → (i ≤ vpn_of s l % pages_per_vblk)
          × (vpn_of s l % pages_per_vblk < pages_per_vblk - 1)
          × (entry s bank (vpn_of s l % pages_per_vblk) ≡ l)

  -- The test of `garbage_collection`: the page is still that of its logical page.
  abbrev pub is_valid : Greedy State → ℕ → ℕ → ℕ → Bool
  is_valid s bank vt p = vpn_of s (entry s bank p) == vt * pages_per_vblk + p

  -- The copy of a valid page, and its entries in the map and in the list.
  abbrev pub copy_page : Greedy State → ℕ → ℕ → ℕ → ℕ → Greedy State
  copy_page s bank vt src_page free_vpn =
      let src_lpn = entry s bank src_page in
      let s' = record s {
        nand =
            page_copyback hw s.nand bank vt src_page (free_vpn / pages_per_vblk)
              (free_vpn % pages_per_vblk);
      } in
      set_lpn (put_vpn s' src_lpn free_vpn) bank (free_vpn % pages_per_vblk) src_lpn

  pub Copying-skip :
      (s : Greedy State) (bank vt gc i q : ℕ)
      → is_valid s bank vt i ≡ false
      → Copying s bank vt gc i q
      → Copying s bank vt gc (i + 1) q
  Copying-skip s bank vt gc i q h c = record {
    apart = c.apart;
    fits = let fits = c.fits in omega arith;
    blank = c.blank;
    own = λ p f b. c.own p (omega arith) b;
    live = c.live;
    copied = c.copied;
    waiting = λ l b at.
        let (f, r, e) = c.waiting l b at in
        let later : i ≢ vpn_of s l % pages_per_vblk = λ same.
          let listed : entry s bank i ≡ l = ap (entry s bank) same ∙ e in
          let here : vpn_of s (entry s bank i) ≡ vt * pages_per_vblk + i =
            ap (vpn_of s) listed ∙ omega arith in
          not-==→≢ _ _ h here in
        (omega arith, r, e);
  }
