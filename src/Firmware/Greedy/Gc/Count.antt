-- ===== src/Firmware/Greedy/Gc/Count.antt =====
-- ftl_greedy/ftl.c: the pages of the victim that are still valid, and the copy of one.
use issd.Base.{
  ℕ, ◌+◌, ◌-◌, ◌*◌, ◌<◌, ◌≡◌, sym, ap, ◌∙◌, true, false, ◌==◌, arith, Bool-cases, inl, inr, ==→≡,
}
use issd.Firmware.Layout.{pages_per_vblk}
use issd.Firmware.Nand.{Nand}
use issd.Firmware.Greedy.{Greedy, vpn_of}
use issd.Firmware.Greedy.Gc.Copying.{Copying, is_valid, entry}
use issd.Firmware.Greedy.Gc.Copy.{next, free, map_here, map_new, map_kept, entry_kept}
use issd.Firmware.Greedy.Count.{count}

module _ (hw : Nand) where
  open hw use {State}

  -- The number of the pages of the victim from `i` on that `garbage_collection` will copy, of `n`.
  abbrev pub valid_pages : Greedy State → ℕ → ℕ → ℕ → ℕ → ℕ
  valid_pages s bank vt i n = count (is_valid hw s bank vt) i n

  -- The copy of a page leaves the tests of the later pages.
  pub is_valid-copy :
      (s : Greedy State) (bank vt gc i q : ℕ) (c : Copying hw s bank vt gc i q)
      (h : is_valid hw s bank vt i ≡ true) (bound : i < pages_per_vblk - 1) (p : ℕ)
      → i < p
      → p < pages_per_vblk
      → is_valid hw (next hw s bank vt gc i q c h bound) bank vt p ≡ is_valid hw s bank vt p
  is_valid-copy s bank vt gc i q c h bound p f b =
      let t = next hw s bank vt gc i q c h bound in
      let fits = c.fits in
      let apart = c.apart in
      let e = entry_kept hw s bank vt gc i q c h bound p (ground arith) in
      elim (Bool-cases (entry hw s bank i == entry hw s bank p)) [
        | inl same ↦
            let new = map_new hw s bank vt gc i q c h bound (entry hw s bank p) same in
            let old =
              ap (vpn_of s) (sym (==→≡ _ _ same)) ∙ map_here hw s bank vt gc i q c h bound in
            let before : is_valid hw s bank vt p ≡ false = ground arith in
            let after : (free hw s bank vt gc i q c h bound == vt * pages_per_vblk + p) ≡ false =
              ground arith in
            ap (λ l. vpn_of t l == vt * pages_per_vblk + p) e
            ∙ ap (λ v. v == vt * pages_per_vblk + p) new
            ∙ after
            ∙ sym before
        | inr other ↦
            let kept = map_kept hw s bank vt gc i q c h bound (entry hw s bank p) other in
            ap (λ l. vpn_of t l == vt * pages_per_vblk + p) e
            ∙ ap (λ v. v == vt * pages_per_vblk + p) kept
      ]
