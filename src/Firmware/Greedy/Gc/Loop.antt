-- ===== src/Firmware/Greedy/Gc/Loop.antt =====
-- ftl_greedy/ftl.c (garbage_collection): the loop that copies the valid pages of the victim.
use issd.Base.{
  and-false, ℕ, zero, suc, ◌+◌, ◌-◌, ◌*◌, ◌/◌, ◌<◌, ◌≤◌, ◌≡◌, refl, ap, ◌∙◌, subst, true, false,
  ◌==◌, arith, Bool-cases, inl, inr,
}
use issd.Firmware.Layout.{bytes_per_page, pages_per_vblk}
use issd.Firmware.Nand.{Nand}
use issd.Firmware.Greedy.{Greedy, get_num_bank, vpn_of}
use issd.Firmware.Greedy.Gc.{copy_valid}
use issd.Firmware.Greedy.Bank.{stored}
use issd.Firmware.Greedy.Gc.Copying.{Copying, Copying-skip, is_valid, entry}
use issd.Firmware.Greedy.Gc.Copy.{Copying-copy, stored-copy, next, free-div, map_new, map_kept}
use issd.Firmware.Greedy.Count.{count-none, count-pass, count-fail, count-cong}
use issd.Firmware.Greedy.Gc.Count.{valid_pages, is_valid-copy}
use issd.Firmware.Greedy.Gc.Confined.{Confined, Confined-refl, Confined-trans, Confined-copy}

module _ (hw : Nand) where
  open hw use {State, page, Blank, program, page-program, page-program_ne, Blank-program_ne}

  -- What the loop over `n` pages from `i` on comes to, with `q` pages copied before.
  pub record Copied (s : Greedy State) (bank vt gc i q n : ℕ) (r : ℕ × Greedy State) : Type 0 where
    pub end : r.0 ≡ gc * pages_per_vblk + (q + valid_pages hw s bank vt i n)
    pub copying : Copying hw r.1 bank vt gc (i + n) (q + valid_pages hw s bank vt i n)
    pub same : (l a : ℕ) → a < bytes_per_page → stored hw r.1 l a ≡ stored hw s l a
    pub confined : Confined hw s bank vt gc r.1
    pub moved :
        (l : ℕ)
        → get_num_bank l ≡ bank
        → vpn_of s l / pages_per_vblk ≡ vt
        → i + n ≡ pages_per_vblk - 1
        → vpn_of r.1 l / pages_per_vblk ≡ gc

  -- The page `i` is not valid: the loop goes on with the next.
  Copied-skip :
      (n : ℕ) (s : Greedy State) (bank vt gc i q : ℕ)
      → is_valid hw s bank vt i ≡ false
      → (r : ℕ × Greedy State) → Copied s bank vt gc (i + 1) q n r
      → Copied s bank vt gc i q (suc n) r
  Copied-skip n s bank vt gc i q skip r d =
      let e = count-fail (is_valid hw s bank vt) i n skip in
      record {
        end = let end = d.end in omega arith;
        copying =
            subst (λ j. Copying hw r.1 bank vt gc j (q + valid_pages hw s bank vt i (suc n)))
              (omega arith)
              (subst (λ j. Copying hw r.1 bank vt gc (i + 1 + n) j) (omega arith) d.copying);
        same = d.same;
        confined = d.confined;
        moved = λ l mine at all. d.moved l mine at (omega arith);
      }

  module _ (s : Greedy State) (bank vt gc i q : ℕ) (c : Copying hw s bank vt gc i q)
      (h : is_valid hw s bank vt i ≡ true) (bound : i < pages_per_vblk - 1) where
    abbrev after : Greedy State
    after = next hw s bank vt gc i q c h bound

    -- The page `i` was copied: the loop goes on with the next.
    Copied-copy :
        (n : ℕ)
        → i + 1 + n ≤ pages_per_vblk - 1
        → (r : ℕ × Greedy State) → Copied after bank vt gc (i + 1) (q + 1) n r
        → Copied s bank vt gc i q (suc n) r
    Copied-copy n last r d =
        let e = count-pass (is_valid hw s bank vt) i n h in
        let e' =
          count-cong (is_valid hw after bank vt) (is_valid hw s bank vt) (i + 1) n
            (λ p f b. is_valid-copy hw s bank vt gc i q c h bound p (omega arith) (omega arith)) in
        record {
          end = let end = d.end in omega arith;
          copying =
              subst (λ j. Copying hw r.1 bank vt gc j (q + valid_pages hw s bank vt i (suc n)))
                (omega arith)
                (subst (λ j. Copying hw r.1 bank vt gc (i + 1 + n) j) (omega arith) d.copying);
          same = λ l a b. d.same l a b ∙ stored-copy hw s bank vt gc i q c h bound l a b;
          confined =
              Confined-trans hw s after r.1 bank vt gc (Confined-copy hw s bank vt gc i q c h bound)
                d.confined;
          moved = λ l mine at all. elim (Bool-cases (entry hw s bank i == l)) [
            | inl same ↦
                let new = map_new hw s bank vt gc i q c h bound l same in
                let there =
                  ap (λ v. v / pages_per_vblk) new ∙ free-div hw s bank vt gc i q c h bound in
                let gone = and-false (get_num_bank l == bank) (ap (λ v. v == vt) there ∙ c.apart) in
                ap (λ v. v / pages_per_vblk) (d.confined.map_of_others l gone) ∙ there
            | inr other ↦
                let kept = map_kept hw s bank vt gc i q c h bound l other in
                d.moved l mine (ap (λ v. v / pages_per_vblk) kept ∙ at) (omega arith)
          ];
        }

  pub copy_valid-Copied :
      (n : ℕ) (s : Greedy State) (bank vt gc i q : ℕ)
      → i + n ≤ pages_per_vblk - 1
      → Copying hw s bank vt gc i q
      → Copied s bank vt gc i q n (copy_valid hw n s bank vt i (gc * pages_per_vblk + q))
  unfolding copy_valid
  copy_valid-Copied zero s bank vt gc i q b c =
      let none_left = count-none (is_valid hw s bank vt) i in
      record {
        end = omega arith;
        copying =
            subst (λ j. Copying hw s bank vt gc j (q + valid_pages hw s bank vt i 0)) (omega arith)
              (subst (λ j. Copying hw s bank vt gc i j) (omega arith) c);
        same = λ l a h. refl;
        confined = Confined-refl hw s bank vt gc;
        moved = λ l mine at e. let (f, r, x) = c.waiting l mine at in absurd (omega arith);
      }
  copy_valid-Copied (suc n) s bank vt gc i q b c = elim (Bool-cases (is_valid hw s bank vt i)) [
    | inl valid ↦
        let t = next hw s bank vt gc i q c valid (omega arith) in
        let d =
          copy_valid-Copied n t bank vt gc (i + 1) (q + 1) (omega arith)
            (Copying-copy hw s bank vt gc i q c valid (omega arith)) in
        rw (copy_valid, valid)
          (Copied-copy s bank vt gc i q c valid (omega arith) n (omega arith) _ (
            subst (λ f. Copied t bank vt gc (i + 1) (q + 1) n (copy_valid hw n t bank vt (i + 1) f))
              (omega arith) d))
    | inr skip ↦
        let d =
          copy_valid-Copied n s bank vt gc (i + 1) q (omega arith)
            (Copying-skip hw s bank vt gc i q skip c) in
        rw (copy_valid, skip) (Copied-skip n s bank vt gc i q skip _ d)
  ]
