-- ===== src/Firmware/Greedy/Write/Exact.antt =====
-- ftl_greedy/ftl.c (write_page): the counts of the blocks after a write.
use issd.Base.{
  ℕ, suc, ◌+◌, ◌-◌, ◌*◌, ◌/◌, ◌%◌, ◌<◌, ◌≤◌, ◌≡◌, ◌≢◌, refl, sym, ap, ◌∙◌, subst, Bool, true, false,
  ◌&&◌, ◌==◌, Bytes, if◌then◌else◌, arith, Bool-cases, inl, inr, ==→≡, ==-refl, not-==→≢,
}
use issd.Firmware.Layout.{pages_per_vblk}
use issd.Firmware.Nand.{Nand}
use issd.Firmware.Greedy.{Greedy, get_num_bank, vpn_of, vcount_of}
use issd.Firmware.Greedy.Count.{count, count-cong, count-drop, count-next}
use issd.Firmware.Greedy.Bank.{Counted, owner, cur_vblock}
use issd.Firmware.Greedy.Write.Commit.{forgotten}
use issd.Firmware.Greedy.Write.Step.{Step, map_here, count_t, count_was, forgotten_other}
use issd.Firmware.Greedy.Write.Entries.{owner_new, bound_t, valid_old, valid_kept}

module _ (hw : Nand) where
  open hw use {State, page, Blank, program, page-program_ne, Blank-program_ne}

  module _ {s : Greedy State} {lpn k : ℕ} {content : Bytes} {t : Greedy State}
      (r : Step hw s lpn k content t) where
    abbrev bank : ℕ
    bank = get_num_bank lpn

    abbrev cur : ℕ
    cur = cur_vblock hw s bank

    abbrev new : ℕ
    new = cur * pages_per_vblk + k

    abbrev old : ℕ
    old = vpn_of s lpn

    abbrev bound : ℕ → ℕ
    bound v = if v == cur then k else pages_per_vblk - 1

    abbrev was_valid : ℕ → ℕ → Bool
    was_valid v p = vpn_of s (owner hw s bank v p) == v * pages_per_vblk + p

    abbrev now_valid : ℕ → ℕ → Bool
    now_valid v p = vpn_of t (owner hw t bank v p) == v * pages_per_vblk + p

    pub not_here : (v p : ℕ) → p < bound v → (v == cur && p == k) ≡ false
    not_here v p b = ground arith

    bound-le : (v : ℕ) → bound v ≤ pages_per_vblk - 1
    bound-le v = let small = r.small in ground arith

    in_bound : (v p : ℕ) → p < 0 + bound v → p < bound v
    in_bound v p b = omega arith

    kept :
        (v p : ℕ) → p < 0 + bound v → v * pages_per_vblk + p ≢ old → now_valid v p ≡ was_valid v p
    kept v p b far =
        let most = bound-le v in
        valid_kept hw r v p (not_here v p (in_bound v p b)) (omega arith) far

    -- In the block of the old page one page less is valid.
    pub count_old :
        old ≢ 0
        → vcount_of s bank (old / pages_per_vblk)
          ≡ count (now_valid (old / pages_per_vblk)) 0 (bound (old / pages_per_vblk)) + 1
    count_old had =
        let v = old / pages_per_vblk in
        let off = old % pages_per_vblk in
        let inside = r.open_block.lists.below lpn refl had in
        let (was, now) = valid_old hw r off (not_here v off inside) refl had in
        r.open_block.lists.exact v (r.open_block.sound.in_counted lpn refl had)
        ∙ count-drop (was_valid v) (now_valid v) 0 (bound v) off (omega arith) (omega arith) was now
            (λ p f b o. kept v p b (λ e. not-==→≢ _ _ o (omega arith)))

    -- The pages that were listed.
    count_listed :
        (v : ℕ)
        → Counted hw s bank v
        → count (now_valid v) 0 (bound v) ≡ forgotten hw (s.vcounts bank) old v
    count_listed v h =
        let pos = r.open_block.sound.positive v h in
        let exact = r.open_block.lists.exact v h in
        let most = bound-le v in
        elim (Bool-cases (old == 0)) [
          | inl fresh ↦
              let none = ==→≡ old 0 fresh in
              count-cong (now_valid v) (was_valid v) 0 (bound v)
                (λ p f b. kept v p b (λ e. absurd (omega arith)))
              ∙ sym exact
              ∙ sym (forgotten_other hw r v (λ had. absurd (had none)))
          | inr used ↦
              let had = not-==→≢ old 0 used in
              elim (Bool-cases (old / pages_per_vblk == v)) [
                | inr elsewhere ↦
                    count-cong (now_valid v) (was_valid v) 0 (bound v) (λ p f b.
                      kept v p b
                        (λ e. not-==→≢ _ _ elsewhere (let less = in_bound v p b in omega arith)))
                    ∙ sym exact
                    ∙ sym (forgotten_other hw r v (λ x. not-==→≢ _ _ elsewhere))
                | inl there ↦
                    let at = ==→≡ (old / pages_per_vblk) v there in
                    let one_less =
                      subst (λ x. vcount_of s bank x ≡ count (now_valid x) 0 (bound x) + 1) at
                        (count_old had) in
                    rw (used, there) (omega arith)
              ]
        ]

    abbrev bound_after : ℕ → ℕ
    bound_after v = if v == cur_vblock hw t bank then k + 1 else pages_per_vblk - 1

    bound-cur : bound cur ≡ k
    bound-cur = ap (λ c. if c then k else pages_per_vblk - 1) (==-refl cur)

    pub bound_after-cur : bound_after cur ≡ k + 1
    bound_after-cur =
        bound_t hw r cur ∙ ap (λ c. if c then k + 1 else pages_per_vblk - 1) (==-refl cur)

    pub bound_after-other : (v : ℕ) → (cur == v) ≡ false → bound_after v ≡ bound v
    bound_after-other v other =
        let e : (v == cur) ≡ false = ground arith in
        bound_t hw r v
        ∙ ap (λ c. if c then k + 1 else pages_per_vblk - 1) e
        ∙ sym (ap (λ c. if c then k else pages_per_vblk - 1) e)

    new_valid : now_valid cur (0 + k) ≡ true
    new_valid =
        let e : 0 + k ≡ k = omega arith in
        ap (now_valid cur) e
        ∙ ap (λ l. vpn_of t l == new) (owner_new hw r)
        ∙ ap (λ x. x == new) (map_here hw r)
        ∙ ==-refl new

    exact_cur :
        forgotten hw (s.vcounts bank) old cur + 1 ≡ count (now_valid cur) 0 (bound_after cur)
    exact_cur =
        let listed = count_listed cur r.open_block.cur_counted in
        let same = ap (count (now_valid cur) 0) bound-cur in
        let more = count-next (now_valid cur) 0 k new_valid in
        let after =
          ap (count (now_valid cur) 0) bound_after-cur
          ∙ ap (count (now_valid cur) 0) (let e : k + 1 ≡ suc k = omega arith in e) in
        omega arith

    -- The counts are exact again.
    pub exact_t :
        (v : ℕ) → Counted hw t bank v → vcount_of t bank v ≡ count (now_valid v) 0 (bound_after v)
    exact_t v h = elim (Bool-cases (cur == v)) [
      | inl same ↦
          let at = ==→≡ cur v same in
          subst (λ x. vcount_of t bank x ≡ count (now_valid x) 0 (bound_after x)) at
            (count_t hw r cur
              ∙ ap
                  (λ c.
                    if c
                    then forgotten hw (s.vcounts bank) old cur + 1
                    else forgotten hw (s.vcounts bank) old cur)
                  (==-refl cur)
              ∙ exact_cur)
      | inr other ↦
          count_t hw r v
          ∙ ap
              (λ c.
                if c
                then forgotten hw (s.vcounts bank) old cur + 1
                else forgotten hw (s.vcounts bank) old v)
              other
          ∙ sym (count_listed v (count_was hw r v h))
          ∙ sym (ap (count (now_valid v) 0) (bound_after-other v other))
    ]
