-- ===== src/Firmware/Greedy/Gc/Swept.antt =====
-- ftl_greedy/ftl.c: where the pages of the bank are when the victim is erased.
use issd.Base.{
  and-false, ℕ, ◌+◌, ◌-◌, ◌*◌, ◌/◌, ◌%◌, ◌<◌, ◌≡◌, ◌≢◌, ◌⊎◌, refl, sym, ap, ◌∙◌, subst, false, ◌==◌,
  if◌then◌else◌, arith, Bool-cases, inl, inr, ==→≡, ==-refl, not-==→≢, ne→not-==, update,
  update-same,
}
use issd.Firmware.Layout.{pages_per_vblk}
use issd.Firmware.Nand.{Nand}
use issd.Firmware.Greedy.{Misc, Greedy, get_num_bank, vpn_of, vcount_of, vc_max}
use issd.Firmware.Greedy.Bank.{Closed, Counted}
use issd.Firmware.Greedy.Gc.{reclaim}
use issd.Firmware.Greedy.Gc.Copying.{Copying, entry}
use issd.Firmware.Greedy.Gc.Confined.{Confined}

module _ (hw : Nand) where
  open hw use {State, page, Blank, erase, Blank-erase, page-erase_ne, Blank-erase_ne}

  -- The pages of the victim were copied: `u` is what the loop made of `s`, and `k` their number.
  pub record Swept (s u : Greedy State) (bank vt k : ℕ) : Type 0 where
    pub closed : Closed hw s bank
    pub victim : Counted hw s bank vt
    pub small : k < pages_per_vblk - 2
    pub copies : Copying hw u bank vt (s.misc bank).gc_vblock (pages_per_vblk - 1) k
    pub confined : Confined hw s bank vt (s.misc bank).gc_vblock u
    pub moved :
        (l : ℕ)
        → get_num_bank l ≡ bank
        → vpn_of s l / pages_per_vblk ≡ vt
        → vpn_of u l / pages_per_vblk ≡ (s.misc bank).gc_vblock

  module _ {s u : Greedy State} {bank vt k : ℕ} (r : Swept s u bank vt k) where
    abbrev pub gc : ℕ
    gc = (s.misc bank).gc_vblock

    abbrev pub t : Greedy State
    t = reclaim hw u bank vt gc k (gc * pages_per_vblk + k)

    pub map_t : (l : ℕ) → vpn_of t l ≡ vpn_of u l
    unfolding reclaim
    map_t l = refl

    pub misc_t : t.misc bank ≡ record (s.misc bank) {
      cur_write_vpn = gc * pages_per_vblk + k;
      gc_vblock = vt;
      free_blk_cnt = (s.misc bank).free_blk_cnt + 1;
      lpn_list = (u.misc bank).lpn_list;
    }
    unfolding reclaim
    misc_t =
        update-same u.misc bank _
        ∙ ap {A = Misc}
            (λ m. record m {
              cur_write_vpn = gc * pages_per_vblk + k;
              gc_vblock = vt;
              free_blk_cnt = m.free_blk_cnt + 1;
            })
            r.confined.misc_of_bank

    pub vcount_t :
        (v : ℕ)
        → vcount_of t bank v
          ≡ (if gc == v then k else if vt == v then vc_max else vcount_of s bank v)
    unfolding reclaim
    vcount_t v =
        ap (λ f. f v)
          (update-same (update u.vcounts bank (update (u.vcounts bank) vt vc_max)) bank _)
        ∙ ap (λ (f : ℕ → ℕ). if gc == v then k else f v) (update-same u.vcounts bank _)
        ∙ ap (λ (f : ℕ → ℕ → ℕ). if gc == v then k else if vt == v then vc_max else f bank v)
            r.confined.counts

    pub gc_other : (v : ℕ) → Counted hw s bank v → v ≢ gc
    gc_other v h e =
        let sound = r.closed.sound in not-==→≢ _ _ h (ap (vcount_of s bank) e ∙ sound.gc_count)

    -- What `u` has of the bank is where it was, or it was copied.
    pub place_u :
        (l : ℕ)
        → get_num_bank l ≡ bank
        → ((vpn_of s l / pages_per_vblk ≡ vt) × (vpn_of u l / pages_per_vblk ≡ gc))
          ⊎ ((vpn_of u l ≡ vpn_of s l) × (vpn_of s l / pages_per_vblk ≢ vt))
    place_u l mine = elim (Bool-cases (vpn_of s l / pages_per_vblk == vt)) [
      | inl there ↦ inl (==→≡ _ _ there, r.moved l mine (==→≡ _ _ there))
      | inr elsewhere ↦ inr (
        r.confined.map_of_others l (and-false (get_num_bank l == bank) elsewhere),
        not-==→≢ _ _ elsewhere,
      )
    ]

    -- A logical page that is mapped is one that was copied, or is where it was.
    pub place :
        (l : ℕ)
        → get_num_bank l ≡ bank
        → vpn_of t l ≢ 0
        → (vpn_of s l ≢ 0)
          × ((vpn_of t l / pages_per_vblk ≡ gc)
              ⊎ ((vpn_of t l ≡ vpn_of s l)
                  × (vpn_of t l / pages_per_vblk ≢ vt)
                  × (vpn_of t l / pages_per_vblk ≢ gc)))
    place l mine m = elim (place_u l mine) [
      | inl (there, now) ↦
          let pos = let sound = r.closed.sound in sound.positive vt r.victim in
          ((λ z. absurd (omega arith)), inl (ap (λ v. v / pages_per_vblk) (map_t l) ∙ now))
      | inr (same, other) ↦
          let e = map_t l ∙ same in
          let m' : vpn_of s l ≢ 0 = λ z. m (e ∙ z) in
          let sound = r.closed.sound in
          let at = ap (λ v. v / pages_per_vblk) e in
          (
            m',
            inr (
              e,
              (λ x. other (sym at ∙ x)),
              (λ x. gc_other _ (sound.in_counted l mine m') (sym at ∙ x)),
            ),
          )
    ]

    pub apart : gc ≢ vt
    apart e = gc_other vt r.victim (sym e)

    pub counted_gc : vcount_of t bank gc ≡ k
    counted_gc = vcount_t gc ∙ (let e = ==-refl gc in rw e refl)

    pub counted_kept : (v : ℕ) → v ≢ vt → v ≢ gc → vcount_of t bank v ≡ vcount_of s bank v
    counted_kept v a b =
        vcount_t v ∙ (rw (ne→not-== gc v (λ e. b (sym e)), ne→not-== vt v (λ e. a (sym e))) refl)

    pub counted_vt : vcount_of t bank vt ≡ vc_max
    counted_vt = vcount_t vt ∙ (let e = ==-refl vt in rw (ne→not-== gc vt apart, e) refl)

    -- A counted block is that of the copies, or it was counted and is not the victim.
    pub busy_t :
        (v : ℕ) → Counted hw t bank v → (v ≡ gc) ⊎ ((v ≢ vt) × (v ≢ gc) × Counted hw s bank v)
    busy_t v h = elim (Bool-cases (v == gc)) [
      | inl same ↦ inl (==→≡ v gc same)
      | inr other ↦
          let not_vt : v ≢ vt = λ e. not-==→≢ _ _ h (ap (vcount_of t bank) e ∙ counted_vt) in
          inr (
            not_vt,
            not-==→≢ v gc other,
            subst (λ x. (x == vc_max) ≡ false) (counted_kept v not_vt (not-==→≢ v gc other)) h,
          )
    ]

    pub gc_t : (t.misc bank).gc_vblock ≡ vt
    gc_t = ap (λ m. m.gc_vblock) misc_t

    pub erased : t.nand ≡ erase u.nand bank vt
    unfolding reclaim
    erased = refl

    pub copied_t :
        (l : ℕ)
        → get_num_bank l ≡ bank
        → vpn_of t l / pages_per_vblk ≡ gc
        → (vpn_of t l % pages_per_vblk < k) × (entry hw u bank (vpn_of t l % pages_per_vblk) ≡ l)
    copied_t l mine =
        subst
          (λ v.
            v / pages_per_vblk ≡ gc
            → (v % pages_per_vblk < k) × (entry hw u bank (v % pages_per_vblk) ≡ l))
          (sym (map_t l)) (r.copies.copied l mine)

    pub gc_busy : Counted hw t bank gc
    gc_busy = subst (λ n. (n == vc_max) ≡ false) (sym counted_gc) (ground arith)

    pub busy_old : (v : ℕ) → v ≢ vt → v ≢ gc → Counted hw s bank v → Counted hw t bank v
    busy_old v a b h = subst (λ n. (n == vc_max) ≡ false) (sym (counted_kept v a b)) h
