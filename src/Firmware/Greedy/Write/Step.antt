-- ===== src/Firmware/Greedy/Write/Step.antt =====
-- ftl_greedy/ftl.c (write_page): where the pages of the bank and their counts are after a write.
use issd.Base.{
  u32, ℕ, ◌+◌, ◌-◌, ◌*◌, ◌/◌, ◌%◌, ◌<◌, ◌≤◌, ◌≡◌, ◌≢◌, refl, ap, ◌∙◌, false, ◌==◌, Bytes,
  if◌then◌else◌, arith, Bool-cases, inl, inr, ==-refl, not-==→≢, ne→not-==,
}
use issd.Firmware.Layout.{pages_per_vblk}
use issd.Firmware.Nand.{Nand}
use issd.Firmware.Greedy.{Greedy, get_num_bank, vpn_of, vcount_of, vc_max}
use issd.Firmware.Greedy.Count.{count-le}
use issd.Firmware.Greedy.Bank.{Open, Counted, owner, cur_vblock}
use issd.Firmware.Greedy.Write.Commit.{Commit, forgotten}

module _ (hw : Nand) where
  open hw use {State, page, Blank, program, page-program_ne, Blank-program_ne}

  -- A write of the logical page `lpn` to the page `k` of the current block.
  pub record Step (s : Greedy State) (lpn k : ℕ) (content : Bytes) (t : Greedy State) : Type 0 where
    pub open_block : Open hw s (get_num_bank lpn) k
    pub small : k < pages_per_vblk - 1
    pub word : lpn < u32
    pub commit : Commit hw s lpn (cur_vblock hw s (get_num_bank lpn) * pages_per_vblk + k) content t

  module _ {s : Greedy State} {lpn k : ℕ} {content : Bytes} {t : Greedy State}
      (r : Step s lpn k content t) where
    abbrev bank : ℕ
    bank = get_num_bank lpn

    abbrev cur : ℕ
    cur = cur_vblock hw s bank

    abbrev new : ℕ
    new = cur * pages_per_vblk + k

    abbrev old : ℕ
    old = vpn_of s lpn

    pub new-div : new / pages_per_vblk ≡ cur
    new-div = let h = r.small in omega arith

    pub new-mod : new % pages_per_vblk ≡ k
    new-mod = let h = r.small in omega arith

    pub map_here : vpn_of t lpn ≡ new
    map_here = r.commit.map_new lpn ∙ ap (λ c. if c then new else vpn_of s lpn) (==-refl lpn)

    pub map_there : (l : ℕ) → (lpn == l) ≡ false → vpn_of t l ≡ vpn_of s l
    map_there l other = r.commit.map_new l ∙ ap (λ c. if c then new else vpn_of s l) other

    pub cur_t : cur_vblock hw t bank ≡ cur
    cur_t = ap (λ m. m.cur_write_vpn / pages_per_vblk) r.commit.misc_new

    pub gc_t : (t.misc bank).gc_vblock ≡ (s.misc bank).gc_vblock
    gc_t = ap (λ m. m.gc_vblock) r.commit.misc_new

    pub list_t :
        (p : ℕ) → (t.misc bank).lpn_list p ≡ (if k == p then lpn else (s.misc bank).lpn_list p)
    list_t p =
        ap (λ m. m.lpn_list p) r.commit.misc_new
        ∙ ap (λ j. if j == p then lpn else (s.misc bank).lpn_list p) new-mod

    pub count_t :
        (v : ℕ)
        → vcount_of t bank v ≡ (
            if cur == v
            then forgotten hw (s.vcounts bank) old cur + 1
            else forgotten hw (s.vcounts bank) old v)
    count_t v =
        r.commit.count_new v
        ∙ ap
            (λ c.
              if c == v
              then forgotten hw (s.vcounts bank) old c + 1
              else forgotten hw (s.vcounts bank) old v)
            new-div

    pub count_bound : (v : ℕ) → Counted hw s bank v → vcount_of s bank v ≤ pages_per_vblk - 1
    count_bound v h =
        let e = r.open_block.lists.exact v h in
        let b =
          count-le (λ p. vpn_of s (owner hw s bank v p) == v * pages_per_vblk + p) 0
            (if v == cur then k else pages_per_vblk - 1) in
        let less = r.small in ground arith

    pub forgotten_other :
        (v : ℕ)
        → (old ≢ 0 → old / pages_per_vblk ≢ v)
        → forgotten hw (s.vcounts bank) old v ≡ vcount_of s bank v
    forgotten_other v other = elim (Bool-cases (old == 0)) [
      | inl fresh ↦ rw fresh refl
      | inr had ↦ rw (had, ne→not-== _ _ (other (not-==→≢ old 0 had))) refl
    ]

    -- A block that is not counted stays so, and one that is stays counted.
    pub count_idle : (v : ℕ) → vcount_of s bank v ≡ vc_max → vcount_of t bank v ≡ vc_max
    count_idle v h =
        let cur_not : (cur == v) ≡ false =
          ne→not-== cur v
            (λ e. not-==→≢ _ _ r.open_block.cur_counted (ap (vcount_of s bank) e ∙ h)) in
        let e =
          count_t v
          ∙ ap
              (λ c.
                if c
                then forgotten hw (s.vcounts bank) old cur + 1
                else forgotten hw (s.vcounts bank) old v)
              cur_not in
        e
        ∙ forgotten_other v (λ had at.
          not-==→≢ _ _ (r.open_block.sound.in_counted lpn refl had) (ap (vcount_of s bank) at ∙ h))
        ∙ h

    pub count_busy : (v : ℕ) → Counted hw s bank v → Counted hw t bank v
    count_busy v h =
        let b = count_bound v h in
        let b' = count_bound cur r.open_block.cur_counted in let e = count_t v in ground arith

    pub count_was : (v : ℕ) → Counted hw t bank v → Counted hw s bank v
    count_was v h = ne→not-== _ _ (λ e. not-==→≢ _ _ h (count_idle v e))
