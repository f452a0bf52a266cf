-- ===== src/Firmware/Greedy/Gc/Reclaim.antt =====
-- ftl_greedy/ftl.c: the end of garbage_collection, the lists and the counts of the bank.
use issd.Base.{
  and-false, ℕ, ◌+◌, ◌-◌, ◌*◌, ◌/◌, ◌%◌, ◌<◌, ◌≡◌, ◌≢◌, refl, sym, ap, ◌∙◌, subst, ◌==◌,
  if◌then◌else◌, arith, inl, inr, ==-refl, ne→not-==,
}
use issd.Firmware.Layout.{pages_per_vblk}
use issd.Firmware.Nand.{Nand}
use issd.Firmware.Greedy.{Greedy, get_num_bank, vpn_of, vcount_of}
use issd.Firmware.Greedy.Lists.{listed, list_of-cong}
use issd.Firmware.Greedy.Bank.{Sound, Tracked, Counted, live_pages, owner, cur_vblock}
use issd.Firmware.Greedy.Gc.{reclaim}
use issd.Firmware.Greedy.Gc.Copying.{entry}
use issd.Firmware.Greedy.Count.{count-cong, count-all}
use issd.Firmware.Greedy.Gc.Swept.{
  Swept, map_t, misc_t, place_u, place, counted_gc, counted_kept, counted_vt, busy_t, gc_t, erased,
  copied_t, gc_busy, busy_old,
}

pub page-div : (v p : ℕ) → p < pages_per_vblk → (v * pages_per_vblk + p) / pages_per_vblk ≡ v
page-div v p b = omega arith

row-div : (v : ℕ) → (v * pages_per_vblk + (pages_per_vblk - 1)) / pages_per_vblk ≡ v
row-div v = page-div v (pages_per_vblk - 1) (omega arith)

module _ (hw : Nand) where
  open hw use {State, page, Blank, erase, Blank-erase, page-erase_ne, Blank-erase_ne}

  module _ {s u : Greedy State} {bank vt k : ℕ} (r : Swept hw s u bank vt k) where
    abbrev gc : ℕ
    gc = (s.misc bank).gc_vblock

    abbrev t : Greedy State
    t = reclaim hw u bank vt gc k (gc * pages_per_vblk + k)

    pub reclaim-Sound : Sound hw t bank
    reclaim-Sound =
        let sound = r.closed.sound in
        record {
          gc_positive = subst (λ g. 0 < g) (sym (gc_t hw r)) (sound.positive vt r.victim);
          gc_count = ap (vcount_of t bank) (gc_t hw r) ∙ counted_vt hw r;
          gc_blank = λ p b.
              subst (λ g. Blank t.nand bank (g * pages_per_vblk + p)) (sym (gc_t hw r))
                (subst (λ n. Blank n bank (vt * pages_per_vblk + p)) (sym (erased hw r))
                  (Blank-erase u.nand bank vt (vt * pages_per_vblk + p) (omega arith)));
          positive = λ v h. elim (busy_t hw r v h) [
            | inl e ↦ subst (λ x. 0 < x) (sym e) sound.gc_positive
            | inr (a, b, old) ↦ sound.positive v old
          ];
          in_word = λ l mine m. sound.in_word l mine (place hw r l mine m).0;
          low = λ l mine m. elim (place hw r l mine m).1 [
            | inl now ↦ let (less, e) = copied_t hw r l mine now in omega arith
            | inr (same, a, b) ↦
                subst (λ x. x % pages_per_vblk < pages_per_vblk - 1) (sym same)
                  (sound.low l mine (place hw r l mine m).0)
          ];
          in_counted = λ l mine m. elim (place hw r l mine m).1 [
            | inl now ↦ subst (Counted hw t bank) (sym now) (gc_busy hw r)
            | inr (same, a, b) ↦ busy_old hw r (vpn_of t l / pages_per_vblk) a b (
                subst (λ x. Counted hw s bank (x / pages_per_vblk)) (sym same)
                  (sound.in_counted l mine (place hw r l mine m).0))
          ];
        }

    -- How many entries of the list of a block say something.
    abbrev bound : ℕ → ℕ
    bound v = if v == cur_vblock hw t bank then k else pages_per_vblk - 1

    pub cur_t : cur_vblock hw t bank ≡ gc
    cur_t =
        let less = r.small in
        ap (λ m. m.cur_write_vpn / pages_per_vblk) (misc_t hw r)
        ∙ (let e : (gc * pages_per_vblk + k) / pages_per_vblk ≡ gc = omega arith in e)

    pub of_gc : (p : ℕ) → owner hw t bank gc p ≡ entry hw u bank p
    of_gc p =
        ap (λ b. if gc == b then (t.misc bank).lpn_list p else listed hw t.nand bank gc p) cur_t
        ∙ (let e = ==-refl gc in rw e refl)
        ∙ ap (λ m. m.lpn_list p) (misc_t hw r)

    -- The list of another block is where it was.
    pub owner_kept :
        (v p : ℕ)
        → v ≢ vt
        → v ≢ gc
        → p < pages_per_vblk
        → owner hw t bank v p ≡ listed hw s.nand bank v p
    owner_kept v p a b h =
        ap (λ c. if v == c then (t.misc bank).lpn_list p else listed hw t.nand bank v p) cur_t
        ∙ (rw (ne→not-== v gc b) refl)
        ∙ list_of-cong (page t.nand bank (v * pages_per_vblk + (pages_per_vblk - 1)))
            (page s.nand bank (v * pages_per_vblk + (pages_per_vblk - 1))) p
            (λ i l.
              ap (λ n. page n bank (v * pages_per_vblk + (pages_per_vblk - 1)) i) (erased hw r)
              ∙ page-erase_ne u.nand bank vt bank (v * pages_per_vblk + (pages_per_vblk - 1)) i
                  (and-false (bank == bank) (ne→not-== _ _ (λ x. a (sym (row-div v) ∙ x))))
              ∙ r.confined.page_of_others bank (v * pages_per_vblk + (pages_per_vblk - 1)) i
                  (and-false (bank == bank) (ne→not-== _ _ (λ x. b (sym (row-div v) ∙ x)))))

    bound_gc : bound gc ≡ k
    bound_gc =
        ap (λ c. if gc == c then k else pages_per_vblk - 1) cur_t
        ∙ (let e = ==-refl gc in rw e refl)

    bound_kept : (v : ℕ) → v ≢ gc → bound v ≡ pages_per_vblk - 1
    bound_kept v b =
        ap (λ c. if v == c then k else pages_per_vblk - 1) cur_t ∙ (rw (ne→not-== v gc b) refl)

    exact_gc : vcount_of t bank gc ≡ live_pages hw t (owner hw t bank gc) gc (bound gc)
    exact_gc =
        counted_gc hw r
        ∙ sym (
            ap (live_pages hw t (owner hw t bank gc) gc) bound_gc
            ∙ count-all _ 0 k (λ p f b.
              let (mine, at) = r.copies.live p (omega arith) in
              let there = ap (vpn_of t) (of_gc p) ∙ map_t hw r (entry hw u bank p) ∙ at in
              ap (λ v. v == gc * pages_per_vblk + p) there ∙ ==-refl (gc * pages_per_vblk + p)))

    -- A page of another block is valid if it was.
    valid_kept :
        (v p : ℕ)
        → v ≢ vt
        → v ≢ gc
        → Counted hw s bank v
        → p < pages_per_vblk - 1
        → (vpn_of t (owner hw t bank v p) == v * pages_per_vblk + p)
          ≡ (vpn_of s (listed hw s.nand bank v p) == v * pages_per_vblk + p)
    valid_kept v p a b h less =
        let l = listed hw s.nand bank v p in
        let dv = page-div v p (omega arith) in
        let e = ap (vpn_of t) (owner_kept v p a b (omega arith)) ∙ map_t hw r l in
        ap (λ x. x == v * pages_per_vblk + p) e
        ∙ elim (place_u hw r l (r.closed.lists.of_bank v p h less)) [
          | inl (there, now) ↦
              ne→not-== _ _ (λ x. b (sym (dv) ∙ ap (λ y. y / pages_per_vblk) (sym x) ∙ now))
              ∙ sym
                  (ne→not-== _ _ (λ x. a (sym (dv) ∙ ap (λ y. y / pages_per_vblk) (sym x) ∙ there)))
          | inr (same, other) ↦ ap (λ x. x == v * pages_per_vblk + p) same
        ]

    exact_kept :
        (v : ℕ)
        → v ≢ vt
        → v ≢ gc
        → Counted hw s bank v
        → vcount_of t bank v ≡ live_pages hw t (owner hw t bank v) v (bound v)
    exact_kept v a b h =
        counted_kept hw r v a b
        ∙ r.closed.lists.exact v h
        ∙ sym (
            ap (live_pages hw t (owner hw t bank v) v) (bound_kept v b)
            ∙ count-cong _ _ 0 (pages_per_vblk - 1)
                (λ p f less. valid_kept v p a b h (omega arith)))

    pub reclaim-Tracked : Tracked hw t bank (owner hw t bank) bound
    reclaim-Tracked = record {
      owned = λ l mine m. elim (place hw r l mine m).1 [
        | inl now ↦
            let (less, e) = copied_t hw r l mine now in
            ap (λ v. owner hw t bank v (vpn_of t l % pages_per_vblk)) now ∙ of_gc _ ∙ e
        | inr (same, a, b) ↦
            owner_kept _ _ a b (omega arith)
            ∙ ap (λ v. listed hw s.nand bank (v / pages_per_vblk) (v % pages_per_vblk)) same
            ∙ r.closed.lists.owned l mine (place hw r l mine m).0
      ];
      below = λ l mine m. elim (place hw r l mine m).1 [
        | inl now ↦
            subst (λ n. vpn_of t l % pages_per_vblk < n) (sym (ap bound now ∙ bound_gc))
              (copied_t hw r l mine now).0
        | inr (same, a, b) ↦
            subst (λ n. vpn_of t l % pages_per_vblk < n) (sym (bound_kept _ b))
              (subst (λ v. v % pages_per_vblk < pages_per_vblk - 1) (sym same)
                (r.closed.sound.low l mine (place hw r l mine m).0))
      ];
      of_bank = λ v p h less. elim (busy_t hw r v h) [
        | inl e ↦
            ap (λ x. get_num_bank (owner hw t bank x p)) e
            ∙ ap get_num_bank (of_gc p)
            ∙ (r.copies.live p (subst (λ n. p < n) (ap bound e ∙ bound_gc) less)).0
        | inr (a, b, old) ↦
            let less' = subst (λ n. p < n) (bound_kept v b) less in
            ap get_num_bank (owner_kept v p a b (omega arith))
            ∙ r.closed.lists.of_bank v p old less'
      ];
      exact = λ v h. elim (busy_t hw r v h) [
        | inl e ↦
            subst (λ x. vcount_of t bank x ≡ live_pages hw t (owner hw t bank x) x (bound x))
              (sym e) exact_gc
        | inr (a, b, old) ↦ exact_kept v a b old
      ];
    }
