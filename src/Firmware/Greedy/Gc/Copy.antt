-- ===== src/Firmware/Greedy/Gc/Copy.antt =====
-- ftl_greedy/ftl.c (garbage_collection): what the copy of one valid page does.
use issd.Base.{
  ℕ, ◌+◌, ◌-◌, ◌*◌, ◌/◌, ◌%◌, ◌<◌, ◌≤◌, ◌≡◌, ◌≢◌, refl, sym, ap, ap₂, ◌∙◌, subst, true, false, ◌&&◌,
  ◌==◌, if◌then◌else◌, update, arith, Bool-cases, inl, inr, ==→≡, ==-refl, not-==→≢, ne→not-==,
}
use issd.Firmware.Layout.{bytes_per_page, pages_per_vblk}
use issd.Firmware.Nand.{Nand}
use issd.Firmware.Greedy.{Greedy, get_num_bank, vpn_of}
use issd.Firmware.Greedy.Bank.{stored}
use issd.Firmware.Greedy.Gc.Copying.{Copying, is_valid, copy_page, entry}

module _ (hw : Nand) where
  open hw use {State, page, Blank, program, page-program, page-program_ne, Blank-program_ne}

  module _ (s : Greedy State) (bank vt gc i q : ℕ) (c : Copying hw s bank vt gc i q)
      (h : is_valid hw s bank vt i ≡ true) (bound : i < pages_per_vblk - 1) where
    abbrev pub free : ℕ
    free = gc * pages_per_vblk + q

    abbrev pub next : Greedy State
    next = copy_page hw s bank vt i free

    pub map_here : vpn_of s (entry hw s bank i) ≡ vt * pages_per_vblk + i
    map_here = ==→≡ _ _ h

    pub free-div : free / pages_per_vblk ≡ gc
    free-div = let fits = c.fits in omega arith

    free-mod : free % pages_per_vblk ≡ q
    free-mod = let fits = c.fits in omega arith

    pub entry-copy :
        (p : ℕ) → entry hw next bank p ≡ (if q == p then entry hw s bank i else entry hw s bank p)
    entry-copy p =
        ap
          (λ t.
            (if t
                then (record (s.misc bank) {
                  lpn_list =
                      update (s.misc bank).lpn_list (free % pages_per_vblk) (entry hw s bank i);
                })
                else s.misc bank).lpn_list
              p)
          (==-refl bank)
        ∙ ap (λ o. if o == p then entry hw s bank i else entry hw s bank p) free-mod

    pub entry_kept : (p : ℕ) → (q == p) ≡ false → entry hw next bank p ≡ entry hw s bank p
    entry_kept p other = entry-copy p ∙ rw other refl

    pub map_new : (l : ℕ) → (entry hw s bank i == l) ≡ true → vpn_of next l ≡ free
    map_new l same = rw same refl

    pub map_kept : (l : ℕ) → (entry hw s bank i == l) ≡ false → vpn_of next l ≡ vpn_of s l
    map_kept l other = rw other refl

    pub row : free / pages_per_vblk * pages_per_vblk + free % pages_per_vblk ≡ free
    row = omega arith

    pub programmed :
        (bank' row' a : ℕ)
        → page next.nand bank' row' a
          ≡ page
              (program s.nand bank free (page s.nand bank (vt * pages_per_vblk + i)))
              bank'
              row'
              a
    programmed bank' row' a =
        ap
          (λ x.
            page (program s.nand bank x (page s.nand bank (vt * pages_per_vblk + i))) bank' row' a)
          row

    copied_next :
        (l : ℕ)
        → get_num_bank l ≡ bank
        → vpn_of next l / pages_per_vblk ≡ gc
        → (vpn_of next l % pages_per_vblk < q + 1)
          × (entry hw next bank (vpn_of next l % pages_per_vblk) ≡ l)
    copied_next l b at = elim (Bool-cases (entry hw s bank i == l)) [
      | inl same ↦
          let r = ap (λ v. v % pages_per_vblk) (map_new l same) ∙ free-mod in
          (
            omega arith,
            ap (entry hw next bank) r
                ∙ entry-copy q
                ∙ (let me = ==-refl q in rw me refl)
                ∙ ==→≡ (entry hw s bank i) l same,
          )
      | inr other ↦
          let m = map_kept l other in
          let (less, e) = c.copied l b (ap (λ v. v / pages_per_vblk) (sym m) ∙ at) in
          (
            (rw m (omega arith)),
            ap (λ v. entry hw next bank (v % pages_per_vblk)) m
                ∙ entry_kept (vpn_of s l % pages_per_vblk) (ground arith)
                ∙ e,
          )
    ]

    live_next :
        (p : ℕ)
        → p < q + 1
        → (get_num_bank (entry hw next bank p) ≡ bank)
          × (vpn_of next (entry hw next bank p) ≡ gc * pages_per_vblk + p)
    live_next p f = elim (Bool-cases (q == p)) [
      | inl last ↦
          let e : entry hw next bank p ≡ entry hw s bank i = entry-copy p ∙ rw last refl in
          let at = ap (λ x. gc * pages_per_vblk + x) (==→≡ q p last) in
          (
            ap get_num_bank e ∙ c.own i (omega arith) bound,
            ap (vpn_of next) e ∙ map_new (entry hw s bank i) (==-refl (entry hw s bank i)) ∙ at,
          )
      | inr before ↦
          let (mine, at) = c.live p (ground arith) in
          let e = entry_kept p before in
          let fits = c.fits in
          let apart = c.apart in
          let other : entry hw s bank i ≢ entry hw s bank p =
            λ same. let both = sym map_here ∙ ap (vpn_of s) same ∙ at in absurd (ground arith) in
          (
            ap get_num_bank e ∙ mine,
            ap (vpn_of next) e ∙ map_kept (entry hw s bank p) (ne→not-== _ _ other) ∙ at,
          )
    ]

    waiting_next :
        (l : ℕ)
        → get_num_bank l ≡ bank
        → vpn_of next l / pages_per_vblk ≡ vt
        → (i + 1 ≤ vpn_of next l % pages_per_vblk)
          × (vpn_of next l % pages_per_vblk < pages_per_vblk - 1)
          × (entry hw next bank (vpn_of next l % pages_per_vblk) ≡ l)
    waiting_next l b at = elim (Bool-cases (entry hw s bank i == l)) [
      | inl same ↦
          let m = map_new l same in
          let d = free-div in
          absurd (not-==→≢ gc vt c.apart (sym d ∙ ap (λ v. v / pages_per_vblk) (sym m) ∙ at))
      | inr other ↦
          let m = map_kept l other in
          let (first, less, e) = c.waiting l b (ap (λ v. v / pages_per_vblk) (sym m) ∙ at) in
          let later : i ≢ vpn_of s l % pages_per_vblk =
            λ same. not-==→≢ _ _ other (ap (entry hw s bank) same ∙ e) in
          let fits = c.fits in
          (
            (rw m (omega arith)),
            (rw m less),
            ap (λ v. entry hw next bank (v % pages_per_vblk)) m
                ∙ entry_kept (vpn_of s l % pages_per_vblk) (ground arith)
                ∙ e,
          )
    ]

    pub Copying-copy : Copying hw next bank vt gc (i + 1) (q + 1)
    Copying-copy =
        let fits = c.fits in
        let r = row in
        record {
          apart = c.apart;
          fits = omega arith;
          blank = λ p f b.
              subst
                (λ x.
                  Blank (program s.nand bank x (page s.nand bank (vt * pages_per_vblk + i))) bank
                    (gc * pages_per_vblk + p))
                (sym r)
                (Blank-program_ne s.nand bank free _ bank (gc * pages_per_vblk + p) (ground arith)
                  (c.blank p (omega arith) b));
          own = λ p f b. ap get_num_bank (entry_kept p (ground arith)) ∙ c.own p (omega arith) b;
          live = live_next;
          copied = copied_next;
          waiting = waiting_next;
        }

    free_unused : (l : ℕ) → (get_num_bank l == bank && vpn_of s l == free) ≡ false
    free_unused l = elim (Bool-cases (get_num_bank l == bank)) [
      | inr other ↦ rw other refl
      | inl mine ↦
          let unused : vpn_of s l ≢ free = λ e.
            let (less, listed) =
              c.copied l (==→≡ _ _ mine) (ap (λ v. v / pages_per_vblk) e ∙ free-div) in
            let q_there = ap (λ v. v % pages_per_vblk) e ∙ free-mod in absurd (omega arith) in
          rw (mine, ne→not-== _ _ unused) refl
    ]

    -- No logical page changes.
    pub stored-copy : (l a : ℕ) → a < bytes_per_page → stored hw next l a ≡ stored hw s l a
    stored-copy l a b = elim (Bool-cases (entry hw s bank i == l)) [
      | inl same ↦
          let at = ==→≡ (entry hw s bank i) l same in
          let mine : get_num_bank l ≡ bank =
            ap get_num_bank (sym at) ∙ c.own i (omega arith) bound in
          let here : vpn_of s l ≡ vt * pages_per_vblk + i = ap (vpn_of s) (sym at) ∙ map_here in
          ap₂ (λ b' v. page next.nand b' v a) mine (map_new l same)
          ∙ programmed bank free a
          ∙ page-program s.nand bank free _ a
              (let fits = c.fits in c.blank q (omega arith) (omega arith)) b
          ∙ ap₂ (λ b' v. page s.nand b' v a) (sym mine) (sym here)
      | inr other ↦
          let differ = free_unused l in
          ap (λ v. page next.nand (get_num_bank l) v a) (map_kept l other)
          ∙ programmed (get_num_bank l) (vpn_of s l) a
          ∙ page-program_ne s.nand bank free _ (get_num_bank l) (vpn_of s l) a differ
    ]
