-- ===== src/Firmware/Greedy/Write/Entries.antt =====
-- ftl_greedy/ftl.c (write_page): the lists of the blocks after a write.
use issd.Base.{
  and-false, ℕ, ◌+◌, ◌-◌, ◌*◌, ◌/◌, ◌%◌, ◌<◌, ◌≡◌, ◌≢◌, refl, sym, ap, ◌∙◌, Bool, true, false, ◌&&◌,
  ◌==◌, Bytes, if◌then◌else◌, arith, Bool-cases, inl, inr, ==→≡, ==-refl, ne→not-==,
}
use issd.Firmware.Layout.{pages_per_vblk}
use issd.Firmware.Nand.{Nand}
use issd.Firmware.Greedy.{Greedy, get_num_bank, vpn_of}
use issd.Firmware.Greedy.Lists.{listed, list_of-cong}
use issd.Firmware.Greedy.Bank.{owner, cur_vblock}
use issd.Firmware.Greedy.Write.Step.{Step, new-div, new-mod, map_here, map_there, cur_t, list_t}

module _ (hw : Nand) where
  open hw use {State, page, Blank, program, page-program_ne, Blank-program_ne}

  module _ {s : Greedy State} {lpn k : ℕ} {content : Bytes} {t : Greedy State}
      (r : Step hw s lpn k content t) where
    abbrev bank : ℕ
    bank = get_num_bank lpn

    abbrev cur : ℕ
    cur = cur_vblock hw s bank

    abbrev new : ℕ
    new = cur * pages_per_vblk + k

    abbrev old : ℕ
    old = vpn_of s lpn

    pub row_t : t.nand ≡ program s.nand bank new content
    row_t =
        r.commit.nand_new
        ∙ ap (λ x. program s.nand bank x content)
            (let d = new-div hw r in let m = new-mod hw r in omega arith)

    abbrev here : ℕ → ℕ → Bool
    here v p = v == cur && p == k

    pub owner_new : owner hw t bank cur k ≡ lpn
    owner_new =
        ap (λ c. if cur == c then (t.misc bank).lpn_list k else listed hw t.nand bank cur k)
          (cur_t hw r)
        ∙ (let e = ==-refl cur in rw e refl)
        ∙ list_t hw r k
        ∙ ap (λ c. if c then lpn else (s.misc bank).lpn_list k) (==-refl k)

    listed_t :
        (v p : ℕ) → p < pages_per_vblk → listed hw t.nand bank v p ≡ listed hw s.nand bank v p
    listed_t v p b = list_of-cong _ _ p (λ i l.
        ap (λ n. page n bank (v * pages_per_vblk + (pages_per_vblk - 1)) i) row_t
        ∙ page-program_ne s.nand bank new content bank (v * pages_per_vblk + (pages_per_vblk - 1)) i
            (and-false (bank == bank)
              (ne→not-== _ _ (λ e. let small = r.small in absurd (omega arith)))))

    pub owner_kept :
        (v p : ℕ)
        → here v p ≡ false
        → p < pages_per_vblk
        → owner hw t bank v p ≡ owner hw s bank v p
    owner_kept v p other b =
        ap (λ c. if v == c then (t.misc bank).lpn_list p else listed hw t.nand bank v p)
          (cur_t hw r)
        ∙ elim (Bool-cases (v == cur)) [
          | inl same ↦
              let e = list_t hw r p in
              let differ : (k == p) ≡ false = ground arith in rw same (e ∙ rw differ refl)
          | inr elsewhere ↦ let e = listed_t v p b in rw elsewhere e
        ]

    abbrev bound : ℕ → ℕ
    bound v = if v == cur then k else pages_per_vblk - 1

    pub bound_t :
        (v : ℕ)
        → (if v == cur_vblock hw t bank then k + 1 else pages_per_vblk - 1)
          ≡ (if v == cur then k + 1 else pages_per_vblk - 1)
    bound_t v = ap (λ c. if v == c then k + 1 else pages_per_vblk - 1) (cur_t hw r)

    abbrev was_valid : ℕ → ℕ → Bool
    was_valid v p = vpn_of s (owner hw s bank v p) == v * pages_per_vblk + p

    abbrev now_valid : ℕ → ℕ → Bool
    now_valid v p = vpn_of t (owner hw t bank v p) == v * pages_per_vblk + p

    -- The page of `lpn` is no longer valid, and the other pages that were listed are as they were.
    pub valid_old :
        (p : ℕ)
        → here (old / pages_per_vblk) p ≡ false
        → p ≡ old % pages_per_vblk
        → old ≢ 0
        → (was_valid (old / pages_per_vblk) p ≡ true) × (now_valid (old / pages_per_vblk) p ≡ false)
    valid_old p other at had =
        let v = old / pages_per_vblk in
        let row : v * pages_per_vblk + p ≡ old = omega arith in
        let o : owner hw s bank v p ≡ lpn =
          ap (owner hw s bank v) at ∙ r.open_block.lists.owned lpn refl had in
        let e = owner_kept v p other (omega arith) in
        (
          ap (λ l. vpn_of s l == v * pages_per_vblk + p) o ∙ ap (λ x. old == x) row ∙ ==-refl old,
          ap (λ l. vpn_of t l == v * pages_per_vblk + p) (e ∙ o)
              ∙ ap (λ x. x == v * pages_per_vblk + p) (map_here hw r)
              ∙ ne→not-== _ _
                  (λ same. let d = new-div hw r in let m = new-mod hw r in absurd (ground arith)),
        )

    pub valid_kept :
        (v p : ℕ)
        → here v p ≡ false
        → p < pages_per_vblk
        → v * pages_per_vblk + p ≢ old
        → now_valid v p ≡ was_valid v p
    valid_kept v p other b far =
        let e = owner_kept v p other b in
        let l = owner hw s bank v p in
        ap (λ l. vpn_of t l == v * pages_per_vblk + p) e ∙ elim (Bool-cases (lpn == l)) [
          | inl same ↦
              let at = ==→≡ lpn l same in
              ap (λ x. vpn_of t x == v * pages_per_vblk + p) (sym at)
              ∙ ap (λ x. x == v * pages_per_vblk + p) (map_here hw r)
              ∙ ne→not-== _ _
                  (λ e. let d = new-div hw r in let m = new-mod hw r in absurd (ground arith))
              ∙ sym (ne→not-== _ _ (λ e. far (sym e ∙ ap (vpn_of s) (sym at))))
          | inr elsewhere ↦ ap (λ x. x == v * pages_per_vblk + p) (map_there hw r l elsewhere)
        ]
