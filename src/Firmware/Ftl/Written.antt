-- ===== src/Firmware/Ftl/Written.antt =====
-- ftl.c (issd_write_sectors, ftl_write): the page that a round programs, byte by byte.
use issd.Base.{
  ==→≡, ne→not-==, ℕ, ◌+◌, ◌-◌, ◌*◌, ◌/◌, ◌%◌, ◌<◌, ◌≡◌, ◌≢◌, refl, sym, ap, ◌∙◌, true, false,
  within, Bytes, ◌==◌, if◌then◌else◌, arith, Bool-cases, inl, inr,
}
use issd.Firmware.Layout.{
  bytes_per_sector, sectors_per_page, bytes_per_page, pages_per_bank, issd_wr_buf_addr,
}
use issd.Firmware.Nand.{Nand}
use issd.Firmware.Ftl.{Ftl, sectors_to_write}
use issd.Firmware.Ftl.Page.{stored_at}
use issd.Firmware.Ftl.Round.{IsValid, committed, moved, written, staged, staged-at, staged-outside}
use issd.Firmware.Ftl.Commit.{Vacant, row-positive, committed-IsValid, stored-new, stored-old}
use issd.Firmware.Ftl.Volume.{place, volume, Puts, Wrote}

module _ (hw : Nand) where
  open hw use {State}

  -- `content` is the page `l` with the sectors from `off` on replaced by `bytes`; the rest of a page
  -- that was never written is `junk`.
  module _ (s : Ftl State) (l off rem row : ℕ) (bytes junk content dram : Bytes)
      (o : off < sectors_per_page) (r : 0 < rem) (v : IsValid hw s) (f : Vacant hw s row)
      (merged : (a : ℕ)
        → a < bytes_per_page
        → content a ≡ (
            if within (off * bytes_per_sector) (sectors_to_write hw off rem * bytes_per_sector) a
            then bytes (a - off * bytes_per_sector)
            else if s.page_map l == 0
            then junk a
            else stored_at hw s (s.page_map l) a)) where
    abbrev len : ℕ
    len = sectors_to_write hw off rem * bytes_per_sector

    abbrev base : ℕ
    base = l * bytes_per_page + off * bytes_per_sector

    abbrev after : Ftl State
    after = committed hw s l row content dram

    -- A byte of the page that is written.
    here :
        (x : ℕ)
        → (l == x / bytes_per_page) ≡ true
        → (place hw after x ≢ 0)
          × (volume hw after x ≡ (
              if within (off * bytes_per_sector) len (x % bytes_per_page)
              then bytes (x % bytes_per_page - off * bytes_per_sector)
              else if s.page_map l == 0
              then junk (x % bytes_per_page)
              else stored_at hw s (s.page_map l) (x % bytes_per_page)))
    here x same =
        let a = x % bytes_per_page in
        let at : place hw after x ≡ s.target_bank * pages_per_bank + row = rw same refl in
        let pos = row-positive hw s l row content dram v f in
        (
          λ zero_page. absurd (omega arith),
          ap (λ p. stored_at hw after p a) at
              ∙ stored-new hw s l row content dram v f a (omega arith)
              ∙ merged a (omega arith),
        )

    here-new :
        (x : ℕ)
        → within base len x ≡ true
        → (place hw after x ≢ 0) × (volume hw after x ≡ bytes (x - base))
    here-new x w =
        let a = x % bytes_per_page in
        let page_of : x / bytes_per_page ≡ l = ground arith in
        let (m, e) = here x (ground arith) in
        let inside : within (off * bytes_per_sector) len a ≡ true = ground arith in
        let at : a - off * bytes_per_sector ≡ x - base = ground arith in
        (m, e ∙ rw (inside, at) refl)

    here-old :
        (x : ℕ)
        → place hw s x ≢ 0
        → within base len x ≡ false
        → (l == x / bytes_per_page) ≡ true
        → (place hw after x ≢ 0) × (volume hw after x ≡ volume hw s x)
    here-old x m w same =
        let a = x % bytes_per_page in
        let page_of : l ≡ x / bytes_per_page = ==→≡ l (x / bytes_per_page) same in
        let (m', e) = here x same in
        let outside : within (off * bytes_per_sector) len a ≡ false = ground arith in
        let had : (s.page_map l == 0) ≡ false =
          ne→not-== (s.page_map l) 0 (λ z. m (ap s.page_map (sym page_of) ∙ z)) in
        (m', e ∙ rw (outside, had) (ap (λ p. stored_at hw s (s.page_map p) a) page_of))

    elsewhere :
        (x : ℕ)
        → place hw s x ≢ 0
        → (l == x / bytes_per_page) ≡ false
        → (place hw after x ≢ 0) × (volume hw after x ≡ volume hw s x)
    elsewhere x m other =
        let a = x % bytes_per_page in
        let at : place hw after x ≡ place hw s x = rw other refl in
        (
          λ z. m (sym at ∙ z),
          ap (λ p. stored_at hw after p a) at
              ∙ stored-old hw s l row content dram v f (x / bytes_per_page) a m,
        )

    pub committed-Puts : Puts hw s base len bytes after
    committed-Puts = record {
      valid = committed-IsValid hw s l row content dram v f;
      new = here-new;
      old = λ x m w. elim (Bool-cases (l == x / bytes_per_page)) [
        | inl same ↦ here-old x m w same
        | inr other ↦ elsewhere x m other
      ];
    }

  pub written-Wrote :
      (s : Ftl State) (buf l off rem row : ℕ)
      → off < sectors_per_page
      → 0 < rem
      → IsValid hw s
      → Vacant hw s row
      → Wrote hw s buf
          (l * bytes_per_page + off * bytes_per_sector)
          (sectors_to_write hw off rem * bytes_per_sector)
          (written hw s buf l off rem row)
  written-Wrote s buf l off rem row o r v f =
      let dram = staged hw (moved hw s row) buf (s.page_map l) off rem in
      let a =
        committed-Puts s l off rem row (λ i. s.dram (buf + i)) (λ i. s.dram (issd_wr_buf_addr + i))
          (λ i. dram (issd_wr_buf_addr + i)) dram o r v f
          (λ i h. staged-at hw (moved hw s row) buf (s.page_map l) off rem i o r h) in
      record {
        valid = a.valid;
        new = a.new;
        old = a.old;
        kept = λ x w. staged-outside hw (moved hw s row) buf (s.page_map l) off rem x o r w;
      }
