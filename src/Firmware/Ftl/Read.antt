-- ===== src/Firmware/Ftl/Read.antt =====
-- ftl.c (issd_read_sectors): reading the logical volume.
use issd.Base.{
  ℕ, zero, suc, ◌+◌, ◌-◌, ◌*◌, ◌/◌, ◌%◌, ◌≤◌, ◌<◌, ◌≡◌, ◌≢◌, refl, ap, ◌∙◌, subst, true, false,
  copy_bytes, within, ◌==◌, arith, Bool-cases, inl, inr, ==→≡, ne→not-==, not-==→≢,
}
use issd.Firmware.Layout.{
  num_lsectors, dram_base, dram_size, issd_computing_addr, bytes_per_sector, sectors_per_page,
  bytes_per_page, pages_per_bank,
}
use issd.Firmware.Nand.{Nand}
use issd.Firmware.Ftl.{Ftl, read_out, sectors_to_read, issd_read_loop, issd_read_sectors}
use issd.Firmware.Ftl.Volume.{place, volume}

module _ (hw : Nand) where
  open hw use {State, page}

  -- A read of `rem` sectors from sector `off` of the page `l` on, to the same place in the buffer.
  pub record HasRead (s : Ftl State) (buf l off rem : ℕ) (t : Ftl State) : Type 0 where
    pub rest : t ≡ record s { dram = t.dram }
    pub copied :
        (x : ℕ)
        → within (l * bytes_per_page + off * bytes_per_sector) (rem * bytes_per_sector) x ≡ true
        → t.dram (buf + (x - l * bytes_per_page)) ≡ volume hw s x
    pub kept :
        (y : ℕ)
        → within (buf + off * bytes_per_sector) (rem * bytes_per_sector) y ≡ false
        → t.dram y ≡ s.dram y

  -- Every page of a range is mapped.
  abbrev pub Mapped : Ftl State → ℕ → ℕ → ℕ → Type 0
  Mapped s l off rem =
      (x : ℕ)
      → within (l * bytes_per_page + off * bytes_per_sector) (rem * bytes_per_sector) x ≡ true
      → place hw s x ≢ 0

  HasRead-none : (s : Ftl State) (buf l off rem : ℕ) → rem ≡ 0 → HasRead s buf l off rem s
  HasRead-none s buf l off rem e = record {
    rest = refl;
    copied = λ x w. absurd (ground arith);
    kept = λ y w. refl;
  }

  -- The state behind the read of a page.
  abbrev page_read : Ftl State → ℕ → ℕ → ℕ → ℕ → Ftl State
  page_read s buf l off rem =
      read_out hw s (s.page_map l / pages_per_bank) (s.page_map l % pages_per_bank) buf off
        (sectors_to_read hw off rem * bytes_per_sector)

  page_read-at :
      (s : Ftl State) (buf l off rem x : ℕ)
      → off < sectors_per_page
      → within
          (l * bytes_per_page + off * bytes_per_sector)
          (sectors_to_read hw off rem * bytes_per_sector)
          x
        ≡ true
      → (page_read s buf l off rem).dram (buf + (x - l * bytes_per_page)) ≡ volume hw s x
  unfolding read_out copy_bytes
  page_read-at s buf l off rem x o w =
      let page_of : l ≡ x / bytes_per_page = ground arith in
      let inside : within (buf + off * bytes_per_sector)
            (sectors_to_read hw off rem * bytes_per_sector) (buf + (x - l * bytes_per_page))
          ≡ true =
        ground arith in
      let at : off * bytes_per_sector
            + (buf + (x - l * bytes_per_page) - (buf + off * bytes_per_sector))
          ≡ x % bytes_per_page =
        ground arith in
      rw (inside, at)
        (ap
          (λ p.
            page s.nand (s.page_map p / pages_per_bank) (s.page_map p % pages_per_bank)
              (x % bytes_per_page))
          page_of)

  HasRead-page :
      (s u : Ftl State) (buf l off rem : ℕ)
      → 0 < rem
      → off < sectors_per_page
      → HasRead
          (page_read s buf l off rem)
          (buf + bytes_per_page)
          (l + 1)
          0
          (rem - sectors_to_read hw off rem)
          u
      → HasRead s buf l off rem u
  unfolding read_out copy_bytes
  HasRead-page s u buf l off rem r o a = record {
    rest = a.rest;
    copied = λ x w.
        elim (Bool-cases (
          within (l * bytes_per_page + off * bytes_per_sector)
            (sectors_to_read hw off rem * bytes_per_sector) x)) [
              | inl first ↦
                  a.kept (buf + (x - l * bytes_per_page)) (ground arith)
                  ∙ page_read-at s buf l off rem x o first
              | inr second ↦ ap u.dram (ground arith) ∙ a.copied x (ground arith)
            ];
    kept = λ y w. a.kept y (ground arith) ∙ ground arith;
  }

  fewer :
      (rem off n : ℕ)
      → (rem == 0) ≡ false
      → rem ≤ suc n
      → off < sectors_per_page
      → rem - sectors_to_read hw off rem ≤ n
  fewer rem off n go fuel o = ground arith

  issd_read_loop-HasRead :
      (n : ℕ) (s : Ftl State) (buf l off rem : ℕ)
      → rem ≤ n
      → off < sectors_per_page
      → Mapped s l off rem
      → (issd_read_loop hw n s buf l off rem).0 ≡ true
        × HasRead s buf l off rem (issd_read_loop hw n s buf l off rem).1
  unfolding issd_read_loop read_out
  issd_read_loop-HasRead zero s buf l off rem fuel o mapped =
      (refl, HasRead-none s buf l off rem (omega arith))
  issd_read_loop-HasRead (suc n) s buf l off rem fuel o mapped = elim (Bool-cases (rem == 0)) [
    | inl stop ↦ rw (stop, issd_read_loop) (refl, HasRead-none s buf l off rem (==→≡ rem 0 stop))
    | inr go ↦
        let page_of : (l * bytes_per_page + off * bytes_per_sector) / bytes_per_page ≡ l =
          omega arith in
        let m : s.page_map l ≢ 0 =
          subst (λ p. s.page_map p ≢ 0) page_of
            (mapped (l * bytes_per_page + off * bytes_per_sector) (ground arith)) in
        let there : (s.page_map l == 0) ≡ false = ne→not-== (s.page_map l) 0 m in
        let (returned, a) =
          issd_read_loop-HasRead n (page_read s buf l off rem) (buf + bytes_per_page) (l + 1) 0
            (rem - sectors_to_read hw off rem) (fewer rem off n go fuel o) (omega arith)
            (λ x w. mapped x (ground arith)) in
        let first : 0 < rem = ground arith in
        rw (go, there, issd_read_loop) (returned, HasRead-page s _ buf l off rem first o a)
  ]

  -- A page that was never written stops the read.
  issd_read_loop-fails :
      (n : ℕ) (s : Ftl State) (buf l off rem x : ℕ)
      → rem ≤ n
      → off < sectors_per_page
      → within (l * bytes_per_page + off * bytes_per_sector) (rem * bytes_per_sector) x ≡ true
      → place hw s x ≡ 0
      → (issd_read_loop hw n s buf l off rem).0 ≡ false
  unfolding issd_read_loop read_out
  issd_read_loop-fails zero s buf l off rem x fuel o w hole = absurd (ground arith)
  issd_read_loop-fails (suc n) s buf l off rem x fuel o w hole = elim (Bool-cases (rem == 0)) [
    | inl stop ↦ absurd (ground arith)
    | inr go ↦ elim (Bool-cases (s.page_map l == 0)) [
      | inl missing ↦ rw (go, missing, issd_read_loop) refl
      | inr there ↦ elim (Bool-cases (l == x / bytes_per_page)) [
        | inl same ↦ absurd (
            not-==→≢ (s.page_map l) 0 there
              (ap s.page_map (==→≡ l (x / bytes_per_page) same) ∙ hole))
        | inr other ↦
            rw (go, there, issd_read_loop)
              (issd_read_loop-fails n (page_read s buf l off rem) (buf + bytes_per_page) (l + 1) 0
                (rem - sectors_to_read hw off rem) x (fewer rem off n go fuel o) (omega arith)
                (ground arith) hole)
      ]
    ]
  ]

  -- The loop from the first page on.
  pub issd_read_sectors-HasRead_any :
      (s : Ftl State) (buf lba total : ℕ)
      → Mapped s (lba / sectors_per_page) (lba % sectors_per_page) total
      → (issd_read_sectors hw s buf lba total).0 ≡ true
        × HasRead s buf
            (lba / sectors_per_page)
            (lba % sectors_per_page)
            total
            (issd_read_sectors hw s buf lba total).1
  unfolding issd_read_sectors
  issd_read_sectors-HasRead_any s buf lba total mapped =
      issd_read_loop-HasRead total s buf (lba / sectors_per_page) (lba % sectors_per_page) total
        (omega arith) (omega arith) mapped

  -- When the sectors lie on the device, every page of them is mapped, and the place for them lies in
  -- the computing area and ends in the DRAM, `issd_read_sectors` returns 0, the bytes of the volume lie
  -- in the buffer at their place behind the start of the first page, and nothing else changes.
  pub issd_read_sectors-HasRead :
      (s : Ftl State) (buf lba total : ℕ)
      → lba + total ≤ num_lsectors
      → issd_computing_addr ≤ buf
      → buf + (lba % sectors_per_page + total) * bytes_per_sector ≤ dram_base + dram_size
      → Mapped s (lba / sectors_per_page) (lba % sectors_per_page) total
      → (issd_read_sectors hw s buf lba total).0 ≡ true
        × HasRead s buf
            (lba / sectors_per_page)
            (lba % sectors_per_page)
            total
            (issd_read_sectors hw s buf lba total).1
  issd_read_sectors-HasRead s buf lba total inside high low mapped =
      issd_read_sectors-HasRead_any s buf lba total mapped

  pub issd_read_sectors-fails :
      (s : Ftl State) (buf lba total x : ℕ)
      → within (lba * bytes_per_sector) (total * bytes_per_sector) x ≡ true
      → place hw s x ≡ 0
      → (issd_read_sectors hw s buf lba total).0 ≡ false
  unfolding issd_read_sectors
  issd_read_sectors-fails s buf lba total x w hole =
      issd_read_loop-fails total s buf (lba / sectors_per_page) (lba % sectors_per_page) total x
        (omega arith) (omega arith) (ground arith) hole
