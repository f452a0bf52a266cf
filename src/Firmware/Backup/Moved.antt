-- ===== src/Firmware/Backup/Moved.antt =====
-- issd.c (do_issd_backup): sectors read into the computing buffer and written to other sectors.
use issd.Base.{
  ℕ, zero, suc, ◌+◌, ◌-◌, ◌*◌, ◌/◌, ◌%◌, ◌≤◌, ◌<◌, ◌≡◌, ◌≢◌, refl, sym, ap, ◌∙◌, subst, true, false,
  within, Bytes, List, [], ◌∷◌, ◌++◌, arith,
}
use issd.Base.Lists.{length, run_of}
use issd.Base.Sectors.{mem, Apart}
use issd.Firmware.Layout.{bytes_per_sector, sectors_per_page, issd_wr_buf_addr, issd_computing_addr}
use issd.Firmware.Nand.{Nand}
use issd.Firmware.Ftl.{Ftl}
use issd.Firmware.Ftl.Round.{IsValid}
use issd.Firmware.Ftl.Volume.{place, volume}
use issd.Firmware.Ftl.Read.{HasRead}
use issd.Firmware.Backup.Lands.{Lands, Into, Outside, Outside-append}

module _ (hw : Nand) where
  open hw use {State}

  -- The buffer from `buf` on holds the sectors of the list.
  abbrev Loaded : Ftl State → Bytes → ℕ → List ℕ → Type 0
  Loaded s f buf [] = Unit
  Loaded s f buf (q ∷ qs) =
      ((a : ℕ) → a < bytes_per_sector → f (buf + a) ≡ volume hw s (q * bytes_per_sector + a))
      × Loaded s f (buf + bytes_per_sector) qs

  -- The sectors of the list are mapped.
  abbrev pub MappedSectors : Ftl State → List ℕ → Type 0
  MappedSectors s [] = Unit
  MappedSectors s (q ∷ qs) =
      ((a : ℕ) → a < bytes_per_sector → place hw s (q * bytes_per_sector + a) ≢ 0)
      × MappedSectors s qs

  -- Each sector of the first list is mapped and holds in `t` what that of the second holds in `s`.
  abbrev pub Copied : Ftl State → Ftl State → List ℕ → List ℕ → Type 0
  Copied s t (d ∷ ds) (q ∷ qs) =
      ((a : ℕ)
        → a < bytes_per_sector
        → (place hw t (d * bytes_per_sector + a) ≢ 0)
          × (volume hw t (d * bytes_per_sector + a) ≡ volume hw s (q * bytes_per_sector + a)))
      × Copied s t ds qs
  Copied s t [] qs = Unit
  Copied s t (d ∷ ds) [] = Unit

  -- A copy of the sectors of the second list to those of the first.
  pub record Moved (s : Ftl State) (ds qs : List ℕ) (t : Ftl State) : Type 0 where
    pub valid : IsValid hw t
    pub copied : Copied s t ds qs
    pub old : Outside hw s ds t
    pub kept : (x : ℕ) → x < issd_wr_buf_addr → t.dram x ≡ s.dram x

  pub Moved-none : (s : Ftl State) → IsValid hw s → Moved s [] [] s
  Moved-none s v = record { valid = v; copied = tt; old = λ x m h. (m, refl); kept = λ x h. refl }

  Loaded-run :
      (s : Ftl State) (f : Bytes) (n q buf : ℕ)
      → ((x : ℕ)
          → within (q * bytes_per_sector) (n * bytes_per_sector) x ≡ true
          → f (buf + (x - q * bytes_per_sector)) ≡ volume hw s x)
      → Loaded s f buf (run_of q n)
  Loaded-run s f zero q buf h = tt
  Loaded-run s f (suc n) q buf h = (
    λ a lt. ap f (omega arith) ∙ h (q * bytes_per_sector + a) (ground arith),
    Loaded-run s f n (q + 1) (buf + bytes_per_sector)
        (λ x w. ap f (ground arith) ∙ h x (ground arith)),
  )

  Copied-Loaded :
      (s t : Ftl State) (f : Bytes) (buf : ℕ) (ds qs : List ℕ)
      → Lands hw t f buf ds
      → Loaded s f buf qs
      → Copied s t ds qs
  Copied-Loaded s t f buf [] qs a b = tt
  Copied-Loaded s t f buf (d ∷ ds) [] a b = tt
  Copied-Loaded s t f buf (d ∷ ds) (q ∷ qs) (h, a) (g, b) = (
    λ i lt. let (m, e) = h i lt in (m, e ∙ g i lt),
    Copied-Loaded s t f (buf + bytes_per_sector) ds qs a b,
  )

  -- A read of a run changes the buffer only, and leaves the run's sectors in it.
  pub HasRead-Loaded :
      (s t : Ftl State) (lba rd n : ℕ)
      → n ≤ rd
      → HasRead hw s issd_computing_addr (lba / sectors_per_page) (lba % sectors_per_page) rd t
      → Loaded s t.dram
          (issd_computing_addr + lba % sectors_per_page * bytes_per_sector)
          (run_of lba n)
  HasRead-Loaded s t lba rd n le a =
      Loaded-run s t.dram n lba (issd_computing_addr + lba % sectors_per_page * bytes_per_sector)
        (λ x w. ap t.dram (ground arith) ∙ a.copied x (ground arith))

  -- The state behind a read is the state before but for the DRAM.
  pub HasRead-IsValid :
      (s t : Ftl State) (l off rd : ℕ)
      → HasRead hw s issd_computing_addr l off rd t
      → IsValid hw s
      → IsValid hw t
  HasRead-IsValid s t l off rd a v =
      subst (IsValid hw) (sym a.rest)
        (record { bank = v.bank; ready = v.ready; mapped = v.mapped; blank = v.blank })

  HasRead-Outside :
      (s t u : Ftl State) (buf l off rd : ℕ) (ds : List ℕ)
      → HasRead hw s buf l off rd t
      → Outside hw t ds u
      → Outside hw s ds u
  HasRead-Outside s t u buf l off rd ds a out =
      let same : Outside hw (record s { dram = t.dram }) ds u =
        subst (λ r. Outside hw r ds u) a.rest out in
      same

  -- A read, and a write of its first sectors.
  pub Moved-chunk :
      (s t u : Ftl State) (lba rd n : ℕ) (ds : List ℕ)
      → n ≤ rd
      → HasRead hw s issd_computing_addr (lba / sectors_per_page) (lba % sectors_per_page) rd t
      → Into hw t (issd_computing_addr + lba % sectors_per_page * bytes_per_sector) ds u
      → Moved s ds (run_of lba n) u
  Moved-chunk s t u lba rd n ds le a b = record {
    valid = b.valid;
    copied =
        Copied-Loaded s u t.dram (issd_computing_addr + lba % sectors_per_page * bytes_per_sector)
          ds (run_of lba n) b.lands (HasRead-Loaded s t lba rd n le a);
    old =
        HasRead-Outside s t u issd_computing_addr (lba / sectors_per_page) (lba % sectors_per_page)
          rd ds a b.old;
    kept = λ x lt. b.kept x (ground arith) ∙ a.kept x (ground arith);
  }

  sector_of : (q a : ℕ) → a < bytes_per_sector → (q * bytes_per_sector + a) / bytes_per_sector ≡ q
  sector_of q a lt = omega arith

  -- A byte of a sector that is not in the list.
  Outside-sector :
      (s t : Ftl State) (q a : ℕ) (ds : List ℕ)
      → a < bytes_per_sector
      → mem q ds ≡ false
      → Outside hw s ds t
      → place hw s (q * bytes_per_sector + a) ≢ 0
      → (place hw t (q * bytes_per_sector + a) ≢ 0)
        × (volume hw t (q * bytes_per_sector + a) ≡ volume hw s (q * bytes_per_sector + a))
  Outside-sector s t q a ds lt free out m =
      out (q * bytes_per_sector + a) m (ap (λ i. mem i ds) (sector_of q a lt) ∙ free)

  pub MappedSectors-Outside :
      (s t : Ftl State) (qs ds : List ℕ)
      → Apart qs ds
      → Outside hw s ds t
      → MappedSectors s qs
      → MappedSectors t qs
  MappedSectors-Outside s t [] ds apart out m = tt
  MappedSectors-Outside s t (q ∷ qs) ds (free, apart) out (h, m) = (
    λ a lt. (Outside-sector s t q a ds lt free out (h a lt)).0,
    MappedSectors-Outside s t qs ds apart out m,
  )

  Copied-Outside :
      (s t u : Ftl State) (ds qs rs : List ℕ)
      → Apart ds rs
      → Outside hw t rs u
      → Copied s t ds qs
      → Copied s u ds qs
  Copied-Outside s t u [] qs rs apart out c = tt
  Copied-Outside s t u (d ∷ ds) [] rs apart out c = tt
  Copied-Outside s t u (d ∷ ds) (q ∷ qs) rs (free, apart) out (h, c) = (
    λ a lt.
        let (m, e) = h a lt in
        let (m', e') = Outside-sector t u d a rs lt free out m in (m', e' ∙ e),
    Copied-Outside s t u ds qs rs apart out c,
  )

  -- The sources are as before when they lie outside what was written.
  Copied-source :
      (s t u : Ftl State) (ds qs rs : List ℕ)
      → Apart qs rs
      → Outside hw s rs t
      → MappedSectors s qs
      → Copied t u ds qs
      → Copied s u ds qs
  Copied-source s t u [] qs rs apart out m c = tt
  Copied-source s t u (d ∷ ds) [] rs apart out m c = tt
  Copied-source s t u (d ∷ ds) (q ∷ qs) rs (free, apart) out (h, m) (g, c) = (
    λ a lt. let (p, e) = g a lt in (p, e ∙ (Outside-sector s t q a rs lt free out (h a lt)).1),
    Copied-source s t u ds qs rs apart out m c,
  )

  Copied-append :
      (s t : Ftl State) (ds qs ds' qs' : List ℕ)
      → length ds ≡ length qs
      → Copied s t ds qs
      → Copied s t ds' qs'
      → Copied s t (ds ++ ds') (qs ++ qs')
  Copied-append s t [] [] ds' qs' e a b = b
  Copied-append s t [] (q ∷ qs) ds' qs' e a b = absurd (omega arith)
  Copied-append s t (d ∷ ds) [] ds' qs' e a b = absurd (omega arith)
  Copied-append s t (d ∷ ds) (q ∷ qs) ds' qs' e (h, a) b =
      (h, Copied-append s t ds qs ds' qs' (omega arith) a b)

  -- Two copies behind each other, when the second neither reads nor overwrites what the first wrote.
  pub Moved-append :
      (s t u : Ftl State) (ds qs ds' qs' : List ℕ)
      → length ds ≡ length qs
      → Apart ds ds'
      → Apart qs' ds
      → MappedSectors s qs'
      → Moved s ds qs t
      → Moved t ds' qs' u
      → Moved s (ds ++ ds') (qs ++ qs') u
  Moved-append s t u ds qs ds' qs' e apart free m a b = record {
    valid = b.valid;
    copied =
        Copied-append s u ds qs ds' qs' e (Copied-Outside s t u ds qs ds' apart b.old a.copied)
          (Copied-source s t u ds' qs' ds free a.old m b.copied);
    old = Outside-append hw s t u ds ds' a.old b.old;
    kept = λ x lt. b.kept x lt ∙ a.kept x lt;
  }
