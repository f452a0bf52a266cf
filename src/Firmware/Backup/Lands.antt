-- ===== src/Firmware/Backup/Lands.antt =====
-- issd.c (do_issd_backup): a write of the computing buffer over a list of sectors.
use issd.Base.{
  ℕ, zero, suc, ◌+◌, ◌-◌, ◌*◌, ◌/◌, ◌≤◌, ◌<◌, ◌≡◌, ◌≢◌, refl, ap, ◌∙◌, subst, true, false, ◌==◌,
  some, within, Bytes, List, [], ◌∷◌, ◌++◌, arith,
}
use issd.Base.Lists.{length, run_of}
use issd.Base.Sectors.{mem, mem-append, Apart}
use issd.Firmware.Layout.{
  bytes_per_sector, bytes_per_page, num_lsectors, issd_wr_buf_addr, issd_computing_addr,
}
use issd.Firmware.Nand.{Nand}
use issd.Firmware.Ftl.{Ftl, issd_write_sectors}
use issd.Firmware.Ftl.Round.{IsValid}
use issd.Firmware.Ftl.Volume.{place, volume, Wrote}
use issd.Firmware.Ftl.Write.{
  Room, Room-fewer, Writes, issd_write_sectors-Writes, issd_write_sectors-none,
}

module _ (hw : Nand) where
  open hw use {State}

  -- The sectors of the list are mapped and hold the bytes from `buf` on.
  abbrev pub Lands : Ftl State → Bytes → ℕ → List ℕ → Type 0
  Lands t f buf [] = Unit
  Lands t f buf (q ∷ qs) =
      ((a : ℕ)
        → a < bytes_per_sector
        → (place hw t (q * bytes_per_sector + a) ≢ 0)
          × (volume hw t (q * bytes_per_sector + a) ≡ f (buf + a)))
      × Lands t f (buf + bytes_per_sector) qs

  -- What lies outside the sectors of a list is mapped as before and holds what it held.
  abbrev pub Outside : Ftl State → List ℕ → Ftl State → Type 0
  Outside s qs t =
      (x : ℕ)
      → place hw s x ≢ 0
      → mem (x / bytes_per_sector) qs ≡ false
      → (place hw t x ≢ 0) × (volume hw t x ≡ volume hw s x)

  -- A write of the buffer over a list of sectors.
  pub record Into (s : Ftl State) (buf : ℕ) (qs : List ℕ) (t : Ftl State) : Type 0 where
    pub valid : IsValid hw t
    pub lands : Lands t s.dram buf qs
    pub old : Outside s qs t
    pub kept : (x : ℕ) → within issd_wr_buf_addr bytes_per_page x ≡ false → t.dram x ≡ s.dram x

  Lands-run :
      (t : Ftl State) (f : Bytes) (n q buf : ℕ)
      → ((x : ℕ)
          → within (q * bytes_per_sector) (n * bytes_per_sector) x ≡ true
          → (place hw t x ≢ 0) × (volume hw t x ≡ f (buf + (x - q * bytes_per_sector))))
      → Lands t f buf (run_of q n)
  Lands-run t f zero q buf h = tt
  Lands-run t f (suc n) q buf h = (
    λ a lt. let (m, e) = h (q * bytes_per_sector + a) (ground arith) in (m, e ∙ ap f (omega arith)),
    Lands-run t f n (q + 1) (buf + bytes_per_sector)
        (λ x w. let (m, e) = h x (ground arith) in (m, e ∙ ap f (ground arith))),
  )

  mem-run :
      (n q x : ℕ)
      → mem (x / bytes_per_sector) (run_of q n) ≡ false
      → within (q * bytes_per_sector) (n * bytes_per_sector) x ≡ false
  mem-run zero q x h = ground arith
  mem-run (suc n) q x h =
      let out : (x / bytes_per_sector == q) ≡ false = ground arith in
      let rest : mem (x / bytes_per_sector) (run_of (q + 1) n) ≡ false = ground arith in
      ground (arith, mem-run n (q + 1) x rest)

  -- A write of nothing.
  pub Into-none : (s : Ftl State) (buf : ℕ) → IsValid hw s → Into s buf [] s
  Into-none s buf v = record { valid = v; lands = tt; old = λ x m h. (m, refl); kept = λ x h. refl }

  Into-run :
      (s t : Ftl State) (buf lba n : ℕ)
      → Wrote hw s buf (lba * bytes_per_sector) (n * bytes_per_sector) t
      → Into s buf (run_of lba n) t
  Into-run s t buf lba n a = record {
    valid = a.valid;
    lands = Lands-run t s.dram n lba buf a.new;
    old = λ x m h. a.old x m (mem-run n lba x h);
    kept = a.kept;
  }

  -- A run of `n` sectors takes `n` pages at most.
  pub issd_write_sectors-Into :
      (s : Ftl State) (buf lba n j k : ℕ)
      → k ≡ n + j
      → IsValid hw s
      → Room hw s k
      → issd_computing_addr ≤ buf
      → (0 < n → lba + n ≤ num_lsectors)
      → (t : Ftl State) × (issd_write_sectors hw s buf lba n ≡ some t)
        × Into s buf (run_of lba n) t
        × Room hw t j
  unfolding Writes
  issd_write_sectors-Into s buf lba zero j k e v room high inside = (
    s,
    issd_write_sectors-none hw s buf lba,
    Into-none s buf v,
    Room-fewer hw s k j (omega arith) room,
  )
  issd_write_sectors-Into s buf lba (suc n) j k e v room high inside =
      let (t, returned, a, more) =
        issd_write_sectors-Writes hw s buf lba (suc n) (suc n) j v (subst (Room hw s) e room) high
          (omega arith) (inside (omega arith)) in
      (t, returned, Into-run s t buf lba (suc n) a, more)

  sector_of : (q a : ℕ) → a < bytes_per_sector → (q * bytes_per_sector + a) / bytes_per_sector ≡ q
  sector_of q a lt = omega arith

  Lands-Outside :
      (t u : Ftl State) (f : Bytes) (buf : ℕ) (qs rs : List ℕ)
      → Apart qs rs
      → Outside t rs u
      → Lands t f buf qs
      → Lands u f buf qs
  Lands-Outside t u f buf [] rs apart out h = tt
  Lands-Outside t u f buf (q ∷ qs) rs (free, apart) out (h, hs) = (
    λ a lt.
        let (m, e) = h a lt in
        let free' : mem ((q * bytes_per_sector + a) / bytes_per_sector) rs ≡ false =
          ap (λ i. mem i rs) (sector_of q a lt) ∙ free in
        let (m', e') = out (q * bytes_per_sector + a) m free' in (m', e' ∙ e),
    Lands-Outside t u f (buf + bytes_per_sector) qs rs apart out hs,
  )

  Lands-cong :
      (t : Ftl State) (f g : Bytes) (buf : ℕ) (qs : List ℕ)
      → ((x : ℕ) → buf ≤ x → f x ≡ g x)
      → Lands t f buf qs
      → Lands t g buf qs
  Lands-cong t f g buf [] same h = tt
  Lands-cong t f g buf (q ∷ qs) same (h, hs) = (
    λ a lt. let (m, e) = h a lt in (m, e ∙ same (buf + a) (omega arith)),
    Lands-cong t f g (buf + bytes_per_sector) qs (λ x le. same x (omega arith)) hs,
  )

  Lands-append :
      (t : Ftl State) (f : Bytes) (buf buf' : ℕ) (qs rs : List ℕ)
      → buf' ≡ buf + length qs * bytes_per_sector
      → Lands t f buf qs
      → Lands t f buf' rs
      → Lands t f buf (qs ++ rs)
  Lands-append t f buf buf' [] rs e a b = subst (λ p. Lands t f p rs) (omega arith) b
  Lands-append t f buf buf' (q ∷ qs) rs e (h, a) b =
      (h, Lands-append t f (buf + bytes_per_sector) buf' qs rs (omega arith) a b)

  -- Outside two lists.
  pub Outside-append :
      (s t u : Ftl State) (qs rs : List ℕ)
      → Outside s qs t
      → Outside t rs u
      → Outside s (qs ++ rs) u
  Outside-append s t u qs rs a b x m h =
      let both = mem-append (x / bytes_per_sector) qs rs in
      let (m', e) = a x m (ground (arith, both)) in
      let (m'', e') = b x m' (ground (arith, both)) in (m'', e' ∙ e)

  -- Two writes behind each other.
  pub Into-append :
      (s t u : Ftl State) (buf buf' : ℕ) (qs rs : List ℕ)
      → issd_computing_addr ≤ buf
      → buf' ≡ buf + length qs * bytes_per_sector
      → Apart qs rs
      → Into s buf qs t
      → Into t buf' rs u
      → Into s buf (qs ++ rs) u
  Into-append s t u buf buf' qs rs high e apart a b = record {
    valid = b.valid;
    lands =
        Lands-append u s.dram buf buf' qs rs e
          (Lands-Outside t u s.dram buf qs rs apart b.old a.lands)
          (Lands-cong u t.dram s.dram buf' rs (λ x le. a.kept x (ground arith)) b.lands);
    old = Outside-append s t u qs rs a.old b.old;
    kept = λ x w. b.kept x w ∙ a.kept x w;
  }
