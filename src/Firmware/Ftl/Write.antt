-- ===== src/Firmware/Ftl/Write.antt =====
-- ftl.c (issd_write_sectors): the loop writes the logical volume.
use issd.Base.{
  ==→≡, ℕ, zero, suc, ◌+◌, ◌-◌, ◌*◌, ◌/◌, ◌%◌, ◌≤◌, ◌<◌, ◌≡◌, refl, sym, subst, Option, some, ◌==◌,
  arith, Bool-cases, inl, inr, ◌⊎◌,
}
use issd.Firmware.Layout.{
  bytes_per_sector, sectors_per_page, bytes_per_page, num_lsectors, num_lpages, issd_computing_addr,
}
use issd.Firmware.Nand.{Nand}
use issd.Firmware.Ftl.{
  Ftl, get_free_page, sectors_to_write, issd_write_page, issd_write_loop, issd_write_sectors,
}
use issd.Firmware.Ftl.Round.{IsValid, written, moved, turned, issd_write_page-written}
use issd.Firmware.Ftl.Alloc.{get_free_page-Fresh}
use issd.Firmware.Ftl.Commit.{Vacant}
use issd.Firmware.Ftl.Written.{written-Wrote}
use issd.Firmware.Ftl.Room.{capacity, get_free_page-capacity}
use issd.Firmware.Ftl.Volume.{Wrote, Wrote-none, Wrote-place, Wrote-append}

module _ (hw : Nand) where
  open hw use {State}

  -- Every bank can hand out `k` pages at least.
  abbrev pub Room : Ftl State → ℕ → Type 0
  Room s k = (b : ℕ) → k ≤ capacity (s.scan_list b) (s.target_row b)

  pub Room-fewer : (s : Ftl State) (k j : ℕ) → j ≤ k → Room s k → Room s j
  Room-fewer s k j le room b = omega (arith, room b)

  pub Room-written :
      (s : Ftl State) (buf l off rem row k : ℕ)
      → Room s (k + 1)
      → k ≤ capacity (s.scan_list s.target_bank) (row + 1)
      → Room (written hw s buf l off rem row) k
  Room-written s buf l off rem row k room a b = elim (Bool-cases (s.target_bank == b)) [
    | inl same ↦
        rw same (subst (λ c. k ≤ capacity (s.scan_list c) (row + 1)) (==→≡ s.target_bank b same) a)
    | inr other ↦ rw other (omega (arith, room b))
  ]

  -- The next page of the target bank, and what the bank can hand out behind it.
  pub next_page :
      (s : Ftl State) (k : ℕ)
      → IsValid hw s
      → Room s (k + 1)
      → (row : ℕ) × (get_free_page (turned hw s) s.target_bank ≡ some (row, moved hw s row))
        × Vacant hw s row
        × (k ≤ capacity (s.scan_list s.target_bank) (row + 1))
  next_page s k v room =
      let (row, got, ahead) = get_free_page-capacity (turned hw s) s.target_bank (
        let some_left : 0 < capacity (s.scan_list s.target_bank) (s.target_row s.target_bank) =
          omega (arith, room s.target_bank) in
        some_left) in
      let f = get_free_page-Fresh (turned hw s) s.target_bank row (v.ready s.target_bank) got in
      (
        row,
        got,
        record { behind = f.behind; inside = f.inside; good = f.good },
        omega (arith, room s.target_bank, ahead),
      )

  -- A write that returns, has written, and leaves `k` pages in every bank.
  unfoldable pub Writes : Ftl State → ℕ → ℕ → ℕ → ℕ → Option (Ftl State) → Type 0
  Writes s buf base len k result =
      (t : Ftl State) × (result ≡ some t) × Wrote hw s buf base len t × Room t k

  issd_write_page-Wrote :
      (s : Ftl State) (buf l off rem k : ℕ)
      → l < num_lpages
      → off < sectors_per_page
      → 0 < rem
      → IsValid hw s
      → Room s (k + 1)
      → (t : Ftl State) × (issd_write_page hw s buf l off rem ≡ some t)
        × Wrote hw s buf
            (l * bytes_per_page + off * bytes_per_sector)
            (sectors_to_write hw off rem * bytes_per_sector)
            t
        × Room t k
  issd_write_page-Wrote s buf l off rem k inside o r v room =
      let (row, got, vacant, ahead) = next_page s k v room in
      (
        written hw s buf l off rem row,
        issd_write_page-written hw s buf l off rem row inside got,
        written-Wrote hw s buf l off rem row o r v vacant,
        Room-written s buf l off rem row k room ahead,
      )

  Wrote-done :
      (s : Ftl State) (buf base rem : ℕ)
      → rem ≡ 0
      → IsValid hw s
      → Wrote hw s buf base (rem * bytes_per_sector) s
  Wrote-done s buf base rem done v =
      subst (λ r. Wrote hw s buf base (r * bytes_per_sector) s) (sym done)
        (Wrote-none hw s buf base v)

  -- Only the last round leaves a page before its end.
  Wrote-rounds :
      (s t u : Ftl State) (buf l off rem : ℕ)
      → 0 < rem
      → off < sectors_per_page
      → issd_computing_addr ≤ buf
      → Wrote hw s buf
          (l * bytes_per_page + off * bytes_per_sector)
          (sectors_to_write hw off rem * bytes_per_sector)
          t
      → Wrote hw t
          (buf + sectors_to_write hw off rem * bytes_per_sector)
          ((l + 1) * bytes_per_page + 0 * bytes_per_sector)
          ((rem - sectors_to_write hw off rem) * bytes_per_sector)
          u
      → Wrote hw s buf (l * bytes_per_page + off * bytes_per_sector) (rem * bytes_per_sector) u
  Wrote-rounds s t u buf l off rem r o high a b =
      let num = sectors_to_write hw off rem in
      let base = l * bytes_per_page + off * bytes_per_sector in
      let next : ((l + 1) * bytes_per_page + 0 * bytes_per_sector ≡ base + num * bytes_per_sector)
          ⊎ ((rem - num) * bytes_per_sector ≡ 0) =
        ground arith in
      let rest = (rem - num) * bytes_per_sector in
      let all : num * bytes_per_sector + rest ≡ rem * bytes_per_sector = ground arith in
      Wrote-place hw s u buf base base (num * bytes_per_sector + rest) (rem * bytes_per_sector)
        (inl refl) all
        (Wrote-append hw s t u buf base (num * bytes_per_sector) rest high a (
          Wrote-place hw t u (buf + num * bytes_per_sector)
            ((l + 1) * bytes_per_page + 0 * bytes_per_sector) (base + num * bytes_per_sector) rest
            rest next refl b))

  issd_write_loop-Writes :
      (n : ℕ) (s : Ftl State) (buf l off rem k j : ℕ)
      → rem ≤ n
      → off < sectors_per_page
      → issd_computing_addr ≤ buf
      → off + rem ≤ sectors_per_page * k
      → l * sectors_per_page + off + rem ≤ num_lpages * sectors_per_page
      → IsValid hw s
      → Room s (k + j)
      → Writes s buf
          (l * bytes_per_page + off * bytes_per_sector)
          (rem * bytes_per_sector)
          j
          (issd_write_loop hw n s buf l off rem)
  unfolding Writes issd_write_loop
  issd_write_loop-Writes zero s buf l off rem k j fuel o high fit inside v room =
      let done : rem ≡ 0 = omega arith in
      (
        s,
        refl,
        Wrote-done s buf (l * bytes_per_page + off * bytes_per_sector) rem done v,
        Room-fewer s (k + j) j (omega arith) room,
      )
  issd_write_loop-Writes (suc n) s buf l off rem k j fuel o high fit inside v room =
      elim (Bool-cases (rem == 0)) [
        | inl stop ↦ (
          s,
          rw (stop, issd_write_loop) refl,
          Wrote-done s buf (l * bytes_per_page + off * bytes_per_sector) rem (==→≡ rem 0 stop) v,
          Room-fewer s (k + j) j (omega arith) room,
        )
        | inr go ↦
            let num = sectors_to_write hw off rem in
            let enough : k + j ≡ k - 1 + j + 1 = ground arith in
            let (t, returned, wrote, room') =
              issd_write_page-Wrote s buf l off rem (k - 1 + j) (ground arith) o (ground arith) v
                (subst (Room s) enough room) in
            let (u, rest, wrote', room'') =
              issd_write_loop-Writes n t (buf + num * bytes_per_sector) (l + 1) 0 (rem - num)
                (k - 1) j (ground arith) (omega arith) (omega arith) (ground arith) (ground arith)
                wrote.valid room' in
            (
              u,
              rw (go, returned, issd_write_loop) rest,
              Wrote-rounds s t u buf l off rem (ground arith) o high wrote wrote',
              room'',
            )
      ]

  -- A valid state whose banks can all hand out `k + j` pages can take a write that ends on the
  -- device, starts `lba % 64` sectors into a page and reaches over `k` pages at most, from a buffer in the computing area:
  -- `issd_write_sectors` returns, the volume then holds the buffer's bytes at the sectors written and
  -- what it held at every other mapped place, the DRAM is changed in the write buffer only, the
  -- state is valid again, and every bank can hand out `j` pages more.
  pub issd_write_sectors-Writes :
      (s : Ftl State) (buf lba total k j : ℕ)
      → IsValid hw s
      → Room s (k + j)
      → issd_computing_addr ≤ buf
      → lba % sectors_per_page + total ≤ sectors_per_page * k
      → lba + total ≤ num_lsectors
      → Writes s buf
          (lba * bytes_per_sector)
          (total * bytes_per_sector)
          j
          (issd_write_sectors hw s buf lba total)
  unfolding Writes issd_write_sectors
  issd_write_sectors-Writes s buf lba total k j v room high fit inside =
      let l = lba / sectors_per_page in
      let off = lba % sectors_per_page in
      let (t, returned, wrote, room') =
        issd_write_loop-Writes total s buf l off total k j (omega arith) (omega arith) high fit
          (omega arith) v room in
      (
        t,
        returned,
        Wrote-place hw s t buf (l * bytes_per_page + off * bytes_per_sector)
            (lba * bytes_per_sector) (total * bytes_per_sector) (total * bytes_per_sector)
            (inl (omega arith)) refl wrote,
        room',
      )

  pub issd_write_sectors-none :
      (s : Ftl State) (buf lba : ℕ) → issd_write_sectors hw s buf lba 0 ≡ some s
  unfolding issd_write_sectors issd_write_loop
  issd_write_sectors-none s buf lba = refl
