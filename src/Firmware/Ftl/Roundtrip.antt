-- ===== src/Firmware/Ftl/Roundtrip.antt =====
-- ftl.c (issd_write_sectors, issd_read_sectors): a read behind a write.
use issd.Base.{ℕ, ◌+◌, ◌*◌, ◌%◌, ◌≤◌, ◌<◌, ◌≡◌, ap, ◌∙◌, true, Option, some, arith}
use issd.Firmware.Layout.{
  bytes_per_sector, sectors_per_page, num_lsectors, dram_base, dram_size, issd_computing_addr,
}
use issd.Firmware.Nand.{Nand}
use issd.Firmware.Ftl.{Ftl, issd_read_sectors, issd_write_sectors}
use issd.Firmware.Ftl.Round.{IsValid}
use issd.Firmware.Ftl.Read.{issd_read_sectors-HasRead}
use issd.Firmware.Ftl.Write.{Room, Room-fewer, Writes, issd_write_sectors-Writes}

module _ (hw : Nand) where
  open hw use {State}

  -- What is read behind a write.
  pub WrittenBack : Ftl State → ℕ → ℕ → ℕ → ℕ → Option (Ftl State) → Type 0
  WrittenBack s buf buf' lba total result =
      (t : Ftl State) × (result ≡ some t)
      × ((issd_read_sectors hw t buf' lba total).0 ≡ true)
      × ((i : ℕ)
          → i < total * bytes_per_sector
          → (issd_read_sectors hw t buf' lba total).1.dram
              (buf' + lba % sectors_per_page * bytes_per_sector + i)
            ≡ s.dram (buf + i))

  -- In a valid state with room for the pages, `issd_write_sectors` from a buffer of the computing area
  -- and to sectors on the device returns, and `issd_read_sectors` of the same sectors into a buffer that
  -- lies in the computing area and ends in the DRAM then returns 0 and gives the bytes that were written, behind the sectors of the first page that were skipped.
  pub issd_read_sectors-issd_write_sectors :
      (s : Ftl State) (buf buf' lba total k : ℕ)
      → IsValid hw s
      → Room hw s k
      → issd_computing_addr ≤ buf
      → issd_computing_addr ≤ buf'
      → buf' + (lba % sectors_per_page + total) * bytes_per_sector ≤ dram_base + dram_size
      → lba % sectors_per_page + total ≤ sectors_per_page * k
      → lba + total ≤ num_lsectors
      → WrittenBack s buf buf' lba total (issd_write_sectors hw s buf lba total)
  unfolding WrittenBack Writes
  issd_read_sectors-issd_write_sectors s buf buf' lba total k v room high high' low fit inside =
      let (t, returned, a, more) =
        issd_write_sectors-Writes hw s buf lba total k 0 v
          (Room-fewer hw s k (k + 0) (omega arith) room) high fit inside in
      let (ok, b) =
        issd_read_sectors-HasRead hw t buf' lba total inside high' low
          (λ x w. (a.new x (ground arith)).0) in
      (
        t,
        returned,
        ok,
        λ i h.
            let x = lba * bytes_per_sector + i in
            ap (issd_read_sectors hw t buf' lba total).1.dram (omega arith)
            ∙ b.copied x (ground arith)
            ∙ (a.new x (ground arith)).1
            ∙ ap s.dram (omega arith),
      )
