-- ===== src/Firmware/Ftl/Open.antt =====
-- ftl.c (ftl_open): the device when its tables have been cleared.
use issd.Base.{ℕ, ◌+◌, ◌*◌, ◌/◌, ◌≤◌, ◌<◌, ◌≡◌, refl, true, false, ltb, arith}
use issd.Firmware.Layout.{bytes_per_sector, bytes_per_page, num_lsectors, num_lpages}
use issd.Firmware.Nand.{Nand}
use issd.Firmware.Ftl.{Ftl, init_tables, issd_read_sectors}
use issd.Firmware.Ftl.Volume.{place}
use issd.Firmware.Ftl.Read.{issd_read_sectors-fails}

module _ (hw : Nand) where
  open hw use {State}

  place-init_tables :
      (s : Ftl State) (lba : ℕ)
      → lba < num_lsectors
      → place hw (init_tables s) (lba * bytes_per_sector) ≡ 0
  unfolding init_tables
  place-init_tables s lba lt =
      let in_table : ltb (lba * bytes_per_sector / bytes_per_page) num_lpages ≡ true =
        ground arith in
      rw in_table refl

  -- When steps 3 and 4 of `ftl_open` have cleared the tables, a read of sectors on the device, one at
  -- least, returns -1: nothing is written there.
  pub issd_read_sectors-init_tables :
      (s : Ftl State) (buf lba total : ℕ)
      → 0 < total
      → lba + total ≤ num_lsectors
      → (issd_read_sectors hw (init_tables s) buf lba total).0 ≡ false
  issd_read_sectors-init_tables s buf lba total pos inside =
      issd_read_sectors-fails hw (init_tables s) buf lba total (lba * bytes_per_sector)
        (ground arith) (place-init_tables s lba (omega arith))
