-- ===== src/Firmware/Ftl/Tests.antt =====
-- The flash translation layer on an empty device.
use issd.Base.{ℕ, ◌+◌, ◌*◌, ◌≡◌, refl, true, false, Bytes, arith, inl, inr}
use issd.Firmware.Layout.{issd_computing_addr, pages_per_vblk, bytes_per_sector}
use issd.Firmware.Chips.{chips, empty}
use issd.Firmware.ScanList.Lookup.{is_bad_block-none}
use issd.Firmware.Ftl.{init_tables, Ftl, get_free_page, issd_write_sectors, issd_read_sectors}
use issd.Firmware.Ftl.Open.{issd_read_sectors-init_tables}
use issd.Firmware.Ftl.Round.{IsValid}
use issd.Firmware.Ftl.Room.{capacity-none, capacity-inside, HandsOut, get_free_page-HandsOut}
use issd.Firmware.Ftl.Write.{Room, Writes, issd_write_sectors-Writes}
use issd.Firmware.Ftl.Read.{HasRead, Mapped, issd_read_sectors-HasRead}
use issd.Firmware.Ftl.Roundtrip.{WrittenBack, issd_read_sectors-issd_write_sectors}

pub empty-IsValid : IsValid chips empty
empty-IsValid = record {
  bank = omega arith;
  ready = λ b. (omega arith, inl refl);
  mapped = λ l h. absurd (h refl);
  blank = λ b r le lt good a. refl;
}

pub empty-Room : Room chips empty 265600
empty-Room b = omega (arith, capacity-none (empty.scan_list 0) refl)

issd_write_sectors-Writes_example :
    Writes chips empty issd_computing_addr
      (60 * bytes_per_sector)
      (70 * bytes_per_sector)
      265597
      (issd_write_sectors chips empty issd_computing_addr 60 70)
issd_write_sectors-Writes_example =
    issd_write_sectors-Writes chips empty issd_computing_addr 60 70 3 265597 empty-IsValid
      empty-Room (omega arith) (omega arith) (omega arith)

issd_read_sectors-issd_write_sectors_example :
    WrittenBack chips empty issd_computing_addr issd_computing_addr 60 70
      (issd_write_sectors chips empty issd_computing_addr 60 70)
issd_read_sectors-issd_write_sectors_example =
    issd_read_sectors-issd_write_sectors chips empty issd_computing_addr issd_computing_addr 60 70
      265600 empty-IsValid empty-Room (omega arith) (omega arith) (omega arith) (omega arith)
      (omega arith)

-- A device on which the first logical pages stand in the pages of a block.
abbrev used : Ftl (ℕ → ℕ → Bytes)
used = record empty { page_map = λ l. pages_per_vblk + l }

used-Mapped : Mapped chips used 0 60 70
used-Mapped x w zero_page = omega arith

issd_read_sectors-HasRead_example :
    ((issd_read_sectors chips used issd_computing_addr 60 70).0 ≡ true)
    × HasRead chips used issd_computing_addr 0 60 70
        (issd_read_sectors chips used issd_computing_addr 60 70).1
issd_read_sectors-HasRead_example =
    issd_read_sectors-HasRead chips used issd_computing_addr 60 70 (omega arith) (omega arith)
      (omega arith) used-Mapped

issd_read_sectors-init_tables_example :
    (issd_read_sectors chips (init_tables used) issd_computing_addr 60 70).0 ≡ false
issd_read_sectors-init_tables_example =
    issd_read_sectors-init_tables chips used issd_computing_addr 60 70 (omega arith) (omega arith)

-- Bank 0 has given out a page of its first block.
abbrev begun : Ftl (ℕ → ℕ → Bytes)
begun = record empty { target_row = λ b. 129 }

get_free_page-HandsOut_example : HandsOut begun 0 (get_free_page begun 0)
get_free_page-HandsOut_example =
    get_free_page-HandsOut begun 0 (omega arith, inr (is_bad_block-none (begun.scan_list 0) 1 refl))
      (omega (arith, capacity-inside (begun.scan_list 0) 129 (omega arith) refl))
