-- ===== src/Firmware/Backup/CopyTests.antt =====
-- A copy of a file of 1300 bytes, three sectors in an extent, to a file of two extents.
use issd.Base.{
  ℕ, ◌+◌, ◌≤◌, ◌≡◌, refl, sym, subst, true, some, Bytes, read_32, ◌==◌, if◌then◌else◌, arith, [],
  ◌∷◌, inr,
}
use issd.Base.Sectors.{take}
use issd.Firmware.Chips.{chips, empty}
use issd.Firmware.ScanList.Lookup.{is_bad_block-none}
use issd.Firmware.Ftl.{Ftl}
use issd.Firmware.Ftl.Room.{capacity-inside}
use issd.Firmware.Ftl.Round.{IsValid}
use issd.Firmware.Ftl.Write.{Room}
use issd.Firmware.Backup.{
  file_size_addr, file_ext_offset_addr, ext_lba_addr, ext_len_addr, read_job, do_issd_backup,
}
use issd.Firmware.Backup.Moved.{MappedSectors}
use issd.Firmware.Backup.Cursor.{ext_limit}
use issd.Firmware.Backup.Copy.{source, destination, size, BackedUp, do_issd_backup-BackedUp}

-- Extent 0 is the source, sectors 10 to 12; extents 1 and 2 are sector 1000 and sectors 2000 and 2001.
abbrev request : Bytes
request a =
    if a == file_size_addr 0
    then 20
    else if a == file_size_addr 0 + 1
    then 5
    else if a == file_ext_offset_addr 1
    then 1
    else if a == file_ext_offset_addr 2
    then 3
    else if a == ext_lba_addr 0
    then 10
    else if a == ext_len_addr 0
    then 3
    else if a == ext_lba_addr 1
    then 232
    else if a == ext_lba_addr 1 + 1
    then 3
    else if a == ext_len_addr 1
    then 1
    else if a == ext_lba_addr 2
    then 208
    else if a == ext_lba_addr 2 + 1
    then 7
    else if a == ext_len_addr 2
    then 2
    else 0

-- A device with its first logical page in the first page of block 1.
abbrev asked : Ftl (ℕ → ℕ → Bytes)
asked = record empty {
  dram = request;
  page_map = λ l. if l == 0 then 128 else 0;
  target_row = λ b. 129;
}

from : source chips asked ≡ 10 ∷ 11 ∷ 12 ∷ []
unfolding read_job read_32
from = refl

to : destination chips asked ≡ 1000 ∷ 2000 ∷ 2001 ∷ []
unfolding read_job read_32
to = refl

of_3 : size chips asked ≡ 3
unfolding read_job read_32
of_3 = refl

inside : (read_job chips request).rd_bio_offset + (read_job chips request).nr_rd_bios ≤ ext_limit
unfolding read_job read_32
inside = omega arith

inside_too :
    (read_job chips request).wr_bio_offset + (read_job chips request).nr_wr_bios ≤ ext_limit
unfolding read_job read_32
inside_too = omega arith

asked-IsValid : IsValid chips asked
asked-IsValid = record {
  bank = omega arith;
  ready = λ b. (omega arith, inr (is_bad_block-none (empty.scan_list 0) 1 refl));
  mapped = λ l h. ground arith;
  blank = λ b r le lt good a. refl;
}

asked-Room : Room chips asked 3
asked-Room b = omega (arith, capacity-inside (empty.scan_list 0) 129 (omega arith) refl)

in_page_0 : MappedSectors chips asked (10 ∷ 11 ∷ 12 ∷ [])
in_page_0 = (λ a lt. ground arith, (λ a lt. ground arith, (λ a lt. ground arith, tt)))

do_issd_backup-BackedUp_example :
    (t : Ftl (ℕ → ℕ → Bytes)) × (do_issd_backup chips asked ≡ some (true, t))
    × BackedUp chips asked
        (take (size chips asked) (destination chips asked))
        (take (size chips asked) (source chips asked))
        t
do_issd_backup-BackedUp_example =
    do_issd_backup-BackedUp chips asked inside inside_too asked-IsValid
      (subst (Room chips asked) (sym of_3) asked-Room) (rw (of_3, from) (omega arith))
      (rw (of_3, to) (omega arith)) (rw from in_page_0)
      (rw from (omega arith, (omega arith, (omega arith, tt))))
      (rw to (omega arith, (omega arith, (omega arith, tt)))) (rw to (refl, (refl, (refl, tt))))
      (rw (from, to) (refl, (refl, (refl, tt))))

-- An extent larger than the buffer.
