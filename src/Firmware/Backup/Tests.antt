-- ===== src/Firmware/Backup/Tests.antt =====
-- A copy of a file of 70 sectors that was never written.
use issd.Base.{ℕ, Bytes, ◌==◌, if◌then◌else◌}
use issd.Firmware.Chips.{empty}
use issd.Firmware.Ftl.{Ftl}
use issd.Firmware.Backup.{file_ext_offset_addr, ext_lba_addr, ext_len_addr}

-- Extent 0 is the source, 70 sectors from 60 on; extent 1 is the target.
abbrev request : Bytes
request a =
    if a == file_ext_offset_addr 1
    then 1
    else if a == file_ext_offset_addr 2
    then 2
    else if a == ext_lba_addr 0
    then 60
    else if a == ext_len_addr 0
    then 70
    else 0

abbrev asked : Ftl (ℕ → ℕ → Bytes)
asked = record empty { dram = request }
