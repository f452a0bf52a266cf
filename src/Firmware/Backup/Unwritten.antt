-- ===== src/Firmware/Backup/Unwritten.antt =====
-- issd.c (do_issd_backup): a source that was never written.
use issd.Firmware.Nand.{Nand}
use issd.Firmware.Ftl.{Ftl}
use issd.Firmware.Backup.{Backup}
