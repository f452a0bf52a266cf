-- ===== src/Firmware/Ftl/Serve/Tests.antt =====
-- The host's writes and reads on an empty device.
use issd.Base.{◌*◌, ◌%◌, Bytes, arith}
use issd.Firmware.Layout.{bytes_per_sector}
use issd.Firmware.Chips.{chips, empty}
use issd.Firmware.Ftl.Tests.{empty-IsValid, empty-Room}
use issd.Firmware.Ftl.Serve.{ftl_write}
use issd.Firmware.Ftl.Serve.Gets.{Gets}
use issd.Firmware.Ftl.Serve.Stores.{Stored, ftl_write-Stored}
use issd.Firmware.Ftl.Serve.Back.{Returned, ftl_read-ftl_write}

abbrev sent_bytes : Bytes
sent_bytes a = a % 253

abbrev got_bytes : Bytes
got_bytes a = 0

ftl_write-Stored_example :
    Stored chips sent_bytes empty 0
      (60 * bytes_per_sector)
      (70 * bytes_per_sector)
      265597
      (ftl_write chips empty sent_bytes 60 70)
ftl_write-Stored_example =
    ftl_write-Stored chips sent_bytes empty 60 70 3 265597 empty-IsValid (omega arith) empty-Room
      (omega arith) (omega arith)

ftl_read-ftl_write_example :
    Returned chips sent_bytes got_bytes 60 70 (ftl_write chips empty sent_bytes 60 70)
ftl_read-ftl_write_example =
    ftl_read-ftl_write chips empty sent_bytes got_bytes 60 70 265600 empty-IsValid (omega arith)
      (omega arith) empty-Room (omega arith) (omega arith)
