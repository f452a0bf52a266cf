-- ===== src/Firmware/Sata/Tests.antt =====
-- Commands of the host on a device at rest.
use issd.Base.{
  some, ℕ, ◌+◌, ◌*◌, ◌/◌, ◌%◌, ◌≤◌, ◌<◌, ◌≡◌, refl, Bool, true, false, ◌⊎◌, List, [], ◌∷◌, ◌++◌,
  if◌then◌else◌, arith, u32,
}
use issd.Firmware.Layout.{num_lsectors}
use issd.Firmware.Sata.Table.{cmd_class}
use issd.Firmware.Sata.{
  EventQueue, Frame, Interrupt, Sata, idle, report_idnf, decode_lba, decode_count, handle_got_cfis,
  call_of,
}
use issd.Firmware.Sata.Range.{
  Addressed, asked_call, handle_got_cfis-Addressed, handle_got_cfis-wraps,
}
use issd.Firmware.Sata.Order.{Action, interrupt, main, asked, run, taken_in, run-asked}

abbrev packed_entry : Bool → ℕ → ℕ → ℕ × ℕ
packed_entry write lba n = (n % 65536 * 65536, (if write then 2147483648 else 0) + lba % 1073741824)

packed-type :
    (write : Bool) (lba n : ℕ)
    → (packed_entry write lba n).1 / 2147483648 ≡ (if write then 1 else 0)
packed-type true lba n = omega arith
packed-type false lba n = omega arith

packed-lba :
    (write : Bool) (lba n : ℕ) → (packed_entry write lba n).1 % 1073741824 ≡ lba % 1073741824
packed-lba true lba n = omega arith
packed-lba false lba n = omega arith

abbrev packed : EventQueue
packed = record {
  entry = packed_entry;
  count-entry = λ write lba n. omega arith;
  lba-entry = packed-lba;
  type-entry = packed-type;
}

abbrev at_rest : Sata
at_rest = record {
  slow_status = idle;
  slow_code = 0;
  slow_lba = 0;
  slow_sector_count = 0;
  eq_full = false;
  srst = false;
  chs_cur_heads = 16;
  chs_cur_sectors = 63;
  action_flags = 0;
  events = [];
  link_up = true;
  in_function = false;
  calls = [];
}

-- WRITE DMA EXT of 8 sectors from sector 1000 on.
abbrev write_8 : Frame
write_8 = record { fis_d0 = 0x350000; fis_d1 = 1000; fis_d2 = 0; fis_d3 = 8; queue_full = false }

-- The same of 16 sectors from sector 0xFFFFFFF8 on.
abbrev write_past : Frame
write_past = record write_8 { fis_d1 = 0xFFFFF8; fis_d2 = 255; fis_d3 = 16 }

write_8-Addressed : Addressed write_8
unfolding cmd_class
write_8-Addressed = (refl, refl, refl)

write_8-lba : decode_lba at_rest write_8 ≡ 1000
unfolding cmd_class decode_lba
write_8-lba = refl

write_8-count : decode_count write_8 ≡ 8
unfolding cmd_class decode_count
write_8-count = refl

small : decode_lba at_rest write_8 + decode_count write_8 < u32
small = rw (write_8-lba, write_8-count) (omega arith)

write_past-Addressed : Addressed write_past
unfolding cmd_class
write_past-Addressed = (refl, refl, refl)

write_past-lba : decode_lba at_rest write_past ≡ 4294967288
unfolding cmd_class decode_lba
write_past-lba = refl

write_past-count : decode_count write_past ≡ 16
unfolding cmd_class decode_count
write_past-count = refl

past : u32 ≤ decode_lba at_rest write_past + decode_count write_past
past = rw (write_past-lba, write_past-count) (omega arith)

handle_got_cfis-Addressed_example :
    ((num_lsectors < decode_lba at_rest write_8 + decode_count write_8)
      × ((handle_got_cfis packed at_rest write_8).events ≡ [])
      × ((handle_got_cfis packed at_rest write_8).calls ≡ report_idnf ∷ []))
    ⊎ ((decode_lba at_rest write_8 + decode_count write_8 ≤ num_lsectors)
        × ((e : ℕ × ℕ) × ((handle_got_cfis packed at_rest write_8).events ≡ e ∷ [])
            × (call_of e ≡ asked_call write_8 (decode_lba at_rest write_8))))
handle_got_cfis-Addressed_example =
    handle_got_cfis-Addressed packed at_rest write_8 write_8-Addressed small

handle_got_cfis-wraps_example :
    (e : ℕ × ℕ) × ((handle_got_cfis packed at_rest write_past).events ≡ e ∷ [])
    × (call_of e ≡ asked_call write_past (decode_lba at_rest write_past % 1073741824))
    × (num_lsectors < decode_lba at_rest write_past % 1073741824)
handle_got_cfis-wraps_example =
    handle_got_cfis-wraps packed at_rest write_past write_past-Addressed past

abbrev command : Interrupt
command = record {
  frame = write_8;
  cmd_recv = true;
  operation_err = false;
  reg_fis_recv = false;
  phy_online = false;
}

abbrev two_writes : List Action
two_writes = interrupt command ∷ interrupt command ∷ main ∷ []

run-asked_example :
    (t : Sata) × (run packed at_rest two_writes ≡ some t)
    × (asked t ≡ asked at_rest ++ taken_in packed at_rest two_writes)
run-asked_example = run-asked packed at_rest two_writes (refl, (refl, (tt, tt)))
