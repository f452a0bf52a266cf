-- ===== src/Firmware/Sata/Range.antt =====
-- sata_isr.c (handle_got_cfis) and sata_main.c (eventq_get): the range of a command that the FTL is to
-- carry out.
use issd.Base.{
  ℕ, ◌+◌, ◌/◌, ◌%◌, ◌≤◌, ◌<◌, ◌≡◌, refl, ap, ◌∙◌, Bool, true, false, ◌||◌, ◌⊎◌, inl, inr, [], ◌∷◌,
  ◌++◌, ◌==◌, u32, if◌then◌else◌, arith, Bool-cases,
}
use issd.Firmware.Layout.{num_lsectors}
use issd.Firmware.Sata.Table.{cmd_class}
use issd.Firmware.Sata.{
  EventQueue, Frame, Sata, Call, report_idnf, call_ftl_read, call_ftl_write, flag, cmd_code_of,
  decode_lba, decode_count, out_of_range, handle_got_cfis, read_entry, call_of,
}

abbrev class_of : Frame → ℕ
class_of f = cmd_class (cmd_code_of f)

-- A command for the FTL that has an address.
abbrev pub Addressed : Frame → Type 0
Addressed f =
    ((flag 1 (class_of f) || flag 2 (class_of f)) ≡ true)
    × ((flag 16 (class_of f) || flag 32 (class_of f)) ≡ true)
    × (flag 64 (class_of f) ≡ false)

-- The call that a command asks for, from a given sector on.
abbrev pub asked_call : Frame → ℕ → Call
asked_call f lba =
    if flag 2 (class_of f)
    then call_ftl_write lba (decode_count f)
    else call_ftl_read lba (decode_count f)

module _ (hw : EventQueue) where
  open hw use {entry, count-entry, lba-entry, type-entry}

  count-range : (f : Frame) → Addressed f → (0 < decode_count f) × (decode_count f ≤ 65536)
  unfolding decode_count
  count-range f (ftl, addressed, has_sectors) = elim (Bool-cases (flag 16 (class_of f))) [
    | inl nor ↦ rw (decode_count, nor, has_sectors) (ground arith)
    | inr not_nor ↦
        let ext : flag 32 (class_of f) ≡ true = rw not_nor at addressed in
        rw (decode_count, not_nor, ext, has_sectors) (ground arith)
  ]

  lba-range : (s : Sata) (f : Frame) → decode_lba s f < u32
  unfolding decode_lba
  lba-range s f = ground arith

  write_bit : (w : Bool) (lba n : ℕ) → ((entry w lba n).1 / 2147483648 == 1) ≡ w
  write_bit true lba n = rw (type-entry true lba n) refl
  write_bit false lba n = rw (type-entry false lba n) refl

  -- The entry of a command, as `eventq_get` gives it back.
  call_of-entry :
      (w : Bool) (lba n : ℕ)
      → 0 < n
      → n ≤ 65536
      → call_of (entry w lba n)
        ≡ (if w then call_ftl_write (lba % 1073741824) n else call_ftl_read (lba % 1073741824) n)
  unfolding call_of read_entry
  call_of-entry w lba n pos le =
      let count : (if (entry w lba n).0 / 65536 == 0 then 65536 else (entry w lba n).0 / 65536)
          ≡ n =
        ground (arith, count-entry w lba n) in
      let write : ((entry w lba n).1 / 2147483648 == 1) ≡ w = write_bit w lba n in
      rw (count, write, lba-entry w lba n) refl

  handled :
      (f : Frame) (s : Sata)
      → out_of_range (decode_lba s f) (decode_count f) (class_of f) ≡ false
      → (flag 1 (class_of f) || flag 2 (class_of f)) ≡ true
      → (handle_got_cfis hw s f).events
        ≡ s.events ++ (entry (flag 2 (class_of f)) (decode_lba s f) (decode_count f) ∷ [])
  unfolding handle_got_cfis
  handled f s inside ftl = elim (Bool-cases f.queue_full) [
    | inl full ↦ rw (handle_got_cfis, inside, ftl, full) refl
    | inr free ↦ rw (handle_got_cfis, inside, ftl, free) refl
  ]

  -- A command for the FTL whose end does not pass 2 ^ 32 is refused with B_IDNF when it ends behind the
  -- last sector of the device, and its event is otherwise put into the queue, from which Main gets
  -- the call with its first sector and its number of sectors.
  pub handle_got_cfis-Addressed :
      (s : Sata) (f : Frame)
      → Addressed f
      → decode_lba s f + decode_count f < u32
      → ((num_lsectors < decode_lba s f + decode_count f)
          × ((handle_got_cfis hw s f).events ≡ s.events)
          × ((handle_got_cfis hw s f).calls ≡ s.calls ++ (report_idnf ∷ [])))
        ⊎ ((decode_lba s f + decode_count f ≤ num_lsectors)
            × ((e : ℕ × ℕ) × ((handle_got_cfis hw s f).events ≡ s.events ++ (e ∷ []))
                × (call_of e ≡ asked_call f (decode_lba s f))))
  unfolding handle_got_cfis
  handle_got_cfis-Addressed s f a small =
      let (ftl, addressed, has_sectors) = a in
      let (pos, most) = count-range f a in
      let whole : (decode_lba s f + decode_count f) % u32 ≡ decode_lba s f + decode_count f =
        omega arith in
      elim (Bool-cases (out_of_range (decode_lba s f) (decode_count f) (class_of f))) [
        | inl outside ↦
            inl
              (ground arith, rw (outside, handle_got_cfis) refl, rw (outside, handle_got_cfis) refl)
        | inr inside ↦
            let fits : decode_lba s f + decode_count f ≤ num_lsectors = ground arith in
            let low : decode_lba s f % 1073741824 ≡ decode_lba s f = omega arith in
            let e = entry (flag 2 (class_of f)) (decode_lba s f) (decode_count f) in
            inr (
              fits,
              (
                e,
                handled f s inside ftl,
                call_of-entry (flag 2 (class_of f)) (decode_lba s f) (decode_count f) pos most
                    ∙ ap (asked_call f) low,
              ),
            )
      ]

  -- The sum of the sector and the number of sectors is kept in 32 bits: a command for the FTL that passes
  -- 2 ^ 32 by less than the number of sectors of the device is taken, and Main gets a call that
  -- starts behind the last sector.
  pub handle_got_cfis-wraps :
      (s : Sata) (f : Frame)
      → Addressed f
      → u32 ≤ decode_lba s f + decode_count f
      → (e : ℕ × ℕ) × ((handle_got_cfis hw s f).events ≡ s.events ++ (e ∷ []))
        × (call_of e ≡ asked_call f (decode_lba s f % 1073741824))
        × (num_lsectors < decode_lba s f % 1073741824)
  unfolding handle_got_cfis
  handle_got_cfis-wraps s f a wraps =
      let (ftl, addressed, has_sectors) = a in
      let (pos, most) = count-range f a in
      let below = lba-range s f in
      let inside : out_of_range (decode_lba s f) (decode_count f) (class_of f) ≡ false =
        ground arith in
      (
        entry (flag 2 (class_of f)) (decode_lba s f) (decode_count f),
        handled f s inside ftl,
        call_of-entry (flag 2 (class_of f)) (decode_lba s f) (decode_count f) pos most,
        omega arith,
      )
