-- ===== src/Firmware/Backup/WriteOut.antt =====
-- issd.c (do_issd_backup): the rounds of the loop over `wr_sectors`.
use issd.Base.{
  ℕ, zero, suc, ◌+◌, ◌-◌, ◌*◌, ◌≤◌, ◌<◌, ◌≡◌, refl, sym, subst, true, false, Option, some, Bytes,
  read_32, List, ◌++◌, ltb, leb, ◌==◌, arith,
}
use issd.Base.Lists.{length-run_of, run_of}
use issd.Base.Sectors.{
  take, drop, take-past, drop-past, take-inside, drop-inside, Apart, Apart-take,
}
use issd.Firmware.Layout.{bytes_per_sector, issd_computing_addr}
use issd.Firmware.Nand.{Nand}
use issd.Firmware.Ftl.{Ftl, issd_write_sectors}
use issd.Firmware.Ftl.Round.{IsValid}
use issd.Firmware.Ftl.Write.{Room, Room-fewer}
use issd.Firmware.Backup.{Backup, Job, ext_lba_addr, ext_len_addr, write_out}
use issd.Firmware.Backup.Lands.{Into, Into-none, Into-append}
use issd.Firmware.Backup.Cursor.{Cursor}

module _ (hw : Nand) (m : Bytes) (job : Job) where
  open hw use {State}

  -- The loop returns, has written the buffer to the first of the sectors left, and `j` pages are left.
  unfoldable pub WritesOut : Backup State → ℕ → ℕ → ℕ → List ℕ → Option (Backup State) → Type 0
  WritesOut b buf wr j rest result =
      (b' : Backup State) × (result ≡ some b')
      × (b'.read_file_offset_start ≡ b.read_file_offset_start)
      × Into hw b.ftl buf (take wr rest) b'.ftl
      × Room hw b'.ftl j
      × ((k : ℕ) × Cursor m job b' k (drop wr rest))

  pub write_out-done : (n : ℕ) (b : Backup State) (buf : ℕ) → write_out hw n job b buf 0 ≡ some b
  unfolding write_out
  write_out-done zero b buf = refl
  write_out-done (suc n) b buf = refl

  pub WritesOut-none :
      (b : Backup State) (buf wr j k : ℕ) (rest : List ℕ) (result : Option (Backup State))
      → wr ≡ 0
      → result ≡ some b
      → IsValid hw b.ftl
      → Room hw b.ftl (wr + j)
      → Cursor m job b k rest
      → WritesOut b buf wr j rest result
  unfolding WritesOut
  WritesOut-none b buf wr j k rest result done returned v room c = (
    b,
    returned,
    refl,
    subst (λ i. Into hw b.ftl buf (take i rest) b.ftl) (sym done) (Into-none hw b.ftl buf v),
    Room-fewer hw b.ftl (wr + j) j (omega arith) room,
    (k, subst (λ i. Cursor m job b k (drop i rest)) (sym done) c),
  )

  -- A round that ends the extent, and the rounds behind it.
  pub WritesOut-finish :
      (b : Backup State) (t : Ftl State) (buf a n wr j : ℕ) (rest : List ℕ)
      (result : Option (Backup State))
      → n ≤ wr
      → issd_computing_addr ≤ buf
      → Apart (run_of a n) rest
      → Into hw b.ftl buf (run_of a n) t
      → WritesOut
          (record b { ftl = t; index = b.index + 1; offset = 0 })
          (buf + n * bytes_per_sector)
          (wr - n)
          j
          rest
          result
      → WritesOut b buf wr j (run_of a n ++ rest) result
  unfolding WritesOut
  WritesOut-finish b t buf a n wr j rest result le high apart first
        (b', returned, start, more, room, (k, c)) =
      let all : Into hw b.ftl buf (run_of a n ++ take (wr - n) rest) b'.ftl =
        Into-append hw b.ftl t b'.ftl buf (buf + n * bytes_per_sector) (run_of a n)
          (take (wr - n) rest) high (omega (arith, length-run_of a n))
          (Apart-take (wr - n) (run_of a n) rest apart) first more in
      (
        b',
        returned,
        start,
        subst (λ xs. Into hw b.ftl buf xs b'.ftl) (sym (take-past wr n a rest le)) all,
        room,
        (k, subst (λ xs. Cursor m job b' k xs) (sym (drop-past wr n a rest le)) c),
      )

  -- A round that ends inside the extent.
  pub WritesOut-inside :
      (b : Backup State) (t : Ftl State) (buf a n wr j k : ℕ) (rest : List ℕ)
      (result : Option (Backup State))
      → wr ≤ n
      → result ≡ some (record b { ftl = t; offset = b.offset + wr })
      → Into hw b.ftl buf (run_of a wr) t
      → Room hw t j
      → Cursor m job
          (record b { ftl = t; offset = b.offset + wr })
          k
          (run_of (a + wr) (n - wr) ++ rest)
      → WritesOut b buf wr j (run_of a n ++ rest) result
  unfolding WritesOut
  WritesOut-inside b t buf a n wr j k rest result le returned first room c = (
    record b { ftl = t; offset = b.offset + wr },
    returned,
    refl,
    subst (λ xs. Into hw b.ftl buf xs t) (sym (take-inside wr n a rest le)) first,
    room,
    (
      k,
      subst (Cursor m job (record b { ftl = t; offset = b.offset + wr }) k)
          (sym (drop-inside wr n a rest le)) c,
    ),
  )

  pub round-finish :
      (n : ℕ) (b : Backup State) (t : Ftl State) (buf a left wr : ℕ)
      → (wr == 0) ≡ false
      → b.index < job.nr_wr_bios
      → left ≤ wr
      → read_32 b.ftl.dram (ext_len_addr (job.wr_bio_offset + b.index)) - b.offset ≡ left
      → read_32 b.ftl.dram (ext_lba_addr (job.wr_bio_offset + b.index)) + b.offset ≡ a
      → issd_write_sectors hw b.ftl buf a left ≡ some t
      → write_out hw (suc n) job b buf wr
        ≡ write_out hw n job
            (record b { ftl = t; index = b.index + 1; offset = 0 })
            (buf + left * bytes_per_sector)
            (wr - left)
  unfolding write_out
  round-finish n b t buf a left wr go inside le len lba returned =
      let more : ltb b.index job.nr_wr_bios ≡ true = ground arith in
      let finish : leb left wr ≡ true = ground arith in
      rw (write_out, go, more, len, lba, finish, returned, len, finish) refl

  pub round-inside :
      (n : ℕ) (b : Backup State) (t : Ftl State) (buf a left wr : ℕ)
      → (wr == 0) ≡ false
      → b.index < job.nr_wr_bios
      → wr < left
      → read_32 b.ftl.dram (ext_len_addr (job.wr_bio_offset + b.index)) - b.offset ≡ left
      → read_32 b.ftl.dram (ext_lba_addr (job.wr_bio_offset + b.index)) + b.offset ≡ a
      → issd_write_sectors hw b.ftl buf a wr ≡ some t
      → write_out hw (suc n) job b buf wr ≡ some (record b { ftl = t; offset = b.offset + wr })
  unfolding write_out
  round-inside n b t buf a left wr go inside lt len lba returned =
      let more : ltb b.index job.nr_wr_bios ≡ true = ground arith in
      let finish : leb left wr ≡ false = ground arith in
      let none_left : wr - wr ≡ 0 = omega arith in
      rw (write_out, go, more, len, lba, finish, returned, len, finish, none_left)
        (write_out-done n (record b { ftl = t; offset = b.offset + wr })
          (buf + wr * bytes_per_sector))
