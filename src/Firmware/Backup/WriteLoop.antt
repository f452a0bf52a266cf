-- ===== src/Firmware/Backup/WriteLoop.antt =====
-- issd.c (do_issd_backup): the loop over `wr_sectors` writes the buffer to the next sectors of the
-- destination.
use issd.Base.{
  ℕ, zero, suc, ◌+◌, ◌-◌, ◌*◌, ◌≤◌, ◌<◌, ◌≡◌, refl, sym, ap, ap₂, ◌∙◌, subst, false, Bytes, read_32,
  List, ◌++◌, leb, ◌==◌, arith, Bool-cases, inl, inr, ==→≡,
}
use issd.Base.Lists.{length, length-append, length-run_of, run_of}
use issd.Base.Sectors.{Distinct-append}
use issd.Firmware.Layout.{bytes_per_sector, issd_computing_addr}
use issd.Firmware.Nand.{Nand}
use issd.Firmware.Ftl.Round.{IsValid}
use issd.Firmware.Ftl.Write.{Room}
use issd.Firmware.Backup.{Backup, Job, ext_lba_addr, ext_len_addr, write_out}
use issd.Firmware.Backup.Targets.{Targets, Targets-append, Targets-run}
use issd.Firmware.Backup.Lands.{issd_write_sectors-Into}
use issd.Firmware.Backup.Cursor.{
  Agrees, Cursor, sectors, remaining, remaining-none, ext_limit, ext_lba-Agrees, ext_len-Agrees,
}
use issd.Firmware.Backup.WriteOut.{
  WritesOut, WritesOut-none, WritesOut-finish, WritesOut-inside, round-finish, round-inside,
  write_out-done,
}

module _ (hw : Nand) (m : Bytes) (job : Job) where
  open hw use {State}

  -- `k` extents before the end of the destination, with `wr` sectors to write from `buf` on, and `j` pages
  -- of every bank to be left.
  record Writable (b : Backup State) (k buf wr j : ℕ) : Type 0 where
    count : b.index + k ≡ job.nr_wr_bios
    enough : wr ≤ length (remaining m k (job.wr_bio_offset + b.index) b.offset)
    targets : Targets (remaining m k (job.wr_bio_offset + b.index) b.offset)
    fit : job.wr_bio_offset + job.nr_wr_bios ≤ ext_limit
    valid : IsValid hw b.ftl
    room : Room hw b.ftl (wr + j)
    agrees : Agrees b.ftl.dram m
    high : issd_computing_addr ≤ buf

  -- The sectors of the extent that is under way, as the model reads them.
  lba-here :
      (b : Backup State) (k buf wr j : ℕ)
      → Writable b (suc k) buf wr j
      → read_32 b.ftl.dram (ext_lba_addr (job.wr_bio_offset + b.index)) + b.offset
        ≡ read_32 m (ext_lba_addr (job.wr_bio_offset + b.index)) + b.offset
  lba-here b k buf wr j w =
      let below : job.wr_bio_offset + b.index < ext_limit = omega (arith, w.count, w.fit) in
      ap (λ i. i + b.offset)
        (ext_lba-Agrees b.ftl.dram m (job.wr_bio_offset + b.index) w.agrees below)

  len-here :
      (b : Backup State) (k buf wr j : ℕ)
      → Writable b (suc k) buf wr j
      → read_32 b.ftl.dram (ext_len_addr (job.wr_bio_offset + b.index)) - b.offset
        ≡ read_32 m (ext_len_addr (job.wr_bio_offset + b.index)) - b.offset
  len-here b k buf wr j w =
      let below : job.wr_bio_offset + b.index < ext_limit = omega (arith, w.count, w.fit) in
      ap (λ i. i - b.offset)
        (ext_len-Agrees b.ftl.dram m (job.wr_bio_offset + b.index) w.agrees below)

  -- A loop with nothing to write.
  nothing_left :
      (n k : ℕ) (b : Backup State) (buf wr j : ℕ)
      → wr ≡ 0
      → Writable b k buf wr j
      → WritesOut hw m job b buf wr j
          (remaining m k (job.wr_bio_offset + b.index) b.offset)
          (write_out hw n job b buf wr)
  nothing_left n k b buf wr j done w =
      WritesOut-none hw m job b buf wr j k _ _ done
        (ap (write_out hw n job b buf) done ∙ write_out-done hw m job n b buf) w.valid w.room
        (record { behind = w.count; ahead = refl })

  -- A round to the end of the extent, and what the induction gives of the rounds behind it.
  finish_step :
      (n k : ℕ) (b : Backup State) (buf wr j : ℕ)
      → Writable b (suc k) buf wr j
      → (wr == 0) ≡ false
      → read_32 m (ext_len_addr (job.wr_bio_offset + b.index)) - b.offset ≤ wr
      → ((b' : Backup State) (buf' wr' : ℕ)
          → wr' ≤ wr
          → Writable b' k buf' wr' j
          → WritesOut hw m job b' buf' wr' j
              (remaining m k (job.wr_bio_offset + b'.index) b'.offset)
              (write_out hw n job b' buf' wr'))
      → WritesOut hw m job b buf wr j
          (remaining m (suc k) (job.wr_bio_offset + b.index) b.offset)
          (write_out hw (suc n) job b buf wr)
  finish_step n k b buf wr j w go le hyp =
      let bio = job.wr_bio_offset + b.index in
      let a = read_32 m (ext_lba_addr bio) + b.offset in
      let left = read_32 m (ext_len_addr bio) - b.offset in
      let rest = sectors m k (bio + 1) in
      let (t, returned, into, room) =
        issd_write_sectors-Into hw b.ftl buf a left (wr - left + j) (wr + j) (omega arith) w.valid
          w.room w.high (Targets-run left a rest w.targets) in
      let b' : Backup State = record b { ftl = t; index = b.index + 1; offset = 0 } in
      let buf' = buf + left * bytes_per_sector in
      let next : remaining m k (job.wr_bio_offset + b'.index) 0 ≡ rest =
        remaining-none m k (job.wr_bio_offset + b'.index) ∙ ap (sectors m k) (omega arith) in
      let free = (Distinct-append (run_of a left) rest w.targets.distinct).1 in
      let long : wr - left ≤ length rest =
        omega (arith, w.enough, length-append (run_of a left) rest, length-run_of a left) in
      let w' : Writable b' k buf' (wr - left) j = record {
        count = omega (arith, w.count);
        enough = subst (λ xs. wr - left ≤ length xs) (sym next) long;
        targets = subst Targets (sym next) (Targets-append (run_of a left) rest w.targets);
        fit = w.fit;
        valid = into.valid;
        room = room;
        agrees = λ x lt. into.kept x (ground arith) ∙ w.agrees x lt;
        high = omega (arith, w.high);
      } in
      let inside : b.index < job.nr_wr_bios = omega (arith, w.count) in
      let round =
        round-finish hw m job n b t buf a left wr go inside le (len-here b k buf wr j w)
          (lba-here b k buf wr j w) returned in
      subst (WritesOut hw m job b buf wr j (run_of a left ++ rest)) (sym round) (
        WritesOut-finish hw m job b t buf a left wr j rest _ le w.high free into (
          subst
            (λ xs.
              WritesOut hw m job b' buf' (wr - left) j xs (write_out hw n job b' buf' (wr - left)))
            next (hyp b' buf' (wr - left) (omega arith) w')))

  -- A round that ends inside the extent.
  inside_step :
      (n k : ℕ) (b : Backup State) (buf wr j : ℕ)
      → Writable b (suc k) buf wr j
      → (wr == 0) ≡ false
      → wr < read_32 m (ext_len_addr (job.wr_bio_offset + b.index)) - b.offset
      → WritesOut hw m job b buf wr j
          (remaining m (suc k) (job.wr_bio_offset + b.index) b.offset)
          (write_out hw (suc n) job b buf wr)
  inside_step n k b buf wr j w go lt =
      let bio = job.wr_bio_offset + b.index in
      let a = read_32 m (ext_lba_addr bio) + b.offset in
      let left = read_32 m (ext_len_addr bio) - b.offset in
      let rest = sectors m k (bio + 1) in
      let (t, returned, into, room) =
        issd_write_sectors-Into hw b.ftl buf a wr j (wr + j) refl w.valid w.room w.high
          (λ some_left. omega (arith, Targets-run left a rest w.targets (omega arith))) in
      let inside : b.index < job.nr_wr_bios = omega (arith, w.count) in
      WritesOut-inside hw m job b t buf a left wr j (suc k) rest _ (omega arith)
        (round-inside hw m job n b t buf a left wr go inside lt (len-here b k buf wr j w)
          (lba-here b k buf wr j w) returned)
        into room
        (record {
          behind = w.count;
          ahead = ap (λ xs. xs ++ rest) (ap₂ run_of (omega arith) (omega arith));
        })

  -- The loop writes the first `wr` of the sectors that are left, in at most as many rounds as there are
  -- sectors and extents.
  write_out-WritesOut :
      (n k : ℕ) (b : Backup State) (buf wr j : ℕ)
      → wr + k ≤ n
      → Writable b k buf wr j
      → WritesOut hw m job b buf wr j
          (remaining m k (job.wr_bio_offset + b.index) b.offset)
          (write_out hw n job b buf wr)
  write_out-WritesOut zero k b buf wr j fuel w = nothing_left zero k b buf wr j (omega arith) w
  write_out-WritesOut (suc n) zero b buf wr j fuel w =
      nothing_left (suc n) 0 b buf wr j (omega (arith, w.enough)) w
  write_out-WritesOut (suc n) (suc k) b buf wr j fuel w = elim (Bool-cases (wr == 0)) [
    | inl stop ↦ nothing_left (suc n) (suc k) b buf wr j (==→≡ wr 0 stop) w
    | inr go ↦
        let left = read_32 m (ext_len_addr (job.wr_bio_offset + b.index)) - b.offset in
        elim (Bool-cases (leb left wr)) [
          | inl finish ↦
              finish_step n k b buf wr j w go (ground arith)
                (λ b' buf' wr' fewer w'. write_out-WritesOut n k b' buf' wr' j (omega arith) w')
          | inr within_extent ↦ inside_step n k b buf wr j w go (ground arith)
        ]
  ]

  -- The same from a cursor, in the rounds that `copy_extent` allows.
  pub write_out-Cursor :
      (k : ℕ) (b : Backup State) (buf wr j : ℕ) (rest : List ℕ)
      → Cursor m job b k rest
      → wr ≤ length rest
      → Targets rest
      → job.wr_bio_offset + job.nr_wr_bios ≤ ext_limit
      → IsValid hw b.ftl
      → Room hw b.ftl (wr + j)
      → Agrees b.ftl.dram m
      → issd_computing_addr ≤ buf
      → WritesOut hw m job b buf wr j rest (write_out hw (wr + job.nr_wr_bios) job b buf wr)
  write_out-Cursor k b buf wr j rest c enough targets fit v room agrees high =
      subst
        (λ xs. WritesOut hw m job b buf wr j xs (write_out hw (wr + job.nr_wr_bios) job b buf wr))
        c.ahead
        (write_out-WritesOut (wr + job.nr_wr_bios) k b buf wr j (omega (arith, c.behind)) (record {
          count = c.behind;
          enough = subst (λ xs. wr ≤ length xs) (sym c.ahead) enough;
          targets = subst Targets (sym c.ahead) targets;
          fit = fit;
          valid = v;
          room = room;
          agrees = agrees;
          high = high;
        }))
