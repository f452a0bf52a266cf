-- ===== src/Firmware/Backup/Chunk.antt =====
-- issd.c (do_issd_backup): the loop over an extent of the source, which reads as many of its sectors
-- as the computing buffer holds and writes them out, and the loop over the extents.
use issd.Base.{
  ℕ, zero, suc, ◌+◌, ◌-◌, ◌*◌, ◌/◌, ◌%◌, ◌≤◌, ◌<◌, ◌≡◌, refl, sym, ◌∙◌, subst, true, false, ◌≢◌,
  within, Bool, Option, some, Bytes, List, leb, ◌==◌, if◌then◌else◌, arith, Bool-cases, inl, inr,
}
use issd.Base.Lists.{length, run_of}
use issd.Base.Sectors.{take, drop, least, length-drop}
use issd.Firmware.Layout.{bytes_per_sector, sectors_per_page, issd_cnt_pages, issd_computing_addr}
use issd.Firmware.Nand.{Nand}
use issd.Firmware.Ftl.{Ftl, issd_read_sectors}
use issd.Firmware.Ftl.Round.{IsValid}
use issd.Firmware.Ftl.Volume.{place}
use issd.Firmware.Ftl.Read.{issd_read_sectors-HasRead_any}
use issd.Firmware.Ftl.Write.{Room}
use issd.Firmware.Backup.{Backup, Job, sectors_at_once, write_out, copy_extent}
use issd.Firmware.Backup.Targets.{Targets, Targets-drop}
use issd.Firmware.Backup.Moved.{MappedSectors, HasRead-IsValid, Moved, Moved-chunk}
use issd.Firmware.Backup.Cursor.{Agrees, Cursor, ext_limit}
use issd.Firmware.Backup.WriteOut.{WritesOut}
use issd.Firmware.Backup.WriteLoop.{write_out-Cursor}

-- What is read of an extent at a time, when sectors of it are left, is a sector at least, no more than
-- is left, and behind the sectors of its first page that are skipped it ends inside the computing
-- buffer.
pub sectors_at_once-fits :
    (lba num : ℕ)
    → 0 < num
    → (0 < sectors_at_once lba num)
      × (sectors_at_once lba num ≤ num)
      × (lba % sectors_per_page + sectors_at_once lba num ≤ issd_cnt_pages * sectors_per_page)
sectors_at_once-fits lba num some_left = (ground arith, ground arith, ground arith)

-- The end of a chunk in the file, in bytes, and its sectors.
abbrev end_of : ℕ → ℕ → ℕ → ℕ
end_of size start rd =
    if leb size (start + rd * bytes_per_sector) then size else start + rd * bytes_per_sector

abbrev pub sectors_of : ℕ → ℕ
sectors_of bytes = (bytes + bytes_per_sector - 1) / bytes_per_sector

end_of-sectors :
    (size start rd left : ℕ)
    → start ≤ size
    → sectors_of (size - start) ≡ left
    → (sectors_of (end_of size start rd - start) ≡ least left rd)
      × (end_of size start rd ≤ size)
      × (sectors_of (size - end_of size start rd) ≡ left - least left rd)
end_of-sectors size start rd left le todo = (ground arith, ground arith, ground arith)

module _ (hw : Nand) (m : Bytes) (job : Job)
    (fit : job.wr_bio_offset + job.nr_wr_bios ≤ ext_limit) where
  open hw use {State}

  -- A state with `left` sectors of the file to copy, to the first of the sectors `rest`.
  pub record Ready (b : Backup State) (left : ℕ) (rest : List ℕ) : Type 0 where
    pub valid : IsValid hw b.ftl
    pub room : Room hw b.ftl left
    pub agrees : Agrees b.ftl.dram m
    pub count : ℕ
    pub cursor : Cursor m job b count rest
    pub before : b.read_file_offset_start ≤ job.file_size
    pub todo : sectors_of (job.file_size - b.read_file_offset_start) ≡ left
    pub enough : left ≤ length rest
    pub targets : Targets rest

  mapped-run :
      (s : Ftl State) (n q x : ℕ)
      → MappedSectors hw s (run_of q n)
      → within (q * bytes_per_sector) (n * bytes_per_sector) x ≡ true
      → place hw s x ≢ 0
  mapped-run s zero q x h w = absurd (ground arith)
  mapped-run s (suc n) q x (h, hs) w = elim (Bool-cases (x / bytes_per_sector == q)) [
    | inl here ↦
        let at : q * bytes_per_sector + x % bytes_per_sector ≡ x = ground arith in
        subst (λ y. place hw s y ≢ 0) at (h (x % bytes_per_sector) (omega arith))
    | inr later ↦ mapped-run s n (q + 1) x hs (ground arith)
  ]

  pub MappedSectors-run :
      (s : Ftl State) (n q k : ℕ)
      → k ≤ n
      → MappedSectors hw s (run_of q n)
      → MappedSectors hw s (run_of q k)
  MappedSectors-run s n q zero le h = tt
  MappedSectors-run s zero q (suc k) le h = absurd (omega arith)
  MappedSectors-run s (suc n) q (suc k) le (h, hs) =
      (h, MappedSectors-run s n (q + 1) k (omega arith) hs)

  copy_extent-round :
      (n : ℕ) (b b' : Backup State) (t : Ftl State) (lba num wr : ℕ)
      → (num == 0) ≡ false
      → (issd_read_sectors hw b.ftl issd_computing_addr lba (sectors_at_once lba num)).0 ≡ true
      → (issd_read_sectors hw b.ftl issd_computing_addr lba (sectors_at_once lba num)).1 ≡ t
      → sectors_of (
          end_of job.file_size b.read_file_offset_start (sectors_at_once lba num)
          - b.read_file_offset_start)
        ≡ wr
      → write_out hw
          (wr + job.nr_wr_bios)
          job
          (record b { ftl = t })
          (issd_computing_addr + lba % sectors_per_page * bytes_per_sector)
          wr
        ≡ some b'
      → copy_extent hw (suc n) job b lba num
        ≡ copy_extent hw n job
            (record b' {
              read_file_offset_start =
                  end_of job.file_size b.read_file_offset_start (sectors_at_once lba num);
            })
            (lba + sectors_at_once lba num)
            (num - sectors_at_once lba num)
  unfolding copy_extent
  copy_extent-round n b b' t lba num wr go ok read to_send returned =
      rw (copy_extent, go, ok, read, to_send, returned) refl

  -- The result of a copy of `n` of the sectors left from the sectors `qs`.
  unfoldable pub Copies :
      Backup State → ℕ → List ℕ → ℕ → List ℕ → Option (Bool × Backup State) → Type 0
  Copies b left rest n qs result =
      (b' : Backup State) × (result ≡ some (true, b'))
      × Moved hw b.ftl (take n rest) qs b'.ftl
      × Ready b' (left - n) (drop n rest)

  -- A chunk: a read of the buffer's length, and the writes of what the file still takes.
  pub chunk :
      (b : Backup State) (lba num left : ℕ) (rest : List ℕ)
      → 0 < num
      → Ready b left rest
      → MappedSectors hw b.ftl (run_of lba num)
      → (b' : Backup State) × ((n : ℕ)
          → copy_extent hw (suc n) job b lba num
            ≡ copy_extent hw n job b'
                (lba + sectors_at_once lba num)
                (num - sectors_at_once lba num))
        × Moved hw b.ftl
            (take (least left (sectors_at_once lba num)) rest)
            (run_of lba (least left (sectors_at_once lba num)))
            b'.ftl
        × Ready b'
            (left - least left (sectors_at_once lba num))
            (drop (least left (sectors_at_once lba num)) rest)
  unfolding WritesOut
  chunk b lba num left rest some_left r mapped =
      let rd = sectors_at_once lba num in
      let wr = least left rd in
      let wr_left : wr ≤ left = ground arith in
      let wr_rd : wr ≤ rd = ground arith in
      let buf = issd_computing_addr + lba % sectors_per_page * bytes_per_sector in
      let (_, fits, _) = sectors_at_once-fits lba num some_left in
      let (to_send, before, todo) =
        end_of-sectors job.file_size b.read_file_offset_start rd left r.before r.todo in
      let (ok, a) = issd_read_sectors-HasRead_any hw b.ftl issd_computing_addr lba rd (λ x w.
        mapped-run b.ftl rd lba x (MappedSectors-run b.ftl num lba rd fits mapped)
          (ground arith)) in
      let t = (issd_read_sectors hw b.ftl issd_computing_addr lba rd).1 in
      let room : Room hw t (wr + (left - wr)) =
        subst (λ s. Room hw s (wr + (left - wr))) (sym a.rest)
          (subst (Room hw b.ftl) (omega arith) r.room) in
      let cursor : Cursor m job (record b { ftl = t }) r.count rest = record {
        behind = r.cursor.behind;
        ahead = r.cursor.ahead;
      } in
      let (b', returned, start, into, room', (k, cursor')) =
        write_out-Cursor hw m job r.count (record b { ftl = t }) buf wr (left - wr) rest cursor
          (omega (arith, wr_left, r.enough)) r.targets fit
          (HasRead-IsValid hw b.ftl t (lba / sectors_per_page) (lba % sectors_per_page) rd a
            r.valid)
          room (λ x lt. a.kept x (ground arith) ∙ r.agrees x lt) (omega arith) in
      (
        record b' { read_file_offset_start = end_of job.file_size b.read_file_offset_start rd },
        λ n. copy_extent-round n b b' t lba num wr (ground arith) ok refl to_send returned,
        Moved-chunk hw b.ftl t b'.ftl lba rd wr (take wr rest) wr_rd a into,
        record {
          valid = into.valid;
          room = room';
          agrees = λ x lt. into.kept x (ground arith) ∙ a.kept x (ground arith) ∙ r.agrees x lt;
          count = k;
          cursor = record { behind = cursor'.behind; ahead = cursor'.ahead };
          before = before;
          todo = todo;
          enough = omega (arith, r.enough, length-drop wr rest);
          targets = Targets-drop wr rest r.targets;
        },
      )
