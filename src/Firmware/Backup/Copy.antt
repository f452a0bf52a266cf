-- ===== src/Firmware/Backup/Copy.antt =====
-- issd.c (do_issd_backup): the whole copy of a file.
use issd.Base.{
  ℕ, ◌+◌, ◌≤◌, ◌<◌, ◌≡◌, refl, ap, ◌∙◌, subst, true, false, some, Bytes, read_32, write_32,
  read-write_32, write_32-outside, within, List, [], ◌∷◌, arith,
}
use issd.Base.Lists.{length}
use issd.Base.Sectors.{take, least, Apart, Distinct}
use issd.Firmware.Backup.Targets.{OnDevice, Targets}
use issd.Firmware.Layout.{issd_wr_buf_addr}
use issd.Firmware.Nand.{Nand}
use issd.Firmware.Ftl.{Ftl}
use issd.Firmware.Ftl.Round.{IsValid}
use issd.Firmware.Ftl.Write.{Room}
use issd.Firmware.Backup.{Backup, is_ok_addr, read_job, run_job, do_issd_backup}
use issd.Firmware.Backup.Lands.{Outside}
use issd.Firmware.Backup.Moved.{MappedSectors, Copied, Moved}
use issd.Firmware.Backup.Cursor.{sectors, remaining-none, ext_limit}
use issd.Firmware.Backup.Chunk.{Ready, Copies, sectors_of}
use issd.Firmware.Backup.Extents.{copy_extents-Copies}

module _ (hw : Nand) where
  open hw use {State}

  -- The sectors of the two files of the command, and the length of the first in sectors.
  abbrev pub source : Ftl State → List ℕ
  source s = sectors s.dram (read_job hw s.dram).nr_rd_bios (read_job hw s.dram).rd_bio_offset

  abbrev pub destination : Ftl State → List ℕ
  destination s = sectors s.dram (read_job hw s.dram).nr_wr_bios (read_job hw s.dram).wr_bio_offset

  abbrev pub size : Ftl State → ℕ
  size s = sectors_of (read_job hw s.dram).file_size

  -- The sectors `ds` hold what the sectors `qs` held, all else that is mapped is as it was, and of the
  -- memory below the buffers isOK is changed only, to 1.
  pub record BackedUp (s : Ftl State) (ds qs : List ℕ) (t : Ftl State) : Type 0 where
    pub valid : IsValid hw t
    pub copied : Copied hw s t ds qs
    pub old : Outside hw s ds t
    pub is_ok : read_32 t.dram is_ok_addr ≡ 1
    pub kept : (x : ℕ) → x < issd_wr_buf_addr → within is_ok_addr 4 x ≡ false → t.dram x ≡ s.dram x

  Copied-dram :
      (s t : Ftl State) (d : Bytes) (ds qs : List ℕ)
      → Copied hw s t ds qs
      → Copied hw s (record t { dram = d }) ds qs
  Copied-dram s t d [] qs h = tt
  Copied-dram s t d (x ∷ ds) [] h = tt
  Copied-dram s t d (x ∷ ds) (q ∷ qs) (h, c) = (h, Copied-dram s t d ds qs c)

  BackedUp-Moved :
      (s t : Ftl State) (ds qs : List ℕ)
      → Moved hw s ds qs t
      → BackedUp s ds qs (record t { dram = write_32 t.dram is_ok_addr 1 })
  BackedUp-Moved s t ds qs a = record {
    valid = record {
      bank = a.valid.bank;
      ready = a.valid.ready;
      mapped = a.valid.mapped;
      blank = a.valid.blank;
    };
    copied = Copied-dram s t (write_32 t.dram is_ok_addr 1) ds qs a.copied;
    old = a.old;
    is_ok = read-write_32 t.dram is_ok_addr 1 (omega arith);
    kept = λ x lt out. write_32-outside t.dram is_ok_addr 1 x out ∙ a.kept x lt;
  }

  start-Ready :
      (s : Ftl State)
      (fit : (read_job hw s.dram).wr_bio_offset + (read_job hw s.dram).nr_wr_bios ≤ ext_limit)
      → IsValid hw s
      → Room hw s (size s)
      → size s ≤ length (destination s)
      → Targets (destination s)
      → Ready hw s.dram
          (read_job hw s.dram)
          fit
          (record { ftl = s; index = 0; offset = 0; read_file_offset_start = 0 })
          (size s)
          (destination s)
  start-Ready s fit v room enough targets =
      let job = read_job hw s.dram in
      record {
        valid = v;
        room = room;
        agrees = λ x lt. refl;
        count = job.nr_wr_bios;
        cursor = record {
          behind = omega arith;
          ahead =
              remaining-none s.dram job.nr_wr_bios (job.wr_bio_offset + 0)
              ∙ ap (sectors s.dram job.nr_wr_bios) (omega arith);
        };
        before = omega arith;
        todo = ap sectors_of (omega arith);
        enough = enough;
        targets = targets;
      }

  -- When the state is valid, the words of the two files' extents lie in the command buffer, the files
  -- have as many sectors as the size of the first takes, the sectors of both lie on the device, those
  -- of the source are mapped, those of the destination are distinct and none of the source's, and every bank can hand out a page for
  -- each sector of the size: `do_issd_backup` returns 0. Sector by sector, the destination then holds
  -- what the source held up to the size, every other mapped place of the volume holds what it held,
  -- the state is valid, and below the buffers isOK alone has changed, to 1.
  pub do_issd_backup-BackedUp :
      (s : Ftl State)
      → (read_job hw s.dram).rd_bio_offset + (read_job hw s.dram).nr_rd_bios ≤ ext_limit
      → (read_job hw s.dram).wr_bio_offset + (read_job hw s.dram).nr_wr_bios ≤ ext_limit
      → IsValid hw s
      → Room hw s (size s)
      → size s ≤ length (source s)
      → size s ≤ length (destination s)
      → MappedSectors hw s (source s)
      → OnDevice (source s)
      → OnDevice (destination s)
      → Distinct (destination s)
      → Apart (source s) (destination s)
      → (t : Ftl State) × (do_issd_backup hw s ≡ some (true, t))
        × BackedUp s (take (size s) (destination s)) (take (size s) (source s)) t
  unfolding do_issd_backup run_job Copies
  do_issd_backup-BackedUp s inside fit v room long enough mapped readable writable distinct apart =
      let job = read_job hw s.dram in
      let b : Backup State = record {
        ftl = s;
        index = 0;
        offset = 0;
        read_file_offset_start = 0;
      } in
      let (b', returned, moved, r) =
        copy_extents-Copies hw s.dram job fit job.nr_rd_bios 0 job.rd_bio_offset b (size s)
          (destination s) (omega arith) inside
          (start-Ready s fit v room enough (record { distinct = distinct; inside = writable }))
          mapped apart in
      let all : least (size s) (length (source s)) ≡ size s = ground arith in
      (
        record b'.ftl { dram = write_32 b'.ftl.dram is_ok_addr 1 },
        rw (do_issd_backup, run_job, returned) refl,
        BackedUp-Moved s b'.ftl _ _ (
            subst (λ n. Moved hw s (take n (destination s)) (take (size s) (source s)) b'.ftl) all
              moved),
      )
