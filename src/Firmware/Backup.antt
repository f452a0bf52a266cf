-- ===== src/Firmware/Backup.antt =====
-- OpenSSD-1.1.0/issd/issd.c (issd_process_cmd, do_issd_backup) and issd.h: the device copies the
-- sectors of the command's first file to those of its second.
pub mod Unwritten
pub mod Lands
pub mod Moved
pub mod Targets
pub mod Cursor
pub mod WriteOut
pub mod WriteLoop
pub mod Chunk
pub mod Extent
pub mod Extents
pub mod Copy
mod Tests
mod CopyTests
use issd.Base.{
  ℕ, zero, suc, ◌+◌, ◌-◌, ◌*◌, ◌/◌, ◌%◌, Bool, true, false, not, Option, none, some, Bytes, read_32,
  write_32, ltb, leb, ◌==◌, if◌then◌else◌,
}
use issd.Firmware.Layout.{
  bytes_per_sector, sectors_per_page, issd_cmd_buffer_addr, issd_computing_addr, issd_cnt_pages,
}
use issd.Firmware.Nand.{Nand}
use issd.Firmware.Ftl.{Ftl, issd_read_sectors, issd_write_sectors}

-- The words of `afCommand_t` in the command buffer.
abbrev pub op_type_addr : ℕ
op_type_addr = issd_cmd_buffer_addr + 4

abbrev pub is_ok_addr : ℕ
is_ok_addr = issd_cmd_buffer_addr + 8

abbrev pub file_size_addr : ℕ → ℕ
file_size_addr i = issd_cmd_buffer_addr + 16 + 4 * i

abbrev pub file_ext_offset_addr : ℕ → ℕ
file_ext_offset_addr i = issd_cmd_buffer_addr + 28 + 4 * i

abbrev pub ext_lba_addr : ℕ → ℕ
ext_lba_addr i = issd_cmd_buffer_addr + 44 + 8 * i

abbrev pub ext_len_addr : ℕ → ℕ
ext_len_addr i = issd_cmd_buffer_addr + 48 + 8 * i

-- The FTL, `curSector`, and `read_file_offset_start`.
pub record Backup (N : Type 0) : Type 0 where
  pub ftl : Ftl N
  pub index : ℕ
  pub offset : ℕ
  pub read_file_offset_start : ℕ

-- The locals that are read from the command once.
pub record Job : Type 0 where
  pub rd_bio_offset : ℕ
  pub wr_bio_offset : ℕ
  pub nr_rd_bios : ℕ
  pub nr_wr_bios : ℕ
  pub file_size : ℕ

-- `rd_sectors`: what is read at a time.
abbrev pub sectors_at_once : ℕ → ℕ → ℕ
sectors_at_once lba num_sectors =
    let need_pages =
      (lba + num_sectors + sectors_per_page - 1) / sectors_per_page - lba / sectors_per_page in
    if ltb issd_cnt_pages need_pages
    then issd_cnt_pages * sectors_per_page - lba % sectors_per_page
    else num_sectors

module _ (hw : Nand) where
  open hw use {State}

  -- The loop over `wr_sectors`. `none` is a failed ASSERT, a write that does not return, or the end of
  -- `n` rounds.
  pub write_out : ℕ → Job → Backup State → ℕ → ℕ → Option (Backup State)
  write_out zero job b buf_addr wr_sectors = if wr_sectors == 0 then some b else none
  write_out (suc n) job b buf_addr wr_sectors =
      let bio = job.wr_bio_offset + b.index in
      let left = read_32 b.ftl.dram (ext_len_addr bio) - b.offset in
      let finish = leb left wr_sectors in
      let send = if finish then left else wr_sectors in
      let wr_lba = read_32 b.ftl.dram (ext_lba_addr bio) + b.offset in
      elim (wr_sectors == 0) [
        | true ↦ some b
        | false ↦ elim (ltb b.index job.nr_wr_bios) [
          | false ↦ none
          | true ↦ elim (issd_write_sectors hw b.ftl buf_addr wr_lba send) [
            | none ↦ none
            | some ftl ↦
                write_out n job
                  (record b {
                    ftl = ftl;
                    index = if finish then b.index + 1 else b.index;
                    offset = if finish then 0 else b.offset + send;
                  })
                  (buf_addr + send * bytes_per_sector) (wr_sectors - send)
          ]
        ]
      ]

  -- The loop over the `num_sectors` of an extent, in at most `n` rounds: whether it went through
  -- without the return of -1.
  pub copy_extent : ℕ → Job → Backup State → ℕ → ℕ → Option (Bool × Backup State)
  unfolding write_out
  copy_extent zero job b lba num_sectors = if num_sectors == 0 then some (true, b) else none
  copy_extent (suc n) job b lba num_sectors =
      let rd_sectors = sectors_at_once lba num_sectors in
      let (ok, ftl) = issd_read_sectors hw b.ftl issd_computing_addr lba rd_sectors in
      let start = b.read_file_offset_start in
      let end =
        if leb job.file_size (start + rd_sectors * bytes_per_sector)
        then job.file_size
        else start + rd_sectors * bytes_per_sector in
      let wr_sectors = (end - start + bytes_per_sector - 1) / bytes_per_sector in
      let buf_addr = issd_computing_addr + lba % sectors_per_page * bytes_per_sector in
      elim (num_sectors == 0) [
        | true ↦ some (true, b)
        | false ↦ elim ok [
          | false ↦ some (false, record b { ftl = ftl })
          | true ↦
              elim (write_out (wr_sectors + job.nr_wr_bios) job (record b { ftl = ftl }) buf_addr
                wr_sectors) [
                  | none ↦ none
                  | some b' ↦
                      copy_extent n job (record b' { read_file_offset_start = end })
                        (lba + rd_sectors) (num_sectors - rd_sectors)
                ]
        ]
      ]

  -- The loop over the extents of the first file, from extent `i` on.
  pub copy_extents : ℕ → ℕ → Job → Backup State → Option (Bool × Backup State)
  unfolding copy_extent
  copy_extents zero i job b = some (true, b)
  copy_extents (suc n) i job b =
      let lba = read_32 b.ftl.dram (ext_lba_addr (job.rd_bio_offset + i)) in
      let num_sectors = read_32 b.ftl.dram (ext_len_addr (job.rd_bio_offset + i)) in
      elim (copy_extent num_sectors job b lba num_sectors) [
        | none ↦ none
        | some (false, b') ↦ some (false, b')
        | some (true, b') ↦ copy_extents n (i + 1) job b'
      ]

  -- The start of `do_issd_backup`. The numbers of a command are below 2 ^ 31 and its offsets rise.
  pub read_job : Bytes → Job
  read_job dram = record {
    rd_bio_offset = read_32 dram (file_ext_offset_addr 0);
    wr_bio_offset = read_32 dram (file_ext_offset_addr 1);
    nr_rd_bios = read_32 dram (file_ext_offset_addr 1) - read_32 dram (file_ext_offset_addr 0);
    nr_wr_bios = read_32 dram (file_ext_offset_addr 2) - read_32 dram (file_ext_offset_addr 1);
    file_size = read_32 dram (file_size_addr 0);
  }

  -- The rest of it: whether it returned 0.
  pub run_job : Job → Ftl State → Option (Bool × Ftl State)
  unfolding copy_extents
  run_job job s =
      elim (copy_extents job.nr_rd_bios 0 job
        (record { ftl = s; index = 0; offset = 0; read_file_offset_start = 0 })) [
          | none ↦ none
          | some (false, b) ↦ some (false, b.ftl)
          | some (true, b) ↦ some (true, record b.ftl { dram = write_32 b.ftl.dram is_ok_addr 1 })
        ]

  -- `do_issd_backup`
  pub do_issd_backup : Ftl State → Option (Bool × Ftl State)
  unfolding run_job read_job
  do_issd_backup s = run_job (read_job s.dram) s

  -- `issd_process_cmd`
  pub issd_process_cmd : Ftl State → Option (Ftl State)
  unfolding do_issd_backup
  issd_process_cmd s = elim (read_32 s.dram op_type_addr == 0) [
    | false ↦ some s
    | true ↦ elim (do_issd_backup s) [ none ↦ none | some (ok, s') ↦ some s' ]
  ]
