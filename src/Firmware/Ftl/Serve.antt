-- ===== src/Firmware/Ftl/Serve.antt =====
-- OpenSSD-1.1.0/ftl_tutorial/ftl.c (ftl_write, ftl_read): the host's writes and reads. What the host
-- sends or gets with a command is a function of the byte's place in it. The buffer manager moves the
-- sectors between the host and their place in the page's buffer when the code waits for that; a
-- buffer is free when it is used, which the waits for the host's pointers are there for.
pub mod Gets
pub mod Sends
pub mod Stores
pub mod Back
mod Tests
use issd.Base.{
  ℕ, zero, suc, ◌+◌, ◌-◌, ◌*◌, ◌/◌, ◌%◌, true, false, Option, none, some, Bytes, copy_bytes,
  set_bytes, ◌==◌, if◌then◌else◌,
}
use issd.Firmware.Layout.{
  bytes_per_sector, sectors_per_page, bytes_per_page, pages_per_bank, num_banks, num_wr_buffers,
  num_rd_buffers, wr_buf_addr, rd_buf_addr,
}
use issd.Firmware.Nand.{Nand}
use issd.Firmware.Ftl.{
  Ftl, get_physical_address, update_physical_address, get_free_page, fill_holes, program_page,
  sectors_to_write, right_hole, sectors_to_read,
}

-- WR_BUF_PTR
abbrev pub wr_buf_ptr : ℕ → ℕ
wr_buf_ptr buf_id = wr_buf_addr + buf_id * bytes_per_page

-- RD_BUF_PTR
abbrev pub rd_buf_ptr : ℕ → ℕ
rd_buf_ptr buf_id = rd_buf_addr + buf_id * bytes_per_page

module _ (hw : Nand) where
  open hw use {State, page}

  -- A round of the loop of `ftl_write`, from where it has its new page; `pos` is the place in the
  -- command of the first byte of the round.
  pub ftl_write_to : Ftl State → Bytes → ℕ → ℕ → ℕ → ℕ → ℕ → ℕ → Ftl State
  ftl_write_to s host pos new_bank new_row lpage_addr sect_offset remain =
      let dma = wr_buf_ptr s.write_buf_id in
      let s' =
        fill_holes hw s (get_physical_address s lpage_addr) dma sect_offset
          (right_hole hw sect_offset remain) in
      let s'' = record s' {
        dram =
            copy_bytes s'.dram (dma + sect_offset * bytes_per_sector) host pos
              (sectors_to_write hw sect_offset remain * bytes_per_sector);
      } in
      let t =
        update_physical_address (program_page hw s'' new_bank new_row dma) lpage_addr new_bank
          new_row in
      record t { write_buf_id = (t.write_buf_id + 1) % num_wr_buffers }

  -- The whole round.
  pub ftl_write_page : Ftl State → Bytes → ℕ → ℕ → ℕ → ℕ → Option (Ftl State)
  unfolding ftl_write_to
  ftl_write_page s host pos lpage_addr sect_offset remain =
      let new_bank = s.target_bank in
      let s' = record s { target_bank = (s.target_bank + 1) % num_banks } in
      elim (get_free_page s' new_bank) [
        | none ↦ none
        | some (new_row, s'') ↦
            some (ftl_write_to s'' host pos new_bank new_row lpage_addr sect_offset remain)
      ]

  -- The loop, over at most `n` rounds.
  pub ftl_write_loop : ℕ → Ftl State → Bytes → ℕ → ℕ → ℕ → ℕ → Option (Ftl State)
  unfolding ftl_write_page
  ftl_write_loop zero s host pos lpage_addr sect_offset remain = some s
  ftl_write_loop (suc n) s host pos lpage_addr sect_offset remain = elim (remain == 0) [
    | true ↦ some s
    | false ↦ elim (ftl_write_page s host pos lpage_addr sect_offset remain) [
      | none ↦ none
      | some s' ↦
          let num = sectors_to_write hw sect_offset remain in
          ftl_write_loop n s' host (pos + num * bytes_per_sector) (lpage_addr + 1) 0 (remain - num)
    ]
  ]

  -- `ftl_write`; `none` is the endless loop of `get_free_page`.
  pub ftl_write : Ftl State → Bytes → ℕ → ℕ → Option (Ftl State)
  unfolding ftl_write_loop
  ftl_write s host lba total_sectors =
      ftl_write_loop total_sectors s host 0 (lba / sectors_per_page) (lba % sectors_per_page)
        total_sectors

  -- The read buffer of a round of the loop of `ftl_read`: the sectors of the page, or 0xFF where the
  -- page was never written.
  pub ftl_read_page : Ftl State → ℕ → ℕ → ℕ → Ftl State
  ftl_read_page s lpage_addr sect_offset num_sectors_to_read =
      let temp = get_physical_address s lpage_addr in
      let at = rd_buf_ptr s.read_buf_id + sect_offset * bytes_per_sector in
      let cnt = num_sectors_to_read * bytes_per_sector in
      record s {
        dram = elim (temp == 0) [
          | false ↦
              copy_bytes s.dram at (page s.nand (temp / pages_per_bank) (temp % pages_per_bank))
                (sect_offset * bytes_per_sector) cnt
          | true ↦ set_bytes s.dram at 255 cnt
        ];
        read_buf_id = (s.read_buf_id + 1) % num_rd_buffers;
      }

  -- The loop, over at most `n` rounds, with what the host has got.
  pub ftl_read_loop : ℕ → Ftl State → Bytes → ℕ → ℕ → ℕ → ℕ → Bytes × Ftl State
  unfolding ftl_read_page
  ftl_read_loop zero s host pos lpage_addr sect_offset remain = (host, s)
  ftl_read_loop (suc n) s host pos lpage_addr sect_offset remain = elim (remain == 0) [
    | true ↦ (host, s)
    | false ↦
        let num = sectors_to_read hw sect_offset remain in
        let s' = ftl_read_page s lpage_addr sect_offset num in
        let host' =
          copy_bytes host pos s'.dram (rd_buf_ptr s.read_buf_id + sect_offset * bytes_per_sector)
            (num * bytes_per_sector) in
        ftl_read_loop n s' host' (pos + num * bytes_per_sector) (lpage_addr + 1) 0 (remain - num)
  ]

  -- `ftl_read`
  pub ftl_read : Ftl State → Bytes → ℕ → ℕ → Bytes × Ftl State
  unfolding ftl_read_loop
  ftl_read s host lba total_sectors =
      ftl_read_loop total_sectors s host 0 (lba / sectors_per_page) (lba % sectors_per_page)
        total_sectors
