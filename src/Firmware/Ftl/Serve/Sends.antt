-- ===== src/Firmware/Ftl/Serve/Sends.antt =====
-- ftl.c (ftl_write): a round of the host's write, from the buffer to the new page.
use issd.Base.{
  ℕ, ◌+◌, ◌-◌, ◌*◌, ◌%◌, ◌<◌, ◌≡◌, ap, true, false, some, update, ltb, Bytes, copy_bytes, within,
  ◌==◌, if◌then◌else◌, arith,
}
use issd.Firmware.Layout.{
  bytes_per_sector, sectors_per_page, bytes_per_page, pages_per_bank, num_lpages, num_wr_buffers,
  wr_buf_addr,
}
use issd.Firmware.Nand.{Nand}
use issd.Firmware.Ftl.{Ftl, get_free_page, fill_holes, program_page, sectors_to_write, right_hole}
use issd.Firmware.Ftl.Page.{stored_at, fill_holes-at, fill_holes-outside, fill_holes-rest}
use issd.Firmware.Ftl.Round.{committed, moved, turned}
use issd.Firmware.Ftl.Serve.{wr_buf_ptr, ftl_write_to, ftl_write_page}

module _ (hw : Nand) where
  open hw use {State}

  -- The write buffer when it is programmed: the host's sectors, and the rest of the old page.
  pub filled : Ftl State → Bytes → ℕ → ℕ → ℕ → ℕ → Bytes
  filled s host pos phys off rem =
      let dma = wr_buf_ptr s.write_buf_id in
      copy_bytes (fill_holes hw s phys dma off (right_hole hw off rem)).dram
        (dma + off * bytes_per_sector) host pos (sectors_to_write hw off rem * bytes_per_sector)

  pub filled-at :
      (s : Ftl State) (host : Bytes) (pos phys off rem a : ℕ)
      → off < sectors_per_page
      → 0 < rem
      → a < bytes_per_page
      → filled s host pos phys off rem (wr_buf_ptr s.write_buf_id + a) ≡ (
          if within (off * bytes_per_sector) (sectors_to_write hw off rem * bytes_per_sector) a
          then host (pos + (a - off * bytes_per_sector))
          else if phys == 0
          then s.dram (wr_buf_ptr s.write_buf_id + a)
          else stored_at hw s phys a)
  unfolding filled copy_bytes
  filled-at s host pos phys off rem a o r h =
      ground
        (arith, fill_holes-at hw s phys (wr_buf_ptr s.write_buf_id) off (right_hole hw off rem) a)

  pub filled-outside :
      (s : Ftl State) (host : Bytes) (pos phys off rem x : ℕ)
      → off < sectors_per_page
      → 0 < rem
      → s.write_buf_id < num_wr_buffers
      → within wr_buf_addr (num_wr_buffers * bytes_per_page) x ≡ false
      → filled s host pos phys off rem x ≡ s.dram x
  unfolding filled copy_bytes
  filled-outside s host pos phys off rem x o r id h = ground (
    arith,
    fill_holes-outside hw s phys (wr_buf_ptr s.write_buf_id) off (right_hole hw off rem) x,
  )

  -- The state when the page is programmed.
  abbrev pub sent : Ftl State → Bytes → ℕ → ℕ → ℕ → ℕ → ℕ → Ftl State
  sent s host pos l off rem row =
      let dram = filled (moved hw s row) host pos (s.page_map l) off rem in
      record (committed hw s l row (λ a. dram (wr_buf_ptr s.write_buf_id + a)) dram) {
        write_buf_id = (s.write_buf_id + 1) % num_wr_buffers;
      }

  ftl_write_to-sent :
      (s : Ftl State) (host : Bytes) (pos row l off rem : ℕ)
      → l < num_lpages
      → ftl_write_to hw (moved hw s row) host pos s.target_bank row l off rem
        ≡ sent s host pos l off rem row
  unfolding ftl_write_to filled program_page
  ftl_write_to-sent s host pos row l off rem inside =
      let dma = wr_buf_ptr s.write_buf_id in
      let in_table : ltb l num_lpages ≡ true = ground arith in
      rw in_table (
        ap
          (λ u.
            let s'' = record u {
              dram =
                  copy_bytes u.dram (dma + off * bytes_per_sector) host pos
                    (sectors_to_write hw off rem * bytes_per_sector);
            } in
            let t = record (program_page hw s'' s.target_bank row dma) {
              page_map = update s''.page_map l (s.target_bank * pages_per_bank + row);
            } in
            record t { write_buf_id = (t.write_buf_id + 1) % num_wr_buffers })
          (fill_holes-rest hw (moved hw s row) (s.page_map l) dma off (right_hole hw off rem)))

  pub ftl_write_page-sent :
      (s : Ftl State) (host : Bytes) (pos l off rem row : ℕ)
      → l < num_lpages
      → get_free_page (turned hw s) s.target_bank ≡ some (row, moved hw s row)
      → ftl_write_page hw s host pos l off rem ≡ some (sent s host pos l off rem row)
  unfolding ftl_write_page
  ftl_write_page-sent s host pos l off rem row inside got =
      rw (got, ftl_write_page) (ap some (ftl_write_to-sent s host pos row l off rem inside))
