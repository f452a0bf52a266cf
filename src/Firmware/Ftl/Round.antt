-- ===== src/Firmware/Ftl/Round.antt =====
-- ftl.c (issd_write_sectors): a round of the loop, from the buffer to the new page.
use issd.Base.{
  ℕ, ◌+◌, ◌-◌, ◌*◌, ◌/◌, ◌%◌, ◌≤◌, ◌<◌, ◌≡◌, ◌≢◌, ap, true, false, some, ltb, update, Bytes,
  copy_bytes, within, ◌==◌, if◌then◌else◌, arith,
}
use issd.Firmware.Layout.{
  bytes_per_sector, sectors_per_page, bytes_per_page, pages_per_bank, pages_per_vblk, num_banks,
  num_lpages, issd_wr_buf_addr,
}
use issd.Firmware.Nand.{Nand}
use issd.Firmware.ScanList.{is_bad_block}
use issd.Firmware.Ftl.{
  Ftl, get_free_page, fill_holes, program_page, issd_write_to, right_hole, sectors_to_write,
  issd_write_page,
}
use issd.Firmware.Ftl.Alloc.{RowReady}
use issd.Firmware.Ftl.Page.{stored_at, fill_holes-at, fill_holes-outside, fill_holes-rest}

module _ (hw : Nand) where
  open hw use {State, page, Blank, program, page-program, page-program_ne, Blank-program_ne}

  -- The pages in use lie below their bank's next row, and from that row on the pages of good blocks
  -- are blank.
  pub record IsValid (s : Ftl State) : Type 0 where
    pub bank : s.target_bank < num_banks
    pub ready : (b : ℕ) → RowReady (s.scan_list b) (s.target_row b)
    pub mapped :
        (l : ℕ)
        → s.page_map l ≢ 0
        → s.page_map l % pages_per_bank < s.target_row (s.page_map l / pages_per_bank)
    pub blank :
        (b r : ℕ)
        → s.target_row b ≤ r
        → r < pages_per_bank
        → is_bad_block (s.scan_list b) (r / pages_per_vblk) ≡ false
        → Blank s.nand b r

  -- The buffer when it is programmed: the new sectors, and the rest of the old page.
  pub staged : Ftl State → ℕ → ℕ → ℕ → ℕ → Bytes
  staged s buf phys off rem =
      (fill_holes hw
        (record s {
          dram =
              copy_bytes s.dram (issd_wr_buf_addr + off * bytes_per_sector) s.dram buf
                (sectors_to_write hw off rem * bytes_per_sector);
        })
        phys issd_wr_buf_addr off (right_hole hw off rem)).dram

  pub staged-at :
      (s : Ftl State) (buf phys off rem a : ℕ)
      → off < sectors_per_page
      → 0 < rem
      → a < bytes_per_page
      → staged s buf phys off rem (issd_wr_buf_addr + a) ≡ (
          if within (off * bytes_per_sector) (sectors_to_write hw off rem * bytes_per_sector) a
          then s.dram (buf + (a - off * bytes_per_sector))
          else if phys == 0
          then s.dram (issd_wr_buf_addr + a)
          else stored_at hw s phys a)
  unfolding staged copy_bytes
  staged-at s buf phys off rem a o r h = ground (
    arith,
    fill_holes-at hw
        (record s {
          dram =
              copy_bytes s.dram (issd_wr_buf_addr + off * bytes_per_sector) s.dram buf
                (sectors_to_write hw off rem * bytes_per_sector);
        })
        phys issd_wr_buf_addr off (right_hole hw off rem) a,
  )

  pub staged-outside :
      (s : Ftl State) (buf phys off rem x : ℕ)
      → off < sectors_per_page
      → 0 < rem
      → within issd_wr_buf_addr bytes_per_page x ≡ false
      → staged s buf phys off rem x ≡ s.dram x
  unfolding staged copy_bytes
  staged-outside s buf phys off rem x o r h = ground (
    arith,
    fill_holes-outside hw
        (record s {
          dram =
              copy_bytes s.dram (issd_wr_buf_addr + off * bytes_per_sector) s.dram buf
                (sectors_to_write hw off rem * bytes_per_sector);
        })
        phys issd_wr_buf_addr off (right_hole hw off rem) x,
  )

  -- The state when the page is handed out.
  abbrev pub moved : Ftl State → ℕ → Ftl State
  moved s row = record s {
    target_bank = (s.target_bank + 1) % num_banks;
    target_row = update s.target_row s.target_bank (row + 1);
  }

  -- The state when a page has been programmed at a fresh place.
  abbrev pub committed : Ftl State → ℕ → ℕ → Bytes → Bytes → Ftl State
  committed s l row content dram = record (moved s row) {
    nand = program s.nand s.target_bank row content;
    dram = dram;
    page_map = update s.page_map l (s.target_bank * pages_per_bank + row);
  }

  abbrev pub written : Ftl State → ℕ → ℕ → ℕ → ℕ → ℕ → Ftl State
  written s buf l off rem row =
      let dram = staged (moved s row) buf (s.page_map l) off rem in
      committed s l row (λ a. dram (issd_wr_buf_addr + a)) dram

  issd_write_to-written :
      (s : Ftl State) (row buf l off rem : ℕ)
      → l < num_lpages
      → issd_write_to hw (moved s row) s.target_bank row buf l off rem ≡ written s buf l off rem row
  unfolding issd_write_to staged program_page
  issd_write_to-written s row buf l off rem inside =
      let in_table : ltb l num_lpages ≡ true = ground arith in
      rw in_table (
        ap
          (λ u. record (program_page hw u s.target_bank row issd_wr_buf_addr) {
            page_map = update u.page_map l (s.target_bank * pages_per_bank + row);
          })
          (fill_holes-rest hw
            (record (moved s row) {
              dram =
                  copy_bytes s.dram (issd_wr_buf_addr + off * bytes_per_sector) s.dram buf
                    (sectors_to_write hw off rem * bytes_per_sector);
            })
            (s.page_map l) issd_wr_buf_addr off (right_hole hw off rem)))

  -- The state in which the page is asked for.
  abbrev pub turned : Ftl State → Ftl State
  turned s = record s { target_bank = (s.target_bank + 1) % num_banks }

  pub issd_write_page-written :
      (s : Ftl State) (buf l off rem row : ℕ)
      → l < num_lpages
      → get_free_page (turned s) s.target_bank ≡ some (row, moved s row)
      → issd_write_page hw s buf l off rem ≡ some (written s buf l off rem row)
  unfolding issd_write_page
  issd_write_page-written s buf l off rem row inside got =
      rw (got, issd_write_page) (ap some (issd_write_to-written s row buf l off rem inside))
