-- ===== src/Firmware/Ftl.antt =====
-- OpenSSD-1.1.0/ftl_tutorial/ftl.c: the flash translation layer that the firmware is built with,
-- and the two operations that the storage-side computation uses. Those of the host are in Serve.
pub mod Alloc
pub mod Page
pub mod Round
pub mod Volume
pub mod Commit
pub mod Open
pub mod Written
pub mod Room
pub mod Write
pub mod Read
pub mod Roundtrip
pub mod Serve
mod Tests
use issd.Base.{
  ℕ, zero, suc, ◌+◌, ◌-◌, ◌*◌, ◌/◌, ◌%◌, Bool, true, false, not, Option, none, some, update, Bytes,
  copy_bytes, write_32, ltb, leb, ◌==◌, if◌then◌else◌,
}
use issd.Firmware.Layout.{
  bytes_per_sector, sectors_per_page, bytes_per_page, pages_per_vblk, vblks_per_bank,
  pages_per_bank, num_banks, num_lpages, page_map_addr, num_wr_buffers, wr_buf_addr,
  issd_wr_buf_addr,
}
use issd.Firmware.Nand.{Nand}
use issd.Firmware.ScanList.{ScanList, is_bad_block}

-- The NAND, the DRAM, the page mapping table, the scan lists, and the globals. `page_map l` is the
-- word at PAGE_MAP_ADDR + 4 * l, and `dram` is the DRAM beside the table of NUM_LPAGES words: what
-- overwrites a region beside the table changes `dram`, and a buffer lies beside the table. The commands take effect when they are issued: the waits for banks
-- in the code are there for that.
pub record Ftl (N : Type 0) : Type 0 where
  pub nand : N
  pub dram : Bytes
  pub page_map : ℕ → ℕ
  pub scan_list : ℕ → ScanList
  pub target_row : ℕ → ℕ
  pub target_bank : ℕ
  pub write_buf_id : ℕ
  pub read_buf_id : ℕ

-- `while (is_bad_block(bank, vblk_offset) && vblk_offset < VBLKS_PER_BANK) vblk_offset++`, with the
-- number of blocks up to the end.
pub skip_bad : ScanList → ℕ → ℕ → ℕ
skip_bad list zero vblk_offset = vblk_offset
skip_bad list (suc n) vblk_offset =
    let rest = skip_bad list n (vblk_offset + 1) in
    if is_bad_block list vblk_offset then rest else vblk_offset

-- `get_physical_address`
abbrev pub get_physical_address : {N : Type 0} → Ftl N → ℕ → ℕ
get_physical_address s lpage_addr = s.page_map lpage_addr

-- `update_physical_address`: the word of a logical page behind the table lies in the regions that
-- follow it, the command buffer and those of the computation.
abbrev pub update_physical_address : {N : Type 0} → Ftl N → ℕ → ℕ → ℕ → Ftl N
update_physical_address s lpage_addr new_bank new_row = record s {
  page_map = update s.page_map lpage_addr (new_bank * pages_per_bank + new_row);
  dram =
      if ltb lpage_addr num_lpages
      then s.dram
      else write_32 s.dram (page_map_addr + lpage_addr * 4) (new_bank * pages_per_bank + new_row);
}

-- `get_free_page`; `none` is the endless loop that the device enters when a bank is exhausted.
pub get_free_page : {N : Type 0} → Ftl N → ℕ → Option (ℕ × Ftl N)
unfolding skip_bad
get_free_page s bank =
    let row = s.target_row bank in
    let start = row / pages_per_vblk in
    let page_offset = row % pages_per_vblk in
    let vblk_offset =
      if page_offset == 0
      then skip_bad (s.scan_list bank) (vblks_per_bank - start) start
      else start in
    let new_row = vblk_offset * pages_per_vblk + page_offset in
    if leb vblks_per_bank vblk_offset
    then none
    else some (new_row, record s { target_row = update s.target_row bank (new_row + 1) })

-- Steps 3 and 4 of `ftl_open`: the words of the table are cleared.
pub init_tables : {N : Type 0} → Ftl N → Ftl N
init_tables s = record s {
  page_map = λ lpage_addr. if ltb lpage_addr num_lpages then 0 else s.page_map lpage_addr;
  read_buf_id = 0;
  write_buf_id = 0;
  target_bank = 0;
  target_row = λ bank. pages_per_vblk;
}

module _ (hw : Nand) where
  open hw use {State, page, program}

  -- FC_COL_ROW_READ_OUT into a buffer beside the mapping table: `cnt` bytes of a page from sector `col` on, to the same place in the
  -- buffer at `dma`.
  pub read_out : Ftl State → ℕ → ℕ → ℕ → ℕ → ℕ → Ftl State
  read_out s bank row dma col cnt = record s {
    dram =
        copy_bytes s.dram (dma + col * bytes_per_sector) (page s.nand bank row)
          (col * bytes_per_sector) cnt;
  }

  -- FC_COL_ROW_IN_PROG of a whole page from the buffer at `dma`.
  pub program_page : Ftl State → ℕ → ℕ → ℕ → Ftl State
  program_page s bank row dma = record s { nand = program s.nand bank row (λ a. s.dram (dma + a)) }

  -- The left and right hole of a page that is written in part are read from its old page.
  pub fill_holes : Ftl State → ℕ → ℕ → ℕ → ℕ → Ftl State
  unfolding read_out
  fill_holes s old_phys_page dma left_hole_sectors right_hole_sectors =
      let old_bank = old_phys_page / pages_per_bank in
      let old_row = old_phys_page % pages_per_bank in
      let s' =
        if left_hole_sectors == 0
        then s
        else read_out s old_bank old_row dma 0 (left_hole_sectors * bytes_per_sector) in
      let s'' =
        if right_hole_sectors == 0
        then s'
        else read_out s' old_bank old_row dma (sectors_per_page - right_hole_sectors)
            (right_hole_sectors * bytes_per_sector) in
      if old_phys_page == 0 then s else s''

  -- `num_sectors_to_write`, and `right_hole_sectors`.
  abbrev pub sectors_to_write : ℕ → ℕ → ℕ
  sectors_to_write sect_offset remain =
      if leb sectors_per_page (sect_offset + remain) then sectors_per_page - sect_offset else remain

  abbrev pub right_hole : ℕ → ℕ → ℕ
  right_hole sect_offset remain =
      if leb sectors_per_page (sect_offset + remain)
      then 0
      else sectors_per_page - (sect_offset + remain - 1) - 1

  -- A round of the loop of `issd_write_sectors`, from where it has its new page.
  pub issd_write_to : Ftl State → ℕ → ℕ → ℕ → ℕ → ℕ → ℕ → Ftl State
  issd_write_to s new_bank new_row buf_addr lpage_addr sect_offset remain =
      let old_phys_page = get_physical_address s lpage_addr in
      let num = sectors_to_write sect_offset remain in
      let s' = record s {
        dram =
            copy_bytes s.dram (issd_wr_buf_addr + sect_offset * bytes_per_sector) s.dram buf_addr
              (num * bytes_per_sector);
      } in
      let s'' =
        fill_holes s' old_phys_page issd_wr_buf_addr sect_offset (right_hole sect_offset remain) in
      update_physical_address (program_page s'' new_bank new_row issd_wr_buf_addr) lpage_addr
        new_bank new_row

  -- The whole round.
  pub issd_write_page : Ftl State → ℕ → ℕ → ℕ → ℕ → Option (Ftl State)
  issd_write_page s buf_addr lpage_addr sect_offset remain =
      let new_bank = s.target_bank in
      let s' = record s { target_bank = (s.target_bank + 1) % num_banks } in
      elim (get_free_page s' new_bank) [
        | none ↦ none
        | some (new_row, s'') ↦
            some (issd_write_to s'' new_bank new_row buf_addr lpage_addr sect_offset remain)
      ]

  -- The loop, over at most `n` rounds.
  pub issd_write_loop : ℕ → Ftl State → ℕ → ℕ → ℕ → ℕ → Option (Ftl State)
  issd_write_loop zero s buf_addr lpage_addr sect_offset remain = some s
  issd_write_loop (suc n) s buf_addr lpage_addr sect_offset remain = elim (remain == 0) [
    | true ↦ some s
    | false ↦ elim (issd_write_page s buf_addr lpage_addr sect_offset remain) [
      | none ↦ none
      | some s' ↦
          let num = sectors_to_write sect_offset remain in
          issd_write_loop n s' (buf_addr + num * bytes_per_sector) (lpage_addr + 1) 0 (remain - num)
    ]
  ]

  -- `issd_write_sectors`: a round writes a sector at least, so `total_sectors` rounds are enough.
  -- It returns 0 where it returns.
  pub issd_write_sectors : Ftl State → ℕ → ℕ → ℕ → Option (Ftl State)
  unfolding issd_write_loop
  issd_write_sectors s buf_addr lba total_sectors =
      issd_write_loop total_sectors s buf_addr (lba / sectors_per_page) (lba % sectors_per_page)
        total_sectors

  -- `num_sectors_to_read`
  abbrev pub sectors_to_read : ℕ → ℕ → ℕ
  sectors_to_read sect_offset remain =
      if ltb (sect_offset + remain) sectors_per_page then remain else sectors_per_page - sect_offset

  -- The loop of `issd_read_sectors`, over at most `n` rounds: whether it returned 0.
  pub issd_read_loop : ℕ → Ftl State → ℕ → ℕ → ℕ → ℕ → Bool × Ftl State
  issd_read_loop zero s buf_addr lpage_addr sect_offset remain = (true, s)
  issd_read_loop (suc n) s buf_addr lpage_addr sect_offset remain = elim (remain == 0) [
    | true ↦ (true, s)
    | false ↦
        let temp = get_physical_address s lpage_addr in
        let num = sectors_to_read sect_offset remain in
        elim (temp == 0) [
          | true ↦ (false, s)
          | false ↦
              let s' =
                read_out s (temp / pages_per_bank) (temp % pages_per_bank) buf_addr sect_offset
                  (num * bytes_per_sector) in
              issd_read_loop n s' (buf_addr + bytes_per_page) (lpage_addr + 1) 0 (remain - num)
        ]
  ]

  -- `issd_read_sectors`
  pub issd_read_sectors : Ftl State → ℕ → ℕ → ℕ → Bool × Ftl State
  unfolding issd_read_loop
  issd_read_sectors s buf_addr lba total_sectors =
      issd_read_loop total_sectors s buf_addr (lba / sectors_per_page) (lba % sectors_per_page)
        total_sectors
