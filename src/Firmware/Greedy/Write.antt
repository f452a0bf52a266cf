-- ===== src/Firmware/Greedy/Write.antt =====
-- ftl_greedy/ftl.c: ftl_write and write_page, with the choice of the page.
pub mod Close
pub mod Assign
pub mod Commit
pub mod Step
pub mod Entries
pub mod Exact
pub mod Opened
pub mod Content
pub mod Asserted
pub mod Written
use issd.Base.{
  ℕ, zero, suc, ◌+◌, ◌-◌, ◌*◌, ◌/◌, ◌%◌, Bool, true, false, not, ◌&&◌, ◌||◌, Option, none, some,
  update, copy_bytes, ltb, leb, ◌==◌, if◌then◌else◌,
}
use issd.Firmware.Layout.{
  bytes_per_sector, sectors_per_page, bytes_per_page, pages_per_vblk, vblks_per_bank, num_lpages,
}
use issd.Firmware.Greedy.Buffers.{num_wr_buffers}
use issd.Firmware.Nand.{Nand}
use issd.Firmware.Greedy.Gc.{garbage_collection}
use issd.Firmware.Greedy.{
  Greedy, MemUtil, get_num_bank, list_bytes, list_size, list_sectors, set_misc, set_lpn, vpn_of,
  put_vpn, vcount_of, put_vcount, page_ptread, page_ptprogram, next_block, check_vpage, data_block,
}

module _ (hw : Nand) where
  open hw use {State, page, program}

  -- The part of `assign_new_write_vpn` for a full block: its list goes to its last page.
  pub close_block : Greedy State → ℕ → ℕ → Greedy State
  close_block s bank vblock =
      let m = s.misc bank in
      let buf = copy_bytes (s.ftl_buf bank) 0 (list_bytes m.lpn_list) 0 list_size in
      let s' = record s {
        ftl_buf = update s.ftl_buf bank buf;
        nand = page_ptprogram hw s.nand bank vblock (pages_per_vblk - 1) 0 list_sectors buf;
      } in
      set_misc s' bank (record m { lpn_list = λ page_num. 0; free_blk_cnt = m.free_blk_cnt - 1 })

  abbrev set_new_write_vpn : Greedy State → ℕ → ℕ → Greedy State
  set_new_write_vpn s bank vpn = set_misc s bank (record (s.misc bank) { cur_write_vpn = vpn })

  -- The part of `write_page` that completes the write buffer with the sectors around those written.
  pub fill_buffer : Greedy State → ℕ → ℕ → ℕ → ℕ → Greedy State
  fill_buffer s bank old_vpn sect_offset num_sectors =
      let vblock = old_vpn / pages_per_vblk in
      let page_num = old_vpn % pages_per_vblk in
      let wr_buf = s.wr_buf s.write_buf_id in
      let right = sect_offset + num_sectors in
      let buf = page s.nand bank (vblock * pages_per_vblk + page_num) in
      let rhole_base = right * bytes_per_sector in
      let left_copied = copy_bytes wr_buf 0 buf 0 (sect_offset * bytes_per_sector) in
      let both_copied =
        if ltb right sectors_per_page
        then copy_bytes left_copied rhole_base buf rhole_base (bytes_per_page - rhole_base)
        else left_copied in
      let left_read =
        if sect_offset == 0
        then wr_buf
        else page_ptread hw s.nand bank vblock page_num 0 sect_offset wr_buf in
      let both_read =
        if ltb right sectors_per_page
        then page_ptread hw s.nand bank vblock page_num right (sectors_per_page - right) left_read
        else left_read in
      let s' = record s {
        ftl_buf = update s.ftl_buf bank buf;
        wr_buf = update s.wr_buf s.write_buf_id both_copied;
      } in
      let s'' = record s { wr_buf = update s.wr_buf s.write_buf_id both_read } in
      if num_sectors == sectors_per_page
      then s
      else if leb num_sectors 8 && not (sect_offset == 0)
      then s'
      else s''

  -- `nand_page_ptprogram_from_host`: the page is taken from the current write buffer, which is left.
  pub ptprogram_from_host : Greedy State → ℕ → ℕ → ℕ → ℕ → ℕ → Greedy State
  ptprogram_from_host s bank vblock page_num sect_offset num_sectors = record s {
    nand =
        page_ptprogram hw s.nand bank vblock page_num sect_offset num_sectors
          (s.wr_buf s.write_buf_id);
    write_buf_id = (s.write_buf_id + 1) % num_wr_buffers;
  }

  -- `write_page` from where it has its new page.
  pub write_to : Greedy State → ℕ → ℕ → ℕ → ℕ → Greedy State
  write_to s lpn sect_offset num_sectors new_vpn =
      let bank = get_num_bank lpn in
      let old_vpn = vpn_of s lpn in
      let old_vblock = old_vpn / pages_per_vblk in
      let counted = record s { page_wcount = update s.page_wcount bank (s.page_wcount bank + 1) } in
      let filled = fill_buffer counted bank old_vpn sect_offset num_sectors in
      let forgotten = put_vcount filled bank old_vblock (vcount_of filled bank old_vblock - 1) in
      let vblock = new_vpn / pages_per_vblk in
      let page_num = new_vpn % pages_per_vblk in
      let programmed =
        if old_vpn == 0
        then ptprogram_from_host counted bank vblock page_num sect_offset num_sectors
        else ptprogram_from_host forgotten bank vblock page_num 0 sectors_per_page in
      let listed = put_vpn (set_lpn programmed bank page_num lpn) lpn new_vpn in
      put_vcount listed bank vblock (vcount_of listed bank vblock + 1)

  -- The ASSERTs of `write_page` on its arguments.
  abbrev pub request_asserted : ℕ → ℕ → ℕ → Bool
  request_asserted lpn sect_offset num_sectors =
      ltb lpn num_lpages
      && ltb sect_offset sectors_per_page
      && ltb 0 num_sectors
      && leb num_sectors sectors_per_page

  -- Those on the old and the new page, with those of `set_vpn`, `get_vcount` and `set_vcount`: the count of the old
  -- block goes down by one, which it can, before that of the new block is tested.
  pub vpns_asserted : Greedy State → ℕ → ℕ → Bool
  vpns_asserted s lpn new_vpn =
      let bank = get_num_bank lpn in
      let old_vpn = vpn_of s lpn in
      let old_vblock = old_vpn / pages_per_vblk in
      let vblock = new_vpn / pages_per_vblk in
      let old_vcount = vcount_of s bank old_vblock in
      let vcount = vcount_of s bank vblock in
      let left = if not (old_vpn == 0) && old_vblock == vblock then vcount - 1 else vcount in
      check_vpage old_vpn
      && check_vpage new_vpn
      && not (old_vpn == new_vpn)
      && (old_vpn == 0
          || data_block old_vblock && ltb 0 old_vcount && ltb old_vcount pages_per_vblk)
      && data_block vblock
      && ltb left (pages_per_vblk - 1)

  -- `num_sectors_to_write`
  abbrev pub sectors_to_write : ℕ → ℕ → ℕ
  sectors_to_write sect_offset remain =
      if ltb (sect_offset + remain) sectors_per_page then remain else sectors_per_page - sect_offset

  module _ (mu : MemUtil) where
    -- `assign_new_write_vpn`: the state, whose `cur_write_vpn` it returns.
    pub assign_new_write_vpn : Greedy State → ℕ → Option (Greedy State)
    unfolding close_block next_block
    assign_new_write_vpn s bank =
        let write_vpn = (s.misc bank).cur_write_vpn in
        let vblock = write_vpn / pages_per_vblk in
        let s' = close_block s bank vblock in
        elim (write_vpn % pages_per_vblk == pages_per_vblk - 2) [
          | false ↦ some (set_new_write_vpn s bank (write_vpn + 1))
          | true ↦ elim ((s'.misc bank).free_blk_cnt == 1) [
            | true ↦ garbage_collection hw mu s' bank
            | false ↦ elim (next_block (s'.vcounts bank) (vblks_per_bank - 1 - vblock) vblock) [
              | none ↦ none
              | some next ↦ some (set_new_write_vpn s' bank (next * pages_per_vblk))
            ]
          ]
        ]

    -- `write_page`; `none` is a failed ASSERT or a search for a block that ends the bank.
    pub write_page : Greedy State → ℕ → ℕ → ℕ → Option (Greedy State)
    unfolding assign_new_write_vpn write_to
    write_page s lpn sect_offset num_sectors =
        let bank = get_num_bank lpn in
        elim (request_asserted lpn sect_offset num_sectors) [
          | false ↦ none
          | true ↦ elim (assign_new_write_vpn s bank) [
            | none ↦ none
            | some s' ↦
                let new_vpn = (s'.misc bank).cur_write_vpn in
                elim (vpns_asserted s' lpn new_vpn) [
                  | false ↦ none
                  | true ↦ some (write_to s' lpn sect_offset num_sectors new_vpn)
                ]
          ]
        ]

    -- The loop of `ftl_write`, over at most `n` rounds.
    pub write_loop : ℕ → Greedy State → ℕ → ℕ → ℕ → Option (Greedy State)
    write_loop zero s lpn sect_offset remain = some s
    write_loop (suc n) s lpn sect_offset remain = elim (remain == 0) [
      | true ↦ some s
      | false ↦
          let num = sectors_to_write sect_offset remain in
          elim (write_page s lpn sect_offset num) [
            | none ↦ none
            | some s' ↦ write_loop n s' (lpn + 1) 0 (remain - num)
          ]
    ]

    -- `ftl_write`: a round writes a sector at least.
    pub ftl_write : Greedy State → ℕ → ℕ → Option (Greedy State)
    unfolding write_loop
    ftl_write s lba num_sectors =
        write_loop num_sectors s (lba / sectors_per_page) (lba % sectors_per_page) num_sectors
