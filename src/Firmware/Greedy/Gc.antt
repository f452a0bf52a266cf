-- ===== src/Firmware/Greedy/Gc.antt =====
-- ftl_greedy/ftl.c: garbage_collection and get_vt_vblock.
pub mod Copying
pub mod Copy
pub mod Count
pub mod Confined
pub mod Loop
pub mod Swept
pub mod Reclaim
pub mod Reopen
pub mod Ranges
pub mod Asserted
pub mod Collect
use issd.Base.{
  ℕ, zero, suc, ◌+◌, ◌-◌, ◌*◌, ◌/◌, ◌%◌, Bool, not, true, false, ◌&&◌, Option, none, some, update,
  ltb, ◌==◌, if◌then◌else◌,
}
use issd.Firmware.Layout.{pages_per_vblk, vblks_per_bank, num_banks, num_lpages}
use issd.Firmware.Nand.{Nand}
use issd.Firmware.Greedy.{
  vc_max, data_block, check_vpage, Greedy, MemUtil, list_of, list_sectors, set_misc, set_lpn,
  vpn_of, put_vpn, vcount_of, put_vcount, page_ptread, page_copyback,
}

module _ (hw : Nand) where
  open hw use {State, page, program, erase}

  -- The loop of `garbage_collection` over the pages of the victim from `src_page` on, in `n` rounds, with
  -- `free_vpn`.
  pub copy_valid : ℕ → Greedy State → ℕ → ℕ → ℕ → ℕ → ℕ × Greedy State
  copy_valid zero s bank vt_vblock src_page free_vpn = (free_vpn, s)
  copy_valid (suc n) s bank vt_vblock src_page free_vpn =
      let src_lpn = (s.misc bank).lpn_list src_page in
      let s' = record s {
        nand =
            page_copyback hw s.nand bank vt_vblock src_page (free_vpn / pages_per_vblk)
              (free_vpn % pages_per_vblk);
      } in
      let s'' = set_lpn (put_vpn s' src_lpn free_vpn) bank (free_vpn % pages_per_vblk) src_lpn in
      elim (vpn_of s src_lpn == vt_vblock * pages_per_vblk + src_page) [
        | false ↦ copy_valid n s bank vt_vblock (src_page + 1) free_vpn
        | true ↦ copy_valid n s'' bank vt_vblock (src_page + 1) (free_vpn + 1)
      ]

  -- The end of `garbage_collection`: the victim is erased and is the next free block.
  pub reclaim : Greedy State → ℕ → ℕ → ℕ → ℕ → ℕ → Greedy State
  reclaim s bank vt_vblock gc_vblock vcount free_vpn =
      let s' = record s { nand = erase s.nand bank vt_vblock } in
      let s'' = put_vcount (put_vcount s' bank vt_vblock vc_max) bank gc_vblock vcount in
      set_misc s'' bank (record (s''.misc bank) {
        cur_write_vpn = free_vpn;
        gc_vblock = vt_vblock;
        free_blk_cnt = (s''.misc bank).free_blk_cnt + 1;
      })

  -- The ASSERTs of `get_vt_vblock`, of `garbage_collection` before its loop, and of the counts that it
  -- reads and writes: on the bank, the victim and the block that takes the pages.
  pub blocks_asserted : Greedy State → ℕ → ℕ → Bool
  blocks_asserted s bank vt_vblock =
      let gc_vblock = (s.misc bank).gc_vblock in
      ltb bank num_banks
      && data_block vt_vblock
      && data_block gc_vblock
      && not (vt_vblock == gc_vblock)
      && ltb (vcount_of s bank vt_vblock) (pages_per_vblk - 1)
      && vcount_of s bank gc_vblock == vc_max
      && not (s.bad_blk bank vt_vblock)
      && not (s.bad_blk bank gc_vblock)

  -- CHECK_LPAGE and CHECK_VPAGE of the loop, for the `n` entries of the victim's list from `src_page` on. They
  -- are tested before the loop, which sets entries of the map to pages of the block of the
  -- collection alone.
  pub pages_asserted : ℕ → Greedy State → ℕ → ℕ → Bool
  pages_asserted zero s bank src_page = true
  pages_asserted (suc n) s bank src_page =
      let rest = pages_asserted n s bank (src_page + 1) in
      let src_lpn = (s.misc bank).lpn_list src_page in
      ltb src_lpn num_lpages && check_vpage (vpn_of s src_lpn) && rest

  -- `garbage_collection` of a victim; the count of collections goes up by two.
  pub collect : Greedy State → ℕ → ℕ → Option (Greedy State)
  collect s bank vt_vblock =
      let vcount = vcount_of s bank vt_vblock in
      let gc_vblock = (s.misc bank).gc_vblock in
      let buf =
        page_ptread hw s.nand bank vt_vblock (pages_per_vblk - 1) 0 list_sectors (s.ftl_buf bank) in
      let s' = record s {
        gc_cnt = update s.gc_cnt bank (s.gc_cnt bank + 2);
        ftl_buf = update s.ftl_buf bank buf;
      } in
      let s'' = set_misc s' bank (record (s.misc bank) { lpn_list = list_of buf }) in
      let copied =
        copy_valid (pages_per_vblk - 1) s'' bank vt_vblock 0 (gc_vblock * pages_per_vblk) in
      let offset = copied.0 % pages_per_vblk in
      let asserted =
        blocks_asserted s bank vt_vblock && pages_asserted (pages_per_vblk - 1) s'' bank 0 in
      if asserted && ltb offset (pages_per_vblk - 2) && offset == vcount
      then some (reclaim copied.1 bank vt_vblock gc_vblock vcount copied.0)
      else none

  module _ (mu : MemUtil) where
    open mu use {search_min}

    -- `get_vt_vblock`
    pub get_vt_vblock : Greedy State → ℕ → ℕ
    get_vt_vblock s bank = search_min (s.vcounts bank) vblks_per_bank

    -- `garbage_collection`
    pub garbage_collection : Greedy State → ℕ → Option (Greedy State)
    garbage_collection s bank = collect s bank (get_vt_vblock s bank)
