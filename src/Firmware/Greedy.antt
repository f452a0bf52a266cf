-- ===== src/Firmware/Greedy.antt =====
-- OpenSSD-1.1.0/ftl_greedy/ftl.c: the page mapping FTL with greedy garbage collection, and the functions of
-- target_spw/flash_wrapper.c that it calls. A region of the DRAM is a field; the flash commands take
-- effect when they are issued. `none` is a failed ASSERT.
pub mod Buffers
pub mod Lists
pub mod Count
pub mod Bank
pub mod Others
pub mod Gc
pub mod Write
pub mod Read
mod Tests
use issd.Base.{
  ℕ, zero, suc, ◌+◌, ◌-◌, ◌*◌, ◌/◌, ◌%◌, Bool, not, Option, none, some, ◌≤◌, ◌<◌, update, Bytes,
  copy_bytes, within, read_32, ltb, leb, ◌&&◌, ◌||◌, ◌==◌, if◌then◌else◌,
}
use issd.Firmware.Layout.{
  bytes_per_sector, pages_per_vblk, vblks_per_bank, num_banks, num_lpages, page_map_bytes,
  bytes_per_page,
}
use issd.Firmware.Nand.{Nand}

abbrev pub vc_max : ℕ
vc_max = 0xCDCD

-- `misc_metadata` of a bank, without the places where it is logged.
pub record Misc : Type 0 where
  pub cur_write_vpn : ℕ
  pub gc_vblock : ℕ
  pub free_blk_cnt : ℕ
  pub lpn_list : ℕ → ℕ

-- The NAND, FTL_BUF, the SATA buffers by their number, `g_misc_meta`, `g_ftl_statistics`, the page map
-- at PAGE_MAP_ADDR, the counts at VCOUNT_ADDR and the bits at BAD_BLK_BMP_ADDR by bank and block, and the numbers of the buffers.
pub record Greedy (N : Type 0) : Type 0 where
  pub nand : N
  pub ftl_buf : ℕ → Bytes
  pub wr_buf : ℕ → Bytes
  pub rd_buf : ℕ → Bytes
  pub misc : ℕ → Misc
  pub gc_cnt : ℕ → ℕ
  pub page_wcount : ℕ → ℕ
  pub page_map : ℕ → ℕ
  pub vcounts : ℕ → ℕ → ℕ
  pub bad_blk : ℕ → ℕ → Bool
  pub write_buf_id : ℕ
  pub read_buf_id : ℕ

-- `_mem_search_min_max` of target_spw/mem_util.c, which the memory utility of the controller carries out:
-- an index below the number of items whose item is a least one.
pub record MemUtil : Type 0 where
  pub search_min : (ℕ → ℕ) → ℕ → ℕ
  pub search_min-lt : (items : ℕ → ℕ) (n : ℕ) → 0 < n → search_min items n < n
  pub search_min-least : (items : ℕ → ℕ) (n i : ℕ) → i < n → items (search_min items n) ≤ items i

abbrev pub mapblks_per_bank : ℕ
mapblks_per_bank = (page_map_bytes / num_banks + bytes_per_page - 1) / bytes_per_page

-- Block 0, the block of the miscellaneous metadata, and those of the page map.
abbrev pub meta_blks_per_bank : ℕ
meta_blks_per_bank = 1 + 1 + mapblks_per_bank

-- What the ASSERTs of `get_vcount`, `set_vcount` and `set_vpn` ask of a block.
abbrev pub data_block : ℕ → Bool
data_block vblock = leb meta_blks_per_bank vblock && ltb vblock vblks_per_bank

-- CHECK_VPAGE
abbrev pub check_vpage : ℕ → Bool
check_vpage vpn = ltb vpn (vblks_per_bank * pages_per_vblk)

abbrev pub get_num_bank : ℕ → ℕ
get_num_bank lpn = lpn % num_banks

-- `lpn_list_of_cur_vblock` as its bytes lie in memory, and back.
pub list_bytes : (ℕ → ℕ) → Bytes
list_bytes lpns a =
    let w = lpns (a / 4) in
    if a % 4 == 0
    then w % 256
    else if a % 4 == 1
    then w / 256 % 256
    else if a % 4 == 2
    then w / 65536 % 256
    else w / 16777216 % 256

pub list_of : Bytes → ℕ → ℕ
list_of m page_num = read_32 m (4 * page_num)

-- The bytes of the list, and the sectors that hold it.
abbrev pub list_size : ℕ
list_size = 4 * pages_per_vblk

abbrev pub list_sectors : ℕ
list_sectors = (list_size + bytes_per_sector - 1) / bytes_per_sector

module _ {N : Type 0} where
  abbrev pub set_misc : Greedy N → ℕ → Misc → Greedy N
  set_misc s bank m = record s { misc = update s.misc bank m }

  -- `set_lpn`
  abbrev pub set_lpn : Greedy N → ℕ → ℕ → ℕ → Greedy N
  set_lpn s bank page_num lpn =
      set_misc s bank
        (record (s.misc bank) { lpn_list = update (s.misc bank).lpn_list page_num lpn })

  -- The word of a logical page in the page map.
  abbrev pub vpn_of : Greedy N → ℕ → ℕ
  vpn_of s lpn = s.page_map lpn

  -- `get_vpn`, with CHECK_LPAGE
  abbrev pub get_vpn : Greedy N → ℕ → Option ℕ
  get_vpn s lpn = if ltb lpn num_lpages then some (vpn_of s lpn) else none

  -- What `set_vpn` does behind its ASSERTs.

  abbrev pub put_vpn : Greedy N → ℕ → ℕ → Greedy N
  put_vpn s lpn vpn = record s { page_map = update s.page_map lpn vpn }

  -- What `get_vcount` reads and `set_vcount` writes; their ASSERTs are tested with those of the callers.
  abbrev pub vcount_of : Greedy N → ℕ → ℕ → ℕ
  vcount_of s bank vblock = s.vcounts bank vblock

  abbrev pub put_vcount : Greedy N → ℕ → ℕ → ℕ → Greedy N
  put_vcount s bank vblock vcount = record s {
    vcounts = update s.vcounts bank (update (s.vcounts bank) vblock vcount);
  }

-- The search for the next block that is not VC_MAX, over the `n` blocks behind `vblock`.
pub next_block : (ℕ → ℕ) → ℕ → ℕ → Option ℕ
next_block counts zero vblock = none
next_block counts (suc n) vblock =
    let rest = next_block counts n (vblock + 1) in
    let vcount = counts (vblock + 1) in
    if not (data_block (vblock + 1) && (ltb vcount pages_per_vblk || vcount == vc_max))
    then none
    else if vcount == vc_max
    then rest
    else some (vblock + 1)

module _ (hw : Nand) where
  open hw use {State, page, program}

  -- `nand_page_ptread`: `num` sectors of a page from sector `sect_offset` on, to their place in the buffer.
  abbrev pub page_ptread : State → ℕ → ℕ → ℕ → ℕ → ℕ → Bytes → Bytes
  page_ptread n bank vblock page_num sect_offset num_sectors buf =
      copy_bytes buf (sect_offset * bytes_per_sector)
        (page n bank (vblock * pages_per_vblk + page_num)) (sect_offset * bytes_per_sector)
        (num_sectors * bytes_per_sector)

  -- `nand_page_ptprogram`: what is not programmed stays erased.
  abbrev pub page_ptprogram : State → ℕ → ℕ → ℕ → ℕ → ℕ → Bytes → State
  page_ptprogram n bank vblock page_num sect_offset num_sectors buf =
      program n bank (vblock * pages_per_vblk + page_num) (λ a.
        if within (sect_offset * bytes_per_sector) (num_sectors * bytes_per_sector) a
        then buf a
        else 255)

  -- `nand_page_copyback`, with the copy inside the chip or over a buffer of its own.
  abbrev pub page_copyback : State → ℕ → ℕ → ℕ → ℕ → ℕ → State
  page_copyback n bank src_vblock src_page dst_vblock dst_page =
      program n bank (dst_vblock * pages_per_vblk + dst_page)
        (page n bank (src_vblock * pages_per_vblk + src_page))
