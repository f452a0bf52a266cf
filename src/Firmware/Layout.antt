-- ===== src/Firmware/Layout.antt =====
-- OpenSSD-1.1.0/include/jasmine.h, include/nand.h and ftl_tutorial/ftl.h: the geometry of the
-- flash module K9LCG08U1M on eight banks, and the regions of the DRAM, as the macros compute them.
use issd.Base.{ℕ, ◌+◌, ◌-◌, ◌*◌, ◌/◌}

abbrev pub bytes_per_sector : ℕ
bytes_per_sector = 512

abbrev pub num_banks_max : ℕ
num_banks_max = 32

-- BANK_BMP 0x00330033 has eight bits.
abbrev pub num_banks : ℕ
num_banks = 8

abbrev pub num_planes : ℕ
num_planes = 2

abbrev pub sectors_per_phypage : ℕ
sectors_per_phypage = 16

-- Two chips side by side and two planes.
abbrev pub sectors_per_page : ℕ
sectors_per_page = sectors_per_phypage * (2 * num_planes)

abbrev pub bytes_per_page : ℕ
bytes_per_page = bytes_per_sector * sectors_per_page

abbrev pub pages_per_vblk : ℕ
pages_per_vblk = 128

abbrev pub pblks_per_bank : ℕ
pblks_per_bank = 4096 + 56

abbrev pub vblks_per_bank : ℕ
vblks_per_bank = pblks_per_bank / num_planes

abbrev pub pages_per_bank : ℕ
pages_per_bank = pages_per_vblk * vblks_per_bank

abbrev pub num_psectors : ℕ
num_psectors = sectors_per_page * pages_per_vblk * ((vblks_per_bank - 56 / num_planes) * num_banks)

abbrev pub num_lsectors : ℕ
num_lsectors = num_psectors / 100 * 93

abbrev pub num_lpages : ℕ
num_lpages = (num_lsectors + sectors_per_page - 1) / sectors_per_page

-- BYTES_PER_SMALL_PAGE
abbrev pub scan_list_size : ℕ
scan_list_size = bytes_per_sector * sectors_per_phypage * 2

abbrev pub scan_list_items : ℕ
scan_list_items = scan_list_size / 2 - 1

abbrev pub dram_base : ℕ
dram_base = 0x40000000

abbrev pub dram_size : ℕ
dram_size = 65075200

abbrev pub scan_list_bytes : ℕ
scan_list_bytes = scan_list_size * num_banks

abbrev pub page_map_bytes : ℕ
page_map_bytes = (num_lpages * 4 + bytes_per_sector - 1) / bytes_per_sector * bytes_per_sector

abbrev pub issd_cnt_pages : ℕ
issd_cnt_pages = 500

abbrev pub issd_computing_bytes : ℕ
issd_computing_bytes = issd_cnt_pages * bytes_per_page

abbrev pub dram_bytes_other : ℕ
dram_bytes_other =
    (num_banks_max + 1 + 1 + 1) * bytes_per_page
    + scan_list_bytes
    + page_map_bytes
    + bytes_per_page
    + bytes_per_page
    + issd_computing_bytes

abbrev pub num_rw_buffers : ℕ
num_rw_buffers = (dram_size - dram_bytes_other) / bytes_per_page - 1

abbrev pub num_rd_buffers : ℕ
num_rd_buffers = (num_rw_buffers / 8 + num_banks - 1) / num_banks * num_banks

abbrev pub num_wr_buffers : ℕ
num_wr_buffers = num_rw_buffers - num_rd_buffers

abbrev pub rd_buf_addr : ℕ
rd_buf_addr = dram_base

abbrev pub wr_buf_addr : ℕ
wr_buf_addr = rd_buf_addr + num_rd_buffers * bytes_per_page

abbrev pub copy_buf_addr : ℕ
copy_buf_addr = wr_buf_addr + num_wr_buffers * bytes_per_page

abbrev pub ftl_buf_addr : ℕ
ftl_buf_addr = copy_buf_addr + num_banks_max * bytes_per_page

abbrev pub hil_buf_addr : ℕ
hil_buf_addr = ftl_buf_addr + bytes_per_page

abbrev pub temp_buf_addr : ℕ
temp_buf_addr = hil_buf_addr + bytes_per_page

abbrev pub scan_list_addr : ℕ
scan_list_addr = temp_buf_addr + bytes_per_page

abbrev pub page_map_addr : ℕ
page_map_addr = scan_list_addr + scan_list_bytes

abbrev pub issd_cmd_buffer_addr : ℕ
issd_cmd_buffer_addr = page_map_addr + page_map_bytes

abbrev pub issd_wr_buf_addr : ℕ
issd_wr_buf_addr = issd_cmd_buffer_addr + bytes_per_page

abbrev pub issd_computing_addr : ℕ
issd_computing_addr = issd_wr_buf_addr + bytes_per_page
