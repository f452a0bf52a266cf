-- ===== src/Firmware/Greedy/Buffers.antt =====
-- OpenSSD-1.1.0/ftl_greedy/ftl.h: the regions of the DRAM, which give the number of the buffers.
use issd.Base.{ℕ, ◌+◌, ◌-◌, ◌*◌, ◌/◌}
use issd.Firmware.Layout.{
  bytes_per_sector, bytes_per_page, vblks_per_bank, num_banks, num_banks_max, dram_size,
  page_map_bytes,
}

abbrev pub dram_ecc_unit : ℕ
dram_ecc_unit = 128

abbrev pub bad_blk_bmp_bytes : ℕ
bad_blk_bmp_bytes =
    (vblks_per_bank * num_banks / 8 + dram_ecc_unit - 1) / dram_ecc_unit * dram_ecc_unit

abbrev pub vcount_bytes : ℕ
vcount_bytes =
    (num_banks * vblks_per_bank * 2 + bytes_per_sector - 1) / bytes_per_sector * bytes_per_sector

abbrev pub dram_bytes_other : ℕ
dram_bytes_other =
    (num_banks_max + num_banks + 1 + 1) * bytes_per_page
    + bad_blk_bmp_bytes
    + page_map_bytes
    + vcount_bytes

abbrev pub num_rw_buffers : ℕ
num_rw_buffers = (dram_size - dram_bytes_other) / bytes_per_page - 1

abbrev pub num_rd_buffers : ℕ
num_rd_buffers = (num_rw_buffers / 8 + num_banks - 1) / num_banks * num_banks

abbrev pub num_wr_buffers : ℕ
num_wr_buffers = num_rw_buffers - num_rd_buffers
