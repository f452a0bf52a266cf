-- ===== src/Firmware/Ftl/Page.antt =====
-- ftl.c: what one round of the write loop does to the buffer.
use issd.Base.{
  ℕ, ◌+◌, ◌-◌, ◌*◌, ◌/◌, ◌%◌, ◌≤◌, ◌<◌, ◌≡◌, false, copy_bytes, within, leb, ltb, ◌==◌,
  if◌then◌else◌, arith,
}
use issd.Firmware.Layout.{bytes_per_sector, sectors_per_page, bytes_per_page, pages_per_bank}
use issd.Firmware.Nand.{Nand}
use issd.Firmware.Ftl.{Ftl, fill_holes}

module _ (hw : Nand) where
  open hw use {State, page}

  -- The byte of a physical page, by its number in the mapping table.
  abbrev pub stored_at : Ftl State → ℕ → ℕ → ℕ
  stored_at s phys a = page s.nand (phys / pages_per_bank) (phys % pages_per_bank) a

  pub fill_holes-at :
      (s : Ftl State) (phys dma left right a : ℕ)
      → left ≤ sectors_per_page
      → right ≤ sectors_per_page
      → a < bytes_per_page
      → (fill_holes hw s phys dma left right).dram (dma + a) ≡ (
          if phys == 0
          then s.dram (dma + a)
          else if ltb a (left * bytes_per_sector)
          then stored_at s phys a
          else if leb ((sectors_per_page - right) * bytes_per_sector) a
          then stored_at s phys a
          else s.dram (dma + a))
  unfolding fill_holes copy_bytes
  fill_holes-at s phys dma left right a l r h = ground arith

  pub fill_holes-outside :
      (s : Ftl State) (phys dma left right x : ℕ)
      → left ≤ sectors_per_page
      → right ≤ sectors_per_page
      → within dma bytes_per_page x ≡ false
      → (fill_holes hw s phys dma left right).dram x ≡ s.dram x
  unfolding fill_holes copy_bytes
  fill_holes-outside s phys dma left right x l r h = ground arith

  pub fill_holes-rest :
      (s : Ftl State) (phys dma left right : ℕ)
      → fill_holes hw s phys dma left right
        ≡ record s { dram = (fill_holes hw s phys dma left right).dram }
  unfolding fill_holes
  fill_holes-rest s phys dma left right = ground arith
