-- ===== src/Firmware/Nand.antt =====
-- The flash controller and the NAND chips behind it, as the firmware uses them
-- (OpenSSD-1.1.0/include/flash.h and the comments of ftl_tutorial/ftl.c): the contents of the pages
-- and the commands that read, program and erase.
use issd.Base.{ℕ, ◌/◌, ◌≡◌, ◌<◌, false, ◌&&◌, ◌==◌, Bytes}
use issd.Firmware.Layout.{bytes_per_page, pages_per_vblk}

-- A bank and a row name a page. A page may be programmed once after the erasure of its block.
pub record Nand : Type 1 where
  pub State : Type 0
  pub page : State → ℕ → ℕ → Bytes
  pub Blank : State → ℕ → ℕ → Type 0
  pub program : State → ℕ → ℕ → Bytes → State
  pub page-program :
      (s : State) (bank row : ℕ) (content : Bytes) (a : ℕ)
      → Blank s bank row
      → a < bytes_per_page
      → page (program s bank row content) bank row a ≡ content a
  pub page-program_ne :
      (s : State) (bank row : ℕ) (content : Bytes) (bank' row' a : ℕ)
      → (bank' == bank && row' == row) ≡ false
      → page (program s bank row content) bank' row' a ≡ page s bank' row' a
  pub Blank-program_ne :
      (s : State) (bank row : ℕ) (content : Bytes) (bank' row' : ℕ)
      → (bank' == bank && row' == row) ≡ false
      → Blank s bank' row'
      → Blank (program s bank row content) bank' row'
  pub erase : State → ℕ → ℕ → State
  pub Blank-erase :
      (s : State) (bank vblock row : ℕ)
      → row / pages_per_vblk ≡ vblock
      → Blank (erase s bank vblock) bank row
  pub page-erase_ne :
      (s : State) (bank vblock bank' row' a : ℕ)
      → (bank' == bank && row' / pages_per_vblk == vblock) ≡ false
      → page (erase s bank vblock) bank' row' a ≡ page s bank' row' a
  pub Blank-erase_ne :
      (s : State) (bank vblock bank' row' : ℕ)
      → (bank' == bank && row' / pages_per_vblk == vblock) ≡ false
      → Blank s bank' row'
      → Blank (erase s bank vblock) bank' row'
