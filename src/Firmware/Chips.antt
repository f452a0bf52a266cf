-- ===== src/Firmware/Chips.antt =====
-- A flash in memory, and the state of ftl_tutorial/ftl.c on it before the first write: test data.
use issd.Base.{ℕ, ◌/◌, ◌%◌, ◌≡◌, refl, true, ◌&&◌, ◌==◌, if◌then◌else◌, Bytes, arith, []}
use issd.Firmware.Layout.{pages_per_vblk}
use issd.Firmware.Nand.{Nand}
use issd.Firmware.Ftl.{Ftl}

pub same_page : (bank row : ℕ) → (bank == bank && row == row) ≡ true
same_page bank row = ground arith

pub same_block :
    (bank row vblock : ℕ)
    → row / pages_per_vblk ≡ vblock
    → (bank == bank && row / pages_per_vblk == vblock) ≡ true
same_block bank row vblock h = ground arith

-- A flash whose pages are functions; an erased byte is 0xFF.
abbrev pub chips : Nand
chips = record {
  State = ℕ → ℕ → Bytes;
  page = λ s bank row. s bank row;
  Blank = λ s bank row. (a : ℕ) → s bank row a ≡ 255;
  program = λ s bank row content bank' row'.
      if bank' == bank && row' == row then content else s bank' row';
  page-program = λ s bank row content a blank h. rw (same_page bank row) refl;
  page-program_ne = λ s bank row content bank' row' a h. rw h refl;
  Blank-program_ne = λ s bank row content bank' row' h blank a. rw h (blank a);
  erase = λ s bank vblock bank' row'.
      if bank' == bank && row' / pages_per_vblk == vblock then (λ a. 255) else s bank' row';
  Blank-erase = λ s bank vblock row h a. rw (same_block bank row vblock h) refl;
  page-erase_ne = λ s bank vblock bank' row' a h. rw h refl;
  Blank-erase_ne = λ s bank vblock bank' row' h blank a. rw h (blank a);
}

abbrev pub empty : Ftl (ℕ → ℕ → Bytes)
empty = record {
  nand = λ bank row a. 255;
  dram = λ a. a % 251;
  page_map = λ l. 0;
  scan_list = λ bank. record { entries = 0; list = []; num_entries = 0 };
  target_row = λ bank. pages_per_vblk;
  target_bank = 0;
  write_buf_id = 0;
  read_buf_id = 0;
}
