-- ===== src/Firmware/ScanList/Tests.antt =====
-- A scan list with three entries.
use issd.Base.{ℕ, ◌≡◌, refl, true, false, Bool, ◌||◌, List, [], ◌∷◌, arith}
use issd.Firmware.ScanList.{clean_entries, load_scan_list, search_equ, is_bad_block}
use issd.Firmware.ScanList.Lookup.{is_bad_block-all_but_last}

-- Physical blocks 10, 33 and 40; the second has the chip flag.
abbrev entries : List ℕ
entries = 10 ∷ 32801 ∷ 40 ∷ 0 ∷ 0 ∷ []

found_blocks :
    ◌≡◌ {A = Bool × Bool × Bool}
      (
        is_bad_block (load_scan_list false 3 entries) 5,
        is_bad_block (load_scan_list false 3 entries) 16,
        is_bad_block (load_scan_list false 3 entries) 20,
      )
      (true, true, false)
unfolding is_bad_block load_scan_list
found_blocks = refl

is_bad_block-all_but_last_example :
    is_bad_block (load_scan_list false 3 entries) 20
    ≡ (search_equ 2 (clean_entries 3 entries).1 40 || search_equ 2 (clean_entries 3 entries).1 41)
is_bad_block-all_but_last_example =
    is_bad_block-all_but_last 2 entries 20 (omega arith) (unfold clean_entries in refl)
      (omega arith)
