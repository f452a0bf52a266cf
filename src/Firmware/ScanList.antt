-- ===== src/Firmware/ScanList.antt =====
-- OpenSSD-1.1.0/ftl_tutorial/ftl.c (ftl_open, step 1, and is_bad_block): the list of initial bad
-- blocks of a bank.
pub mod Lookup
mod Tests
use issd.Base.{
  ℕ, zero, suc, ◌+◌, ◌*◌, ◌%◌, Bool, true, false, ◌&&◌, ◌||◌, List, [], ◌∷◌, ltb, leb, ◌==◌,
  if◌then◌else◌,
}
use issd.Firmware.Layout.{pblks_per_bank, num_planes, scan_list_items}

-- A scan list in the DRAM: `scan_list_t`, its `num_entries` and its `list`, and the count
-- `g_scan_list_entries` of its bank.
pub record ScanList : Type 0 where
  pub num_entries : ℕ
  pub list : List ℕ
  pub entries : ℕ

-- The loop over the entries: whether they make sense, and the list with the chip flag taken off.
pub clean_entries : ℕ → List ℕ → Bool × List ℕ
clean_entries zero list = (true, list)
clean_entries (suc n) [] = (true, [])
clean_entries (suc n) (entry ∷ rest) =
    let (ok, rest') = clean_entries n rest in
    let pblk_offset = entry % 32768 in
    if pblk_offset == 0 || leb pblks_per_bank pblk_offset
    then (false, entry ∷ rest')
    else (ok, pblk_offset ∷ rest')

-- `mem_set_dram(scan_list + bank, 0, SCAN_LIST_SIZE)`
zeros : ℕ → List ℕ
zeros zero = []
zeros (suc n) = 0 ∷ zeros n

-- Step 1 of `ftl_open` for one bank, from whether the read was corrupt and what it brought.
pub load_scan_list : Bool → ℕ → List ℕ → ScanList
unfolding clean_entries zeros
load_scan_list corrupt num list =
    let failed : ScanList = record { num_entries = 0; list = zeros scan_list_items; entries = 0 } in
    let (ok, cleaned) = clean_entries num list in
    if corrupt || ltb scan_list_items num
    then failed
    else if ok
    then record { num_entries = 0; list = cleaned; entries = num }
    else failed

-- `mem_search_equ_dram(addr, 2, size, val) < size`: whether one of the first `size` halfwords is
-- `val`.
pub search_equ : ℕ → List ℕ → ℕ → Bool
search_equ zero words val = false
search_equ (suc n) [] val = false
search_equ (suc n) (w ∷ words) val = w == val || search_equ n words val

-- `is_bad_block`: the search begins at the structure's first halfword, `num_entries`.
pub is_bad_block : ScanList → ℕ → Bool
unfolding search_equ
is_bad_block s vblk_offset =
    search_equ s.entries (s.num_entries ∷ s.list) (vblk_offset * num_planes)
    || search_equ s.entries (s.num_entries ∷ s.list) (vblk_offset * num_planes + 1)
