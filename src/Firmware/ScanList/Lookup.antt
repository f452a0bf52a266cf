-- ===== src/Firmware/ScanList/Lookup.antt =====
-- ftl.c: what is_bad_block finds in a list that ftl_open accepted.
use issd.Base.{
  ℕ, suc, ◌+◌, ◌*◌, ◌<◌, ◌≡◌, refl, Bool, true, false, ◌||◌, List, ◌∷◌, ltb, if◌then◌else◌, arith,
}
use issd.Firmware.Layout.{num_planes, scan_list_items}
use issd.Firmware.ScanList.{ScanList, clean_entries, load_scan_list, search_equ, is_bad_block}

pub is_bad_block-none : (s : ScanList) (vblk : ℕ) → s.entries ≡ 0 → is_bad_block s vblk ≡ false
unfolding is_bad_block search_equ
is_bad_block-none s vblk none_listed = rw none_listed refl

-- The search that the code makes for a block above 0, over the first `n` of a list of
-- `n + 1` words: all entries but the last.
search_front :
    (n : ℕ) (list : List ℕ) (val : ℕ)
    → 0 < val
    → search_equ (suc n) (0 ∷ list) val ≡ search_equ n list val
unfolding search_equ
search_front n list val h = ground arith

-- For a list that `ftl_open` accepts with n + 1 entries, `is_bad_block` reports a virtual block
-- above 0 exactly where one of the first n entries is one of its two physical blocks. The last
-- entry is never looked at.
pub is_bad_block-all_but_last :
    (n : ℕ) (list : List ℕ) (vblk : ℕ)
    → n < scan_list_items
    → (clean_entries (suc n) list).0 ≡ true
    → 0 < vblk
    → is_bad_block (load_scan_list false (suc n) list) vblk ≡ (
        search_equ n (clean_entries (suc n) list).1 (vblk * num_planes)
        || search_equ n (clean_entries (suc n) list).1 (vblk * num_planes + 1))
unfolding is_bad_block load_scan_list
is_bad_block-all_but_last n list vblk room ok h = ground (
  arith,
  search_front n (clean_entries (suc n) list).1 (vblk * num_planes),
  search_front n (clean_entries (suc n) list).1 (vblk * num_planes + 1),
)

-- A list that is corrupt, too long or holds an impossible entry counts as empty: no block is bad.
pub load_scan_list-refused :
    (corrupt : Bool) (num : ℕ) (list : List ℕ) (vblk : ℕ)
    → (corrupt || ltb scan_list_items num || (if (clean_entries num list).0 then false else true))
      ≡ true
    → is_bad_block (load_scan_list corrupt num list) vblk ≡ false
unfolding is_bad_block load_scan_list
load_scan_list-refused corrupt num list vblk h = ground arith
