-- ===== src/Firmware/Greedy/Lists.antt =====
-- ftl_greedy/ftl.c: the list of the pages of a block, as it goes through the last page of the block.
use issd.Base.{
  ℕ, ◌+◌, ◌-◌, ◌*◌, ◌/◌, ◌%◌, ◌<◌, ◌≡◌, refl, ◌∙◌, true, ◌==◌, Bytes, copy_bytes, within, read_32,
  arith, u32,
}
use issd.Firmware.Layout.{pages_per_vblk}
use issd.Firmware.Nand.{Nand}
use issd.Firmware.Greedy.{list_bytes, list_of, list_size, list_sectors, page_ptread, page_ptprogram}

pub list_of-list_bytes :
    (lpns : ℕ → ℕ) (p : ℕ) → lpns p < u32 → list_of (list_bytes lpns) p ≡ lpns p
unfolding list_of list_bytes read_32
list_of-list_bytes lpns p h =
    let e0 : 4 * p / 4 ≡ p = omega arith in
    let e1 : (4 * p + 1) / 4 ≡ p = omega arith in
    let e2 : (4 * p + 2) / 4 ≡ p = omega arith in
    let e3 : (4 * p + 3) / 4 ≡ p = omega arith in
    let m0 : (4 * p % 4 == 0) ≡ true = ground arith in
    let m1 : (4 * p + 1) % 4 ≡ 1 = omega arith in
    let m2 : (4 * p + 2) % 4 ≡ 2 = omega arith in
    let m3 : (4 * p + 3) % 4 ≡ 3 = omega arith in rw (e0, e1, e2, e3, m0, m1, m2, m3) (omega arith)

-- Equal bytes give equal entries.
pub list_of-cong :
    (m m' : Bytes) (p : ℕ) → ((a : ℕ) → a < 4 * p + 4 → m a ≡ m' a) → list_of m p ≡ list_of m' p
unfolding list_of read_32
list_of-cong m m' p h =
    rw
      (
        h (4 * p) (omega arith),
        h (4 * p + 1) (omega arith),
        h (4 * p + 2) (omega arith),
        h (4 * p + 3) (omega arith),
      )
      refl

module _ (hw : Nand) where
  open hw use {State, page, Blank, page-program, program}

  -- The list of a block as its last page holds it.
  abbrev pub listed : State → ℕ → ℕ → ℕ → ℕ
  listed n bank vblock p = list_of (page n bank (vblock * pages_per_vblk + (pages_per_vblk - 1))) p

  read_byte :
      (n : State) (bank vblock : ℕ) (buf : Bytes) (a : ℕ)
      → a < 512
      → page_ptread hw n bank vblock (pages_per_vblk - 1) 0 list_sectors buf a
        ≡ page n bank (vblock * pages_per_vblk + (pages_per_vblk - 1)) a
  unfolding copy_bytes
  read_byte n bank vblock buf a l =
      let e : within 0 512 a ≡ true = ground arith in
      let same : 0 + (a - 0) ≡ a = omega arith in rw (e, same) refl

  pub list_of-page_ptread :
      (n : State) (bank vblock : ℕ) (buf : Bytes) (p : ℕ)
      → p < pages_per_vblk
      → list_of (page_ptread hw n bank vblock (pages_per_vblk - 1) 0 list_sectors buf) p
        ≡ listed n bank vblock p
  list_of-page_ptread n bank vblock buf p h =
      list_of-cong (page_ptread hw n bank vblock (pages_per_vblk - 1) 0 list_sectors buf)
        (page n bank (vblock * pages_per_vblk + (pages_per_vblk - 1))) p
        (λ a l. read_byte n bank vblock buf a (omega arith))

  -- The state in which the list is on its page.
  abbrev pub with_list : State → ℕ → ℕ → (ℕ → ℕ) → Bytes → State
  with_list n bank vblock lpns buf =
      page_ptprogram hw n bank vblock (pages_per_vblk - 1) 0 list_sectors
        (copy_bytes buf 0 (list_bytes lpns) 0 list_size)

  programmed_byte :
      (n : State) (bank vblock : ℕ) (lpns : ℕ → ℕ) (buf : Bytes) (a : ℕ)
      → a < 512
      → Blank n bank (vblock * pages_per_vblk + (pages_per_vblk - 1))
      → page
          (with_list n bank vblock lpns buf)
          bank
          (vblock * pages_per_vblk + (pages_per_vblk - 1))
          a
        ≡ list_bytes lpns a
  unfolding copy_bytes
  programmed_byte n bank vblock lpns buf a l blank =
      let e : within 0 512 a ≡ true = ground arith in
      let same : 0 + (a - 0) ≡ a = omega arith in
      page-program n bank (vblock * pages_per_vblk + (pages_per_vblk - 1)) _ a blank (omega arith)
      ∙ rw (e, same) refl

  -- A list that is programmed into the erased last page of its block, through the buffer and in the sectors that
  -- `assign_new_write_vpn` takes, is read back there entry by entry, where an entry is a 32-bit word.
  pub listed-with_list :
      (n : State) (bank vblock : ℕ) (lpns : ℕ → ℕ) (buf : Bytes) (p : ℕ)
      → p < pages_per_vblk
      → lpns p < u32
      → Blank n bank (vblock * pages_per_vblk + (pages_per_vblk - 1))
      → listed (with_list n bank vblock lpns buf) bank vblock p ≡ lpns p
  listed-with_list n bank vblock lpns buf p h w blank =
      list_of-cong _ (list_bytes lpns) p
        (λ a l. programmed_byte n bank vblock lpns buf a (omega arith) blank)
      ∙ list_of-list_bytes lpns p w
