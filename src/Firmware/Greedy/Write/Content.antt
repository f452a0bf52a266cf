-- ===== src/Firmware/Greedy/Write/Content.antt =====
-- ftl_greedy/ftl.c (write_page): the page that is programmed, byte by byte.
use issd.Base.{
  ℕ, ◌+◌, ◌*◌, ◌/◌, ◌%◌, ◌<◌, ◌≤◌, ◌≡◌, refl, true, ◌==◌, within, copy_bytes, if◌then◌else◌, arith,
  Bool-cases, inl, inr, update,
}
use issd.Firmware.Layout.{bytes_per_sector, sectors_per_page, bytes_per_page, pages_per_vblk}
use issd.Firmware.Nand.{Nand}
use issd.Firmware.Greedy.{Greedy, get_num_bank, vpn_of}
use issd.Firmware.Greedy.Bank.{logical}
use issd.Firmware.Greedy.Write.{fill_buffer}
use issd.Firmware.Greedy.Write.Commit.{content}

module _ (hw : Nand) where
  open hw use {State, page}

  -- The sectors around those that the host sent come from the old page, by either way of reading.
  fill_buffer-at :
      (s : Greedy State) (bank old off num a : ℕ)
      → off + num ≤ sectors_per_page
      → a < bytes_per_page
      → (fill_buffer hw s bank old off num).wr_buf s.write_buf_id a ≡ (
          if within (off * bytes_per_sector) (num * bytes_per_sector) a
          then s.wr_buf s.write_buf_id a
          else page s.nand bank old a)
  unfolding fill_buffer copy_bytes
  fill_buffer-at s bank old off num a h b =
      let row : old / pages_per_vblk * pages_per_vblk + old % pages_per_vblk ≡ old = omega arith in
      ground arith

  -- What is programmed: the sectors of the host, and the rest of the logical page.
  pub content-at :
      (s : Greedy State) (lpn off num new a : ℕ)
      → off + num ≤ sectors_per_page
      → a < bytes_per_page
      → content hw s lpn off num new a ≡ (
          if within (off * bytes_per_sector) (num * bytes_per_sector) a
          then s.wr_buf s.write_buf_id a
          else logical hw s lpn a)
  content-at s lpn off num new a h b =
      let bank = get_num_bank lpn in
      let counted : Greedy State = record s {
        page_wcount = update s.page_wcount bank (s.page_wcount bank + 1);
      } in
      let e = fill_buffer-at counted bank (vpn_of s lpn) off num a h b in
      let whole : within (0 * bytes_per_sector) (sectors_per_page * bytes_per_sector) a ≡ true =
        ground arith in
      elim (Bool-cases (vpn_of s lpn == 0)) [
        | inl fresh ↦ rw fresh refl
        | inr had ↦ rw (had, whole) e
      ]
