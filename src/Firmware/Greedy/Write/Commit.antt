-- ===== src/Firmware/Greedy/Write/Commit.antt =====
-- ftl_greedy/ftl.c (write_page): what a write does to the map, the list, the counts and the flash.
use issd.Base.{
  ℕ, ◌+◌, ◌-◌, ◌*◌, ◌/◌, ◌%◌, ◌≡◌, refl, false, ◌==◌, Bytes, within, if◌then◌else◌, arith,
  Bool-cases, inl, inr, update,
}
use issd.Firmware.Layout.{bytes_per_sector, sectors_per_page, pages_per_vblk}
use issd.Firmware.Greedy.Buffers.{num_wr_buffers}
use issd.Firmware.Nand.{Nand}
use issd.Firmware.Greedy.{Greedy, get_num_bank, vpn_of, vcount_of}
use issd.Firmware.Greedy.Write.{fill_buffer, ptprogram_from_host, write_to}

module _ (hw : Nand) where
  open hw use {State, page, Blank, program}

  -- The count of a block when the page `old` is forgotten.
  abbrev pub forgotten : (ℕ → ℕ) → ℕ → ℕ → ℕ
  forgotten counts old v =
      if old == 0 then counts v else if old / pages_per_vblk == v then counts v - 1 else counts v

  -- The logical page `lpn` goes to the page `new` of its bank, with `content`.
  pub record Commit (s : Greedy State) (lpn new : ℕ) (content : Bytes) (t : Greedy State)
      : Type 0 where
    pub map_new : (l : ℕ) → vpn_of t l ≡ (if lpn == l then new else vpn_of s l)
    pub misc_new : t.misc (get_num_bank lpn) ≡ record (s.misc (get_num_bank lpn)) {
      lpn_list = update (s.misc (get_num_bank lpn)).lpn_list (new % pages_per_vblk) lpn;
    }
    pub misc_other : (b : ℕ) → (get_num_bank lpn == b) ≡ false → t.misc b ≡ s.misc b
    pub count_new :
        (v : ℕ)
        → vcount_of t (get_num_bank lpn) v ≡ (
            if new / pages_per_vblk == v
            then forgotten (s.vcounts (get_num_bank lpn)) (vpn_of s lpn) (new / pages_per_vblk) + 1
            else forgotten (s.vcounts (get_num_bank lpn)) (vpn_of s lpn) v)
    pub counts_other : (b : ℕ) → (get_num_bank lpn == b) ≡ false → t.vcounts b ≡ s.vcounts b
    pub nand_new :
        t.nand
        ≡ program s.nand
            (get_num_bank lpn)
            (new / pages_per_vblk * pages_per_vblk + new % pages_per_vblk)
            content
    pub bad_new : t.bad_blk ≡ s.bad_blk
    pub buffer_next : t.write_buf_id ≡ (s.write_buf_id + 1) % num_wr_buffers
    pub buffer_other : (i : ℕ) → (s.write_buf_id == i) ≡ false → t.wr_buf i ≡ s.wr_buf i

  module _ (s : Greedy State) (lpn sect_offset num_sectors new : ℕ) where
    abbrev bank : ℕ
    bank = get_num_bank lpn

    abbrev old : ℕ
    old = vpn_of s lpn

    abbrev counted : Greedy State
    counted = record s { page_wcount = update s.page_wcount bank (s.page_wcount bank + 1) }

    abbrev filled : Greedy State
    filled = fill_buffer hw counted bank old sect_offset num_sectors

    abbrev t : Greedy State
    t = write_to hw s lpn sect_offset num_sectors new

    -- What is programmed.
    abbrev pub content : Bytes
    content =
        if old == 0
        then (λ a.
            if within (sect_offset * bytes_per_sector) (num_sectors * bytes_per_sector) a
            then s.wr_buf s.write_buf_id a
            else 255)
        else (λ a.
            if within (0 * bytes_per_sector) (sectors_per_page * bytes_per_sector) a
            then filled.wr_buf s.write_buf_id a
            else 255)

    fill_rest : filled ≡ record counted { ftl_buf = filled.ftl_buf; wr_buf = filled.wr_buf }
    unfolding fill_buffer
    fill_rest = ground arith

    t_map : (l : ℕ) → vpn_of t l ≡ (if lpn == l then new else vpn_of s l)
    unfolding write_to ptprogram_from_host fill_buffer
    t_map l = ground arith

    t_misc : t.misc bank ≡ record (s.misc bank) {
      lpn_list = update (s.misc bank).lpn_list (new % pages_per_vblk) lpn;
    }
    unfolding write_to ptprogram_from_host fill_buffer
    t_misc = ground arith

    t_misc_other : (b : ℕ) → (bank == b) ≡ false → t.misc b ≡ s.misc b
    unfolding write_to ptprogram_from_host fill_buffer
    t_misc_other b h = ground arith

    t_count :
        (v : ℕ)
        → vcount_of t bank v ≡ (
            if new / pages_per_vblk == v
            then forgotten (s.vcounts bank) old (new / pages_per_vblk) + 1
            else forgotten (s.vcounts bank) old v)
    unfolding write_to ptprogram_from_host fill_buffer
    t_count v = ground arith

    t_counts_other : (b : ℕ) → (bank == b) ≡ false → t.vcounts b ≡ s.vcounts b
    unfolding write_to ptprogram_from_host fill_buffer
    t_counts_other b h = ground arith

    t_nand :
        t.nand
        ≡ program s.nand bank (new / pages_per_vblk * pages_per_vblk + new % pages_per_vblk) content
    unfolding write_to ptprogram_from_host
    t_nand = elim (Bool-cases (old == 0)) [
      | inl fresh ↦ rw (write_to, fresh) refl
      | inr had ↦ rw (write_to, had, fill_rest) refl
    ]

    t_bad : t.bad_blk ≡ s.bad_blk
    unfolding write_to ptprogram_from_host fill_buffer
    t_bad = ground arith

    t_buffer_next : t.write_buf_id ≡ (s.write_buf_id + 1) % num_wr_buffers
    unfolding write_to ptprogram_from_host fill_buffer
    t_buffer_next = ground arith

    t_buffer_other : (i : ℕ) → (s.write_buf_id == i) ≡ false → t.wr_buf i ≡ s.wr_buf i
    unfolding write_to ptprogram_from_host fill_buffer
    t_buffer_other i h = ground arith

    pub write_to-Commit : Commit s lpn new content t
    write_to-Commit = record {
      map_new = t_map;
      misc_new = t_misc;
      misc_other = t_misc_other;
      count_new = t_count;
      counts_other = t_counts_other;
      nand_new = t_nand;
      bad_new = t_bad;
      buffer_next = t_buffer_next;
      buffer_other = t_buffer_other;
    }
