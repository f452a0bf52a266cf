-- ===== src/Firmware/Greedy/Bank.antt =====
-- ftl_greedy/ftl.c: what holds of a bank, with its current block open, and with that block full.
use issd.Base.{
  ℕ, ◌+◌, ◌-◌, ◌*◌, ◌/◌, ◌%◌, ◌<◌, ◌≤◌, ◌≡◌, ◌≢◌, ◌∙◌, true, false, ◌==◌, if◌then◌else◌, u32,
}
use issd.Firmware.Layout.{bytes_per_page, pages_per_vblk, num_banks, num_lpages}
use issd.Firmware.Nand.{Nand}
use issd.Firmware.Greedy.{Greedy, get_num_bank, vpn_of, vcount_of, vc_max, data_block}
use issd.Firmware.Greedy.Lists.{listed}
use issd.Firmware.Greedy.Count.{count}

module _ (hw : Nand) where
  open hw use {State, page, Blank}

  -- A block that has data or is to take some: it is no bad block, not of the metadata, and not the free
  -- block of the collection.
  abbrev pub Counted : Greedy State → ℕ → ℕ → Type 0
  Counted s bank vblock = (vcount_of s bank vblock == vc_max) ≡ false

  -- What `owner` says of the block `vblock` is true of the map: the first `n` of its entries.
  abbrev pub live_pages : Greedy State → (ℕ → ℕ) → ℕ → ℕ → ℕ
  live_pages s owner vblock n = count (λ p. vpn_of s (owner p) == vblock * pages_per_vblk + p) 0 n

  -- What holds whether or not the current block is full. The block of the collection is erased; a
  -- logical page lies in a page of a counted block before its last; no counted block is the first.
  pub record Sound (s : Greedy State) (bank : ℕ) : Type 0 where
    pub gc_positive : 0 < (s.misc bank).gc_vblock
    pub gc_count : vcount_of s bank (s.misc bank).gc_vblock ≡ vc_max
    pub gc_blank :
        (p : ℕ)
        → p < pages_per_vblk
        → Blank s.nand bank ((s.misc bank).gc_vblock * pages_per_vblk + p)
    pub positive : (v : ℕ) → Counted s bank v → 0 < v
    pub in_word : (l : ℕ) → get_num_bank l ≡ bank → vpn_of s l ≢ 0 → l < u32
    pub low :
        (l : ℕ)
        → get_num_bank l ≡ bank
        → vpn_of s l ≢ 0
        → vpn_of s l % pages_per_vblk < pages_per_vblk - 1
    pub in_counted :
        (l : ℕ)
        → get_num_bank l ≡ bank
        → vpn_of s l ≢ 0
        → Counted s bank (vpn_of s l / pages_per_vblk)

  -- The lists of the first `bound v` entries of every counted block `v`: `owner v` has every logical
  -- page at its place, only pages of the bank, and as many pages that are valid as are counted.
  pub record Tracked (s : Greedy State) (bank : ℕ) (owner : ℕ → ℕ → ℕ) (bound : ℕ → ℕ)
      : Type 0 where
    pub owned :
        (l : ℕ)
        → get_num_bank l ≡ bank
        → vpn_of s l ≢ 0
        → owner (vpn_of s l / pages_per_vblk) (vpn_of s l % pages_per_vblk) ≡ l
    pub below :
        (l : ℕ)
        → get_num_bank l ≡ bank
        → vpn_of s l ≢ 0
        → vpn_of s l % pages_per_vblk < bound (vpn_of s l / pages_per_vblk)
    pub of_bank : (v p : ℕ) → Counted s bank v → p < bound v → get_num_bank (owner v p) ≡ bank
    pub exact : (v : ℕ) → Counted s bank v → vcount_of s bank v ≡ live_pages s (owner v) v (bound v)

  -- The numbers of the bank are those that the ASSERTs accept: the counted blocks and the free one are good
  -- blocks of data, and the entries of the lists are logical pages.
  pub record Ranged (s : Greedy State) (bank : ℕ) (owner : ℕ → ℕ → ℕ) : Type 0 where
    pub bank_lt : bank < num_banks
    pub gc_data : data_block (s.misc bank).gc_vblock ≡ true
    pub gc_good : s.bad_blk bank (s.misc bank).gc_vblock ≡ false
    pub in_data : (v : ℕ) → Counted s bank v → data_block v ≡ true
    pub good : (v : ℕ) → Counted s bank v → s.bad_blk bank v ≡ false
    pub pages : (v p : ℕ) → Counted s bank v → p < pages_per_vblk - 1 → owner v p < num_lpages

  -- Every counted block has its list in its last page, and one more block is free.
  pub record Closed (s : Greedy State) (bank : ℕ) : Type 0 where
    pub sound : Sound s bank
    pub lists : Tracked s bank (listed hw s.nand bank) (λ v. pages_per_vblk - 1)
    pub free : (s.misc bank).free_blk_cnt ≡ 1

  abbrev pub cur_vblock : Greedy State → ℕ → ℕ
  cur_vblock s bank = (s.misc bank).cur_write_vpn / pages_per_vblk

  -- The list of the current block is in `misc`, and those of the others in their last pages.
  abbrev pub owner : Greedy State → ℕ → ℕ → ℕ → ℕ
  owner s bank v p =
      if v == cur_vblock s bank then (s.misc bank).lpn_list p else listed hw s.nand bank v p

  -- The first `n` pages of the current block are programmed, the rest is erased.
  pub record Open (s : Greedy State) (bank n : ℕ) : Type 0 where
    pub sound : Sound s bank
    pub lists :
        Tracked s bank
          (owner s bank)
          (λ v. if v == cur_vblock s bank then n else pages_per_vblk - 1)
    pub cur_counted : Counted s bank (cur_vblock s bank)
    pub words : (p : ℕ) → p < n → (s.misc bank).lpn_list p < u32
    pub cur_blank :
        (p : ℕ)
        → n ≤ p
        → p < pages_per_vblk
        → Blank s.nand bank (cur_vblock s bank * pages_per_vblk + p)
    pub free : (s.misc bank).free_blk_cnt ≡ 2

  -- A byte of a logical page, from where the map says.
  abbrev pub stored : Greedy State → ℕ → ℕ → ℕ
  stored s l a = page s.nand (get_num_bank l) (vpn_of s l) a

  -- A byte of a logical page as the host reads it: `ftl_read` sends 0xFF for a page without data.
  abbrev pub logical : Greedy State → ℕ → ℕ → ℕ
  logical s l a = if vpn_of s l == 0 then 255 else stored s l a

  -- What is of the other banks is as it was.
  pub record Elsewhere (s : Greedy State) (bank : ℕ) (t : Greedy State) : Type 0 where
    pub map_of : (l : ℕ) → (get_num_bank l == bank) ≡ false → vpn_of t l ≡ vpn_of s l
    pub page_of :
        (bank' row a : ℕ)
        → (bank' == bank) ≡ false
        → page t.nand bank' row a ≡ page s.nand bank' row a
    pub blank_of :
        (bank' row : ℕ) → (bank' == bank) ≡ false → Blank s.nand bank' row → Blank t.nand bank' row
    pub misc_of : (bank' : ℕ) → (bank == bank') ≡ false → t.misc bank' ≡ s.misc bank'
    pub counts_of : (bank' : ℕ) → (bank == bank') ≡ false → t.vcounts bank' ≡ s.vcounts bank'

  pub Elsewhere-trans :
      (s t u : Greedy State) (bank : ℕ)
      → Elsewhere s bank t
      → Elsewhere t bank u
      → Elsewhere s bank u
  Elsewhere-trans s t u bank e f = record {
    map_of = λ l o. f.map_of l o ∙ e.map_of l o;
    page_of = λ b r a o. f.page_of b r a o ∙ e.page_of b r a o;
    blank_of = λ b r o h. f.blank_of b r o (e.blank_of b r o h);
    misc_of = λ b o. f.misc_of b o ∙ e.misc_of b o;
    counts_of = λ b o. f.counts_of b o ∙ e.counts_of b o;
  }

  -- The bank has an open block with `n` pages, and no logical page has changed.
  pub record Kept (s : Greedy State) (bank n : ℕ) (t : Greedy State) : Type 0 where
    pub open_block : Open t bank n
    pub at : (t.misc bank).cur_write_vpn ≡ cur_vblock t bank * pages_per_vblk + n
    pub same : (l a : ℕ) → a < bytes_per_page → stored t l a ≡ stored s l a
    pub mapped : (l : ℕ) → (vpn_of t l == 0) ≡ (vpn_of s l == 0)
    pub elsewhere : Elsewhere s bank t
    pub buffers : (t.wr_buf ≡ s.wr_buf) × (t.write_buf_id ≡ s.write_buf_id)

  -- Between two writes: the last page that was written is that before the `n`-th.
  pub record Idle (s : Greedy State) (bank n : ℕ) : Type 0 where
    pub open_block : Open s bank n
    pub at : (s.misc bank).cur_write_vpn + 1 ≡ cur_vblock s bank * pages_per_vblk + n
    pub bound : n < pages_per_vblk
