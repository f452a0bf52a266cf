-- ===== src/Firmware/Greedy/Tests.antt =====
-- Examples for ftl_greedy/ftl.c: a bank whose one block has a valid page.
use issd.Base.{
  ℕ, zero, suc, ◌+◌, ◌-◌, ◌*◌, ◌/◌, ◌%◌, ◌<◌, ◌≤◌, ◌≡◌, ◌≢◌, refl, sym, ap, ◌∙◌, subst, false, ◌==◌,
  if◌then◌else◌, arith, some, ltb, Bool-cases, inl, inr, ==→≡,
}
use issd.Firmware.Layout.{bytes_per_sector, pages_per_vblk, num_lpages}
use issd.Firmware.Chips.{chips}
use issd.Firmware.Greedy.{
  Greedy, MemUtil, get_num_bank, vpn_of, vcount_of, list_bytes, vc_max, data_block,
}
use issd.Firmware.Greedy.Lists.{list_of-list_bytes, listed, with_list, listed-with_list}
use issd.Firmware.Greedy.Count.{count, count-cong}
use issd.Firmware.Greedy.Bank.{Closed, Ranged, Sound, Kept, Idle, owner, Counted, live_pages}
use issd.Firmware.Greedy.Gc.{garbage_collection, get_vt_vblock}
use issd.Firmware.Greedy.Write.{write_page}
use issd.Firmware.Greedy.Write.Written.{PageWritten, write_page-PageWritten}
use issd.Firmware.Greedy.Read.{Entries, HasRead, ftl_read, ftl_read-HasRead}
use issd.Firmware.Greedy.Gc.Collect.{garbage_collection-Kept}

-- The index of a least item.
arg_min : (ℕ → ℕ) → ℕ → ℕ
arg_min items zero = 0
arg_min items (suc n) = let m = arg_min items n in if ltb (items n) (items m) then n else m

arg_min-le : (items : ℕ → ℕ) (n : ℕ) → arg_min items n ≤ n
unfolding arg_min
arg_min-le items zero = omega arith
arg_min-le items (suc n) = let rest = arg_min-le items n in ground arith

arg_min-lt : (items : ℕ → ℕ) (n : ℕ) → 0 < n → arg_min items n < n
unfolding arg_min
arg_min-lt items zero h = absurd (omega arith)
arg_min-lt items (suc n) h = let rest = arg_min-le items n in ground arith

arg_min-least : (items : ℕ → ℕ) (n i : ℕ) → i < n → items (arg_min items n) ≤ items i
unfolding arg_min
arg_min-least items zero i h = absurd (omega arith)
arg_min-least items (suc n) i h = elim (Bool-cases (i == n)) [
  | inl last ↦ let e = ap items (==→≡ i n last) in ground arith
  | inr before ↦ let rest = arg_min-least items n i (ground arith) in ground arith
]

abbrev searcher : MemUtil
searcher = record {
  search_min = arg_min;
  search_min-lt = arg_min-lt;
  search_min-least = arg_min-least;
}

-- Block 41 of bank 3 is full; of its pages that of the logical page 11, page 5, is valid. Block 40 is free.
abbrev lpns : ℕ → ℕ
lpns p = if p == 5 then 11 else 3

abbrev full_bank : Greedy (ℕ → ℕ → ℕ → ℕ)
full_bank = record {
  nand = λ bank row.
      if row == 5375 then list_bytes lpns else (λ a. if row == 5253 then a % 7 else 255);
  ftl_buf = λ bank a. 0;
  wr_buf = λ i a. 0;
  rd_buf = λ i a. 0;
  misc =
      λ bank. record { cur_write_vpn = 5374; gc_vblock = 40; free_blk_cnt = 1; lpn_list = λ p. 0 };
  gc_cnt = λ bank. 0;
  page_wcount = λ bank. 0;
  page_map = λ l. if l == 11 then 5253 else 0;
  vcounts = λ bank v. if v == 41 then 1 else vc_max;
  bad_blk = λ bank v. v == 77;
  write_buf_id = 0;
  read_buf_id = 0;
}

at_41 : (v : ℕ) → Counted chips full_bank 3 v → v ≡ 41
at_41 v h = ground arith

only_page : (l : ℕ) → vpn_of full_bank l ≢ 0 → l ≡ 11
only_page l h = elim (Bool-cases (l == 11)) [
  | inl e ↦ ==→≡ l 11 e
  | inr other ↦ absurd (h (rw other refl))
]

lpns_in_word : (p : ℕ) → lpns p < 4294967296
lpns_in_word p = ground arith

lpns_of_bank : (p : ℕ) → get_num_bank (lpns p) ≡ 3
lpns_of_bank p = ground arith

listed_41 : (p : ℕ) → listed chips full_bank.nand 3 41 p ≡ lpns p
listed_41 p = list_of-list_bytes lpns p (lpns_in_word p)

full_bank-Sound : Sound chips full_bank 3
full_bank-Sound = record {
  gc_positive = omega arith;
  gc_count = refl;
  gc_blank = λ p b a.
      (let e : (5120 + p == 5375) ≡ false = ground arith in
        let e' : (5120 + p == 5253) ≡ false = ground arith in rw (e, e') refl);
  positive = λ v h. let e = at_41 v h in omega arith;
  in_word = λ l mine m. let e = only_page l m in omega arith;
  low = λ l mine m.
      subst (λ x. vpn_of full_bank x % pages_per_vblk < pages_per_vblk - 1) (sym (only_page l m))
        (omega arith);
  in_counted = λ l mine m.
      subst (λ x. Counted chips full_bank 3 (vpn_of full_bank x / pages_per_vblk))
        (sym (only_page l m)) refl;
}

live_41 :
    count (λ p. vpn_of full_bank (lpns p) == 41 * pages_per_vblk + p) 0 (pages_per_vblk - 1) ≡ 1
unfolding count
live_41 = refl

full_bank-Closed : Closed chips full_bank 3
full_bank-Closed = record {
  sound = full_bank-Sound;
  lists = record {
    owned = λ l mine m.
        subst
          (λ x.
            listed chips full_bank.nand 3 (vpn_of full_bank x / pages_per_vblk)
              (vpn_of full_bank x % pages_per_vblk)
            ≡ x)
          (sym (only_page l m)) (listed_41 5);
    below = full_bank-Sound.low;
    of_bank = λ v p h b.
        ap (λ x. get_num_bank (listed chips full_bank.nand 3 x p)) (at_41 v h)
        ∙ ap get_num_bank (listed_41 p)
        ∙ lpns_of_bank p;
    exact = λ v h.
        subst
          (λ x.
            vcount_of full_bank 3 x
            ≡ live_pages chips full_bank (listed chips full_bank.nand 3 x) x (pages_per_vblk - 1))
          (sym (at_41 v h))
          (sym (
            count-cong _ _ 0 (pages_per_vblk - 1)
              (λ p f b. ap (λ l. vpn_of full_bank l == 41 * pages_per_vblk + p) (listed_41 p))
            ∙ live_41));
  };
  free = refl;
}

lpns_inside : (p : ℕ) → lpns p < num_lpages
lpns_inside p = ground arith

full_bank-Ranged : Ranged chips full_bank 3 (listed chips full_bank.nand 3)
full_bank-Ranged = record {
  bank_lt = omega arith;
  gc_data = refl;
  gc_good = refl;
  in_data = λ v h. ap data_block (at_41 v h);
  good = λ v h. ap (full_bank.bad_blk 3) (at_41 v h);
  pages = λ v p h b.
      subst (λ x. listed chips full_bank.nand 3 x p < num_lpages) (sym (at_41 v h))
        (subst (λ l. l < num_lpages) (sym (listed_41 p)) (lpns_inside p));
}

garbage_collection-Kept_example :
    (t : Greedy (ℕ → ℕ → ℕ → ℕ)) × (garbage_collection chips searcher full_bank 3 ≡ some t)
    × Kept chips full_bank 3 (vcount_of full_bank 3 (get_vt_vblock chips searcher full_bank 3)) t
    × Ranged chips t 3 (owner chips t 3)
garbage_collection-Kept_example =
    garbage_collection-Kept chips searcher full_bank 3 41 full_bank-Closed full_bank-Ranged
      (omega arith) (omega arith)

-- The bank before its list is written: block 41 is the current one, and its last page is erased.
abbrev open_bank : Greedy (ℕ → ℕ → ℕ → ℕ)
open_bank = record full_bank {
  nand = λ bank row a. if row == 5253 then a % 7 else 255;
  misc = λ bank. record { cur_write_vpn = 5374; gc_vblock = 40; free_blk_cnt = 2; lpn_list = lpns };
}

erased : (row a : ℕ) → (row == 5253) ≡ false → open_bank.nand 3 row a ≡ 255
erased row a h = rw h refl

open_bank-Sound : Sound chips open_bank 3
open_bank-Sound =
    let full = full_bank-Sound in
    record {
      gc_positive = full.gc_positive;
      gc_count = full.gc_count;
      gc_blank = λ p b a. erased (5120 + p) a (ground arith);
      positive = full.positive;
      in_word = full.in_word;
      low = full.low;
      in_counted = full.in_counted;
    }

open_bank-Idle : Idle chips open_bank 3 127
open_bank-Idle = record {
  open_block = record {
    sound = open_bank-Sound;
    lists = record {
      owned = λ l mine m.
          subst
            (λ x.
              owner chips open_bank 3 (vpn_of open_bank x / pages_per_vblk)
                (vpn_of open_bank x % pages_per_vblk)
              ≡ x)
            (sym (only_page l m)) refl;
      below = λ l mine m.
          subst
            (λ x.
              vpn_of open_bank x % pages_per_vblk
              < (if vpn_of open_bank x / pages_per_vblk == 41 then 127 else pages_per_vblk - 1))
            (sym (only_page l m)) (omega arith);
      of_bank = λ v p h b.
          ap (λ x. get_num_bank (owner chips open_bank 3 x p)) (at_41 v h) ∙ lpns_of_bank p;
      exact = λ v h.
          subst
            (λ x.
              vcount_of open_bank 3 x
              ≡ live_pages chips open_bank (owner chips open_bank 3 x) x
                  (if x == 41 then 127 else pages_per_vblk - 1))
            (sym (at_41 v h)) (sym live_41);
    };
    cur_counted = refl;
    words = λ p b. lpns_in_word p;
    cur_blank = λ p f b a. erased (5248 + p) a (ground arith);
    free = refl;
  };
  at = refl;
  bound = omega arith;
}

open_bank-Ranged : Ranged chips open_bank 3 (owner chips open_bank 3)
open_bank-Ranged = record {
  bank_lt = omega arith;
  gc_data = refl;
  gc_good = refl;
  in_data = λ v h. ap data_block (at_41 v h);
  good = λ v h. ap (open_bank.bad_blk 3) (at_41 v h);
  pages = λ v p h b.
      subst (λ x. owner chips open_bank 3 x p < num_lpages) (sym (at_41 v h)) (lpns_inside p);
}

-- Five sectors of a page that has data, behind the last page of the block.
write_page-PageWritten_example :
    (t : Greedy (ℕ → ℕ → ℕ → ℕ)) × (write_page chips searcher open_bank 11 10 5 ≡ some t)
    × PageWritten chips open_bank 11 10 5 t
write_page-PageWritten_example =
    write_page-PageWritten chips searcher open_bank 11 10 5 127 41 open_bank-Idle open_bank-Ranged
      (omega arith) (omega arith) (omega arith) (omega arith) (omega arith) (omega arith)

listed-with_list_example :
    listed chips (with_list chips open_bank.nand 3 41 lpns (λ a. 0)) 3 41 5 ≡ 11
listed-with_list_example =
    listed-with_list chips open_bank.nand 3 41 lpns (λ a. 0) 5 (omega arith) (lpns_in_word 5)
      (λ a. erased 5375 a refl)

open_bank-Entries : Entries chips open_bank
open_bank-Entries l lt = ground arith

ftl_read-HasRead_example :
    HasRead chips open_bank
      (λ a. 0)
      0
      (60 * bytes_per_sector)
      (700 * bytes_per_sector)
      (ftl_read chips open_bank (λ a. 0) 60 700)
ftl_read-HasRead_example =
    ftl_read-HasRead chips open_bank (λ a. 0) 60 700 (omega arith) open_bank-Entries (omega arith)
