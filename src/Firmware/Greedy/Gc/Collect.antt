-- ===== src/Firmware/Greedy/Gc/Collect.antt =====
-- ftl_greedy/ftl.c: garbage_collection of a victim leaves the bank with an open block and every
-- logical page as it was.
use issd.Base.{
  ltb, lt→ltb, ==-refl, ℕ, ◌+◌, ◌-◌, ◌*◌, ◌/◌, ◌%◌, ◌<◌, ◌≤◌, ◌≡◌, ◌≢◌, refl, sym, ap, ◌∙◌, subst,
  Bool, true, ◌&&◌, ◌==◌, if◌then◌else◌, arith, not-==→≢, ne→not-==, update-same, update-other,
  some, none,
}
use issd.Firmware.Layout.{pages_per_vblk, vblks_per_bank, num_lpages}
use issd.Firmware.Nand.{Nand}
use issd.Firmware.Greedy.{Misc, Greedy, MemUtil, get_num_bank, vpn_of, vcount_of}
use issd.Firmware.Greedy.Lists.{listed}
use issd.Firmware.Greedy.Bank.{owner, Closed, Ranged, Kept, cur_vblock}
use issd.Firmware.Greedy.Gc.{
  blocks_asserted, pages_asserted, copy_valid, reclaim, collect, get_vt_vblock, garbage_collection,
}
use issd.Firmware.Greedy.Gc.Asserted.{victim_listed, victim_busy, entry_victim, blocks, pages}
use issd.Firmware.Greedy.Gc.Ranges.{copy_valid-Inside, reclaim-Ranged}
use issd.Firmware.Greedy.Gc.Copying.{Copying, is_valid}
use issd.Firmware.Greedy.Count.{count-cong}
use issd.Firmware.Greedy.Gc.Count.{valid_pages}
use issd.Firmware.Greedy.Gc.Confined.{Confined, Confined-trans}
use issd.Firmware.Greedy.Gc.Swept.{Swept, misc_t}
use issd.Firmware.Greedy.Gc.Reopen.{
  reclaim-Open, reclaim-stored, reclaim-mapped, reclaim-buffers, reclaim-Elsewhere,
}
use issd.Firmware.Greedy.Gc.Loop.{Copied, copy_valid-Copied}

module _ (hw : Nand) where
  pub get_vt_vblock-least :
      (mu : MemUtil) (s : Greedy hw.State) (bank v : ℕ)
      → v < vblks_per_bank
      → vcount_of s bank (get_vt_vblock hw mu s bank) ≤ vcount_of s bank v
  unfolding get_vt_vblock
  get_vt_vblock-least mu s bank v b = mu.search_min-least (s.vcounts bank) vblks_per_bank v b

module _ (hw : Nand) where
  open hw use {State, page, Blank, erase, Blank-erase, page-erase_ne, Blank-erase_ne}

  module _ (s : Greedy State) (bank vt : ℕ) (c : Closed hw s bank)
      (small : vcount_of s bank vt < pages_per_vblk - 2) where
    abbrev gc : ℕ
    gc = (s.misc bank).gc_vblock

    abbrev with_victim : Greedy State
    with_victim = victim_listed hw s bank vt

    begin : Copying hw with_victim bank vt gc 0 0
    begin =
        let sound = c.sound in
        record {
          apart = ne→not-== gc vt (λ e.
              let v = (victim_busy hw s bank vt c small) in
              let g = sound.gc_count in not-==→≢ _ _ v (ap (vcount_of s bank) (sym e) ∙ g));
          fits = omega arith;
          blank = λ p f b. sound.gc_blank p b;
          own = λ p f b.
              ap get_num_bank (entry_victim hw s bank vt p (omega arith))
              ∙ c.lists.of_bank vt p (victim_busy hw s bank vt c small) b;
          live = λ p f. absurd (omega arith);
          copied = λ l mine at.
              let pos = sound.gc_positive in
              absurd (
                not-==→≢ _ _ (sound.in_counted l mine (λ z. absurd (omega arith)))
                  (ap (vcount_of s bank) at ∙ sound.gc_count));
          waiting = λ l mine at.
              let pos = sound.positive vt (victim_busy hw s bank vt c small) in
              let mapped : vpn_of s l ≢ 0 = λ z. absurd (omega arith) in
              (
                omega arith,
                sound.low l mine mapped,
                entry_victim hw s bank vt (vpn_of s l % pages_per_vblk) (omega arith)
                    ∙ ap (λ v. listed hw s.nand bank v (vpn_of s l % pages_per_vblk)) (sym at)
                    ∙ c.lists.owned l mine mapped,
              );
        }

    copied :
        Copied hw with_victim bank vt gc 0 0
          (pages_per_vblk - 1)
          (copy_valid hw (pages_per_vblk - 1) with_victim bank vt 0 (gc * pages_per_vblk))
    copied =
        subst
          (λ f.
            Copied hw with_victim bank vt gc 0 0 (pages_per_vblk - 1)
              (copy_valid hw (pages_per_vblk - 1) with_victim bank vt 0 f))
          (omega arith)
          (copy_valid-Copied hw (pages_per_vblk - 1) with_victim bank vt gc 0 0 (omega arith) begin)

    valid_pages-count :
        0 + valid_pages hw with_victim bank vt 0 (pages_per_vblk - 1) ≡ vcount_of s bank vt
    valid_pages-count =
        let e =
          count-cong (is_valid hw with_victim bank vt)
            (λ p. vpn_of s (listed hw s.nand bank vt p) == vt * pages_per_vblk + p) 0
            (pages_per_vblk - 1)
            (λ p f b.
              ap (λ l. vpn_of s l == vt * pages_per_vblk + p)
                (entry_victim hw s bank vt p (omega arith))) in
        let exact = c.lists.exact vt (victim_busy hw s bank vt c small) in omega arith

    -- The number of pages that are copied, and the state after the loop.
    abbrev k : ℕ
    k = vcount_of s bank vt

    abbrev u : Greedy State
    u = (copy_valid hw (pages_per_vblk - 1) with_victim bank vt 0 (gc * pages_per_vblk)).1

    victim_unchanged : Confined hw s bank vt gc with_victim
    victim_unchanged = record {
      map_of_others = λ l o. refl;
      page_of_others = λ b r a o. refl;
      blank_of_others = λ b r o e. e;
      misc_of_others = λ b o. update-other s.misc bank _ b o;
      misc_of_bank =
          update-same s.misc bank _
          ∙ ap {A = Misc} (λ m. record (s.misc bank) { lpn_list = m.lpn_list })
              (sym (update-same s.misc bank _));
      counts = refl;
      buffers = (refl, refl);
    }

    swept : Swept hw s u bank vt k
    swept = record {
      closed = c;
      victim = (victim_busy hw s bank vt c small);
      small = small;
      copies =
          subst (Copying hw u bank vt gc (pages_per_vblk - 1)) valid_pages-count copied.copying;
      confined = Confined-trans hw s with_victim u bank vt gc victim_unchanged copied.confined;
      moved = λ l mine at. copied.moved l mine at refl;
    }

    end :
        (copy_valid hw (pages_per_vblk - 1) with_victim bank vt 0 (gc * pages_per_vblk)).0
        ≡ gc * pages_per_vblk + k
    end = copied.end ∙ ap (λ n. gc * pages_per_vblk + n) valid_pages-count

    as_counted :
        (free : ℕ) (asserted : Bool)
        → asserted ≡ true
        → free ≡ gc * pages_per_vblk + k
        → (asserted
            && ltb (free % pages_per_vblk) (pages_per_vblk - 2)
            && free % pages_per_vblk == k)
          ≡ true
    as_counted free asserted a e =
        let off : free % pages_per_vblk ≡ k = omega arith in
        rw (a, off, lt→ltb k (pages_per_vblk - 2) small, ==-refl k) refl

    -- `collect` returns, with the state that `reclaim` leaves.
    collect-runs :
        Ranged hw s bank (listed hw s.nand bank)
        → collect hw s bank vt ≡ some (reclaim hw u bank vt gc k (gc * pages_per_vblk + k))
    unfolding collect
    collect-runs ranged =
        let asserted : (blocks_asserted hw s bank vt
              && pages_asserted hw (pages_per_vblk - 1) with_victim bank 0)
            ≡ true =
          rw
            (
              blocks hw s bank vt c small ranged,
              pages hw s bank vt c small ranged (pages_per_vblk - 1) 0 (omega arith),
            )
            refl in
        ap {A = Bool}
          (λ b.
            if b
            then some (
                reclaim hw u bank vt gc k
                  (copy_valid hw (pages_per_vblk - 1) with_victim bank vt 0
                    (gc * pages_per_vblk)).0)
            else none)
          (as_counted _ _ asserted end)
        ∙ ap (λ f. some (reclaim hw u bank vt gc k f)) end

    cur_now :
        (let t = reclaim hw u bank vt gc k (gc * pages_per_vblk + k) in
          (t.misc bank).cur_write_vpn ≡ cur_vblock hw t bank * pages_per_vblk + k)
    cur_now =
        let e = ap (λ m. m.cur_write_vpn) (misc_t hw swept) in
        let e' : (gc * pages_per_vblk + k) / pages_per_vblk ≡ gc = omega arith in
        e ∙ ap (λ v. v * pages_per_vblk + k) (sym (ap (λ v. v / pages_per_vblk) e ∙ e'))

    reclaimed-Kept : Kept hw s bank k (reclaim hw u bank vt gc k (gc * pages_per_vblk + k))
    reclaimed-Kept = record {
      open_block = reclaim-Open hw swept;
      at = cur_now;
      same = λ l a b. reclaim-stored hw swept l a ∙ copied.same l a b;
      mapped = reclaim-mapped hw swept;
      elsewhere = reclaim-Elsewhere hw swept;
      buffers = reclaim-buffers hw swept;
    }

    reclaimed-Ranged :
        Ranged hw s bank (listed hw s.nand bank)
        → (let t = reclaim hw u bank vt gc k (gc * pages_per_vblk + k) in
            Ranged hw t bank (owner hw t bank))
    reclaimed-Ranged ranged =
        let (inside, kept) =
          copy_valid-Inside hw (pages_per_vblk - 1) with_victim bank vt 0 (gc * pages_per_vblk)
            (omega arith)
            (λ p less.
              subst (λ l. l < num_lpages) (sym (entry_victim hw s bank vt p (omega arith)))
                (ranged.pages vt p (victim_busy hw s bank vt c small) less)) in
        reclaim-Ranged hw swept ranged inside kept

  -- In a bank whose blocks are full but for the one that is free, with lists and counts that are right,
  -- with blocks and logical pages that the ASSERTs accept, and a block with less than 126 valid pages by
  -- its count, `garbage_collection` returns, with no failed ASSERT. The current
  -- block is then the one that was free, with as many pages as the victim's count, the bank has one
  -- more free block, its lists and counts are right again, every logical page of the device has its content,
  -- the ASSERTs accept its blocks and logical pages again, and the other banks and the SATA write buffers are as they were.
  pub garbage_collection-Kept :
      (mu : MemUtil) (s : Greedy State) (bank v : ℕ)
      → Closed hw s bank
      → Ranged hw s bank (listed hw s.nand bank)
      → v < vblks_per_bank
      → vcount_of s bank v < pages_per_vblk - 2
      → (t : Greedy State) × (garbage_collection hw mu s bank ≡ some t)
        × Kept hw s bank (vcount_of s bank (get_vt_vblock hw mu s bank)) t
        × Ranged hw t bank (owner hw t bank)
  unfolding garbage_collection
  garbage_collection-Kept mu s bank v c ranged b h =
      let vt = get_vt_vblock hw mu s bank in
      let least = get_vt_vblock-least hw mu s bank v b in
      let small : vcount_of s bank vt < pages_per_vblk - 2 = omega arith in
      (
        _,
        collect-runs s bank vt c small ranged,
        reclaimed-Kept s bank vt c small,
        reclaimed-Ranged s bank vt c small ranged,
      )
