-- ===== src/Firmware/Greedy/Write/Written.antt =====
-- ftl_greedy/ftl.c (write_page): the logical page after a write, and every other one.
use issd.Base.{
  within, some, u32, ℕ, ◌+◌, ◌-◌, ◌*◌, ◌%◌, ◌<◌, ◌≤◌, ◌≡◌, refl, sym, ap, ◌∙◌, subst, true, false,
  ◌==◌, Bytes, if◌then◌else◌, arith, not-==→≢, ne→not-==,
}
use issd.Firmware.Layout.{
  bytes_per_sector, sectors_per_page, bytes_per_page, pages_per_vblk, vblks_per_bank, num_lpages,
}
use issd.Firmware.Greedy.Buffers.{num_wr_buffers}
use issd.Firmware.Nand.{Nand}
use issd.Firmware.Greedy.{Greedy, MemUtil, get_num_bank, vpn_of, vcount_of}
use issd.Firmware.Greedy.Bank.{
  Elsewhere, Elsewhere-trans, Kept, Ranged, owner, stored, logical, Idle, cur_vblock,
}
use issd.Firmware.Greedy.Write.Commit.{Commit, content, write_to-Commit}
use issd.Firmware.Greedy.Write.Assign.{assign_new_write_vpn-Assigned}
use issd.Firmware.Greedy.Write.{write_to, write_page, request_asserted, vpns_asserted}
use issd.Firmware.Greedy.Write.Step.{Step, map_here, map_there}
use issd.Firmware.Greedy.Write.Entries.{row_t}
use issd.Firmware.Greedy.Write.Opened.{step-Idle}
use issd.Firmware.Greedy.Write.Asserted.{new_positive, new_unused, asserted, step-Ranged}
use issd.Firmware.Greedy.Write.Content.{content-at}
use issd.Firmware.Greedy.Others.{others-Idle}

module _ (hw : Nand) where
  open hw use {State, page, Blank, program, page-program, page-program_ne, Blank-program_ne}

  -- A write of `num` sectors from the write buffer to the logical page `lpn` from the sector `off` on.
  pub record PageWritten (s : Greedy State) (lpn off num : ℕ) (t : Greedy State) : Type 0 where
    pub pages : ℕ
    pub idle : Idle hw t (get_num_bank lpn) pages
    pub ranged : Ranged hw t (get_num_bank lpn) (owner hw t (get_num_bank lpn))
    pub new :
        (a : ℕ)
        → a < bytes_per_page
        → logical hw t lpn a ≡ (
            if within (off * bytes_per_sector) (num * bytes_per_sector) a
            then s.wr_buf s.write_buf_id a
            else logical hw s lpn a)
    pub old :
        (l a : ℕ) → (lpn == l) ≡ false → a < bytes_per_page → logical hw t l a ≡ logical hw s l a
    pub others : (b n : ℕ) → (get_num_bank lpn == b) ≡ false → Idle hw s b n → Idle hw t b n
    pub buffer_next : t.write_buf_id ≡ (s.write_buf_id + 1) % num_wr_buffers
    pub buffer_other : (i : ℕ) → (s.write_buf_id == i) ≡ false → t.wr_buf i ≡ s.wr_buf i

  module _ {s : Greedy State} {lpn k : ℕ} {content : Bytes} {t : Greedy State}
      (r : Step hw s lpn k content t) where
    abbrev bank : ℕ
    bank = get_num_bank lpn

    abbrev cur : ℕ
    cur = cur_vblock hw s bank

    abbrev new : ℕ
    new = cur * pages_per_vblk + k

    abbrev old : ℕ
    old = vpn_of s lpn

    logical_new : (a : ℕ) → a < bytes_per_page → logical hw t lpn a ≡ content a
    logical_new a b =
        let pos = new_positive hw r in
        let e : (vpn_of t lpn == 0) ≡ false =
          ap (λ v. v == 0) (map_here hw r) ∙ ne→not-== new 0 (λ z. absurd (omega arith)) in
        ap (λ c. if c then 255 else stored hw t lpn a) e
        ∙ ap (λ v. page t.nand bank v a) (map_here hw r)
        ∙ ap (λ n. page n bank new a) (row_t hw r)
        ∙ page-program s.nand bank new content a
            (r.open_block.cur_blank k (omega arith) (let small = r.small in omega arith)) b

    logical_old : (l a : ℕ) → (lpn == l) ≡ false → logical hw t l a ≡ logical hw s l a
    logical_old l a other =
        let m = map_there hw r l other in
        ap (λ v. if v == 0 then 255 else page t.nand (get_num_bank l) v a) m
        ∙ ap (λ x. if vpn_of s l == 0 then 255 else x)
            (ap (λ n. page n (get_num_bank l) (vpn_of s l) a) (row_t hw r)
              ∙ page-program_ne s.nand bank new content (get_num_bank l) (vpn_of s l) a
                  (new_unused hw r l))

    step-Elsewhere : Elsewhere hw s bank t
    step-Elsewhere = record {
      map_of =
          λ l o. map_there hw r l (ne→not-== _ _ (λ e. not-==→≢ _ _ o (ap get_num_bank (sym e))));
      page_of = λ b row a o.
          ap (λ n. page n b row a) (row_t hw r)
          ∙ page-program_ne s.nand bank new content b row a (rw o refl);
      blank_of = λ b row o e.
          subst (λ n. Blank n b row) (sym (row_t hw r))
            (Blank-program_ne s.nand bank new content b row (rw o refl) e);
      misc_of = r.commit.misc_other;
      counts_of = r.commit.counts_other;
    }

  Kept-logical :
      (s u : Greedy State) (b k l a : ℕ)
      → Kept hw s b k u
      → a < bytes_per_page
      → logical hw u l a ≡ logical hw s l a
  Kept-logical s u b k l a h less =
      ap (λ c. if c then 255 else stored hw u l a) (h.mapped l)
      ∙ ap (λ x. if vpn_of s l == 0 then 255 else x) (h.same l a less)

  module _ (s u : Greedy State) (lpn off num k : ℕ) (kept : Kept hw s (get_num_bank lpn) k u)
      (small : k < pages_per_vblk - 1) (word : lpn < u32)
      (fits : off + num ≤ sectors_per_page) where
    abbrev vpn : ℕ
    vpn = (u.misc (get_num_bank lpn)).cur_write_vpn

    abbrev after : Greedy State
    after = write_to hw u lpn off num vpn

    step : Step hw u lpn k (content hw u lpn off num vpn) after
    step = record {
      open_block = kept.open_block;
      small = small;
      word = word;
      commit =
          subst (λ x. Commit hw u lpn x (content hw u lpn off num vpn) after) kept.at
            (write_to-Commit hw u lpn off num vpn);
    }

    -- The page as it was before the collection, with the sectors of the host.
    merged :
        (a : ℕ)
        → a < bytes_per_page
        → content hw u lpn off num vpn a ≡ (
            if within (off * bytes_per_sector) (num * bytes_per_sector) a
            then s.wr_buf s.write_buf_id a
            else logical hw s lpn a)
    merged a b =
        let inside = within (off * bytes_per_sector) (num * bytes_per_sector) a in
        content-at hw u lpn off num vpn a fits b
        ∙ ap (λ (f : ℕ → Bytes). if inside then f u.write_buf_id a else logical hw u lpn a)
            kept.buffers.0
        ∙ ap (λ i. if inside then s.wr_buf i a else logical hw u lpn a) kept.buffers.1
        ∙ ap (λ x. if inside then s.wr_buf s.write_buf_id a else x)
            (Kept-logical s u (get_num_bank lpn) k lpn a kept b)

    write_to-PageWritten :
        lpn < num_lpages
        → Ranged hw u (get_num_bank lpn) (owner hw u (get_num_bank lpn))
        → PageWritten s lpn off num after
    write_to-PageWritten page ranged_u = record {
      pages = k + 1;
      idle = step-Idle hw step kept.at;
      ranged = step-Ranged hw step page ranged_u;
      new = λ a b. logical_new step a b ∙ merged a b;
      old = λ l a o b. logical_old step l a o ∙ Kept-logical s u (get_num_bank lpn) k l a kept b;
      others = λ b n o i.
          others-Idle hw s after (get_num_bank lpn) b
            (Elsewhere-trans hw s u after (get_num_bank lpn) kept.elsewhere (step-Elsewhere step)) o
            n i;
      buffer_next = step.commit.buffer_next ∙ ap (λ i. (i + 1) % num_wr_buffers) kept.buffers.1;
      buffer_other = λ i o.
          step.commit.buffer_other i (ap (λ j. j == i) kept.buffers.1 ∙ o)
          ∙ ap (λ f. f i) kept.buffers.0;
    }

  -- When a bank is between two writes, its blocks have all been used, the lists and counts of its
  -- blocks are right, its blocks and the logical pages of its lists are such that the ASSERTs accept them,
  -- and a block has less than 126 valid pages by its count, `write_page` of one sector at least of one page of the
  -- device, from a write buffer, returns, with no failed ASSERT, whether or not it has to collect. The
  -- logical page then reads as the sectors that the host sent, and as before elsewhere, with 0xFF for
  -- what was never written; every other logical page reads as before; the lists and counts of the
  -- bank are right again, the ASSERTs accept it again, and its pages are in order; the lists, counts and
  -- pages of any other bank are in order where they were; the next write buffer is current and the others are as they were.
  pub write_page-PageWritten :
      (mu : MemUtil) (s : Greedy State) (lpn off num n v : ℕ)
      → Idle hw s (get_num_bank lpn) n
      → Ranged hw s (get_num_bank lpn) (owner hw s (get_num_bank lpn))
      → lpn < num_lpages
      → 0 < num
      → off + num ≤ sectors_per_page
      → s.write_buf_id < num_wr_buffers
      → v < vblks_per_bank
      → vcount_of s (get_num_bank lpn) v < pages_per_vblk - 2
      → (t : Greedy State) × (write_page hw mu s lpn off num ≡ some t) × PageWritten s lpn off num t
  unfolding write_page
  write_page-PageWritten mu s lpn off num n v i ranged page some_sectors fits id b room =
      let (u, k, run, small, kept, ranged_u) =
        assign_new_write_vpn-Assigned hw mu s (get_num_bank lpn) n v i ranged b room in
      let word : lpn < u32 = omega arith in
      let request : request_asserted hw lpn off num ≡ true = ground arith in
      let vpns : vpns_asserted hw u lpn (u.misc (get_num_bank lpn)).cur_write_vpn ≡ true =
        ap (vpns_asserted hw u lpn) kept.at
        ∙ asserted hw (step s u lpn off num k kept small word fits) ranged_u.in_data in
      (
        after s u lpn off num k kept small word fits,
        (rw (write_page, request, run, vpns) refl),
        write_to-PageWritten s u lpn off num k kept small word fits page ranged_u,
      )
