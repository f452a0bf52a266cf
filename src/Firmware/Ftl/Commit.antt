-- ===== src/Firmware/Ftl/Commit.antt =====
-- ftl.c (issd_write_sectors, ftl_write): programming a vacant page keeps the state valid and the other pages.
use issd.Base.{
  ==→≡, ap₂, ℕ, ◌+◌, ◌*◌, ◌/◌, ◌%◌, ◌≤◌, ◌<◌, ◌≡◌, ◌≢◌, ◌∙◌, subst, false, ◌&&◌, update, Bytes,
  ◌==◌, arith, Bool-cases, inl, inr,
}
use issd.Firmware.Layout.{bytes_per_page, pages_per_bank, pages_per_vblk}
use issd.Firmware.Nand.{Nand}
use issd.Firmware.ScanList.{is_bad_block}
use issd.Firmware.Ftl.{Ftl}
use issd.Firmware.Ftl.Page.{stored_at}
use issd.Firmware.Ftl.Round.{IsValid, committed}
use issd.Firmware.Ftl.Alloc.{RowReady}

module _ (hw : Nand) where
  open hw use {State, page, Blank, program, page-program, page-program_ne, Blank-program_ne}

  -- A place where `get_free_page` may put a page.
  pub record Vacant (s : Ftl State) (row : ℕ) : Type 0 where
    pub behind : s.target_row s.target_bank ≤ row
    pub inside : row < pages_per_bank
    pub good : is_bad_block (s.scan_list s.target_bank) (row / pages_per_vblk) ≡ false

  module _ (s : Ftl State) (l row : ℕ) (content dram : Bytes) (v : IsValid hw s)
      (f : Vacant s row) where
    pub row-positive : 0 < row
    row-positive = ground (arith, (v.ready s.target_bank).0, f.behind)

    below_bank :
        (phys : ℕ)
        → phys / pages_per_bank ≡ s.target_bank
        → phys % pages_per_bank < s.target_row (phys / pages_per_bank)
        → phys % pages_per_bank < s.target_row s.target_bank
    below_bank phys e = subst (λ b. phys % pages_per_bank < s.target_row b) e

    -- No mapped page stands there.
    vacant :
        (m : ℕ)
        → s.page_map m ≢ 0
        → (s.page_map m / pages_per_bank == s.target_bank && s.page_map m % pages_per_bank == row)
          ≡ false
    vacant m h = elim (Bool-cases (s.page_map m / pages_per_bank == s.target_bank)) [
      | inl same ↦
          let low = below_bank (s.page_map m) (ground arith) (v.mapped m h) in
          let le = f.behind in ground arith
      | inr other ↦ ground arith
    ]

    ready_behind : RowReady (s.scan_list s.target_bank) (row + 1)
    ready_behind =
        let pos = (v.ready s.target_bank).0 in
        let le = f.behind in
        (
          omega arith,
          elim (Bool-cases ((row + 1) % pages_per_vblk == 0)) [
            | inl at_start ↦ inl (ground arith)
            | inr inside ↦
                let same_block : (row + 1) / pages_per_vblk ≡ row / pages_per_vblk = ground arith in
                inr (rw same_block f.good)
          ],
        )

    next_ready :
        (b : ℕ) → RowReady (s.scan_list b) ((update s.target_row s.target_bank (row + 1)) b)
    next_ready b = elim (Bool-cases (s.target_bank == b)) [
      | inl same ↦
          rw same (
            subst (λ c. RowReady (s.scan_list c) (row + 1)) (==→≡ s.target_bank b same)
              ready_behind)
      | inr other ↦ rw other (v.ready b)
    ]

    below_next :
        (phys : ℕ)
        → phys % pages_per_bank < s.target_row (phys / pages_per_bank)
        → phys % pages_per_bank
          < update s.target_row s.target_bank (row + 1) (phys / pages_per_bank)
    below_next phys h = elim (Bool-cases (s.target_bank == phys / pages_per_bank)) [
      | inl same ↦
          let low = below_bank phys (ground arith) h in let le = f.behind in rw same (omega arith)
      | inr other ↦ rw other h
    ]

    new_below_next :
        (phys : ℕ)
        → phys / pages_per_bank ≡ s.target_bank
        → phys % pages_per_bank ≡ row
        → phys % pages_per_bank
          < update s.target_row s.target_bank (row + 1) (phys / pages_per_bank)
    new_below_next phys b r = ground arith

    behind_next :
        (b r : ℕ)
        → update s.target_row s.target_bank (row + 1) b ≤ r
        → (s.target_row b ≤ r) × ((b == s.target_bank && r == row) ≡ false)
    behind_next b r h = elim (Bool-cases (s.target_bank == b)) [
      | inl same ↦
          let h' : row + 1 ≤ r = rw same at h in
          let le : s.target_row b ≤ row =
            subst (λ c. s.target_row c ≤ row) (==→≡ s.target_bank b same) f.behind in
          (omega arith, ground arith)
      | inr other ↦ (rw other at h, ground arith)
    ]

    pub committed-IsValid : IsValid hw (committed hw s l row content dram)
    committed-IsValid = record {
      bank = omega arith;
      ready = next_ready;
      mapped = λ m h. elim (Bool-cases (l == m)) [
        | inl same ↦
            let low = f.inside in
            rw same
              (new_below_next (s.target_bank * pages_per_bank + row) (omega arith) (omega arith))
        | inr other ↦ rw other (below_next (s.page_map m) (v.mapped m (rw other at h)))
      ];
      blank = λ b r le lt good.
          let (low, other) = behind_next b r le in
          Blank-program_ne s.nand s.target_bank row content b r other (v.blank b r low lt good);
    }

    pub stored-new :
        (a : ℕ)
        → a < bytes_per_page
        → stored_at hw (committed hw s l row content dram) (s.target_bank * pages_per_bank + row) a
          ≡ content a
    stored-new a h =
        let le = f.inside in
        let b : (s.target_bank * pages_per_bank + row) / pages_per_bank ≡ s.target_bank =
          omega arith in
        let r : (s.target_bank * pages_per_bank + row) % pages_per_bank ≡ row = omega arith in
        ap₂ (λ b r. page (committed hw s l row content dram).nand b r a) b r
        ∙ page-program s.nand s.target_bank row content a
            (v.blank s.target_bank row f.behind f.inside f.good) h

    pub stored-old :
        (m a : ℕ)
        → s.page_map m ≢ 0
        → stored_at hw (committed hw s l row content dram) (s.page_map m) a
          ≡ stored_at hw s (s.page_map m) a
    stored-old m a h =
        page-program_ne s.nand s.target_bank row content (s.page_map m / pages_per_bank)
          (s.page_map m % pages_per_bank) a (vacant m h)
