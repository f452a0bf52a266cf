-- ===== src/Firmware/Backup/Extent.antt =====
-- issd.c (do_issd_backup): the loops over the sectors of an extent and over the extents of the source.
use issd.Base.{
  ℕ, zero, suc, ◌+◌, ◌-◌, ◌≤◌, ◌<◌, ◌≡◌, refl, sym, ap, ◌∙◌, subst, true, Bool, Option, some, Bytes,
  List, [], ◌∷◌, ◌++◌, ◌==◌, arith, Bool-cases, inl, inr, ◌⊎◌, ==→≡,
}
use issd.Base.Lists.{length, length-run_of, run_of, run_of-append}
use issd.Base.Sectors.{
  take, drop, least, take-drop, drop-drop, length-take, Apart, Apart-take, Apart-drop, append-Apart,
  Distinct, Distinct-drop,
}
use issd.Firmware.Nand.{Nand}
use issd.Firmware.Ftl.{Ftl}
use issd.Firmware.Backup.{Backup, Job, sectors_at_once, copy_extent}
use issd.Firmware.Backup.Moved.{
  MappedSectors, MappedSectors-Outside, Moved, Moved-none, Moved-append,
}
use issd.Firmware.Backup.Cursor.{ext_limit}
use issd.Firmware.Backup.Chunk.{Ready, Copies, chunk, sectors_at_once-fits, MappedSectors-run}

pub MappedSectors-append :
    (hw : Nand) (s : Ftl hw.State) (xs ys : List ℕ)
    → MappedSectors hw s (xs ++ ys)
    → MappedSectors hw s xs × MappedSectors hw s ys
MappedSectors-append hw s [] ys h = (tt, h)
MappedSectors-append hw s (x ∷ xs) ys (h, hs) =
    let (a, b) = MappedSectors-append hw s xs ys hs in ((h, a), b)

Apart-run : (a n k : ℕ) (rest : List ℕ) → k ≤ n → Apart (run_of a n) rest → Apart (run_of a k) rest
Apart-run a n zero rest le h = tt
Apart-run a zero (suc k) rest le h = absurd (omega arith)
Apart-run a (suc n) (suc k) rest le (h, hs) = (h, Apart-run (a + 1) n k rest (omega arith) hs)

module _ (hw : Nand) (m : Bytes) (job : Job)
    (fit : job.wr_bio_offset + job.nr_wr_bios ≤ ext_limit) where
  open hw use {State}

  pub Copies-none :
      (b : Backup State) (left n lba : ℕ) (rest : List ℕ) (result : Option (Bool × Backup State))
      → n ≡ 0
      → result ≡ some (true, b)
      → Ready hw m job fit b left rest
      → Copies hw m job fit b left rest n (run_of lba n) result
  unfolding Copies
  Copies-none b left n lba rest result done returned r =
      let same : Ready hw m job fit b (left - 0) rest =
        subst (λ i. Ready hw m job fit b i rest) (omega arith) r in
      subst (λ i. Copies hw m job fit b left rest i (run_of lba i) result) (sym done)
        (b, returned, Moved-none hw b.ftl r.valid, same)

  -- A copy, and the rest of the copy behind it.
  pub Copies-append :
      (b b' : Backup State) (left n w n' : ℕ) (rest qs qs' : List ℕ)
      (result : Option (Bool × Backup State))
      → n ≡ w + n'
      → w ≤ length rest
      → length qs ≡ w
      → Distinct rest
      → Apart qs' rest
      → MappedSectors hw b.ftl qs'
      → Moved hw b.ftl (take w rest) qs b'.ftl
      → Copies hw m job fit b' (left - w) (drop w rest) n' qs' result
      → Copies hw m job fit b left rest n (qs ++ qs') result
  unfolding Copies
  Copies-append b b' left n w n' rest qs qs' result e le len distinct apart mapped first
        (b'', returned, second, r) =
      let whole : take w rest ++ take n' (drop w rest) ≡ take n rest =
        sym (take-drop w n' n rest e) in
      let same_length : length (take w rest) ≡ length qs = ground (arith, length-take w rest) in
      let free : Apart (take w rest) (take n' (drop w rest)) =
        Apart-take n' (take w rest) (drop w rest) (Distinct-drop w rest distinct).1 in
      let both =
        Moved-append hw b.ftl b'.ftl b''.ftl (take w rest) qs (take n' (drop w rest)) qs'
          same_length free (Apart-take w qs' rest apart) mapped first second in
      (
        b'',
        returned,
        subst (λ ds. Moved hw b.ftl ds (qs ++ qs') b''.ftl) whole both,
        subst (λ i. Ready hw m job fit b'' i (drop n rest)) (omega arith)
            (subst (Ready hw m job fit b'' (left - w - n')) (drop-drop w n' n rest e) r),
      )

  -- What the first chunk and the rest of the extent copy.
  runs :
      (lba num rd left n : ℕ)
      → n ≡ least left rd + least (left - least left rd) (num - rd)
      → rd ≤ num
      → run_of lba n
        ≡ run_of lba (least left rd) ++ run_of (lba + rd) (least (left - least left rd) (num - rd))
  runs lba num rd left n e le =
      let n' = least (left - least left rd) (num - rd) in
      let at : (lba + least left rd ≡ lba + rd) ⊎ (n' ≡ 0) = ground arith in
      run_of-append lba (least left rd) n' (lba + least left rd) n refl e
      ∙ ap (λ xs. run_of lba (least left rd) ++ xs)
          (elim at [
            | inl same ↦ ap (λ a. run_of a n') same
            | inr nothing ↦
                ap (run_of (lba + least left rd)) nothing ∙ sym (ap (run_of (lba + rd)) nothing)
          ])

  copy_extent-none :
      (n : ℕ) (b : Backup State) (lba num : ℕ)
      → num ≡ 0
      → copy_extent hw n job b lba num ≡ some (true, b)
  unfolding copy_extent
  copy_extent-none zero b lba num done = rw (copy_extent, done) refl
  copy_extent-none (suc n) b lba num done = rw (copy_extent, done) refl

  -- Where the extent is not empty: the chunk and what the induction gives of the rest.
  extent_step :
      (n : ℕ) (b : Backup State) (lba num left : ℕ) (rest : List ℕ)
      → 0 < num
      → Ready hw m job fit b left rest
      → MappedSectors hw b.ftl (run_of lba num)
      → Apart (run_of lba num) rest
      → ((b' : Backup State) (left' : ℕ) (rest' : List ℕ)
          → Ready hw m job fit b' left' rest'
          → MappedSectors hw b'.ftl
              (run_of (lba + sectors_at_once lba num) (num - sectors_at_once lba num))
          → Apart (run_of (lba + sectors_at_once lba num) (num - sectors_at_once lba num)) rest'
          → Copies hw m job fit b' left' rest'
              (least left' (num - sectors_at_once lba num))
              (run_of (lba + sectors_at_once lba num) (least left' (num - sectors_at_once lba num)))
              (copy_extent hw n job b'
                (lba + sectors_at_once lba num)
                (num - sectors_at_once lba num)))
      → Copies hw m job fit b left rest
          (least left num)
          (run_of lba (least left num))
          (copy_extent hw (suc n) job b lba num)
  extent_step n b lba num left rest some_left r mapped apart hyp =
      let rd = sectors_at_once lba num in
      let wr = least left rd in
      let wr_left : wr ≤ left = ground arith in
      let (_, fits, _) = sectors_at_once-fits lba num some_left in
      let n' = least (left - wr) (num - rd) in
      let split : run_of lba num ≡ run_of lba rd ++ run_of (lba + rd) (num - rd) =
        run_of-append lba rd (num - rd) (lba + rd) num refl (omega arith) in
      let (b', equal, first, r') = chunk hw m job fit b lba num left rest some_left r mapped in
      let later : MappedSectors hw b.ftl (run_of (lba + rd) (num - rd)) =
        (MappedSectors-append hw b.ftl (run_of lba rd) (run_of (lba + rd) (num - rd))
          (subst (MappedSectors hw b.ftl) split mapped)).1 in
      let apart' : Apart (run_of (lba + rd) (num - rd)) rest =
        (append-Apart (run_of lba rd) (run_of (lba + rd) (num - rd)) rest
          (subst (λ xs. Apart xs rest) split apart)).1 in
      let more =
        hyp b' (left - wr) (drop wr rest) r'
          (MappedSectors-Outside hw b.ftl b'.ftl (run_of (lba + rd) (num - rd)) (take wr rest)
            (Apart-take wr (run_of (lba + rd) (num - rd)) rest apart') first.old later)
          (Apart-drop wr (run_of (lba + rd) (num - rd)) rest apart') in
      let total : least left num ≡ wr + n' = ground arith in
      let fewer : n' ≤ num - rd = ground arith in
      rw (equal n, runs lba num rd left (least left num) total fits)
        (Copies-append b b' left (least left num) wr n' rest (run_of lba wr) (run_of (lba + rd) n')
          _ total (omega (arith, wr_left, r.enough)) (length-run_of lba wr) r.targets.distinct
          (Apart-run (lba + rd) (num - rd) n' rest fewer apart')
          (MappedSectors-run hw m job fit b.ftl (num - rd) (lba + rd) n' fewer later) first more)

  pub copy_extent-Copies :
      (n : ℕ) (b : Backup State) (lba num left : ℕ) (rest : List ℕ)
      → num ≤ n
      → Ready hw m job fit b left rest
      → MappedSectors hw b.ftl (run_of lba num)
      → Apart (run_of lba num) rest
      → Copies hw m job fit b left rest
          (least left num)
          (run_of lba (least left num))
          (copy_extent hw n job b lba num)
  copy_extent-Copies zero b lba num left rest fuel r mapped apart =
      let done : num ≡ 0 = omega arith in
      Copies-none b left (least left num) lba rest _ (ground arith)
        (copy_extent-none zero b lba num done) r
  copy_extent-Copies (suc n) b lba num left rest fuel r mapped apart =
      elim (Bool-cases (num == 0)) [
        | inl stop ↦
            Copies-none b left (least left num) lba rest _ (ground arith)
              (copy_extent-none (suc n) b lba num (==→≡ num 0 stop)) r
        | inr go ↦
            let positive = (sectors_at_once-fits lba num (ground arith)).0 in
            extent_step n b lba num left rest (ground arith) r mapped apart
              (λ b' left' rest' r' mapped' apart'.
                copy_extent-Copies n b' (lba + sectors_at_once lba num)
                  (num - sectors_at_once lba num) left' rest' (omega (arith, positive, fuel)) r'
                  mapped' apart')
      ]
