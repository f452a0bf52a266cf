-- ===== src/Firmware/Backup/Extents.antt =====
-- issd.c (do_issd_backup): the loop over the extents of the source.
use issd.Base.{
  ℕ, zero, suc, ◌+◌, ◌-◌, ◌≤◌, ◌≡◌, refl, sym, ap, ◌∙◌, subst, true, some, Bytes, read_32, List, [],
  ◌∷◌, ◌++◌, arith,
}
use issd.Base.Lists.{length, length-append, length-run_of, run_of}
use issd.Base.Sectors.{
  take, take-nil, least, take-append, take-run_of, take-Apart, Apart, append-Apart, Apart-take,
  Apart-drop,
}
use issd.Firmware.Nand.{Nand}
use issd.Firmware.Ftl.{Ftl}
use issd.Firmware.Backup.{Backup, Job, ext_lba_addr, ext_len_addr, copy_extent, copy_extents}
use issd.Firmware.Backup.Moved.{MappedSectors, MappedSectors-Outside}
use issd.Firmware.Backup.Cursor.{sectors, ext_limit, ext_lba-Agrees, ext_len-Agrees}
use issd.Firmware.Backup.Chunk.{Ready, Copies}
use issd.Firmware.Backup.Extent.{
  MappedSectors-append, Copies-none, Copies-append, copy_extent-Copies,
}

MappedSectors-take :
    (hw : Nand) (s : Ftl hw.State) (n : ℕ) (qs : List ℕ)
    → MappedSectors hw s qs
    → MappedSectors hw s (take n qs)
MappedSectors-take hw s zero qs h = tt
MappedSectors-take hw s (suc n) [] h = tt
MappedSectors-take hw s (suc n) (q ∷ qs) (h, hs) = (h, MappedSectors-take hw s n qs hs)

module _ (hw : Nand) (m : Bytes) (job : Job)
    (fit : job.wr_bio_offset + job.nr_wr_bios ≤ ext_limit) where
  open hw use {State}

  copy_extents-round :
      (n i lba num : ℕ) (b b' : Backup State)
      → read_32 b.ftl.dram (ext_lba_addr (job.rd_bio_offset + i)) ≡ lba
      → read_32 b.ftl.dram (ext_len_addr (job.rd_bio_offset + i)) ≡ num
      → copy_extent hw num job b lba num ≡ some (true, b')
      → copy_extents hw (suc n) i job b ≡ copy_extents hw n (i + 1) job b'
  unfolding copy_extents
  copy_extents-round n i lba num b b' at len returned = rw (copy_extents, at, len, returned) refl

  -- The sectors of the extents from the first on, as the loop goes through them.
  split_sources :
      (left lba num : ℕ) (xs : List ℕ)
      → take left (run_of lba num ++ xs)
        ≡ run_of lba (least left num) ++ take (left - least left num) xs
  split_sources left lba num xs =
      let e : left - num ≡ left - least left num = ground arith in
      rw (take-append left (run_of lba num) xs, take-run_of left num lba, length-run_of lba num, e)
        refl

  pub copy_extents-Copies :
      (n i base : ℕ) (b : Backup State) (left : ℕ) (rest : List ℕ)
      → base ≡ job.rd_bio_offset + i
      → base + n ≤ ext_limit
      → Ready hw m job fit b left rest
      → MappedSectors hw b.ftl (sectors m n base)
      → Apart (sectors m n base) rest
      → Copies hw m job fit b left rest
          (least left (length (sectors m n base)))
          (take left (sectors m n base))
          (copy_extents hw n i job b)
  unfolding Copies copy_extents
  copy_extents-Copies zero i base b left rest e inside r mapped apart =
      let nothing : least left 0 ≡ 0 = ground arith in
      subst (λ qs. Copies hw m job fit b left rest (least left 0) qs (copy_extents hw zero i job b))
        (ap (run_of 0) nothing ∙ sym (take-nil left))
        (Copies-none hw m job fit b left (least left 0) 0 rest _ nothing refl r)
  copy_extents-Copies (suc n) i base b left rest e inside r mapped apart =
      let lba = read_32 m (ext_lba_addr base) in
      let num = read_32 m (ext_len_addr base) in
      let xs = sectors m n (base + 1) in
      let w = least left num in
      let at : read_32 b.ftl.dram (ext_lba_addr (job.rd_bio_offset + i)) ≡ lba =
        ap (λ j. read_32 b.ftl.dram (ext_lba_addr j)) (sym e)
        ∙ ext_lba-Agrees b.ftl.dram m base r.agrees (omega arith) in
      let len : read_32 b.ftl.dram (ext_len_addr (job.rd_bio_offset + i)) ≡ num =
        ap (λ j. read_32 b.ftl.dram (ext_len_addr j)) (sym e)
        ∙ ext_len-Agrees b.ftl.dram m base r.agrees (omega arith) in
      let (mapped', later) = MappedSectors-append hw b.ftl (run_of lba num) xs mapped in
      let (apart', free) = append-Apart (run_of lba num) xs rest apart in
      let (b', returned, first, r') =
        copy_extent-Copies hw m job fit num b lba num left rest (omega arith) r mapped' apart' in
      let more =
        copy_extents-Copies n (i + 1) (base + 1) b' (left - w) _ (omega arith) (omega arith) r'
          (MappedSectors-Outside hw b.ftl b'.ftl xs _ (Apart-take w xs rest free) first.old later)
          (Apart-drop w xs rest free) in
      let n' = least (left - w) (length xs) in
      let total : least left (length (run_of lba num ++ xs)) ≡ w + n' =
        ground (arith, length-append (run_of lba num) xs, length-run_of lba num) in
      let w_left : w ≤ left = ground arith in
      rw (copy_extents-round n i lba num b b' at len returned, split_sources left lba num xs)
        (Copies-append hw m job fit b b' left (least left (length (run_of lba num ++ xs))) w n' rest
          (run_of lba w) (take (left - w) xs) _ total (omega (arith, w_left, r.enough))
          (length-run_of lba w) r.targets.distinct (take-Apart (left - w) xs rest free)
          (MappedSectors-take hw b.ftl (left - w) xs later) first more)
