-- ===== src/Firmware/Backup/Cursor.antt =====
-- issd.c and issd.h: the sectors of a file, as the extents in the command buffer give them, and the
-- place `curSector` among those of the destination.
use issd.Base.{
  ℕ, zero, suc, ◌+◌, ◌-◌, ◌<◌, ◌≡◌, refl, ap, ap₂, Bytes, read_32, List, [], ◌++◌, arith,
}
use issd.Base.Lists.{run_of}
use issd.Firmware.Layout.{issd_wr_buf_addr}
use issd.Firmware.Backup.{Backup, Job, ext_lba_addr, ext_len_addr}

-- The sectors of `n` extents from extent `i` on.
abbrev pub sectors : Bytes → ℕ → ℕ → List ℕ
sectors m zero i = []
sectors m (suc n) i =
    run_of (read_32 m (ext_lba_addr i)) (read_32 m (ext_len_addr i)) ++ sectors m n (i + 1)

-- The same, without the first `offset` sectors of the first extent.
abbrev pub remaining : Bytes → ℕ → ℕ → ℕ → List ℕ
remaining m zero i offset = []
remaining m (suc n) i offset =
    run_of (read_32 m (ext_lba_addr i) + offset) (read_32 m (ext_len_addr i) - offset)
    ++ sectors m n (i + 1)

pub remaining-none : (m : Bytes) (n i : ℕ) → remaining m n i 0 ≡ sectors m n i
remaining-none m zero i = refl
remaining-none m (suc n) i =
    ap (λ xs. xs ++ sectors m n (i + 1))
      (ap₂ run_of
        (let e : read_32 m (ext_lba_addr i) + 0 ≡ read_32 m (ext_lba_addr i) = omega arith in e)
        (let e : read_32 m (ext_len_addr i) - 0 ≡ read_32 m (ext_len_addr i) = omega arith in e))

-- Two memories that agree below the write buffer.
abbrev pub Agrees : Bytes → Bytes → Type 0
Agrees f g = (x : ℕ) → x < issd_wr_buf_addr → f x ≡ g x

-- The extents that the command buffer of a page holds.
abbrev pub ext_limit : ℕ
ext_limit = 4090

read_32-cong :
    (f g : Bytes) (a : ℕ) → Agrees f g → a + 3 < issd_wr_buf_addr → read_32 f a ≡ read_32 g a
unfolding read_32
read_32-cong f g a same h =
    rw
      (same a (omega arith), same (a + 1) (omega arith), same (a + 2) (omega arith), same (a + 3) h)
      refl

pub ext_lba-Agrees :
    (f g : Bytes) (i : ℕ)
    → Agrees f g
    → i < ext_limit
    → read_32 f (ext_lba_addr i) ≡ read_32 g (ext_lba_addr i)
ext_lba-Agrees f g i same h = read_32-cong f g (ext_lba_addr i) same (omega arith)

pub ext_len-Agrees :
    (f g : Bytes) (i : ℕ)
    → Agrees f g
    → i < ext_limit
    → read_32 f (ext_len_addr i) ≡ read_32 g (ext_len_addr i)
ext_len-Agrees f g i same h = read_32-cong f g (ext_len_addr i) same (omega arith)

-- `index` and `offset` among the extents of the destination, `k` extents before its end, with the
-- sectors that are left.
pub record Cursor {N : Type 0} (m : Bytes) (job : Job) (b : Backup N) (k : ℕ) (rest : List ℕ)
    : Type 0 where
  pub behind : b.index + k ≡ job.nr_wr_bios
  pub ahead : remaining m k (job.wr_bio_offset + b.index) b.offset ≡ rest
