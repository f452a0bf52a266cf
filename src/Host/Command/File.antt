-- ===== src/Host/Command/File.antt =====
-- issd_compute.c (getLbaExts): a file in the command, with the sectors of its blocks.
use issd.Base.{
  ℕ, zero, suc, ◌+◌, ◌-◌, ◌%◌, ◌≤◌, ◌<◌, ◌≡◌, refl, sym, ap, ap₂, subst, ◌∙◌, none, some, List,
  ◌++◌, update, u32, arith, inl, inr, Bool-cases, Option-cases,
}
use issd.Base.Lists.{run_of}
use issd.Base.Names.{Name}
use issd.Host.Extents.{ExtArr, post_process}
use issd.Host.Extents.Cover.{block_sectors, extent_sectors, Fits, post_process-cover}
use issd.Host.Extents.Table.{post_process-outside, post_process-next_offset}
use issd.Host.Command.{
  AfCommand, Env, Files, layout, get_file_size, extract_blocks, get_lba_exts, count_file, add_file,
}

pub none≢some : {A : Type 0} {a : A} → none ≡ some a → ⊥
none≢some h = cc

pub some→≡ : {A : Type 0} {a b : A} → some a ≡ some b → a ≡ b
some→≡ h = cc

-- File `i` of a command: its size, its blocks, and its extents with the sectors of the blocks in order.
pub record Carries (env : Env) (cmd : AfCommand) (i : ℕ) (fs : Files) (fname : Name) : Type 0 where
  pub blocks : List ℕ
  pub read : extract_blocks fs fname env.fs_blksize ≡ some blocks
  pub size : cmd.file_size i ≡ get_file_size fs fname
  pub forward : cmd.file_ext_offset i ≤ cmd.file_ext_offset (i + 1)
  pub inside : cmd.file_ext_offset (i + 1) < env.max_file_ext_num
  pub sectors :
      extent_sectors cmd.file_ext_arr
        (cmd.file_ext_offset i)
        (cmd.file_ext_offset (i + 1) - cmd.file_ext_offset i)
      ≡ block_sectors (layout env (cmd.file_ext_offset i)) blocks

-- The file's sectors have 32-bit numbers.
abbrev pub Fitting : Env → Files → Name → Type 0
Fitting env fs fname =
    (offset : ℕ) (blocks : List ℕ)
    → extract_blocks fs fname env.fs_blksize ≡ some blocks
    → Fits (layout env offset) blocks

extent_sectors-same :
    (a b : ExtArr) (i n : ℕ)
    → ((j : ℕ) → j < i + n → a j ≡ b j)
    → extent_sectors a i n ≡ extent_sectors b i n
extent_sectors-same a b i zero h = refl
extent_sectors-same a b i (suc n) h = rw (h i (omega arith)) (
    ap (λ t. run_of (b i).lba (b i).len ++ t)
      (extent_sectors-same a b (i + 1) n (λ j lt. h j (omega arith))))

-- The command when a file has been added.
abbrev pub with_file : Files → AfCommand → ℕ → Name → ExtArr → ℕ → AfCommand
with_file fs cmd cur fname arr n = record cmd {
  file_size = update cmd.file_size cur (get_file_size fs fname);
  file_ext_arr = arr;
  file_ext_offset = update cmd.file_ext_offset (cur + 1) ((cmd.file_ext_offset cur + n) % u32);
}

-- How an addition succeeds.
pub record Added (fs : Files) (env : Env) (cmd : AfCommand) (cur : ℕ) (fname : Name) (t : AfCommand)
    : Type 0 where
  pub blocks : List ℕ
  pub count : ℕ
  pub read : extract_blocks fs fname env.fs_blksize ≡ some blocks
  pub segs :
      (post_process (layout env (cmd.file_ext_offset cur)) cmd.file_ext_arr blocks).0 ≡ some count
  pub result :
      t
      ≡ with_file fs cmd cur fname
          (post_process (layout env (cmd.file_ext_offset cur)) cmd.file_ext_arr blocks).1
          count

pub add_file-Added :
    (fs : Files) (env : Env) (cmd : AfCommand) (cur : ℕ) (fname : Name) {t : AfCommand}
    → add_file fs env cmd cur fname ≡ some t
    → Added fs env cmd cur fname t
unfolding add_file get_lba_exts count_file
add_file-Added fs env cmd cur fname {t} e = elim (Bool-cases (fs.opens fname)) [
  | inr closed ↦ absurd (none≢some (rw (closed, add_file, get_lba_exts, count_file) at e))
  | inl opened ↦ elim (Option-cases (extract_blocks fs fname env.fs_blksize)) [
    | inl unread ↦ absurd (none≢some (rw (opened, unread, add_file, get_lba_exts, count_file) at e))
    | inr (blocks, read) ↦
        let p = post_process (layout env (cmd.file_ext_offset cur)) cmd.file_ext_arr blocks in
        let cmd' = record cmd {
          file_size = update cmd.file_size cur (get_file_size fs fname);
          file_ext_arr = p.1;
        } in
        let g : get_lba_exts fs env cmd cur fname ≡ (p.0, cmd') =
          rw (opened, read, get_lba_exts) refl in
        elim (Option-cases p.0) [
          | inl full ↦
              absurd (none≢some (sym (ap (count_file cur) (g ∙ ap (λ o. (o, cmd')) full)) ∙ e))
          | inr (n, segs) ↦ record {
            blocks = blocks;
            count = n;
            read = read;
            segs = segs;
            result = sym (some→≡ (sym (ap (count_file cur) (g ∙ ap (λ o. (o, cmd')) segs)) ∙ e));
          }
        ]
  ]
]

-- What an addition keeps.
pub add_file-rest :
    (fs : Files) (env : Env) (cmd : AfCommand) (cur : ℕ) (fname : Name) (arr : ExtArr) (n j : ℕ)
    → j < cur + 1
    → (with_file fs cmd cur fname arr n).file_ext_offset j ≡ cmd.file_ext_offset j
add_file-rest fs env cmd cur fname arr n j h = ground arith

Carries-with :
    (fs : Files) (env : Env) (cmd : AfCommand) (cur : ℕ) (fname : Name) (blocks : List ℕ) (n : ℕ)
    → env.max_file_ext_num ≤ u32
    → cmd.file_ext_offset cur < env.max_file_ext_num
    → Fits (layout env (cmd.file_ext_offset cur)) blocks
    → extract_blocks fs fname env.fs_blksize ≡ some blocks
    → (post_process (layout env (cmd.file_ext_offset cur)) cmd.file_ext_arr blocks).0 ≡ some n
    → Carries env
        (with_file fs cmd cur fname
          (post_process (layout env (cmd.file_ext_offset cur)) cmd.file_ext_arr blocks).1
          n)
        cur
        fs
        fname
Carries-with fs env cmd cur fname blocks n m room fit read segs =
    let offset = cmd.file_ext_offset cur in
    let l = layout env offset in
    let arr = (post_process l cmd.file_ext_arr blocks).1 in
    let next = post_process-next_offset l cmd.file_ext_arr blocks room segs in
    let behind : (offset + n) % u32 ≡ offset + n = omega arith in
    let t = with_file fs cmd cur fname arr n in
    let here : t.file_ext_offset cur ≡ offset = ground arith in
    let there : t.file_ext_offset (cur + 1) ≡ offset + n = ground arith in
    record {
      blocks = blocks;
      read = read;
      size = ground arith;
      forward = omega arith;
      inside = omega arith;
      sectors =
          ap₂ (extent_sectors arr) here
            (let w : t.file_ext_offset (cur + 1) - t.file_ext_offset cur ≡ n = omega arith in w)
          ∙ post_process-cover l cmd.file_ext_arr blocks n fit segs
          ∙ ap (λ o. block_sectors (layout env o) blocks) (sym here);
    }

pub add_file-Carries :
    (fs : Files) (env : Env) (cmd t : AfCommand) (cur : ℕ) (fname : Name)
    → env.max_file_ext_num ≤ u32
    → cmd.file_ext_offset cur < env.max_file_ext_num
    → Fitting env fs fname
    → Added fs env cmd cur fname t
    → Carries env t cur fs fname
add_file-Carries fs env cmd t cur fname m room fit a =
    subst (λ t. Carries env t cur fs fname) (sym a.result)
      (Carries-with fs env cmd cur fname a.blocks a.count m room
        (fit (cmd.file_ext_offset cur) a.blocks a.read) a.read a.segs)

-- A file that was added before stays.
pub Carries-later :
    (fs fs' : Files) (env : Env) (cmd t : AfCommand) (cur i : ℕ) (fname fname' : Name)
    → cmd.file_ext_offset cur < env.max_file_ext_num
    → i < cur
    → cmd.file_ext_offset (i + 1) ≤ cmd.file_ext_offset cur
    → Carries env cmd i fs fname
    → Added fs' env cmd cur fname' t
    → Carries env t i fs fname
Carries-later fs fs' env cmd t cur i fname fname' room lt le c a =
    let l = layout env (cmd.file_ext_offset cur) in
    let arr = (post_process l cmd.file_ext_arr a.blocks).1 in
    let u = with_file fs' cmd cur fname' arr a.count in
    let here : u.file_ext_offset i ≡ cmd.file_ext_offset i =
      add_file-rest fs' env cmd cur fname' arr a.count i (omega arith) in
    let there : u.file_ext_offset (i + 1) ≡ cmd.file_ext_offset (i + 1) =
      add_file-rest fs' env cmd cur fname' arr a.count (i + 1) (omega arith) in
    let forward = c.forward in
    let inside = c.inside in
    let n = cmd.file_ext_offset (i + 1) - cmd.file_ext_offset i in
    let w : u.file_ext_offset (i + 1) - u.file_ext_offset i ≡ n = omega arith in
    let size = c.size in
    subst (λ t. Carries env t i fs fname) (sym a.result)
      (record {
        blocks = c.blocks;
        read = c.read;
        size = ground arith;
        forward = omega arith;
        inside = omega arith;
        sectors =
            ap₂ (extent_sectors arr) here w
            ∙ extent_sectors-same arr cmd.file_ext_arr (cmd.file_ext_offset i) n
                (λ j h. post_process-outside l cmd.file_ext_arr a.blocks j room (inl (omega arith)))
            ∙ c.sectors
            ∙ ap (λ o. block_sectors (layout env o) c.blocks) (sym here);
      })
