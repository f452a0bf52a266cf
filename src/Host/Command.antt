-- ===== src/Host/Command.antt =====
-- PCModule2/server/issd_compute.c (get_fileSize, get_nr_blocks, get_block, extractBlocks, getLbaExts,
-- issd_createCmd, issd_waitFinish, issd_compute) and issd.h: an operation on files as a command to
-- the device.
pub mod File
pub mod Create
mod Tests
use issd.Base.{
  ℕ, zero, suc, ◌+◌, ◌-◌, ◌*◌, ◌/◌, ◌%◌, ◌^◌, Bool, true, false, not, ◌||◌, Option, none, some,
  List, [], ◌∷◌, ltb, leb, ◌==◌, update, u32, if◌then◌else◌,
}
use issd.Base.Names.{Name}
use issd.Host.Extents.{LbaExt, ExtArr, Layout, post_process}

-- `ISSD_FILECOPY` and `ISSD_MERGE`.
abbrev pub issd_filecopy : ℕ
issd_filecopy = 0

abbrev pub issd_merge : ℕ
issd_merge = 1

-- `MAX_FILE_BLOCK_LEN`
abbrev pub max_file_block_len : ℕ
max_file_block_len = 65536

-- `afCommand_t`
pub record AfCommand : Type 0 where
  pub num_packet : ℕ
  pub op_type : ℕ
  pub is_ok : ℕ
  pub num_files : ℕ
  pub file_size : ℕ → ℕ
  pub file_ext_offset : ℕ → ℕ
  pub file_ext_arr : ExtArr

-- `issd_env_t`, and the global `max_fileExt_num`.
pub record Env : Type 0 where
  pub fs_blksize : ℕ
  pub fs_blkbits : ℕ
  pub part_start : ℕ
  pub max_file_ext_num : ℕ

-- What `open` for reading, `fstat` and the ioctl FIBMAP answer; `none` is an error.
pub record Files : Type 0 where
  pub opens : Name → Bool
  pub size : Name → Option ℕ
  pub fibmap : Name → ℕ → Option ℕ

-- -1 as an unsigned number.
abbrev pub minus_one : ℕ
minus_one = u32 - 1

-- `get_fileSize`: the 32 bits of its result.
pub get_file_size : Files → Name → ℕ
get_file_size fs fname = elim (fs.size fname) [ none ↦ minus_one | some n ↦ n % u32 ]

-- `get_nr_blocks`, whose division rounds towards 0; `none` is a negative result.
pub get_nr_blocks : Files → Name → ℕ → Option ℕ
unfolding get_file_size
get_nr_blocks fs fname blksize =
    let sum = get_file_size fs fname + (blksize - 1) in
    if ltb (get_file_size fs fname) (2 ^ 31)
    then some (sum / blksize)
    else if leb u32 sum || ltb (u32 - sum) blksize
    then some 0
    else none

-- `get_block`
pub get_block : Files → Name → ℕ → ℕ
get_block fs fname logical_block = elim (fs.fibmap fname logical_block) [
  | none ↦ minus_one
  | some b ↦ b % u32
]

-- The blocks from `i` on. An error is not seen, since `phys_block < 0` is tested on an unsigned
-- number.
pub blocks_from : Files → Name → ℕ → ℕ → List ℕ
blocks_from fs fname i zero = []
blocks_from fs fname i (suc n) = get_block fs fname i ∷ blocks_from fs fname (i + 1) n

-- `extractBlocks`, with the first `nr_blocks` entries of `blockArr`.
pub extract_blocks : Files → Name → ℕ → Option (List ℕ)
unfolding blocks_from
extract_blocks fs fname blksize = elim (get_nr_blocks fs fname blksize) [
  | none ↦ none
  | some nr_blocks ↦
      if ltb max_file_block_len nr_blocks then none else some (blocks_from fs fname 0 nr_blocks)
]

-- What `postProcess` is called with, for a file at that offset.
abbrev pub layout : Env → ℕ → Layout
layout env offset = record {
  max_file_ext_num = env.max_file_ext_num;
  offset = offset;
  blkbits = env.fs_blkbits;
  part_first_sector = env.part_start;
}

-- `getLbaExts`; the test of the file size never fails.
pub get_lba_exts : Files → Env → AfCommand → ℕ → Name → Option ℕ × AfCommand
get_lba_exts fs env cmd cur_file_idx fname =
    let cmd' = record cmd {
      file_size = update cmd.file_size cur_file_idx (get_file_size fs fname);
    } in
    if not (fs.opens fname) then (none, cmd) else elim (extract_blocks fs fname env.fs_blksize) [
      | none ↦ (none, cmd')
      | some blocks ↦
          let (segs, arr) =
            post_process (layout env (cmd.file_ext_offset cur_file_idx)) cmd.file_ext_arr blocks in
          (segs, record cmd' { file_ext_arr = arr })
    ]

-- The offset of the next file, from the result of `getLbaExts`.
pub count_file : ℕ → Option ℕ × AfCommand → Option AfCommand
count_file cur_file_idx (none, cmd) = none
count_file cur_file_idx (some segs, cmd) = some (record cmd {
  file_ext_offset =
      update cmd.file_ext_offset (cur_file_idx + 1)
        ((cmd.file_ext_offset cur_file_idx + segs) % u32);
})

-- A file is added: its extents, and the offset of the next file.
pub add_file : Files → Env → AfCommand → ℕ → Name → Option AfCommand
unfolding get_lba_exts count_file
add_file fs env cmd cur_file_idx fname =
    count_file cur_file_idx (get_lba_exts fs env cmd cur_file_idx fname)

-- How `open` with O_CREAT and `fallocate` answer for the output file: `allocate` gives the files
-- as they are then.
pub record Output : Type 0 where
  pub creates : Name → Bool
  pub allocate : Name → ℕ → Option Files

-- The result of `issd_createCmd`: the command, or -1 and whether the output file was unlinked. The
-- command of a failure is freed unread.
pub data Created : Type 0 where
  created : AfCommand → Created
  failed : Bool → Created

-- The inputs, and the index of the output file.
pub add_inputs : Files → Env → AfCommand → Name → Name → Option (AfCommand × ℕ)
unfolding add_file
add_inputs fs env cmd ifname va_ifname = elim (add_file fs env cmd 0 ifname) [
  | none ↦ none
  | some cmd' ↦ elim (cmd'.op_type == issd_merge) [
    | false ↦ some (cmd', 1)
    | true ↦ elim (add_file fs env (record cmd' { num_files = cmd'.num_files + 1 }) 1 va_ifname) [
      | none ↦ none
      | some cmd'' ↦ some (cmd'', 2)
    ]
  ]
]

-- `wlength`
abbrev pub write_length : Env → AfCommand → ℕ
write_length env cmd =
    if cmd.op_type == issd_merge
    then (cmd.file_size 0 + cmd.file_size 1 + env.fs_blksize) % u32
    else cmd.file_size 0

-- `issd_createCmd`
unfoldable pub issd_create_cmd : Files → Output → Env → AfCommand → Name → Name → Name → Created
unfolding add_inputs add_file
issd_create_cmd fs out env cmd ifname va_ifname ofname =
    elim (add_inputs fs env (record cmd { num_files = 2 }) ifname va_ifname) [
      | none ↦ failed false
      | some (cmd', cur) ↦ elim (out.creates ofname) [
        | false ↦ failed false
        | true ↦ elim (out.allocate ofname (write_length env cmd')) [
          | none ↦ failed true
          | some fs' ↦ elim (add_file fs' env cmd' cur ofname) [
            | none ↦ failed false
            | some cmd'' ↦ created (record cmd'' { is_ok = 0 })
          ]
        ]
      ]
    ]
