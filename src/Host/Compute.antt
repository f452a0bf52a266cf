-- ===== src/Host/Compute.antt =====
-- PCModule2/server/issd_compute.c (issd_sendCmd, issd_waitFinish, issd_compute) and
-- reqPRoutine.c (issd_compute_routine): an operation on files, from its arguments to its end.
pub mod Ending
mod Tests
use issd.Base.{
  ℕ, zero, suc, ◌+◌, ◌-◌, ◌*◌, ◌/◌, Bool, true, false, not, ◌||◌, Option, none, some, ◌==◌, Bytes,
  if◌then◌else◌,
}
use issd.Base.Names.{Name}
use issd.Host.Extents.{LbaExt}
use issd.Host.SataCom.{System, Sent, sata_write_buffer}
use issd.Host.Command.{
  issd_filecopy, issd_merge, AfCommand, Env, Files, Output, Created, created, failed,
  issd_create_cmd,
}

-- What the system answers: the start of the device's partition (`open` and HDIO_GETGEO), the block
-- size of a file, the bits of that size as `log` gives them, `malloc` for the command and for the read
-- buffer, the files, the sending of packets, the device's answers in the order in which they are
-- read, `truncate`, and how the compiler lays a command out in memory.
pub record Machine : Type 0 where
  pub geometry : Name → Option ℕ
  pub st_blksize : Name → Option ℕ
  pub log2 : ℕ → ℕ
  pub allocates_cmd : Bool
  pub allocates_buffer : Bool
  pub files : Files
  pub output : Output
  pub system : System
  pub read_buffer : ℕ → Option AfCommand
  pub truncates : Name → ℕ → Bool
  pub bytes : AfCommand → Bytes

-- `MAX_AFCMD_PACKET_SIZE`, `MAX_AFCMD_MAINPARA_SIZE`, and the sizes of `afCommand_t` and `lbaExt_t`.
abbrev pub max_afcmd_packet_size : ℕ
max_afcmd_packet_size = 32 * 1024

abbrev pub max_afcmd_mainpara_size : ℕ
max_afcmd_mainpara_size = 512

abbrev pub size_of_command : ℕ
size_of_command = 44

abbrev pub size_of_ext : ℕ
size_of_ext = 8

-- The loop of `issd_waitFinish` from the `k`-th answer on, over at most `n` answers: `none` when they
-- do not suffice, and within that `none` for an error.
pub poll : ℕ → (ℕ → Option AfCommand) → ℕ → Option (Option AfCommand)
poll zero answers k = none
poll (suc n) answers k = elim (answers k) [
  | none ↦ some none
  | some c ↦ elim (c.is_ok == 0) [ true ↦ poll n answers (k + 1) | false ↦ some (some c) ]
]

-- `issd_waitFinish`; the answer's header is copied into the command.
pub issd_wait_finish : ℕ → Machine → AfCommand → Option (Option AfCommand)
unfolding poll
issd_wait_finish n env cmd = elim env.allocates_buffer [
  | false ↦ some none
  | true ↦ elim (poll n env.read_buffer 0) [
    | none ↦ none
    | some none ↦ some none
    | some (some c) ↦ some (some (record c { file_ext_arr = cmd.file_ext_arr }))
  ]
]

-- `afCmd` behind `memset`, with its `opType`.
abbrev pub empty_command : ℕ → AfCommand
empty_command op_type = record {
  num_packet = 0;
  op_type = op_type;
  is_ok = 0;
  num_files = 0;
  file_size = λ i. 0;
  file_ext_offset = λ i. 0;
  file_ext_arr = λ i. record { lba = 0; len = 0 };
}

-- How `issd_compute` ends: whether it returned 0, and whether it removed the output file.
pub record Outcome : Type 0 where
  pub ok : Bool
  pub unlinked : Bool

-- The return values -1 without and with `unlink(ofname)`, and 0.
abbrev pub refused : Outcome
refused = record { ok = false; unlinked = false }

abbrev pub undone : Outcome
undone = record { ok = false; unlinked = true }

abbrev pub done : Outcome
done = record { ok = true; unlinked = false }

-- `issd_env_t` and `max_fileExt_num`.
abbrev pub env_of : Machine → ℕ → ℕ → Env
env_of env part_start blksize = record {
  fs_blksize = blksize;
  fs_blkbits = env.log2 blksize;
  part_start = part_start;
  max_file_ext_num = (max_afcmd_packet_size - max_afcmd_mainpara_size) / size_of_ext;
}

-- From the command on: it is sent, its end is awaited, and the output file is cut to its size.
pub run_command : ℕ → Machine → AfCommand → Name → Option Outcome
unfolding issd_wait_finish
run_command n env cmd ofname =
    let size = size_of_command + size_of_ext * cmd.file_ext_offset cmd.num_files in
    elim (sata_write_buffer env.system (env.bytes cmd) size).ok [
      | false ↦ some undone
      | true ↦ elim (issd_wait_finish n env cmd) [
        | none ↦ none
        | some none ↦ some undone
        | some (some c) ↦
            some (if env.truncates ofname (c.file_size (c.num_files - 1)) then done else undone)
      ]
    ]

-- `issd_compute` of the server, which waits for `n` answers at most; `none` when that is not enough.
pub issd_compute : ℕ → Machine → ℕ → Name → Name → Name → Name → Option Outcome
unfolding run_command
issd_compute n env op_type ifname va_ifname ofname devname = elim (env.geometry devname) [
  | none ↦ some refused
  | some part_start ↦ elim (env.st_blksize ifname) [
    | none ↦ some refused
    | some blksize ↦ elim env.allocates_cmd [
      | false ↦ some refused
      | true ↦
          elim (issd_create_cmd env.files env.output (env_of env part_start blksize)
            (empty_command op_type) ifname va_ifname ofname) [
              | failed unlinked ↦ some undone
              | created cmd ↦ run_command n env cmd ofname
            ]
    ]
  ]
]

-- `issd_compute_routine`: the flag that it gives to `issd_feedback`, `!ret`. For another operation `ret`
-- is not set, and whether its bits are 0 is `unset`.
pub issd_compute_routine : Bool → ℕ → Machine → ℕ → Name → Name → Name → Name → Option Bool
unfolding issd_compute
issd_compute_routine unset n env op_type ifname va_ifname ofname devname =
    elim (op_type == issd_filecopy || op_type == issd_merge) [
      | false ↦ some unset
      | true ↦ elim (issd_compute n env op_type ifname va_ifname ofname devname) [
        | none ↦ none
        | some o ↦ some o.ok
      ]
    ]
