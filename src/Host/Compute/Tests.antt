-- ===== src/Host/Compute/Tests.antt =====
-- Operations whose input does not open, and a device that finishes at its third answer.
use issd.Base.{ℕ, ◌≡◌, ◌<◌, refl, true, false, none, some, ltb, if◌then◌else◌, arith, []}
use issd.Host.Command.{AfCommand, issd_create_cmd}
use issd.Host.Compute.{Machine, issd_wait_finish, undone, empty_command, issd_compute}
use issd.Host.Compute.Ending.{Pending, Settled, issd_wait_finish-first, issd_compute-Settled}

abbrev answer : AfCommand
answer = record (empty_command 0) { is_ok = 1; num_files = 2 }

abbrev machine : Machine
machine = record {
  geometry = λ dev. some 63;
  st_blksize = λ f. some 1024;
  log2 = λ x. 10;
  allocates_cmd = true;
  allocates_buffer = true;
  files = record { opens = λ f. false; size = λ f. none; fibmap = λ f i. none };
  output = record { creates = λ f. true; allocate = λ f len. none };
  system = record { opens = true; allocates = true; delivers = λ i. true };
  read_buffer = λ i. some (if ltb i 2 then empty_command 0 else answer);
  truncates = λ f len. true;
  bytes = λ c a. 0;
}

two-Pending : (i : ℕ) → i < 2 → Pending (machine.read_buffer i)
two-Pending i lt = (empty_command 0, ground arith, refl)

issd_wait_finish-first_example :
    issd_wait_finish 5 machine (empty_command 0)
    ≡ some (some (record answer { file_ext_arr = (empty_command 0).file_ext_arr }))
issd_wait_finish-first_example =
    issd_wait_finish-first 5 2 machine (empty_command 0) answer refl two-Pending refl
      (λ z. omega (arith, z)) (omega arith)

unread : issd_compute 5 machine 0 [] [] [] [] ≡ some undone
unfolding issd_compute issd_create_cmd
unread = refl

issd_compute-Settled_example : Settled undone
issd_compute-Settled_example =
    issd_compute-Settled 5 machine 0 63 1024 [] [] [] [] refl refl refl unread
