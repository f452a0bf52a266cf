-- ===== src/Host/Command/Tests.antt =====
-- A copy of a file of two blocks, and a merge with a file of one.
use issd.Base.{ℕ, ◌+◌, ◌*◌, ◌≡◌, refl, subst, true, some, [], arith}
use issd.Host.Extents.{post_process}
use issd.Host.Extents.Cover.{Fits}
use issd.Host.Command.{
  AfCommand, Env, Files, Output, Created, created, failed, layout, get_file_size, get_nr_blocks,
  get_block, extract_blocks, issd_create_cmd,
}
use issd.Host.Command.File.{some→≡, Carries, Fitting}
use issd.Host.Command.Create.{CarriesOutput, issd_create_cmd-copies, issd_create_cmd-merges}

abbrev env : Env
env = record { fs_blksize = 1024; fs_blkbits = 10; part_start = 63; max_file_ext_num = 4032 }

-- Every file there has 2000 bytes, in blocks 10 and 11.
abbrev before : Files
before = record { opens = λ f. true; size = λ f. some 2000; fibmap = λ f i. some (10 + i) }

-- The output file gets every other block from 20 on.
abbrev after : Files
after = record { opens = λ f. true; size = λ f. some 2000; fibmap = λ f i. some (20 + 2 * i) }

abbrev output : Output
output = record { creates = λ f. true; allocate = λ f len. some after }

abbrev fresh : ℕ → AfCommand
fresh op = record {
  num_packet = 0;
  op_type = op;
  is_ok = 0;
  num_files = 0;
  file_size = λ i. 0;
  file_ext_offset = λ i. 0;
  file_ext_arr = λ i. record { lba = 0; len = 0 };
}

abbrev command : Created → AfCommand
command (created c) = c
command (failed b) = fresh 0

abbrev made : ℕ → AfCommand
made op = command (issd_create_cmd before output env (fresh op) [] [] [])

made_copy : issd_create_cmd before output env (fresh 0) [] [] [] ≡ created (made 0)
unfolding issd_create_cmd post_process extract_blocks get_nr_blocks get_block
made_copy = refl

made_merge : issd_create_cmd before output env (fresh 1) [] [] [] ≡ created (made 1)
unfolding issd_create_cmd post_process extract_blocks get_nr_blocks get_block
made_merge = refl

before-Fitting : Fitting env before []
unfolding extract_blocks get_nr_blocks get_block
before-Fitting offset blocks e = subst (λ b. Fits (layout env offset) b) (some→≡ e) (omega arith)

after-Fitting : Fitting env after []
unfolding extract_blocks get_nr_blocks get_block
after-Fitting offset blocks e = subst (λ b. Fits (layout env offset) b) (some→≡ e) (omega arith)

allocated-Fitting : (len : ℕ) (fs : Files) → output.allocate [] len ≡ some fs → Fitting env fs []
allocated-Fitting len fs e = subst (λ f. Fitting env f []) (some→≡ e) after-Fitting

issd_create_cmd-copies_example :
    Carries env (made 0) 0 before []
    × CarriesOutput env output (made 0) 1 [] (get_file_size before [])
issd_create_cmd-copies_example =
    issd_create_cmd-copies before output env (fresh 0) [] [] [] (omega arith) (omega arith)
      before-Fitting allocated-Fitting refl made_copy

issd_create_cmd-merges_example :
    Carries env (made 1) 0 before []
    × Carries env (made 1) 1 before []
    × ((len : ℕ) × CarriesOutput env output (made 1) 2 [] len)
issd_create_cmd-merges_example =
    issd_create_cmd-merges before output env (fresh 1) [] [] [] (omega arith) (omega arith)
      before-Fitting allocated-Fitting before-Fitting refl made_merge
