-- ===== src/Host/Compute/Ending.antt =====
-- issd_compute.c (issd_waitFinish, issd_compute): how an operation ends.
use issd.Base.{
  ℕ, zero, suc, ◌+◌, ◌-◌, ◌*◌, ◌<◌, ◌≡◌, ◌≢◌, refl, ap, ◌∙◌, Bool, true, not, Option, none, some,
  ◌==◌, arith, Bool-cases, Option-cases, inl, inr, ◌⊎◌, subst, ne→not-==,
}
use issd.Base.Names.{Name}
use issd.Host.SataCom.{sata_write_buffer}
use issd.Host.Command.{AfCommand, Created, created, failed, issd_create_cmd}
use issd.Host.Compute.{
  Machine, poll, issd_wait_finish, Outcome, env_of, empty_command, size_of_command, size_of_ext,
  run_command, issd_compute,
}

-- An answer that is not the last: the device is still at work.
abbrev pub Pending : Option AfCommand → Type 0
Pending a = (c : AfCommand) × (a ≡ some c) × (c.is_ok ≡ 0)

poll-first :
    (n m k : ℕ) (answers : ℕ → Option AfCommand) (c : AfCommand)
    → ((i : ℕ) → i < m → Pending (answers (k + i)))
    → answers (k + m) ≡ some c
    → c.is_ok ≢ 0
    → m < n
    → poll n answers k ≡ some (some c)
unfolding poll
poll-first zero m k answers c pending last ok h = absurd (omega arith)
poll-first (suc n) zero k answers c pending last ok h =
    let here : answers k ≡ some c = ap answers (omega arith) ∙ last in
    rw (here, ne→not-== c.is_ok 0 ok, poll) refl
poll-first (suc n) (suc m) k answers c pending last ok h =
    let (d, e, z) = pending 0 (omega arith) in
    let here : answers k ≡ some d = ap answers (omega arith) ∙ e in
    let busy : (d.is_ok == 0) ≡ true = ground arith in
    rw (here, busy, poll)
      (poll-first n m (k + 1) answers c
        (λ i lt. subst (λ j. Pending (answers j)) (omega arith) (pending (i + 1) (omega arith)))
        (ap answers (omega arith) ∙ last) ok (omega arith))

-- When the device answers `m` times that it is still at work and then that it has finished,
-- `issd_waitFinish` (with memory for its buffer, and waiting for more than `m` answers) returns with
-- that last answer in the command, whose extents it keeps.
pub issd_wait_finish-first :
    (n m : ℕ) (env : Machine) (cmd c : AfCommand)
    → env.allocates_buffer ≡ true
    → ((i : ℕ) → i < m → Pending (env.read_buffer i))
    → env.read_buffer m ≡ some c
    → c.is_ok ≢ 0
    → m < n
    → issd_wait_finish n env cmd ≡ some (some (record c { file_ext_arr = cmd.file_ext_arr }))
unfolding issd_wait_finish
issd_wait_finish-first n m env cmd c memory pending last ok h =
    let p =
      poll-first n m 0 env.read_buffer c
        (λ i lt. subst (λ j. Pending (env.read_buffer j)) (omega arith) (pending i lt))
        (ap env.read_buffer (omega arith) ∙ last) ok h in
    rw (memory, p, issd_wait_finish) refl

some→≡ : {A : Type 0} {a b : A} → some a ≡ some b → a ≡ b
some→≡ h = cc

none≢some : {A : Type 0} {a : A} → none ≡ some a → ⊥
none≢some h = cc

-- Either it succeeded or the output file is removed.
abbrev pub Settled : Outcome → Type 0
Settled o = o.unlinked ≡ not o.ok

run_command-Settled :
    (n : ℕ) (env : Machine) (cmd : AfCommand) (ofname : Name) {o : Outcome}
    → run_command n env cmd ofname ≡ some o
    → Settled o
unfolding run_command
run_command-Settled n env cmd ofname e =
    let size = size_of_command + size_of_ext * cmd.file_ext_offset cmd.num_files in
    elim (Bool-cases (sata_write_buffer env.system (env.bytes cmd) size).ok) [
      | inr unsent ↦ subst Settled (some→≡ (rw (unsent, run_command) at e)) refl
      | inl sent ↦ elim (Option-cases (issd_wait_finish n env cmd)) [
        | inl late ↦ absurd (none≢some (rw (sent, late, run_command) at e))
        | inr (none, broken) ↦ subst Settled (some→≡ (rw (sent, broken, run_command) at e)) refl
        | inr (some c, finished) ↦
            elim (Bool-cases (env.truncates ofname (c.file_size (c.num_files - 1)))) [
              | inl cut ↦ subst Settled (some→≡ (rw (sent, finished, cut, run_command) at e)) refl
              | inr uncut ↦
                  subst Settled (some→≡ (rw (sent, finished, uncut, run_command) at e)) refl
            ]
      ]
    ]

-- When the device, the input file and memory are there and `issd_compute` returns, it returns -1
-- exactly where it removes the output file, whether or not it was this operation that made the file.
pub issd_compute-Settled :
    (n : ℕ) (env : Machine) (op_type part_start blksize : ℕ)
    (ifname va_ifname ofname devname : Name) {o : Outcome}
    → env.geometry devname ≡ some part_start
    → env.st_blksize ifname ≡ some blksize
    → env.allocates_cmd ≡ true
    → issd_compute n env op_type ifname va_ifname ofname devname ≡ some o
    → Settled o
unfolding issd_compute
issd_compute-Settled n env op_type part_start blksize ifname va_ifname ofname devname g b a e =
    elim (Created-cases (
      issd_create_cmd env.files env.output (env_of env part_start blksize) (empty_command op_type)
        ifname va_ifname ofname)) [
          | inl (u, bad) ↦ subst Settled (some→≡ (rw (g, b, a, bad, issd_compute) at e)) refl
          | inr (cmd, made) ↦
              run_command-Settled n env cmd ofname (rw (g, b, a, made, issd_compute) at e)
        ]
  where
    Created-cases :
        (c : Created) → ((u : Bool) × (c ≡ failed u)) ⊎ ((cmd : AfCommand) × (c ≡ created cmd))
    Created-cases (failed u) = inl (u, refl)
    Created-cases (created cmd) = inr (cmd, refl)
