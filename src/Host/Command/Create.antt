-- ===== src/Host/Command/Create.antt =====
-- issd_compute.c (issd_createCmd): the command lists the sectors of its files.
use issd.Base.{
  ℕ, ◌+◌, ◌≤◌, ◌<◌, ◌≡◌, sym, ap, subst, ◌∙◌, Bool, true, false, some, ◌==◌, u32, arith, inl, inr,
  Bool-cases, Option-cases,
}
use issd.Base.Names.{Name}
use issd.Host.Command.File.{
  none≢some, some→≡, Carries, Fitting, Added, add_file-Added, add_file-Carries, Carries-later,
}
use issd.Host.Command.{
  AfCommand, Env, Files, Output, created, failed, get_file_size, add_file, add_inputs, write_length,
  issd_filecopy, issd_merge, issd_create_cmd,
}

-- How the command is made, when it is: the inputs, the files after the allocation, and the output.
record Steps (fs : Files) (out : Output) (env : Env) (cmd : AfCommand)
    (ifname va_ifname ofname : Name) (t : AfCommand) : Type 0 where
  pub inputs : AfCommand
  pub cur : ℕ
  pub after : Files
  pub all : AfCommand
  pub added : add_inputs fs env (record cmd { num_files = 2 }) ifname va_ifname ≡ some (inputs, cur)
  pub allocated : out.allocate ofname (write_length env inputs) ≡ some after
  pub output : add_file after env inputs cur ofname ≡ some all
  pub result : t ≡ record all { is_ok = 0 }

failed≢created : {b : Bool} {c : AfCommand} → failed b ≡ created c → ⊥
failed≢created h = cc

created→≡ : {c d : AfCommand} → created c ≡ created d → c ≡ d
created→≡ h = cc

issd_create_cmd-Steps :
    (fs : Files) (out : Output) (env : Env) (cmd : AfCommand) (ifname va_ifname ofname : Name)
    {t : AfCommand}
    → issd_create_cmd fs out env cmd ifname va_ifname ofname ≡ created t
    → Steps fs out env cmd ifname va_ifname ofname t
unfolding issd_create_cmd
issd_create_cmd-Steps fs out env cmd ifname va_ifname ofname e =
    elim (Option-cases (add_inputs fs env (record cmd { num_files = 2 }) ifname va_ifname)) [
      | inl bad ↦ absurd (failed≢created (rw (bad, issd_create_cmd) at e))
      | inr ((inputs, cur), added) ↦ elim (Bool-cases (out.creates ofname)) [
        | inr closed ↦ absurd (failed≢created (rw (added, closed, issd_create_cmd) at e))
        | inl opened ↦ elim (Option-cases (out.allocate ofname (write_length env inputs))) [
          | inl full ↦ absurd (failed≢created (rw (added, opened, full, issd_create_cmd) at e))
          | inr (after, allocated) ↦ elim (Option-cases (add_file after env inputs cur ofname)) [
            | inl bad ↦
                absurd (failed≢created (rw (added, opened, allocated, bad, issd_create_cmd) at e))
            | inr (all, output) ↦ record {
              inputs = inputs;
              cur = cur;
              after = after;
              all = all;
              added = added;
              allocated = allocated;
              output = output;
              result =
                  sym (created→≡ (rw (added, opened, allocated, output, issd_create_cmd) at e));
            }
          ]
        ]
      ]
    ]

pair→≡ : {A : Type 0} {p q : A × ℕ} → some p ≡ some q → (p.0 ≡ q.0) × (p.1 ≡ q.1)
pair→≡ h = (ap (λ o. o.0) (some→≡ h), ap (λ o. o.1) (some→≡ h))

add_inputs-copy :
    (fs : Files) (env : Env) (cmd u : AfCommand) (cur : ℕ) (ifname va_ifname : Name)
    → cmd.op_type ≡ issd_filecopy
    → add_inputs fs env cmd ifname va_ifname ≡ some (u, cur)
    → Added fs env cmd 0 ifname u × (cur ≡ 1)
unfolding add_inputs
add_inputs-copy fs env cmd u cur ifname va_ifname op e =
    elim (Option-cases (add_file fs env cmd 0 ifname)) [
      | inl bad ↦ absurd (none≢some (rw (bad, add_inputs) at e))
      | inr (c, got) ↦
          let a = add_file-Added fs env cmd 0 ifname got in
          let copy : (c.op_type == issd_merge) ≡ false =
            ap (λ d. d.op_type == issd_merge) a.result ∙ ap (λ o. o == issd_merge) op in
          let (same, one) = pair→≡ (rw (got, copy, add_inputs) at e) in
          (subst (λ d. Added fs env cmd 0 ifname d) same a, sym one)
    ]

add_inputs-merge :
    (fs : Files) (env : Env) (cmd u : AfCommand) (cur : ℕ) (ifname va_ifname : Name)
    → cmd.op_type ≡ issd_merge
    → add_inputs fs env cmd ifname va_ifname ≡ some (u, cur)
    → (c : AfCommand) × Added fs env cmd 0 ifname c
      × Added fs env (record c { num_files = c.num_files + 1 }) 1 va_ifname u
      × (cur ≡ 2)
unfolding add_inputs
add_inputs-merge fs env cmd u cur ifname va_ifname op e =
    elim (Option-cases (add_file fs env cmd 0 ifname)) [
      | inl bad ↦ absurd (none≢some (rw (bad, add_inputs) at e))
      | inr (c, got) ↦
          let a = add_file-Added fs env cmd 0 ifname got in
          let merge : (c.op_type == issd_merge) ≡ true =
            ap (λ d. d.op_type == issd_merge) a.result ∙ ap (λ o. o == issd_merge) op in
          let c' = record c { num_files = c.num_files + 1 } in
          elim (Option-cases (add_file fs env c' 1 va_ifname)) [
            | inl bad ↦ absurd (none≢some (rw (got, merge, bad, add_inputs) at e))
            | inr (d, got') ↦
                let b = add_file-Added fs env c' 1 va_ifname got' in
                let (same, two) = pair→≡ (rw (got, merge, got', add_inputs) at e) in
                (c, a, subst (λ x. Added fs env c' 1 va_ifname x) same b, sym two)
          ]
    ]

Carries-is_ok :
    (env : Env) (cmd t : AfCommand) (i : ℕ) (fs : Files) (fname : Name)
    → t ≡ record cmd { is_ok = 0 }
    → Carries env cmd i fs fname
    → Carries env t i fs fname
Carries-is_ok env cmd t i fs fname e c =
    subst (λ t. Carries env t i fs fname) (sym e)
      (record {
        blocks = c.blocks;
        read = c.read;
        size = c.size;
        forward = c.forward;
        inside = c.inside;
        sectors = c.sectors;
      })

Carries-num_files :
    (env : Env) (cmd : AfCommand) (i : ℕ) (fs : Files) (fname : Name) (n : ℕ)
    → Carries env cmd i fs fname
    → Carries env (record cmd { num_files = n }) i fs fname
Carries-num_files env cmd i fs fname n c = record {
  blocks = c.blocks;
  read = c.read;
  size = c.size;
  forward = c.forward;
  inside = c.inside;
  sectors = c.sectors;
}

-- The output file, after it was allocated with a length.
abbrev pub CarriesOutput : Env → Output → AfCommand → ℕ → Name → ℕ → Type 0
CarriesOutput env out t i ofname len =
    (after : Files) × (out.allocate ofname len ≡ some after) × Carries env t i after ofname

module _ (fs : Files) (out : Output) (env : Env) (cmd : AfCommand) (ifname va_ifname ofname : Name)
    (small : env.max_file_ext_num ≤ u32) (room : cmd.file_ext_offset 0 < env.max_file_ext_num)
    (fit : Fitting env fs ifname)
    (fit_output : (len : ℕ) (after : Files)
      → out.allocate ofname len ≡ some after
      → Fitting env after ofname) where
  -- When `issd_createCmd` succeeds for a file copy, the command's file 0 is the input file and its
  -- file 1 is the output file as it is after the allocation of the input's size: each with its size,
  -- with extents inside the table that list the sectors of its blocks in order, the second behind the
  -- first. The sector numbers are assumed to fit in 32 bits.
  pub issd_create_cmd-copies :
      {t : AfCommand}
      → cmd.op_type ≡ issd_filecopy
      → issd_create_cmd fs out env cmd ifname va_ifname ofname ≡ created t
      → Carries env t 0 fs ifname × CarriesOutput env out t 1 ofname (get_file_size fs ifname)
  issd_create_cmd-copies {t} op e =
      let s = issd_create_cmd-Steps fs out env cmd ifname va_ifname ofname e in
      let cmd' = record cmd { num_files = 2 } in
      let (a, one) = add_inputs-copy fs env cmd' s.inputs s.cur ifname va_ifname op s.added in
      let op' : s.inputs.op_type ≡ issd_filecopy = ap (λ c. c.op_type) a.result ∙ op in
      let copy : (s.inputs.op_type == issd_merge) ≡ false = ap (λ o. o == issd_merge) op' in
      let b : Added s.after env s.inputs 1 ofname s.all =
        add_file-Added s.after env s.inputs 1 ofname
          (subst (λ i. add_file s.after env s.inputs i ofname ≡ some s.all) one s.output) in
      let c = add_file-Carries fs env cmd' s.inputs 0 ifname small room fit a in
      let len : write_length env s.inputs ≡ get_file_size fs ifname = rw copy c.size in
      let d =
        add_file-Carries s.after env s.inputs s.all 1 ofname small c.inside
          (fit_output (write_length env s.inputs) s.after s.allocated) b in
      (
        Carries-is_ok env s.all t 0 fs ifname s.result (
            Carries-later fs s.after env s.inputs s.all 1 0 ifname ofname c.inside (omega arith)
              (omega arith) c b),
        (
          s.after,
          sym (ap (out.allocate ofname) len) ∙ s.allocated,
          Carries-is_ok env s.all t 1 s.after ofname s.result d,
        ),
      )

  -- When `issd_createCmd` succeeds for a merge, files 0 and 1 of the command are the two inputs and
  -- file 2 is the output after its allocation with some length: each with its size, with extents
  -- inside the table that list the sectors of its blocks in order, each behind the one before. The
  -- sector numbers are assumed to fit in 32 bits.
  pub issd_create_cmd-merges :
      {t : AfCommand}
      → Fitting env fs va_ifname
      → cmd.op_type ≡ issd_merge
      → issd_create_cmd fs out env cmd ifname va_ifname ofname ≡ created t
      → Carries env t 0 fs ifname
        × Carries env t 1 fs va_ifname
        × ((len : ℕ) × CarriesOutput env out t 2 ofname len)
  issd_create_cmd-merges {t} fit' op e =
      let s = issd_create_cmd-Steps fs out env cmd ifname va_ifname ofname e in
      let cmd' = record cmd { num_files = 2 } in
      let (first, a, b, two) =
        add_inputs-merge fs env cmd' s.inputs s.cur ifname va_ifname op s.added in
      let b' : Added s.after env s.inputs 2 ofname s.all =
        add_file-Added s.after env s.inputs 2 ofname
          (subst (λ i. add_file s.after env s.inputs i ofname ≡ some s.all) two s.output) in
      let c = add_file-Carries fs env cmd' first 0 ifname small room fit a in
      let first' = record first { num_files = first.num_files + 1 } in
      let c0 = Carries-num_files env first 0 fs ifname (first.num_files + 1) c in
      let c1 =
        Carries-later fs fs env first' s.inputs 1 0 ifname va_ifname c.inside (omega arith)
          (omega arith) c0 b in
      let d1 = add_file-Carries fs env first' s.inputs 1 va_ifname small c.inside fit' b in
      let d2 =
        add_file-Carries s.after env s.inputs s.all 2 ofname small d1.inside
          (fit_output (write_length env s.inputs) s.after s.allocated) b' in
      let forward = d1.forward in
      (
        Carries-is_ok env s.all t 0 fs ifname s.result (
            Carries-later fs s.after env s.inputs s.all 2 0 ifname ofname d1.inside (omega arith)
              (omega arith) c1 b'),
        Carries-is_ok env s.all t 1 fs va_ifname s.result (
            Carries-later fs s.after env s.inputs s.all 2 1 va_ifname ofname d1.inside (omega arith)
              (omega arith) d1 b'),
        (
          write_length env s.inputs,
          (s.after, s.allocated, Carries-is_ok env s.all t 2 s.after ofname s.result d2),
        ),
      )
