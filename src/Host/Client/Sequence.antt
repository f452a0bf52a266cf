-- ===== src/Host/Client/Sequence.antt =====
-- issd_Compute_client.c (getNextReqSeq): two threads of a process at the limit of the numbers.
use issd.Base.{ℕ, suc, ◌+◌, ◌-◌, ◌%◌, ◌<◌, ◌≡◌, ◌∙◌, false, List, [], ◌∷◌, ◌==◌, u32, arith}
use issd.Host.Client.{SeqStep, swap, fetch, seq_step, seq_steps, atomic_max_limit}

-- How many of the steps return a number.
abbrev pub fetches : List SeqStep → ℕ
fetches [] = 0
fetches (swap ∷ rest) = fetches rest
fetches (fetch ∷ rest) = suc (fetches rest)

-- Past the limit the comparison with the limit always fails.
seq_steps-past :
    (steps : List SeqStep) (counter : ℕ)
    → atomic_max_limit < counter
    → counter + fetches steps < u32
    → seq_steps steps counter ≡ counter + fetches steps
unfolding seq_steps seq_step
seq_steps-past [] counter past fit = omega arith
seq_steps-past (swap ∷ rest) counter past fit =
    let other : (counter == atomic_max_limit) ≡ false = ground arith in
    rw other (seq_steps-past rest counter past fit)
seq_steps-past (fetch ∷ rest) counter past fit =
    let next : (counter + 1) % u32 ≡ counter + 1 = omega arith in
    rw next (seq_steps-past rest (counter + 1) (omega arith) (omega arith) ∙ omega arith)

-- When two threads both compare the counter with the limit while it is one below, and then both
-- increment it, it passes the limit, and it does not come back: whatever steps of getNextReqSeq follow,
-- each number is one more than the last, up to the end of 32 bits.
pub seq_steps-overrun :
    (steps : List SeqStep)
    → atomic_max_limit + 1 + fetches steps < u32
    → seq_steps (swap ∷ swap ∷ fetch ∷ fetch ∷ steps) (atomic_max_limit - 1)
      ≡ atomic_max_limit + 1 + fetches steps
unfolding seq_steps seq_step
seq_steps-overrun steps fit = seq_steps-past steps (atomic_max_limit + 1) (omega arith) fit
