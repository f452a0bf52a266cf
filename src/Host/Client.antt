-- ===== src/Host/Client.antt =====
-- PCModule2/client/issd_Compute_client.c (issd_compute_init, issd_compute_destroy, getNextReqSeq) and
-- atomic.h: the client library's counters.
pub mod Attach
pub mod Sequence
mod Tests
use issd.Base.{
  ℕ, zero, suc, ◌+◌, ◌-◌, ◌%◌, Bool, true, false, List, [], ◌∷◌, ◌==◌, u32, if◌then◌else◌,
}

-- `atomic_cas`: whether the value was `old`, and what it is then.
abbrev pub atomic_cas : ℕ → ℕ → ℕ → Bool × ℕ
atomic_cas counter old new = (counter == old, if counter == old then new else counter)

-- The reference count `issd_init_inv` in its 32 bits, and whether `full` and the other pointers lead
-- into the shared memory.
pub record Client : Type 0 where
  pub issd_init_inv : ℕ
  pub attached : Bool

-- `issd_compute_init`, where `shm_open`, `fstat` and `mmap` all succeed or not: whether it
-- returned 0.
pub issd_compute_init : Bool → Client → Bool × Client
issd_compute_init maps c =
    let (first, inv) = atomic_cas c.issd_init_inv 0 1 in
    if first
    then (maps, record c { issd_init_inv = inv; attached = if maps then true else c.attached })
    else (true, record c { issd_init_inv = (inv + 1) % u32 })

-- `issd_compute_destroy`, which always returns 0.
pub issd_compute_destroy : Client → Client
issd_compute_destroy c =
    let (last, inv) = atomic_cas c.issd_init_inv 1 0 in
    if last
    then record c { issd_init_inv = inv; attached = false }
    else record c { issd_init_inv = (inv + u32 - 1) % u32 }

-- `ATOMIC_MAX_LIMIT`
abbrev pub atomic_max_limit : ℕ
atomic_max_limit = 0xffffff

-- `getNextReqSeq` is two atomic operations on the counter, which other threads' may come between: the
-- `atomic_cas` that sets it back at the limit, and the increment whose result is the number returned.
pub data SeqStep : Type 0 where
  swap : SeqStep
  fetch : SeqStep

pub seq_step : SeqStep → ℕ → ℕ
seq_step swap counter = (atomic_cas counter atomic_max_limit 0).1
seq_step fetch counter = (counter + 1) % u32

-- The operations of all threads, in the order in which they come.
pub seq_steps : List SeqStep → ℕ → ℕ
unfolding seq_step
seq_steps [] counter = counter
seq_steps (step ∷ rest) counter = seq_steps rest (seq_step step counter)
