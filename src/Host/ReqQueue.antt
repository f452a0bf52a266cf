-- ===== src/Host/ReqQueue.antt =====
-- PCModule2/server/reqQueue.c (createRQueue, getNextReqPacket) and PCModule2/client/
-- issd_Compute_client.c (sendReqPacket): the queue of requests in shared memory, with clients and
-- server threads that go through its semaphores in any order.
pub mod Window
pub mod Valid
pub mod Order
mod Tests
use issd.Base.{
  ℕ, zero, suc, ◌+◌, ◌-◌, ◌%◌, Bool, true, false, Option, none, some, List, [], ◌∷◌, ◌++◌, ◌==◌,
  update, if◌then◌else◌,
}

-- Who is behind `sem_wait` of a mutex: nobody, or one that has not yet, or has, used the buffer.
pub data Turn : Type 0 where
  nobody : Turn
  entered : Turn
  finished : Turn

-- The shared memory: the semaphores `full` and `empty`, the two mutexes as their holders, the indices
-- and the buffer; how many are between `sem_wait(empty)` and the mutex, between the mutex and
-- `sem_post(full)`, and the same for the readers; and all packets put and taken so far.
pub record RQueue (P : Type 0) : Type 0 where
  pub shm_num_items : ℕ
  pub full : ℕ
  pub empty : ℕ
  pub mutex_producer : Turn
  pub mutex_consumer : Turn
  pub wr_idx : ℕ
  pub rd_idx : ℕ
  pub shared_buffer : ℕ → P
  pub senders : ℕ
  pub posters : ℕ
  pub getters : ℕ
  pub leavers : ℕ
  pub sent : List P
  pub got : List P

-- `createRQueue`, on a buffer with any contents.
abbrev pub create_rqueue : {P : Type 0} → ℕ → (ℕ → P) → RQueue P
create_rqueue n buffer = record {
  shm_num_items = n;
  full = 0;
  empty = n;
  mutex_producer = nobody;
  mutex_consumer = nobody;
  wr_idx = 0;
  rd_idx = 0;
  shared_buffer = buffer;
  senders = 0;
  posters = 0;
  getters = 0;
  leavers = 0;
  sent = [];
  got = [];
}

-- The steps of `sendReqPacket` and of `getNextReqPacket`.
pub data Step (P : Type 0) : Type 0 where
  wait_empty : Step P
  wait_producer : Step P
  put : P → Step P
  post_producer : Step P
  post_full : Step P
  wait_full : Step P
  wait_consumer : Step P
  take : Step P
  post_consumer : Step P
  post_empty : Step P

module _ {P : Type 0} where
  -- `none` where nobody can take that step.
  pub step : RQueue P → Step P → Option (RQueue P)
  step q wait_empty = elim q.empty [
    | zero ↦ none
    | suc k ↦ some (record q { empty = k; senders = q.senders + 1 })
  ]
  step q wait_producer = elim q.senders [
    | zero ↦ none
    | suc k ↦ elim q.mutex_producer [
      | nobody ↦ some (record q { senders = k; mutex_producer = entered })
      | entered ↦ none
      | finished ↦ none
    ]
  ]
  step q (put p) = elim q.mutex_producer [
    | nobody ↦ none
    | entered ↦ some (record q {
      shared_buffer = update q.shared_buffer q.wr_idx p;
      wr_idx = (q.wr_idx + 1) % q.shm_num_items;
      mutex_producer = finished;
      sent = q.sent ++ (p ∷ []);
    })
    | finished ↦ none
  ]
  step q post_producer = elim q.mutex_producer [
    | nobody ↦ none
    | entered ↦ none
    | finished ↦ some (record q { mutex_producer = nobody; posters = q.posters + 1 })
  ]
  step q post_full = elim q.posters [
    | zero ↦ none
    | suc k ↦ some (record q { posters = k; full = q.full + 1 })
  ]
  step q wait_full = elim q.full [
    | zero ↦ none
    | suc k ↦ some (record q { full = k; getters = q.getters + 1 })
  ]
  step q wait_consumer = elim q.getters [
    | zero ↦ none
    | suc k ↦ elim q.mutex_consumer [
      | nobody ↦ some (record q { getters = k; mutex_consumer = entered })
      | entered ↦ none
      | finished ↦ none
    ]
  ]
  step q take = elim q.mutex_consumer [
    | nobody ↦ none
    | entered ↦ some (record q {
      rd_idx = (q.rd_idx + 1) % q.shm_num_items;
      mutex_consumer = finished;
      got = q.got ++ (q.shared_buffer q.rd_idx ∷ []);
    })
    | finished ↦ none
  ]
  step q post_consumer = elim q.mutex_consumer [
    | nobody ↦ none
    | entered ↦ none
    | finished ↦ some (record q { mutex_consumer = nobody; leavers = q.leavers + 1 })
  ]
  step q post_empty = elim q.leavers [
    | zero ↦ none
    | suc k ↦ some (record q { leavers = k; empty = q.empty + 1 })
  ]

  pub steps : RQueue P → List (Step P) → Option (RQueue P)
  unfolding step
  steps q [] = some q
  steps q (a ∷ rest) = elim (step q a) [ none ↦ none | some r ↦ steps r rest ]

-- A call of `sendReqPacket`, and one of `getNextReqPacket`.
abbrev pub send_req_packet : {P : Type 0} → P → List (Step P)
send_req_packet p = wait_empty ∷ wait_producer ∷ put p ∷ post_producer ∷ post_full ∷ []

abbrev pub get_next_req_packet : {P : Type 0} → List (Step P)
get_next_req_packet = wait_full ∷ wait_consumer ∷ take ∷ post_consumer ∷ post_empty ∷ []
