-- ===== src/Host/Routines.antt =====
-- PCModule2/server/reqPRoutine.c (threads and their queues), reqPRoutine.h, issd_server.h and
-- reqQueue.c (dispatchReqPacket): the server's threads, each with a queue of requests.
pub mod Conserve
pub mod Fifo
mod Tests
use issd.Base.{
  ℕ, zero, suc, Bool, true, false, not, ◌&&◌, ◌||◌, Option, none, some, List, [], ◌∷◌, ◌++◌,
  if◌then◌else◌,
}
use issd.Base.Lists.{get_elem?, set}
use issd.Base.Names.{Name}
use issd.Host.DevMap.{DevMap, get_process_routine_idx, alarm_handler}

-- `ISSD_ReqPacket_t`
pub record Packet : Type 0 where
  pub ifname : List Name
  pub ofname : Name
  pub devname : Name
  pub op_type : ℕ
  pub req_pid : ℕ
  pub req_seq : ℕ

-- `ISSD_Process_Routine_t`, and what its thread is doing: the request that `pR->routine` works on,
-- and whether the thread has left.
pub record Routine : Type 0 where
  pub shutdown : Bool
  pub req_queue : List Packet
  pub running : Option Packet
  pub exited : Bool

-- The threads, the device table, and the calls of `issd_feedback` so far, the latest
-- first.
pub record Server : Type 0 where
  pub map : DevMap
  pub routines : List Routine
  pub answers : List (Packet × Bool)

-- The walk to the end of the queue and the new member behind it.
pub append_work : List Packet → Packet → List Packet
append_work [] work = work ∷ []
append_work (member ∷ rest) work = member ∷ append_work rest work

-- `addReqWork2Routine` on the routine `pRoutines[idx]`, where `malloc` answers so: whether it
-- returned 0, and the routine.
pub add_req_work2routine : Bool → Packet → Routine → Bool × Routine
unfolding append_work
add_req_work2routine false packet r = (false, r)
add_req_work2routine true packet r = (true, record r { req_queue = append_work r.req_queue packet })

-- `issd_feedback`
pub issd_feedback : Packet → Bool → Server → Server
issd_feedback packet flag s = record s { answers = (packet, flag) ∷ s.answers }

-- `dispatchReqPacket`; `none` is an access outside `pRoutines`, which comes after the `malloc`.
pub dispatch_req_packet : Bool → Packet → Server → Option Server
unfolding add_req_work2routine issd_feedback
dispatch_req_packet malloc_ok packet s =
    let (idx, map) = get_process_routine_idx s.map (some packet.devname) in
    let s' = record s { map = map } in
    let outside = if malloc_ok then none else some (issd_feedback packet false s') in
    elim idx [
      | none ↦ outside
      | some i ↦ elim (get_elem? s.routines i) [
        | none ↦ outside
        | some r ↦
            let (done, r') = add_req_work2routine malloc_ok packet r in
            let s'' = record s' { routines = set s.routines i r' } in
            some (if done then s'' else issd_feedback packet false s'')
      ]
    ]

-- One round of the loop of `thread_routine`, up to the call of `pR->routine`: `none` where the
-- thread waits, is busy or has left.
pub thread_take : Routine → Option Routine
thread_take r = elim r.exited [
  | true ↦ none
  | false ↦ elim r.running [
    | some p ↦ none
    | none ↦ elim r.shutdown [
      | true ↦ some (record r { exited = true })
      | false ↦ elim r.req_queue [
        | [] ↦ none
        | work ∷ rest ↦ some (record r { req_queue = rest; running = some work })
      ]
    ]
  ]
]

-- `issd_compute_routine` returns: the request that it answers, and the idle thread.
pub thread_finish : Routine → Option (Packet × Routine)
thread_finish r = elim r.running [ none ↦ none | some p ↦ some (p, record r { running = none }) ]

-- `destroyProcessRoutine` up to the join.
pub destroy_process_routine : Routine → Routine
destroy_process_routine r = if r.shutdown then r else record r { shutdown = true }

-- What happens to the server, in any order: a request is dispatched, the timer fires, a thread
-- takes a request or leaves, a computation ends with a result, a thread is told to stop.
pub data Action : Type 0 where
  dispatch : Bool → Packet → Action
  timer : Action
  take : ℕ → Action
  finish : ℕ → Bool → Action
  stop : ℕ → Action

pub act : Server → Action → Option Server
unfolding dispatch_req_packet thread_take thread_finish destroy_process_routine issd_feedback
act s (dispatch malloc_ok packet) = dispatch_req_packet malloc_ok packet s
act s timer = some (record s { map = alarm_handler s.map })
act s (take i) = elim (get_elem? s.routines i) [
  | none ↦ none
  | some r ↦ elim (thread_take r) [
    | none ↦ none
    | some r' ↦ some (record s { routines = set s.routines i r' })
  ]
]
act s (finish i ok) = elim (get_elem? s.routines i) [
  | none ↦ none
  | some r ↦ elim (thread_finish r) [
    | none ↦ none
    | some (p, r') ↦ some (issd_feedback p ok (record s { routines = set s.routines i r' }))
  ]
]
act s (stop i) = elim (get_elem? s.routines i) [
  | none ↦ none
  | some r ↦ some (record s { routines = set s.routines i (destroy_process_routine r) })
]

-- `none` where an action is not possible in its state.
pub acts : Server → List Action → Option Server
unfolding act
acts s [] = some s
acts s (a ∷ rest) = elim (act s a) [ none ↦ none | some t ↦ acts t rest ]
