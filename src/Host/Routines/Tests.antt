-- ===== src/Host/Routines/Tests.antt =====
-- A server with one thread, and the theorems at it.
use mathlib.Core.List.{Perm}
use issd.Base.{ℕ, ◌≡◌, ◌↔◌, refl, true, false, none, some, List, [], ◌∷◌, ◌++◌, arith}
use issd.Base.Names.{same_name}
use issd.Host.DevMap.{init_dev2routine, real_dev, refresh, get_process_routine_idx}
use issd.Host.DevMap.Slots.{slot, free_slot}
use issd.Host.Routines.{
  Packet, Routine, Server, Action, dispatch, take, finish, acts, dispatch_req_packet,
}
use issd.Host.Routines.Conserve.{known, dispatched, acts-known}
use issd.Host.Routines.Fifo.{arrive, round, turns, all_started, turns-order, dispatch-none}

abbrev packet : ℕ → Packet
packet seq = record {
  ifname = [];
  ofname = [];
  devname = 47 ∷ 100 ∷ 101 ∷ 118 ∷ 47 ∷ 115 ∷ 100 ∷ 98 ∷ [];
  op_type = 0;
  req_pid = 7;
  req_seq = seq;
}

abbrev idle : Routine
idle = record { shutdown = false; req_queue = []; running = none; exited = false }

abbrev server : Server
unfolding init_dev2routine
server = record { map = init_dev2routine 1; routines = idle ∷ []; answers = [] }

abbrev busy : Routine
busy = record { shutdown = false; req_queue = packet 2 ∷ []; running = none; exited = false }

abbrev script : List Action
script = dispatch true (packet 1) ∷ dispatch true (packet 2) ∷ take 0 ∷ finish 0 true ∷ []

acts-known_example : Perm (packet 1 ∷ packet 2 ∷ []) (dispatched script ++ known server)
unfolding init_dev2routine acts get_process_routine_idx same_name
acts-known_example =
    acts-known server script
      {t = record {
        map =
            (get_process_routine_idx
              (get_process_routine_idx (init_dev2routine 1) (some (packet 1).devname)).1
              (some (packet 2).devname)).1;
        routines = busy ∷ [];
        answers = (packet 1, true) ∷ [];
      }}
      refl

turns-order_example :
    all_started idle (arrive true (packet 1) ∷ round ∷ [])
      ++ (turns idle (arrive true (packet 1) ∷ round ∷ [])).req_queue
    ≡ packet 1 ∷ []
turns-order_example = turns-order idle (arrive true (packet 1) ∷ round ∷ [])

dispatch-none_example : (dispatch_req_packet true (packet 1) server ≡ none) ↔ (
    (true ≡ true)
    × (slot (real_dev (packet 1).devname) (refresh server.map).dev2thd ≡ none)
    × (free_slot (refresh server.map).dev2thd ≡ none))
unfolding init_dev2routine
dispatch-none_example = dispatch-none true (packet 1) server (omega arith) refl
