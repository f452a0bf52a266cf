-- ===== src/Host/DevMap/Tests.antt =====
-- The device table on two threads, and the theorems at it.
use Prim.Native.Char.{code}
use Prim.Native.String.{String}
use issd.Base.{◌<◌, ◌≡◌, refl, some, [], ◌∷◌, arith}
use issd.Base.Names.{Name, same_name}
use issd.Host.DevMap.{DevMap, init_dev2routine, real_dev, get_process_routine_idx}
use issd.Host.DevMap.Affinity.{
  request, alarm, after_event, after_events, device-keeps_thread, get_process_routine_idx-lt,
}

abbrev name : String → Name
name String.[] = []
name (String.◌∷◌ c s) = code c ∷ name s

abbrev two_threads : DevMap
unfolding init_dev2routine
two_threads = init_dev2routine 2

real_dev-sdb1 : real_dev (name "/dev/sdb1") ≡ name "sdb"
unfolding real_dev
real_dev-sdb1 = refl

-- Of a partition number with two digits one stays.
real_dev-sdb12 : real_dev (name "/dev/sdb12") ≡ name "sdb1"
unfolding real_dev
real_dev-sdb12 = refl

device-keeps_thread_example :
    (get_process_routine_idx
      (after_events
        (after_event two_threads (request (name "/dev/sdb1")))
        (request (name "/dev/sdc") ∷ alarm ∷ request (name "/dev/sdd1") ∷ []))
      (some (name "/dev/sdb2"))).0
    ≡ some 0
unfolding init_dev2routine get_process_routine_idx same_name
device-keeps_thread_example =
    device-keeps_thread two_threads (name "/dev/sdb1") (name "/dev/sdb2") 0
      (request (name "/dev/sdc") ∷ alarm ∷ request (name "/dev/sdd1") ∷ []) refl refl (omega arith)

get_process_routine_idx-lt_example : 0 < 2
unfolding init_dev2routine get_process_routine_idx same_name
get_process_routine_idx-lt_example =
    get_process_routine_idx-lt two_threads (name "/dev/sdb1") (omega arith) refl
