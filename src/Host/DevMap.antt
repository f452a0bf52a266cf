-- ===== src/Host/DevMap.antt =====
-- PCModule2/server/reqPRoutine.c (devEntry_t, alarm_handler, init_dev2Routine,
-- getProcessRoutineIdx): the table that gives each device a processing thread.
pub mod Slots
pub mod Affinity
mod Tests
use issd.Base.{
  ℕ, zero, suc, ◌+◌, ◌*◌, ◌%◌, Bool, true, false, not, ◌&&◌, Option, none, some, List, [], ◌∷◌, map,
  ltb, leb, if◌then◌else◌,
}
use issd.Base.Names.{Name, same_name}

-- `devEntry_t`
pub record DevEntry : Type 0 where
  pub devname : Name
  pub used : Bool
  pub flag : Bool

-- `dev2thd` and `timer_expired`. `num_process_routine` is fixed once the threads run.
pub record DevMap : Type 0 where
  pub num_process_routine : ℕ
  pub dev2thd : List DevEntry
  pub timer_expired : Bool

-- `memset(dev2thd, 0, ...)` for that many entries.
pub zeroed : ℕ → List DevEntry
zeroed zero = []
zeroed (suc n) = record { devname = []; used = false; flag = false } ∷ zeroed n

-- `init_dev2Routine`, where `malloc` succeeds.
unfoldable pub init_dev2routine : ℕ → DevMap
unfolding zeroed
init_dev2routine n = record {
  num_process_routine = n;
  dev2thd = zeroed (2 * n);
  timer_expired = false;
}

-- `alarm_handler`
pub alarm_handler : DevMap → DevMap
alarm_handler s = record s { timer_expired = true }

abbrev is_digit : ℕ → Bool
is_digit c = leb b'0' c && leb c b'9'

-- `devname + 5`
abbrev behind_dev : Name → Name
behind_dev (a ∷ b ∷ c ∷ d ∷ e ∷ rest) = rest
behind_dev other = []

-- One digit at the end is cut off.
pub cut_digit : Name → Name
cut_digit [] = []
cut_digit (c ∷ []) = if is_digit c then [] else c ∷ []
cut_digit (c ∷ d ∷ rest) = c ∷ cut_digit (d ∷ rest)

-- `realDev`, for a device name that goes on behind "/dev/".
pub real_dev : Name → Name
unfolding cut_digit
real_dev devname = cut_digit (behind_dev devname)

-- The refresh of one entry after the timer: unused unless accessed, and then not accessed.
pub refresh_entry : DevEntry → DevEntry
refresh_entry e =
    let e' = if e.used && not e.flag then record e { used = false } else e in
    record e' { flag = false }

pub refresh : DevMap → DevMap
unfolding refresh_entry
refresh s =
    if s.timer_expired
    then record s { dev2thd = map refresh_entry s.dev2thd; timer_expired = false }
    else s

-- How the search ends: at an entry, or with `first_unused`.
pub data Search : Type 0 where
  found : ℕ → Search
  missing : Option ℕ → Search

abbrev unset : Option ℕ → Bool
unset none = true
unset (some i) = false

-- The search loop from index `i` on.
pub search_dev : Name → List DevEntry → ℕ → Option ℕ → Search
search_dev dev [] i first_unused = missing first_unused
search_dev dev (e ∷ es) i first_unused = elim (not e.used && unset first_unused) [
  | true ↦ search_dev dev es (i + 1) (some i)
  | false ↦ elim (e.used && same_name e.devname dev) [
    | true ↦ found i
    | false ↦ search_dev dev es (i + 1) first_unused
  ]
]

-- `dev2thd[i].flag = 1`
pub mark : List DevEntry → ℕ → List DevEntry
mark [] i = []
mark (e ∷ es) zero = record e { flag = true } ∷ es
mark (e ∷ es) (suc i) = e ∷ mark es i

-- The new entry at `first_unused`.
pub claim : List DevEntry → ℕ → Name → List DevEntry
claim [] i dev = []
claim (e ∷ es) zero dev = record { devname = dev; used = true; flag = true } ∷ es
claim (e ∷ es) (suc i) dev = e ∷ claim es i dev

-- What follows the search.
pub settle : DevMap → Name → Search → Option ℕ × DevMap
unfolding mark claim
settle s dev (found i) = (some (i % s.num_process_routine), record s { dev2thd = mark s.dev2thd i })
settle s dev (missing none) = (none, s)
settle s dev (missing (some i)) =
    (some (i % s.num_process_routine), record s { dev2thd = claim s.dev2thd i dev })

-- `getProcessRoutineIdx`; `none` is -1, and a null pointer is `none`.
unfoldable pub get_process_routine_idx : DevMap → Option Name → Option ℕ × DevMap
unfolding real_dev refresh search_dev settle
get_process_routine_idx s none = (none, s)
get_process_routine_idx s (some devname) =
    let dev = real_dev devname in
    let s' = refresh s in settle s' dev (search_dev dev s'.dev2thd 0 none)
