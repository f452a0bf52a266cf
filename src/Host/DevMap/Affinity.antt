-- ===== src/Host/DevMap/Affinity.antt =====
-- reqPRoutine.c, getProcessRoutineIdx: a device keeps its thread.
use issd.Base.{
  ℕ, suc, ◌%◌, ◌≤◌, ◌<◌, ◌≡◌, refl, sym, ap, subst, ◌∙◌, Bool, true, false, not, ◌&&◌, ◌||◌, Option,
  none, some, List, [], ◌∷◌, arith, if◌then◌else◌, ◌↔◌, inl, inr, Option-cases,
}
use issd.Base.Names.{Name}
use issd.Host.DevMap.{
  DevMap, Search, found, missing, mark, claim, refresh, real_dev, settle, get_process_routine_idx,
  alarm_handler,
}
use issd.Host.DevMap.Slots.{
  slot, free_slot, accessed, search_result, search_dev-result, slot-mark, accessed-mark,
  accessed-mark-slot, slot-claim_self, slot-claim, slot-refresh,
}

-- What the server does to the table: a request for a device, or the hourly signal.
pub data Event : Type 0 where
  request : Name → Event
  alarm : Event

pub after_event : DevMap → Event → DevMap
after_event s (request devname) = (get_process_routine_idx s (some devname)).1
after_event s alarm = alarm_handler s

pub after_events : DevMap → List Event → DevMap
after_events s [] = s
after_events s (e ∷ es) = after_events (after_event s e) es

abbrev pub alarms : List Event → ℕ
alarms [] = 0
alarms (request d ∷ es) = alarms es
alarms (alarm ∷ es) = suc (alarms es)

-- Whether an entry survives the next refresh, and one more signal if there is one to spare.
abbrev survives : Bool → Bool → Bool → Bool
survives true timer flag = not timer && flag
survives false timer flag = not timer || flag

record Holds (dev : Name) (j : ℕ) (spare : Bool) (s : DevMap) : Type 0 where
  in_slot : slot dev s.dev2thd ≡ some j
  kept : survives spare s.timer_expired (accessed dev s.dev2thd) ≡ true

settle-outcome :
    (s : DevMap) (devname : Name)
    → get_process_routine_idx s (some devname) ≡ (
        let t = refresh s in
        let dev = real_dev devname in
        settle t dev (search_result (slot dev t.dev2thd) (free_slot t.dev2thd)))
unfolding get_process_routine_idx
settle-outcome s devname =
    ap (settle (refresh s) (real_dev devname))
      (search_dev-result (real_dev devname) (refresh s).dev2thd)

refresh-Holds :
    (dev : Name) (j : ℕ) (spare : Bool) (s : DevMap)
    → Holds dev j spare s
    → Holds dev j spare (refresh s) × ((refresh s).timer_expired ≡ false)
unfolding refresh
refresh-Holds dev j true s h = ground (arith, slot-refresh dev s.dev2thd j)
refresh-Holds dev j false s h = ground (arith, slot-refresh dev s.dev2thd j)

pub refresh-calm : (s : DevMap) → (refresh s).timer_expired ≡ false
unfolding refresh
refresh-calm s = ground arith

module _ (s : DevMap) (dev : Name) where
  -- The entry that a request for `dev` leaves.
  settle_self :
      {i : ℕ} {t : DevMap}
      → s.timer_expired ≡ false
      → settle s dev (search_result (slot dev s.dev2thd) (free_slot s.dev2thd)) ≡ (some i, t)
      → (j : ℕ) × (i ≡ j % s.num_process_routine)
        × Holds dev j true t
        × (t.num_process_routine ≡ s.num_process_routine)
  unfolding settle
  settle_self {i} {t} calm r = elim (Option-cases (slot dev s.dev2thd)) [
    | inl no_slot ↦ elim (Option-cases (free_slot s.dev2thd)) [
      | inl full ↦ absurd (ground arith)
      | inr (k, free) ↦
          (k, ground arith, ground (arith, slot-claim_self dev s.dev2thd k), ground arith)
    ]
    | inr (k, at) ↦ (
      k,
      ground arith,
      ground (arith, slot-mark dev s.dev2thd k, accessed-mark-slot dev s.dev2thd k),
      ground arith,
    )
  ]

  settle-Holds :
      (other : Name) (j : ℕ) (spare : Bool)
      → Holds dev j spare s
      → Holds dev j spare
          (settle s other (search_result (slot other s.dev2thd) (free_slot s.dev2thd))).1
  unfolding settle
  settle-Holds other j spare h = elim (Option-cases (slot other s.dev2thd)) [
    | inl no_slot ↦ elim (Option-cases (free_slot s.dev2thd)) [
      | inl full ↦ rw (no_slot, full, settle) h
      | inr (k, free) ↦ rw (no_slot, free, settle) (claimed k no_slot free spare h)
    ]
    | inr (k, at) ↦ rw (at, settle) (marked k spare h)
  ]
    where
      claimed :
          (k : ℕ)
          → slot other s.dev2thd ≡ none
          → free_slot s.dev2thd ≡ some k
          → (sp : Bool) → Holds dev j sp s
          → Holds dev j sp (record s { dev2thd = claim s.dev2thd k other })
      claimed k no_slot free true h = ground (arith, slot-claim dev other s.dev2thd k j)
      claimed k no_slot free false h = ground (arith, slot-claim dev other s.dev2thd k j)

      marked :
          (k : ℕ) (sp : Bool)
          → Holds dev j sp s
          → Holds dev j sp (record s { dev2thd = mark s.dev2thd k })
      marked k true h = ground (arith, slot-mark dev s.dev2thd k, accessed-mark dev s.dev2thd k)
      marked k false h = ground (arith, slot-mark dev s.dev2thd k, accessed-mark dev s.dev2thd k)

num_process_routine-settle :
    (s : DevMap) (dev : Name) (r : Search)
    → (settle s dev r).1.num_process_routine ≡ s.num_process_routine
unfolding settle
num_process_routine-settle s dev (found i) = refl
num_process_routine-settle s dev (missing none) = refl
num_process_routine-settle s dev (missing (some i)) = refl

num_process_routine-refresh : (s : DevMap) → (refresh s).num_process_routine ≡ s.num_process_routine
unfolding refresh
num_process_routine-refresh s = ground arith

-- The number of threads never changes.
pub num_process_routine-after_event :
    (s : DevMap) (e : Event) → (after_event s e).num_process_routine ≡ s.num_process_routine
unfolding after_event get_process_routine_idx alarm_handler
num_process_routine-after_event s (request d) =
    num_process_routine-settle _ _ _ ∙ num_process_routine-refresh s
num_process_routine-after_event s alarm = refl

-- A request keeps an entry's hold, and a signal uses up the one to spare.
after_event-Holds :
    (dev : Name) (j : ℕ) (spare : Bool) (s : DevMap) (d : Name)
    → Holds dev j spare s
    → Holds dev j spare (after_event s (request d))
unfolding after_event
after_event-Holds dev j spare s d h =
    let h' = refresh-Holds dev j spare s h in
    subst (λ (r : Option ℕ × DevMap). Holds dev j spare r.1) (sym (settle-outcome s d))
      (settle-Holds (refresh s) dev (real_dev d) j spare h'.0)

alarm-Holds :
    (dev : Name) (j : ℕ) (s : DevMap) → Holds dev j true s → Holds dev j false (after_event s alarm)
unfolding after_event alarm_handler
alarm-Holds dev j s h = ground arith

after_events-slot :
    (dev : Name) (j : ℕ) (spare : Bool) (s : DevMap) (es : List Event)
    → Holds dev j spare s
    → alarms es ≤ (if spare then 1 else 0)
    → Holds dev j false (after_events s es)
      × ((after_events s es).num_process_routine ≡ s.num_process_routine)
unfolding after_events
after_events-slot dev j true s [] h b = (ground arith, refl)
after_events-slot dev j false s [] h b = (h, refl)
after_events-slot dev j spare s (request d ∷ es) h b =
    let (k, n) = after_events-slot dev j spare _ es (after_event-Holds dev j spare s d h) b in
    (k, n ∙ num_process_routine-after_event s (request d))
after_events-slot dev j false s (alarm ∷ es) h b = absurd (omega arith)
after_events-slot dev j true s (alarm ∷ es) h b =
    let (k, n) = after_events-slot dev j false _ es (alarm-Holds dev j s h) (omega arith) in
    (k, n ∙ num_process_routine-after_event s alarm)

request-Holds :
    (s : DevMap) (devname : Name) (j : ℕ)
    → Holds (real_dev devname) j false s
    → (get_process_routine_idx s (some devname)).0 ≡ some (j % s.num_process_routine)
request-Holds s devname j h =
    let h' = refresh-Holds (real_dev devname) j false s h in
    rw (settle-outcome s devname, h'.0.in_slot)
      (unfold settle in (rw num_process_routine-refresh refl))

-- A device keeps its thread: once a request for it was given thread i, another request for the same
-- device (any partition of it that `real_dev` maps to the same name) is given thread i, after any
-- requests for any devices in between and at most one expiry of the hourly timer.
pub device-keeps_thread :
    (s : DevMap) (devname again : Name) (i : ℕ) (es : List Event)
    → (get_process_routine_idx s (some devname)).0 ≡ some i
    → real_dev again ≡ real_dev devname
    → alarms es ≤ 1
    → (get_process_routine_idx (after_events (after_event s (request devname)) es) (some again)).0
      ≡ some i
unfolding after_event
device-keeps_thread s devname again i es r same few =
    let t = after_event s (request devname) in
    let now : settle (refresh s) dev
          (search_result (slot dev (refresh s).dev2thd) (free_slot (refresh s).dev2thd))
        ≡ (some i, t) =
      sym (settle-outcome s devname) ∙ (λ k. (r k, (get_process_routine_idx s (some devname)).1)) in
    let (j, at, holds, n) = settle_self (refresh s) dev (refresh-calm s) now in
    let (kept, n') = after_events-slot dev j true t es holds few in
    let found_again =
      request-Holds (after_events t es) again j
        (subst (λ d. Holds d j false (after_events t es)) (sym same) kept) in
    found_again ∙ ap some (ap (λ m. j % m) (n' ∙ n) ∙ sym at)
  where
    dev : Name
    dev = real_dev devname

-- A thread index that the table hands out is below the number of threads, if there are threads.
pub get_process_routine_idx-lt :
    (s : DevMap) (devname : Name) {i : ℕ}
    → 0 < s.num_process_routine
    → (get_process_routine_idx s (some devname)).0 ≡ some i
    → i < s.num_process_routine
get_process_routine_idx-lt s devname {i} pos r =
    let now =
      sym (settle-outcome s devname) ∙ (λ k. (r k, (get_process_routine_idx s (some devname)).1)) in
    let (j, at, holds, n) = settle_self (refresh s) (real_dev devname) (refresh-calm s) now in
    let m : (refresh s).num_process_routine ≡ s.num_process_routine =
      num_process_routine-refresh s in
    let below : j % (refresh s).num_process_routine < s.num_process_routine = rw m (grind arith) in
    subst (λ (k : ℕ). k < s.num_process_routine) (sym at) below

-- The table refuses a device exactly where, after the refresh, no used entry has its name and every
-- entry is used.
pub get_process_routine_idx-none :
    (s : DevMap) (devname : Name)
    → ((get_process_routine_idx s (some devname)).0 ≡ none) ↔ (
        (slot (real_dev devname) (refresh s).dev2thd ≡ none)
        × (free_slot (refresh s).dev2thd ≡ none))
unfolding settle
get_process_routine_idx-none s devname = rw (settle-outcome s devname) (
    settle-none (refresh s) (real_dev devname) (slot (real_dev devname) (refresh s).dev2thd)
      (free_slot (refresh s).dev2thd))
  where
    settle-none :
        (t : DevMap) (dev : Name) (a b : Option ℕ)
        → ((settle t dev (search_result a b)).0 ≡ none) ↔ ((a ≡ none) × (b ≡ none))
    settle-none t dev none none = (λ h. (refl, refl), λ h. refl)
    settle-none t dev none (some i) = (λ h. absurd (ground arith), λ h. absurd (ground arith))
    settle-none t dev (some i) b = (λ h. absurd (ground arith), λ h. absurd (ground arith))
