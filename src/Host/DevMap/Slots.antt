-- ===== src/Host/DevMap/Slots.antt =====
-- reqPRoutine.c: the entry that holds a device, and how the steps of the search move it.
use issd.Base.{
  ℕ, zero, suc, ◌+◌, ◌≡◌, refl, ap, ◌∙◌, Bool, true, false, ◌&&◌, Option, none, some, List, [], ◌∷◌,
  map, arith, if◌then◌else◌,
}
use issd.Base.Names.{Name, same_name, same_name_refl, same_name→≡}
use issd.Host.DevMap.{DevEntry, Search, found, missing, search_dev, mark, claim, refresh_entry}

abbrev pub next : Option ℕ → Option ℕ
next none = none
next (some i) = some (suc i)

-- The first used entry with the name.
pub slot : Name → List DevEntry → Option ℕ
slot dev [] = none
slot dev (e ∷ es) = if e.used && same_name e.devname dev then some 0 else next (slot dev es)

-- The first unused entry.
pub free_slot : List DevEntry → Option ℕ
free_slot [] = none
free_slot (e ∷ es) = if e.used then next (free_slot es) else some 0

abbrev offset_by : ℕ → Option ℕ → Option ℕ
offset_by i none = none
offset_by i (some j) = some (i + j)

abbrev or_else : Option ℕ → Option ℕ → Option ℕ
or_else none o = o
or_else (some i) o = some i

abbrev outcome : ℕ → Option ℕ → Option ℕ → Option ℕ → Search
outcome i first_unused none free = missing (or_else first_unused (offset_by i free))
outcome i first_unused (some j) free = found (i + j)

-- Whether the first used entry with the name was accessed since the last refresh.
pub accessed : Name → List DevEntry → Bool
accessed dev [] = false
accessed dev (e ∷ es) = if e.used && same_name e.devname dev then e.flag else accessed dev es

-- The search finds the first used entry with the name, and else the first unused one.
search_dev-outcome :
    (dev : Name) (es : List DevEntry) (i : ℕ) (fu : Option ℕ)
    → search_dev dev es i fu ≡ outcome i fu (slot dev es) (free_slot es)
unfolding search_dev slot free_slot
search_dev-outcome dev [] i none = refl
search_dev-outcome dev [] i (some f) = refl
search_dev-outcome dev (e ∷ es) i none =
    ground
      (arith, search_dev-outcome dev es (i + 1) none, search_dev-outcome dev es (i + 1) (some i))
search_dev-outcome dev (e ∷ es) i (some f) =
    ground (arith, search_dev-outcome dev es (i + 1) (some f))

-- The search from the start.
abbrev pub search_result : Option ℕ → Option ℕ → Search
search_result none free = missing free
search_result (some j) free = found j

pub search_dev-result :
    (dev : Name) (es : List DevEntry)
    → search_dev dev es 0 none ≡ search_result (slot dev es) (free_slot es)
search_dev-result dev es =
    search_dev-outcome dev es 0 none ∙ from_start (slot dev es) (free_slot es)
  where
    from_start : (a b : Option ℕ) → outcome 0 none a b ≡ search_result a b
    from_start none none = refl
    from_start none (some i) = ap (λ k. missing (some k)) (omega arith)
    from_start (some j) b = ap found (omega arith)

pub slot-mark : (dev : Name) (es : List DevEntry) (i : ℕ) → slot dev (mark es i) ≡ slot dev es
unfolding slot mark
slot-mark dev [] i = refl
slot-mark dev (e ∷ es) zero = refl
slot-mark dev (e ∷ es) (suc i) = rw (slot-mark dev es i)

pub accessed-mark :
    (dev : Name) (es : List DevEntry) (i : ℕ)
    → accessed dev es ≡ true
    → accessed dev (mark es i) ≡ true
unfolding accessed mark
accessed-mark dev [] i h = h
accessed-mark dev (e ∷ es) zero h = ground arith
accessed-mark dev (e ∷ es) (suc i) h = ground (arith, accessed-mark dev es i)

pub accessed-mark-slot :
    (dev : Name) (es : List DevEntry) (i : ℕ)
    → slot dev es ≡ some i
    → accessed dev (mark es i) ≡ true
unfolding accessed mark slot
accessed-mark-slot dev [] i h = cc
accessed-mark-slot dev (e ∷ es) zero h = ground (arith)
accessed-mark-slot dev (e ∷ es) (suc i) h = ground (arith, accessed-mark-slot dev es i)

pub slot-claim_self :
    (dev : Name) (es : List DevEntry) (i : ℕ)
    → slot dev es ≡ none
    → free_slot es ≡ some i
    → (slot dev (claim es i dev) ≡ some i) × (accessed dev (claim es i dev) ≡ true)
unfolding slot claim free_slot accessed
slot-claim_self dev [] i h f = cc
slot-claim_self dev (e ∷ es) zero h f = ground (arith, same_name_refl dev)
slot-claim_self dev (e ∷ es) (suc i) h f = ground (arith, slot-claim_self dev es i)

pub slot-claim :
    (dev other : Name) (es : List DevEntry) (i j : ℕ)
    → slot other es ≡ none
    → free_slot es ≡ some i
    → slot dev es ≡ some j
    → (slot dev (claim es i other) ≡ some j) × (accessed dev (claim es i other) ≡ accessed dev es)
unfolding slot claim free_slot accessed
slot-claim dev other [] i j h f s = cc
slot-claim dev other (e ∷ es) zero j h f s = ground (arith, same_name→≡ other dev)
slot-claim dev other (e ∷ es) (suc i) zero h f s = ground (arith)
slot-claim dev other (e ∷ es) (suc i) (suc j) h f s = ground (arith, slot-claim dev other es i j)

pub slot-refresh :
    (dev : Name) (es : List DevEntry) (j : ℕ)
    → slot dev es ≡ some j
    → accessed dev es ≡ true
    → slot dev (map refresh_entry es) ≡ some j
unfolding slot accessed refresh_entry
slot-refresh dev [] j h a = h
slot-refresh dev (e ∷ es) zero h a = ground arith
slot-refresh dev (e ∷ es) (suc j) h a = ground (arith, slot-refresh dev es j)
