-- ===== src/Base/Lists.antt =====
-- Lists measured and indexed by native numbers, and runs of consecutive numbers.
use Prim.Native.Nat.{ℕ, zero, suc, ◌+◌}
use mathlib.Core.Path.{◌≡◌, refl, ap, ap₂}
use mathlib.Core.List.{List, [], ◌∷◌, ◌++◌}
use mathlib.Core.Option.{Option, none, some}
use native.Mathlib.Omega.{arith}

module _ {ℓ} {A : Type ℓ} where
  abbrev pub length : List A → ℕ
  length [] = 0
  length (x ∷ xs) = suc (length xs)

  abbrev pub get_elem? : List A → ℕ → Option A
  get_elem? [] i = none
  get_elem? (x ∷ xs) zero = some x
  get_elem? (x ∷ xs) (suc i) = get_elem? xs i

  -- A write out of bounds changes nothing.
  abbrev pub set : List A → ℕ → A → List A
  set [] i v = []
  set (x ∷ xs) zero v = v ∷ xs
  set (x ∷ xs) (suc i) v = x ∷ set xs i v

  pub length-append : (xs ys : List A) → length (xs ++ ys) ≡ length xs + length ys
  length-append [] ys = omega arith
  length-append (x ∷ xs) ys = omega (arith, length-append xs ys)

-- The `n` numbers from `a` on: a run of sectors or blocks.
abbrev pub run_of : ℕ → ℕ → List ℕ
run_of a zero = []
run_of a (suc n) = a ∷ run_of (a + 1) n

-- The end and the total are variables with equations, since sums at variables are stuck.
pub run_of-append :
    (a m n : ℕ) (b k : ℕ) → b ≡ a + m → k ≡ m + n → run_of a k ≡ run_of a m ++ run_of b n
run_of-append a zero n b k p q =
    ap₂ run_of (let e : a ≡ b = omega arith in e) (let e : k ≡ n = omega arith in e)
run_of-append a (suc m) n b zero p q = absurd (omega arith)
run_of-append a (suc m) n b (suc k) p q =
    ap (◌∷◌ a) (run_of-append (a + 1) m n b k (omega arith) (omega arith))

pub length-run_of : (a n : ℕ) → length (run_of a n) ≡ n
length-run_of a zero = refl
length-run_of a (suc n) = ap suc (length-run_of (a + 1) n)
