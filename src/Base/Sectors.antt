-- ===== src/Base/Sectors.antt =====
-- Lists of sector numbers: prefixes, membership, and lists without common members.
use Prim.Native.Nat.{ℕ, zero, suc, ◌+◌, ◌-◌, ◌≤◌}
use mathlib.Core.Path.{◌≡◌, refl, ap, ◌∙◌}
use mathlib.Core.Bool.{Bool, false, ◌||◌}
use mathlib.Core.List.{List, [], ◌∷◌, ◌++◌, append-nil}
use native.Mathlib.Omega.{arith}
use issd.Base.Tests.{leb, ◌==◌, if◌then◌else◌}
use issd.Base.Lists.{length, run_of, length-run_of}

abbrev pub take : ℕ → List ℕ → List ℕ
take zero xs = []
take (suc n) [] = []
take (suc n) (x ∷ xs) = x ∷ take n xs

abbrev pub drop : ℕ → List ℕ → List ℕ
drop zero xs = xs
drop (suc n) [] = []
drop (suc n) (x ∷ xs) = drop n xs

abbrev pub mem : ℕ → List ℕ → Bool
mem q [] = false
mem q (x ∷ xs) = q == x || mem q xs

-- No member of the first list is in the second.
abbrev pub Apart : List ℕ → List ℕ → Type 0
Apart [] ys = Unit
Apart (x ∷ xs) ys = (mem x ys ≡ false) × Apart xs ys

abbrev pub Distinct : List ℕ → Type 0
Distinct [] = Unit
Distinct (x ∷ xs) = (mem x xs ≡ false) × Distinct xs

abbrev pub least : ℕ → ℕ → ℕ
least a b = if leb a b then a else b

pub take-append :
    (n : ℕ) (xs ys : List ℕ) → take n (xs ++ ys) ≡ take n xs ++ take (n - length xs) ys
take-append zero [] ys = refl
take-append zero (x ∷ xs) ys = rw (let e : 0 - suc (length xs) ≡ 0 = omega arith in e) refl
take-append (suc n) [] ys = ap (λ i. take i ys) (let e : suc n ≡ suc n - 0 = omega arith in e)
take-append (suc n) (x ∷ xs) ys =
    let e : suc n - suc (length xs) ≡ n - length xs = omega arith in
    rw e (ap (◌∷◌ x) (take-append n xs ys))

pub drop-append :
    (n : ℕ) (xs ys : List ℕ) → drop n (xs ++ ys) ≡ drop n xs ++ drop (n - length xs) ys
drop-append zero [] ys = refl
drop-append zero (x ∷ xs) ys = rw (let e : 0 - suc (length xs) ≡ 0 = omega arith in e) refl
drop-append (suc n) [] ys = ap (λ i. drop i ys) (let e : suc n ≡ suc n - 0 = omega arith in e)
drop-append (suc n) (x ∷ xs) ys =
    let e : suc n - suc (length xs) ≡ n - length xs = omega arith in rw e (drop-append n xs ys)

-- A sum that is a variable with an equation.
pub take-drop : (m n k : ℕ) (xs : List ℕ) → k ≡ m + n → take k xs ≡ take m xs ++ take n (drop m xs)
take-drop zero n k xs e = ap (λ i. take i xs) (let f : k ≡ n = omega arith in f)
take-drop (suc m) n zero xs e = absurd (omega arith)
take-drop (suc m) zero (suc k) [] e = refl
take-drop (suc m) (suc n) (suc k) [] e = refl
take-drop (suc m) n (suc k) (x ∷ xs) e = ap (◌∷◌ x) (take-drop m n k xs (omega arith))

pub drop-drop : (m n k : ℕ) (xs : List ℕ) → k ≡ m + n → drop n (drop m xs) ≡ drop k xs
drop-drop zero n k xs e = ap (λ i. drop i xs) (let f : n ≡ k = omega arith in f)
drop-drop (suc m) n zero xs e = absurd (omega arith)
drop-drop (suc m) zero (suc k) [] e = refl
drop-drop (suc m) (suc n) (suc k) [] e = refl
drop-drop (suc m) n (suc k) (x ∷ xs) e = drop-drop m n k xs (omega arith)

pub length-take : (n : ℕ) (xs : List ℕ) → length (take n xs) ≡ least n (length xs)
length-take zero xs = ground arith
length-take (suc n) [] = ground arith
length-take (suc n) (x ∷ xs) = ground (arith, length-take n xs)

pub length-drop : (n : ℕ) (xs : List ℕ) → length (drop n xs) ≡ length xs - n
length-drop zero xs = omega arith
length-drop (suc n) [] = omega arith
length-drop (suc n) (x ∷ xs) = omega (arith, length-drop n xs)

pub take-run_of : (k n a : ℕ) → take k (run_of a n) ≡ run_of a (least k n)
take-run_of zero n a = ap (run_of a) (let e : 0 ≡ least 0 n = ground arith in e)
take-run_of (suc k) zero a = ap (run_of a) (let e : 0 ≡ least (suc k) 0 = ground arith in e)
take-run_of (suc k) (suc n) a =
    let e : least (suc k) (suc n) ≡ suc (least k n) = ground arith in
    rw e (ap (◌∷◌ a) (take-run_of k n (a + 1)))

pub drop-run_of : (k n a : ℕ) → drop k (run_of a n) ≡ run_of (a + k) (n - k)
drop-run_of zero n a =
    let e : a ≡ a + 0 = omega arith in
    let f : n ≡ n - 0 = omega arith in ap (λ b. run_of b n) e ∙ ap (run_of (a + 0)) f
drop-run_of (suc k) zero a = ap (run_of (a + suc k)) (let f : 0 ≡ 0 - suc k = omega arith in f)
drop-run_of (suc k) (suc n) a =
    let e : a + 1 + k ≡ a + suc k = omega arith in
    let f : n - k ≡ suc n - suc k = omega arith in
    drop-run_of k n (a + 1) ∙ ap (λ b. run_of b (n - k)) e ∙ ap (run_of (a + suc k)) f

pub mem-append : (q : ℕ) (xs ys : List ℕ) → mem q (xs ++ ys) ≡ (mem q xs || mem q ys)
mem-append q [] ys = refl
mem-append q (x ∷ xs) ys = ground (arith, mem-append q xs ys)

pub mem-take : (q n : ℕ) (xs : List ℕ) → mem q xs ≡ false → mem q (take n xs) ≡ false
mem-take q zero xs h = refl
mem-take q (suc n) [] h = refl
mem-take q (suc n) (x ∷ xs) h = ground (arith, mem-take q n xs)

pub mem-drop : (q n : ℕ) (xs : List ℕ) → mem q xs ≡ false → mem q (drop n xs) ≡ false
mem-drop q zero xs h = h
mem-drop q (suc n) [] h = refl
mem-drop q (suc n) (x ∷ xs) h = mem-drop q n xs (ground arith)

pub Apart-take : (n : ℕ) (xs ys : List ℕ) → Apart xs ys → Apart xs (take n ys)
Apart-take n [] ys a = tt
Apart-take n (x ∷ xs) ys (h, a) = (mem-take x n ys h, Apart-take n xs ys a)

pub Apart-drop : (n : ℕ) (xs ys : List ℕ) → Apart xs ys → Apart xs (drop n ys)
Apart-drop n [] ys a = tt
Apart-drop n (x ∷ xs) ys (h, a) = (mem-drop x n ys h, Apart-drop n xs ys a)

pub take-Apart : (n : ℕ) (xs ys : List ℕ) → Apart xs ys → Apart (take n xs) ys
take-Apart zero xs ys a = tt
take-Apart (suc n) [] ys a = tt
take-Apart (suc n) (x ∷ xs) ys (h, a) = (h, take-Apart n xs ys a)

pub append-Apart : (xs ys zs : List ℕ) → Apart (xs ++ ys) zs → Apart xs zs × Apart ys zs
append-Apart [] ys zs a = (tt, a)
append-Apart (x ∷ xs) ys zs (h, a) = let (b, c) = append-Apart xs ys zs a in ((h, b), c)

pub Distinct-append : (xs ys : List ℕ) → Distinct (xs ++ ys) → Distinct ys × Apart xs ys
Distinct-append [] ys d = (d, tt)
Distinct-append (x ∷ xs) ys (h, d) =
    let (e, a) = Distinct-append xs ys d in (e, (ground (arith, mem-append x xs ys), a))

pub Distinct-drop :
    (n : ℕ) (xs : List ℕ) → Distinct xs → Distinct (drop n xs) × Apart (take n xs) (drop n xs)
Distinct-drop zero xs d = (d, tt)
Distinct-drop (suc n) [] d = (tt, tt)
Distinct-drop (suc n) (x ∷ xs) (h, d) =
    let (e, a) = Distinct-drop n xs d in (e, (mem-drop x n xs h, a))

-- A prefix of a run and what follows it, on either side of the run's end.
pub take-past :
    (k n a : ℕ) (ys : List ℕ) → n ≤ k → take k (run_of a n ++ ys) ≡ run_of a n ++ take (k - n) ys
take-past k n a ys le =
    let e : least k n ≡ n = ground arith in
    rw (take-append k (run_of a n) ys, take-run_of k n a, e, length-run_of a n) refl

pub drop-past : (k n a : ℕ) (ys : List ℕ) → n ≤ k → drop k (run_of a n ++ ys) ≡ drop (k - n) ys
drop-past k n a ys le =
    let e : n - k ≡ 0 = omega arith in
    rw (drop-append k (run_of a n) ys, drop-run_of k n a, e, length-run_of a n) refl

pub take-inside : (k n a : ℕ) (ys : List ℕ) → k ≤ n → take k (run_of a n ++ ys) ≡ run_of a k
take-inside k n a ys le =
    let e : least k n ≡ k = ground arith in
    let f : k - n ≡ 0 = omega arith in
    rw (take-append k (run_of a n) ys, take-run_of k n a, e, length-run_of a n, f)
      (append-nil (run_of a k))

pub drop-inside :
    (k n a : ℕ) (ys : List ℕ) → k ≤ n → drop k (run_of a n ++ ys) ≡ run_of (a + k) (n - k) ++ ys
drop-inside k n a ys le =
    let f : k - n ≡ 0 = omega arith in
    rw (drop-append k (run_of a n) ys, drop-run_of k n a, length-run_of a n, f) refl

pub take-nil : (n : ℕ) → take n [] ≡ []
take-nil zero = refl
take-nil (suc n) = refl
