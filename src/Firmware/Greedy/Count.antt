-- ===== src/Firmware/Greedy/Count.antt =====
-- ftl_greedy/ftl.c: the number of the pages of a block that pass a test, which the counts at VCOUNT_ADDR stand for.
use issd.Base.{
  sym, subst, ◌==◌, ==→≡, Bool-cases, inl, inr, ℕ, zero, suc, ◌+◌, ◌<◌, ◌≤◌, ◌≡◌, refl, ap, ap₂,
  ◌∙◌, Bool, true, false, if◌then◌else◌, arith,
}

-- How many of the `n` pages from `i` on pass a test.
unfoldable pub count : (ℕ → Bool) → ℕ → ℕ → ℕ
count test i zero = 0
count test i (suc n) = (if test i then 1 else 0) + count test (i + 1) n

pub count-cong :
    (test test' : ℕ → Bool) (i n : ℕ)
    → ((p : ℕ) → i ≤ p → p < i + n → test p ≡ test' p)
    → count test i n ≡ count test' i n
unfolding count
count-cong test test' i zero h = refl
count-cong test test' i (suc n) h =
    ap₂ (λ t r. (if t then 1 else 0) + r) (h i (omega arith) (omega arith))
      (count-cong test test' (i + 1) n (λ p f b. h p (omega arith) (omega arith)))

pub count-none : (test : ℕ → Bool) (i : ℕ) → count test i 0 ≡ 0
unfolding count
count-none test i = refl

pub count-pass :
    (test : ℕ → Bool) (i n : ℕ) → test i ≡ true → count test i (suc n) ≡ 1 + count test (i + 1) n
unfolding count
count-pass test i n h = rw h refl

pub count-fail :
    (test : ℕ → Bool) (i n : ℕ) → test i ≡ false → count test i (suc n) ≡ count test (i + 1) n
unfolding count
count-fail test i n h = rw h (omega arith)

-- Every page passes.
pub count-all :
    (test : ℕ → Bool) (i n : ℕ) → ((p : ℕ) → i ≤ p → p < i + n → test p ≡ true) → count test i n ≡ n
unfolding count
count-all test i zero h = refl
count-all test i (suc n) h =
    let rest = count-all test (i + 1) n (λ p f b. h p (omega arith) (omega arith)) in
    ap (λ t. (if t then 1 else 0) + count test (i + 1) n) (h i (omega arith) (omega arith))
    ∙ omega arith

pub count-le : (test : ℕ → Bool) (i n : ℕ) → count test i n ≤ n
unfolding count
count-le test i zero = omega arith
count-le test i (suc n) = let rest = count-le test (i + 1) n in ground arith

-- One more page.
pub count-next :
    (test : ℕ → Bool) (i n : ℕ) → test (i + n) ≡ true → count test i (suc n) ≡ count test i n + 1
unfolding count
count-next test i zero h =
    let e : i + 0 ≡ i = omega arith in let h' = subst (λ j. test j ≡ true) e h in rw h' refl
count-next test i (suc n) h =
    let e : i + suc n ≡ i + 1 + n = omega arith in
    let rest = count-next test (i + 1) n (subst (λ j. test j ≡ true) e h) in omega arith

-- A page that passed does not any more.
pub count-drop :
    (test test' : ℕ → Bool) (i n j : ℕ)
    → i ≤ j
    → j < i + n
    → test j ≡ true
    → test' j ≡ false
    → ((p : ℕ) → i ≤ p → p < i + n → (p == j) ≡ false → test' p ≡ test p)
    → count test i n ≡ count test' i n + 1
unfolding count
count-drop test test' i zero j a b h h' same = absurd (omega arith)
count-drop test test' i (suc n) j a b h h' same = elim (Bool-cases (i == j)) [
  | inl first ↦
      let e = ==→≡ i j first in
      let t : test i ≡ true = ap test e ∙ h in
      let t' : test' i ≡ false = ap test' e ∙ h' in
      let rest =
        count-cong test test' (i + 1) n
          (λ p f l. sym (same p (omega arith) (omega arith) (ground arith))) in
      rw (t, t') (omega arith)
  | inr later ↦
      let rest =
        count-drop test test' (i + 1) n j (ground arith) (omega arith) h h'
          (λ p f l o. same p (omega arith) (omega arith) o) in
      let e = same i (omega arith) (omega arith) later in rw e (omega arith)
]
