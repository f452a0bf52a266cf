-- ===== src/Host/ReqQueue/Window.antt =====
-- reqQueue.c, issd_Compute_client.c: the packets between the two indices of the ring.
use issd.Base.{
  ℕ, zero, suc, ◌+◌, ◌-◌, ◌%◌, ◌≤◌, ◌<◌, ◌≡◌, refl, ap, ap₂, ◌∙◌, false, List, [], ◌∷◌, ◌++◌, ltb,
  ◌==◌, update, if◌then◌else◌, arith, inl, inr, Bool-cases,
}
use native.Mathlib.Nat.{mod-eq_of_lt, mod-eq-sub-mod}

-- An index of the ring that may have run over once.
abbrev pub wrap : ℕ → ℕ → ℕ
wrap n x = if ltb x n then x else x - n

pub mod-wrap : (n x : ℕ) → x < n + n → x % n ≡ wrap n x
mod-wrap n x h = elim (Bool-cases (ltb x n)) [
  | inl low ↦ rw low (mod-eq_of_lt (ground arith))
  | inr high ↦
      let over : n ≤ x = ground arith in
      rw high (mod-eq-sub-mod over ∙ mod-eq_of_lt (let lt : x - n < n = omega arith in lt))
]

module _ {P : Type 0} where
  -- The packets in the `len` slots from `rd` on.
  abbrev pub window : (ℕ → P) → ℕ → ℕ → ℕ → List P
  window buffer n rd zero = []
  window buffer n rd (suc len) = buffer rd ∷ window buffer n (wrap n (rd + 1)) len

  pub window-update :
      (buffer : ℕ → P) (n rd len m w : ℕ) (p : P)
      → rd < n
      → len ≤ m
      → m < n
      → w ≡ wrap n (rd + m)
      → window (update buffer w p) n rd len ≡ window buffer n rd len
  window-update buffer n rd zero m w p a b c e = refl
  window-update buffer n rd (suc len) m w p a b c e =
      let other : (w == rd) ≡ false = ground arith in
      ap₂ ◌∷◌ (rw other refl) (
        window-update buffer n (wrap n (rd + 1)) len (m - 1) w p (ground arith) (omega arith)
          (omega arith) (ground arith))

  pub window-append :
      (buffer : ℕ → P) (n rd len : ℕ)
      → rd < n
      → len < n
      → window buffer n rd (suc len) ≡ window buffer n rd len ++ (buffer (wrap n (rd + len)) ∷ [])
  window-append buffer n rd zero a b = ap (λ i. buffer i ∷ []) (ground arith)
  window-append buffer n rd (suc len) a b =
      let i : wrap n (wrap n (rd + 1) + len) ≡ wrap n (rd + suc len) = ground arith in
      ap (◌∷◌ (buffer rd)) (
        window-append buffer n (wrap n (rd + 1)) len (ground arith) (omega arith)
        ∙ ap (λ j. window buffer n (wrap n (rd + 1)) len ++ (buffer j ∷ [])) i)
