-- ===== src/Base/Names.antt =====
-- C strings as lists of character codes, with `strcmp(a, b) == 0`.
use issd.Base.Tests.{◌==◌}
use Prim.Native.Nat.{ℕ}
use mathlib.Core.Path.{◌≡◌, refl}
use mathlib.Core.Bool.{Bool, true, false, ◌&&◌}
use mathlib.Core.List.{List, [], ◌∷◌}
use native.Mathlib.Omega.{arith}

abbrev pub Name : Type 0
Name = List ℕ

unfoldable pub same_name : Name → Name → Bool
same_name [] [] = true
same_name [] (b ∷ bs) = false
same_name (a ∷ cs) [] = false
same_name (a ∷ cs) (b ∷ bs) = a == b && same_name cs bs

pub same_name_refl : (a : Name) → same_name a a ≡ true
unfolding same_name
same_name_refl [] = refl
same_name_refl (a ∷ cs) = ground (arith, same_name_refl cs)

pub same_name→≡ : (a b : Name) → same_name a b ≡ true → a ≡ b
unfolding same_name
same_name→≡ [] [] h = refl
same_name→≡ [] (b ∷ bs) h = cc
same_name→≡ (a ∷ cs) [] h = cc
same_name→≡ (a ∷ cs) (b ∷ bs) h = ground (arith, same_name→≡ cs bs)
