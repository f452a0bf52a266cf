-- ===== src/Base/Memory.antt =====
-- Arrays and byte memories as functions of an index, with the copies that the code makes.
use Prim.Native.Nat.{ℕ, ◌+◌, ◌-◌, ◌*◌, ◌/◌, ◌%◌, ◌<◌}
use mathlib.Core.Path.{◌≡◌, refl}
use mathlib.Core.Bool.{Bool, false, ◌&&◌}
use native.Mathlib.Omega.{arith}
use issd.Base.Tests.{ltb, leb, ◌==◌, ==-refl, if◌then◌else◌}

-- `a[i] = v`.
abbrev pub update {ℓ} : {A : Type ℓ} → (ℕ → A) → ℕ → A → ℕ → A
update f i v j = if i == j then v else f j

pub update-same {ℓ} : {A : Type ℓ} (f : ℕ → A) (i : ℕ) (v : A) → update f i v i ≡ v
update-same f i v = let e = ==-refl i in rw e refl

pub update-other {ℓ} :
    {A : Type ℓ} (f : ℕ → A) (i : ℕ) (v : A) (j : ℕ) → (i == j) ≡ false → update f i v j ≡ f j
update-other f i v j h = rw h refl

abbrev pub Bytes : Type 0
Bytes = ℕ → ℕ

-- Whether `a` lies among the `n` addresses from `base` on.
abbrev pub within : ℕ → ℕ → ℕ → Bool
within base n a = leb base a && ltb a (base + n)

-- `memcpy(dst, src, n)` from one memory into another.
unfoldable pub copy_bytes : Bytes → ℕ → Bytes → ℕ → ℕ → Bytes
copy_bytes to dst from src n a = if within dst n a then from (src + (a - dst)) else to a

-- `memset(dst, v, n)`.
unfoldable pub set_bytes : Bytes → ℕ → ℕ → ℕ → Bytes
set_bytes to dst v n a = if within dst n a then v else to a

-- A little-endian 32-bit word.
unfoldable pub read_32 : Bytes → ℕ → ℕ
read_32 m a = m a + 256 * m (a + 1) + 65536 * m (a + 2) + 16777216 * m (a + 3)

unfoldable pub write_32 : Bytes → ℕ → ℕ → Bytes
write_32 m a v b =
    if a == b
    then v % 256
    else if a + 1 == b
    then v / 256 % 256
    else if a + 2 == b
    then v / 65536 % 256
    else if a + 3 == b
    then v / 16777216 % 256
    else m b

pub read-write_32 : (m : Bytes) (a v : ℕ) → v < 4294967296 → read_32 (write_32 m a v) a ≡ v
unfolding read_32 write_32
read-write_32 m a v h = ground arith

pub write_32-outside : (m : Bytes) (a v x : ℕ) → within a 4 x ≡ false → write_32 m a v x ≡ m x
unfolding write_32
write_32-outside m a v x h = ground arith
