-- ===== src/Host/Client/Attach.antt =====
-- issd_Compute_client.c (issd_compute_init, issd_compute_destroy): the reference count.
use issd.Base.{
  ℕ, zero, suc, ◌+◌, ◌-◌, ◌<◌, ◌≡◌, refl, subst, Bool, true, false, not, List, [], ◌∷◌, ◌==◌, u32,
  arith,
}
use issd.Host.Client.{Client, issd_compute_init, issd_compute_destroy}

-- A call of the library.
pub data Call : Type 0 where
  init : Bool → Call
  destroy : Call

pub call : Call → Client → Client
call (init maps) c = (issd_compute_init maps c).1
call destroy c = issd_compute_destroy c

pub calls : List Call → Client → Client
calls [] c = c
calls (a ∷ rest) c = calls rest (call a c)

-- The calls are paired from a count of `n` on: every mapping succeeds, nothing is destroyed that was
-- not initialised, and the count stays in its 32 bits.
abbrev pub Paired : ℕ → List Call → Type 0
Paired n [] = Unit
Paired n (init maps ∷ rest) = (maps ≡ true) × (n + 1 < u32) × Paired (n + 1) rest
Paired n (destroy ∷ rest) = (0 < n) × Paired (n - 1) rest

calls-attached_from :
    (c : Client) (list : List Call)
    → c.attached ≡ not (c.issd_init_inv == 0)
    → c.issd_init_inv < u32
    → Paired c.issd_init_inv list
    → (calls list c).attached ≡ not ((calls list c).issd_init_inv == 0)
unfolding calls call issd_compute_init issd_compute_destroy
calls-attached_from c [] a h p = a
calls-attached_from c (init maps ∷ rest) a h (m, small, p) =
    let c' = (issd_compute_init maps c).1 in
    let n : c'.issd_init_inv ≡ c.issd_init_inv + 1 = ground arith in
    calls-attached_from c' rest (ground arith) (omega arith) (
      subst (λ k. Paired k rest) (let e : c.issd_init_inv + 1 ≡ c'.issd_init_inv = omega arith in e)
        p)
calls-attached_from c (destroy ∷ rest) a h (pos, p) =
    let c' = issd_compute_destroy c in
    let n : c'.issd_init_inv ≡ c.issd_init_inv - 1 = ground arith in
    calls-attached_from c' rest (ground arith) (omega arith) (
      subst (λ k. Paired k rest) (let e : c.issd_init_inv - 1 ≡ c'.issd_init_inv = omega arith in e)
        p)

-- A process that has not called the library.
abbrev pub unattached : Client
unattached = record { issd_init_inv = 0; attached = false }

-- After paired calls whose mappings all succeed, the library is attached to the shared memory exactly
-- where the reference count is not 0.
pub calls-attached :
    (list : List Call)
    → Paired 0 list
    → (calls list unattached).attached ≡ not ((calls list unattached).issd_init_inv == 0)
calls-attached list p = calls-attached_from unattached list refl (omega arith) p

-- Calls of `issd_compute_init` whose mapping would succeed.
pub inits : ℕ → Client → Client
inits zero c = c
inits (suc n) c = inits n (issd_compute_init true c).1

inits-detached :
    (n : ℕ) (c : Client)
    → 0 < c.issd_init_inv
    → c.issd_init_inv + n < u32
    → c.attached ≡ false
    → (0 < (inits n c).issd_init_inv) × ((inits n c).attached ≡ false)
unfolding inits issd_compute_init
inits-detached zero c pos h a = (pos, a)
inits-detached (suc n) c pos h a =
    let c' = (issd_compute_init true c).1 in
    let k : c'.issd_init_inv ≡ c.issd_init_inv + 1 = ground arith in
    inits-detached n c' (omega arith) (omega arith) (ground arith)

-- When the first `issd_compute_init` fails, every later one (until the count runs over) returns 0,
-- though the library is not attached: the failure leaves the count at 1.
pub inits-after_failed :
    (n : ℕ)
    → n + 1 < u32
    → ((issd_compute_init false unattached).0 ≡ false)
      × ((issd_compute_init true (inits n (issd_compute_init false unattached).1)).0 ≡ true)
      × ((issd_compute_init true (inits n (issd_compute_init false unattached).1)).1.attached
          ≡ false)
unfolding issd_compute_init
inits-after_failed n h =
    let c = inits n (issd_compute_init false unattached).1 in
    let (pos, a) =
      inits-detached n (issd_compute_init false unattached).1 (omega arith) (omega arith) refl in
    (refl, ground arith, ground arith)
