-- ===== src/Firmware/Ftl/Volume.antt =====
-- ftl.c: the logical volume that the mapping table and the NAND make up, and a write on it.
use issd.Base.{
  ℕ, ◌+◌, ◌-◌, ◌/◌, ◌%◌, ◌≤◌, ◌≡◌, ◌≢◌, refl, ap, ◌∙◌, subst, true, false, Bytes, within, arith,
  Bool-cases, inl, inr, ◌⊎◌,
}
use issd.Firmware.Layout.{bytes_per_page, issd_wr_buf_addr, issd_computing_addr}
use issd.Firmware.Nand.{Nand}
use issd.Firmware.Ftl.{Ftl, get_physical_address}
use issd.Firmware.Ftl.Page.{stored_at}
use issd.Firmware.Ftl.Round.{IsValid}

module _ (hw : Nand) where
  open hw use {State, page, Blank, program, page-program, page-program_ne, Blank-program_ne}

  -- The physical page of the byte `x` of the volume, and the byte.
  abbrev pub place : Ftl State → ℕ → ℕ
  place s x = get_physical_address s (x / bytes_per_page)

  abbrev pub volume : Ftl State → ℕ → ℕ
  volume s x = stored_at hw s (place s x) (x % bytes_per_page)

  -- A write of the `len` bytes of `bytes` at `base` of the volume.
  pub record Puts (s : Ftl State) (base len : ℕ) (bytes : Bytes) (t : Ftl State) : Type 0 where
    pub valid : IsValid hw t
    pub new : (x : ℕ) → within base len x ≡ true → (place t x ≢ 0) × (volume t x ≡ bytes (x - base))
    pub old :
        (x : ℕ)
        → place s x ≢ 0
        → within base len x ≡ false
        → (place t x ≢ 0) × (volume t x ≡ volume s x)

  -- A write of `len` bytes at `base` of the volume, from `buf`.
  pub record Wrote (s : Ftl State) (buf base len : ℕ) (t : Ftl State) : Type 0 where
    pub valid : IsValid hw t
    pub new :
        (x : ℕ)
        → within base len x ≡ true
        → (place t x ≢ 0) × (volume t x ≡ s.dram (buf + (x - base)))
    pub old :
        (x : ℕ)
        → place s x ≢ 0
        → within base len x ≡ false
        → (place t x ≢ 0) × (volume t x ≡ volume s x)
    pub kept : (x : ℕ) → within issd_wr_buf_addr bytes_per_page x ≡ false → t.dram x ≡ s.dram x

  pub Wrote-none : (s : Ftl State) (buf base : ℕ) → IsValid hw s → Wrote s buf base 0 s
  Wrote-none s buf base v = record {
    valid = v;
    new = λ x h. absurd (ground arith);
    old = λ x m h. (m, refl);
    kept = λ x h. refl;
  }

  -- The place of a write of nothing does not matter.
  pub Wrote-place :
      (s t : Ftl State) (buf base base' len len' : ℕ)
      → ((base ≡ base') ⊎ (len ≡ 0))
      → len ≡ len'
      → Wrote s buf base len t
      → Wrote s buf base' len' t
  Wrote-place s t buf base base' len len' (inl same) e a =
      subst (λ b. Wrote s buf b len' t) same (subst (λ n. Wrote s buf base n t) e a)
  Wrote-place s t buf base base' len len' (inr nothing) e a = record {
    valid = a.valid;
    new = λ x w. absurd (ground arith);
    old = λ x m w. a.old x m (ground arith);
    kept = a.kept;
  }

  -- Two writes, one behind the other.
  pub Wrote-append :
      (s t u : Ftl State) (buf base len len' : ℕ)
      → issd_computing_addr ≤ buf
      → Wrote s buf base len t
      → Wrote t (buf + len) (base + len) len' u
      → Wrote s buf base (len + len') u
  Wrote-append s t u buf base len len' h a b = record {
    valid = b.valid;
    new = λ x w. elim (Bool-cases (within base len x)) [
      | inl first ↦
          let (m, e) = a.new x first in let (m', e') = b.old x m (ground arith) in (m', e' ∙ e)
      | inr second ↦
          let (m, e) = b.new x (ground arith) in
          (m, e ∙ a.kept (buf + len + (x - (base + len))) (ground arith) ∙ ap s.dram (ground arith))
    ];
    old = λ x m w.
        let (m', e) = a.old x m (ground arith) in
        let (m'', e') = b.old x m' (ground arith) in (m'', e' ∙ e);
    kept = λ x w. b.kept x w ∙ a.kept x w;
  }
