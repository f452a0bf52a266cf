-- ===== src/Firmware/Ftl/Serve/Gets.antt =====
-- ftl.c (ftl_read): what the host gets.
use issd.Base.{
  ℕ, zero, suc, ◌+◌, ◌-◌, ◌*◌, ◌/◌, ◌%◌, ◌≤◌, ◌<◌, ◌≡◌, refl, sym, ap, subst, ◌∙◌, true, false,
  Bytes, copy_bytes, set_bytes, within, ◌==◌, if◌then◌else◌, arith, Bool-cases, inl, inr, ==→≡,
}
use issd.Firmware.Layout.{
  bytes_per_sector, sectors_per_page, bytes_per_page, num_rd_buffers, rd_buf_addr,
}
use issd.Firmware.Nand.{Nand}
use issd.Firmware.Ftl.{Ftl, sectors_to_read}
use issd.Firmware.Ftl.Volume.{place, volume}
use issd.Firmware.Ftl.Serve.{rd_buf_ptr, ftl_read_page, ftl_read_loop, ftl_read}

module _ (hw : Nand) where
  open hw use {State, page}

  -- A byte of the volume as the host sees it: 0xFF where nothing was written.
  abbrev pub host_view : Ftl State → ℕ → ℕ
  host_view s x = if place hw s x == 0 then 255 else volume hw s x

  -- The host has got `len` bytes of the volume from `base` on at `pos`, and the read buffers alone
  -- have changed.
  pub record Gets (s : Ftl State) (host : Bytes) (pos base len : ℕ) (host' : Bytes) (t : Ftl State)
      : Type 0 where
    pub got : (x : ℕ) → within base len x ≡ true → host' (pos + (x - base)) ≡ host_view s x
    pub past : (y : ℕ) → within pos len y ≡ false → host' y ≡ host y
    pub rest : t ≡ record s { dram = t.dram; read_buf_id = t.read_buf_id }
    pub next : t.read_buf_id < num_rd_buffers
    pub kept :
        (x : ℕ)
        → within rd_buf_addr (num_rd_buffers * bytes_per_page) x ≡ false
        → t.dram x ≡ s.dram x

  page-at :
      (s : Ftl State) (l off num j : ℕ)
      → j < num * bytes_per_sector
      → off + num ≤ sectors_per_page
      → (ftl_read_page hw s l off num).dram (rd_buf_ptr s.read_buf_id + off * bytes_per_sector + j)
        ≡ host_view s (l * bytes_per_page + off * bytes_per_sector + j)
  unfolding ftl_read_page copy_bytes set_bytes
  page-at s l off num j h fit =
      let x = l * bytes_per_page + off * bytes_per_sector + j in
      let page_of : x / bytes_per_page ≡ l = omega arith in
      let a : x % bytes_per_page ≡ off * bytes_per_sector + j = omega arith in
      rw (page_of, a)
        (elim (Bool-cases (s.page_map l == 0)) [
          | inl missing ↦ rw missing (ground arith)
          | inr there ↦ rw there (ground arith)
        ])

  page-kept :
      (s : Ftl State) (l off num x : ℕ)
      → off + num ≤ sectors_per_page
      → s.read_buf_id < num_rd_buffers
      → within rd_buf_addr (num_rd_buffers * bytes_per_page) x ≡ false
      → (ftl_read_page hw s l off num).dram x ≡ s.dram x
  unfolding ftl_read_page copy_bytes set_bytes
  page-kept s l off num x fit id h = elim (Bool-cases (s.page_map l == 0)) [
    | inl missing ↦ rw (missing, ftl_read_page) (ground arith)
    | inr there ↦ rw (there, ftl_read_page) (ground arith)
  ]

  -- What the host has when a page has been passed on.
  abbrev passed : Ftl State → Bytes → ℕ → ℕ → ℕ → ℕ → Bytes
  passed s host pos l off rem =
      copy_bytes host pos (ftl_read_page hw s l off (sectors_to_read hw off rem)).dram
        (rd_buf_ptr s.read_buf_id + off * bytes_per_sector)
        (sectors_to_read hw off rem * bytes_per_sector)

  Gets-page :
      (s u : Ftl State) (host host' : Bytes) (pos l off rem : ℕ)
      → 0 < rem
      → off < sectors_per_page
      → s.read_buf_id < num_rd_buffers
      → Gets
          (ftl_read_page hw s l off (sectors_to_read hw off rem))
          (passed s host pos l off rem)
          (pos + sectors_to_read hw off rem * bytes_per_sector)
          ((l + 1) * bytes_per_page + 0 * bytes_per_sector)
          ((rem - sectors_to_read hw off rem) * bytes_per_sector)
          host'
          u
      → Gets s host pos
          (l * bytes_per_page + off * bytes_per_sector)
          (rem * bytes_per_sector)
          host'
          u
  unfolding copy_bytes ftl_read_page
  Gets-page s u host host' pos l off rem r o id a =
      let num = sectors_to_read hw off rem in
      let base = l * bytes_per_page + off * bytes_per_sector in
      let fit : off + num ≤ sectors_per_page = ground arith in
      record {
        got = λ x w. elim (Bool-cases (within base (num * bytes_per_sector) x)) [
          | inl first ↦
              let j : x ≡ base + (x - base) = ground arith in
              a.past (pos + (x - base)) (ground arith)
              ∙ ground arith
              ∙ page-at s l off num (x - base) (ground arith) fit
              ∙ ap (host_view s) (sym j)
          | inr second ↦ ap host' (ground arith) ∙ a.got x (ground arith)
        ];
        past = λ y w. a.past y (ground arith) ∙ ground arith;
        rest = a.rest;
        next = a.next;
        kept = λ x w. a.kept x w ∙ page-kept s l off num x fit id w;
      }

  Gets-none :
      (s : Ftl State) (host : Bytes) (pos base len : ℕ)
      → len ≡ 0
      → s.read_buf_id < num_rd_buffers
      → Gets s host pos base len host s
  Gets-none s host pos base len e id = record {
    got = λ x w. absurd (ground arith);
    past = λ y w. refl;
    rest = refl;
    next = id;
    kept = λ x w. refl;
  }

  ftl_read_loop-Gets :
      (n : ℕ) (s : Ftl State) (host : Bytes) (pos l off rem : ℕ)
      → rem ≤ n
      → off < sectors_per_page
      → s.read_buf_id < num_rd_buffers
      → Gets s host pos
          (l * bytes_per_page + off * bytes_per_sector)
          (rem * bytes_per_sector)
          (ftl_read_loop hw n s host pos l off rem).0
          (ftl_read_loop hw n s host pos l off rem).1
  unfolding ftl_read_loop ftl_read_page
  ftl_read_loop-Gets zero s host pos l off rem fuel o id = Gets-none s host pos _ _ (omega arith) id
  ftl_read_loop-Gets (suc n) s host pos l off rem fuel o id = elim (Bool-cases (rem == 0)) [
    | inl stop ↦
        let done : rem ≡ 0 = ==→≡ rem 0 stop in
        rw (stop, ftl_read_loop) (Gets-none s host pos _ _ (omega arith) id)
    | inr go ↦
        let num = sectors_to_read hw off rem in
        rw (go, ftl_read_loop)
          (Gets-page s _ host _ pos l off rem (ground arith) o id (
            ftl_read_loop-Gets n (ftl_read_page hw s l off num) (passed s host pos l off rem)
              (pos + num * bytes_per_sector) (l + 1) 0 (rem - num) (ground arith) (omega arith)
              (omega arith)))
  ]

  pub ftl_read-Gets :
      (s : Ftl State) (host : Bytes) (lba total : ℕ)
      → s.read_buf_id < num_rd_buffers
      → Gets s host 0
          (lba * bytes_per_sector)
          (total * bytes_per_sector)
          (ftl_read hw s host lba total).0
          (ftl_read hw s host lba total).1
  unfolding ftl_read
  ftl_read-Gets s host lba total id =
      let at : lba / sectors_per_page * bytes_per_page + lba % sectors_per_page * bytes_per_sector
          ≡ lba * bytes_per_sector =
        omega arith in
      subst
        (λ b.
          Gets s host 0 b (total * bytes_per_sector) (ftl_read hw s host lba total).0
            (ftl_read hw s host lba total).1)
        at
        (ftl_read_loop-Gets total s host 0 (lba / sectors_per_page) (lba % sectors_per_page) total
          (omega arith) (omega arith) id)
