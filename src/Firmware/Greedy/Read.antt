-- ===== src/Firmware/Greedy/Read.antt =====
-- ftl_greedy/ftl.c: ftl_read, and what the host gets.
use issd.Base.{
  ltb, ℕ, zero, suc, ◌+◌, ◌-◌, ◌*◌, ◌/◌, ◌%◌, ◌≤◌, ◌<◌, ◌≡◌, refl, ap, ◌∙◌, subst, Option, some,
  none, true, false, Bytes, update, update-same, copy_bytes, set_bytes, within, ◌==◌, if◌then◌else◌,
  arith, Bool-cases, inl, inr, ==→≡,
}
use issd.Firmware.Layout.{
  bytes_per_sector, sectors_per_page, bytes_per_page, pages_per_vblk, vblks_per_bank, num_lsectors,
  num_lpages,
}
use issd.Firmware.Nand.{Nand}
use issd.Firmware.Greedy.{Greedy, get_num_bank, vpn_of, get_vpn, check_vpage, page_ptread}
use issd.Firmware.Greedy.Bank.{logical}
use issd.Firmware.Greedy.Buffers.{num_rd_buffers}

-- `num_sectors_to_read`
abbrev sectors_to_read : ℕ → ℕ → ℕ
sectors_to_read sect_offset remain =
    if ltb (sect_offset + remain) sectors_per_page then remain else sectors_per_page - sect_offset

module _ (hw : Nand) where
  open hw use {State, page}

  -- The read buffer when the page is there.
  abbrev read_content : Greedy State → ℕ → ℕ → ℕ → ℕ → Bytes
  read_content s lpn vpn sect_offset num_sectors =
      let buf = s.rd_buf s.read_buf_id in
      if vpn == 0
      then set_bytes buf (sect_offset * bytes_per_sector) 255 (num_sectors * bytes_per_sector)
      else page_ptread hw s.nand (get_num_bank lpn) (vpn / pages_per_vblk) (vpn % pages_per_vblk)
          sect_offset num_sectors buf

  -- A round of `ftl_read`, with `nand_page_ptread_to_host`.
  pub read_page : Greedy State → ℕ → ℕ → ℕ → ℕ → Greedy State
  read_page s lpn vpn sect_offset num_sectors = record s {
    rd_buf = update s.rd_buf s.read_buf_id (read_content s lpn vpn sect_offset num_sectors);
    read_buf_id = (s.read_buf_id + 1) % num_rd_buffers;
  }

  -- The loop of `ftl_read`, over at most `n` rounds, with what the host has got.
  pub read_loop : ℕ → Greedy State → Bytes → ℕ → ℕ → ℕ → ℕ → Option (Bytes × Greedy State)
  read_loop zero s host pos lpn sect_offset remain = some (host, s)
  read_loop (suc n) s host pos lpn sect_offset remain = elim (remain == 0) [
    | true ↦ some (host, s)
    | false ↦ elim (get_vpn s lpn) [
      | none ↦ none
      | some vpn ↦
          let num = sectors_to_read sect_offset remain in
          let s' = read_page s lpn vpn sect_offset num in
          let host' =
            copy_bytes host pos (s'.rd_buf s.read_buf_id) (sect_offset * bytes_per_sector)
              (num * bytes_per_sector) in
          let rest =
            read_loop n s' host' (pos + num * bytes_per_sector) (lpn + 1) 0 (remain - num) in
          if check_vpage vpn then rest else none
    ]
  ]

  -- `ftl_read`: a round reads a sector at least.
  pub ftl_read : Greedy State → Bytes → ℕ → ℕ → Option (Bytes × Greedy State)
  ftl_read s host lba num_sectors =
      read_loop num_sectors s host 0 (lba / sectors_per_page) (lba % sectors_per_page) num_sectors

  -- The byte `x` of the device.
  abbrev pub device : Greedy State → ℕ → ℕ
  device s x = logical hw s (x / bytes_per_page) (x % bytes_per_page)

  -- The host has got `len` bytes of the device from `base` on at `pos`, and the read buffers alone have
  -- changed.
  pub record Reads (s : Greedy State) (host : Bytes) (pos base len : ℕ) (r : Bytes × Greedy State)
      : Type 0 where
    pub got : (x : ℕ) → within base len x ≡ true → r.0 (pos + (x - base)) ≡ device s x
    pub past : (y : ℕ) → within pos len y ≡ false → r.0 y ≡ host y
    pub rest : r.1 ≡ record s { rd_buf = r.1.rd_buf; read_buf_id = r.1.read_buf_id }

  content_byte :
      (s : Greedy State) (lpn off num j : ℕ)
      → j < num * bytes_per_sector
      → off + num ≤ sectors_per_page
      → read_content s lpn (vpn_of s lpn) off num (off * bytes_per_sector + j)
        ≡ device s (lpn * bytes_per_page + off * bytes_per_sector + j)
  unfolding copy_bytes set_bytes
  content_byte s lpn off num j h fit =
      let x = lpn * bytes_per_page + off * bytes_per_sector + j in
      let page_of : x / bytes_per_page ≡ lpn = omega arith in
      let at : x % bytes_per_page ≡ off * bytes_per_sector + j = omega arith in
      let row : vpn_of s lpn / pages_per_vblk * pages_per_vblk + vpn_of s lpn % pages_per_vblk
          ≡ vpn_of s lpn =
        omega arith in
      rw (page_of, at)
        (elim (Bool-cases (vpn_of s lpn == 0)) [
          | inl missing ↦ rw missing (ground arith)
          | inr there ↦ rw (there, row) (ground arith)
        ])

  -- What the host has after a round.
  abbrev passed : Greedy State → Bytes → ℕ → ℕ → ℕ → ℕ → Bytes
  passed s host pos lpn off num =
      copy_bytes host pos ((read_page s lpn (vpn_of s lpn) off num).rd_buf s.read_buf_id)
        (off * bytes_per_sector) (num * bytes_per_sector)

  passed_byte :
      (s : Greedy State) (host : Bytes) (pos lpn off num j : ℕ)
      → j < num * bytes_per_sector
      → off + num ≤ sectors_per_page
      → passed s host pos lpn off num (pos + j)
        ≡ device s (lpn * bytes_per_page + off * bytes_per_sector + j)
  unfolding copy_bytes read_page
  passed_byte s host pos lpn off num j h fit =
      let inside : within pos (num * bytes_per_sector) (pos + j) ≡ true = ground arith in
      let at : off * bytes_per_sector + (pos + j - pos) ≡ off * bytes_per_sector + j =
        omega arith in
      rw (inside, at)
        (ap (λ f. f (off * bytes_per_sector + j)) (update-same s.rd_buf s.read_buf_id _)
          ∙ content_byte s lpn off num j h fit)

  passed_outside :
      (s : Greedy State) (host : Bytes) (pos lpn off num y : ℕ)
      → within pos (num * bytes_per_sector) y ≡ false
      → passed s host pos lpn off num y ≡ host y
  unfolding copy_bytes
  passed_outside s host pos lpn off num y h = rw h refl

  Reads-page :
      (s : Greedy State) (host : Bytes) (pos lpn off rem : ℕ) (r : Bytes × Greedy State)
      → 0 < rem
      → off < sectors_per_page
      → Reads
          (read_page s lpn (vpn_of s lpn) off (sectors_to_read off rem))
          (passed s host pos lpn off (sectors_to_read off rem))
          (pos + sectors_to_read off rem * bytes_per_sector)
          ((lpn + 1) * bytes_per_page + 0 * bytes_per_sector)
          ((rem - sectors_to_read off rem) * bytes_per_sector)
          r
      → Reads s host pos (lpn * bytes_per_page + off * bytes_per_sector) (rem * bytes_per_sector) r
  unfolding read_page
  Reads-page s host pos lpn off rem r h o a =
      let num = sectors_to_read off rem in
      let base = lpn * bytes_per_page + off * bytes_per_sector in
      let fit : off + num ≤ sectors_per_page = ground arith in
      record {
        got = λ x w. elim (Bool-cases (within base (num * bytes_per_sector) x)) [
          | inl first ↦
              let j : base + (x - base) ≡ x = ground arith in
              a.past (pos + (x - base)) (ground arith)
              ∙ passed_byte s host pos lpn off num (x - base) (ground arith) fit
              ∙ ap (device s) j
          | inr second ↦ ap r.0 (ground arith) ∙ a.got x (ground arith)
        ];
        past =
            λ y w. a.past y (ground arith) ∙ passed_outside s host pos lpn off num y (ground arith);
        rest = a.rest;
      }

  Reads-none :
      (s : Greedy State) (host : Bytes) (pos base len : ℕ)
      → len ≡ 0
      → Reads s host pos base len (host, s)
  Reads-none s host pos base len e = record {
    got = λ x w. absurd (ground arith);
    past = λ y w. refl;
    rest = refl;
  }

  -- The entries of the page map pass CHECK_VPAGE.
  abbrev pub Entries : Greedy State → Type 0
  Entries s = (l : ℕ) → l < num_lpages → vpn_of s l < vblks_per_bank * pages_per_vblk

  -- A read that returns, has read, and has left the number of a read buffer.
  unfoldable pub HasRead : Greedy State → Bytes → ℕ → ℕ → ℕ → Option (Bytes × Greedy State) → Type 0
  HasRead s host pos base len result =
      (r : Bytes × Greedy State) × (result ≡ some r)
      × Reads s host pos base len r
      × (r.1.read_buf_id < num_rd_buffers)

  read_loop-HasRead :
      (n : ℕ) (s : Greedy State) (host : Bytes) (pos lpn off rem : ℕ)
      → rem ≤ n
      → off < sectors_per_page
      → lpn * sectors_per_page + off + rem ≤ num_lpages * sectors_per_page
      → Entries s
      → s.read_buf_id < num_rd_buffers
      → HasRead s host pos
          (lpn * bytes_per_page + off * bytes_per_sector)
          (rem * bytes_per_sector)
          (read_loop n s host pos lpn off rem)
  unfolding HasRead read_loop read_page
  read_loop-HasRead zero s host pos lpn off rem fuel o inside entries id =
      ((host, s), refl, Reads-none s host pos _ _ (omega arith), id)
  read_loop-HasRead (suc n) s host pos lpn off rem fuel o inside entries id =
      elim (Bool-cases (rem == 0)) [
        | inl stop ↦
            let done : rem ≡ 0 = ==→≡ rem 0 stop in
            ((host, s), rw (stop, read_loop) refl, Reads-none s host pos _ _ (omega arith), id)
        | inr go ↦
            let num = sectors_to_read off rem in
            let here : lpn < num_lpages = ground arith in
            let in_table : ltb lpn num_lpages ≡ true = ground arith in
            let in_bank : check_vpage (vpn_of s lpn) ≡ true =
              let below = entries lpn here in ground arith in
            let (r, returned, reads, id') =
              read_loop-HasRead n (read_page s lpn (vpn_of s lpn) off num)
                (passed s host pos lpn off num) (pos + num * bytes_per_sector) (lpn + 1) 0
                (rem - num) (ground arith) (omega arith) (ground arith) entries (omega arith) in
            (
              r,
              rw (read_loop, go, in_table, in_bank) returned,
              Reads-page s host pos lpn off rem r (ground arith) o reads,
              id',
            )
      ]

  -- When the sectors lie on the device, the entries of the page map are pages of a bank, and the
  -- current read buffer is one of them, `ftl_read` returns, with no failed ASSERT. The host has then got
  -- every byte of its sectors as the device has it, where `device` is what the map and the flash say, or
  -- 0xFF when the page was never written; the read buffers alone have changed, and the current one is
  -- one of them again.
  pub ftl_read-HasRead :
      (s : Greedy State) (host : Bytes) (lba num_sectors : ℕ)
      → lba + num_sectors ≤ num_lsectors
      → Entries s
      → s.read_buf_id < num_rd_buffers
      → HasRead s host 0
          (lba * bytes_per_sector)
          (num_sectors * bytes_per_sector)
          (ftl_read s host lba num_sectors)
  unfolding ftl_read
  ftl_read-HasRead s host lba num_sectors inside entries id =
      let at : lba / sectors_per_page * bytes_per_page + lba % sectors_per_page * bytes_per_sector
          ≡ lba * bytes_per_sector =
        omega arith in
      subst
        (λ b. HasRead s host 0 b (num_sectors * bytes_per_sector) (ftl_read s host lba num_sectors))
        at
        (read_loop-HasRead num_sectors s host 0 (lba / sectors_per_page) (lba % sectors_per_page)
          num_sectors (omega arith) (omega arith) (omega arith) entries id)
