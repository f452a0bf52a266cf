-- ===== src/Firmware/Ftl/Serve/Stores.antt =====
-- ftl.c (ftl_write): what the host's write does to the volume.
use issd.Base.{
  ℕ, zero, suc, ◌+◌, ◌-◌, ◌*◌, ◌/◌, ◌%◌, ◌≤◌, ◌<◌, ◌≡◌, refl, ap, ◌∙◌, subst, false, Option, some,
  Bytes, within, ◌==◌, arith, Bool-cases, inl, inr, ==→≡,
}
use issd.Firmware.Layout.{
  bytes_per_sector, sectors_per_page, bytes_per_page, num_lsectors, num_lpages, num_wr_buffers,
  wr_buf_addr,
}
use issd.Firmware.Nand.{Nand}
use issd.Firmware.Ftl.{Ftl, sectors_to_write}
use issd.Firmware.Ftl.Round.{IsValid, moved}
use issd.Firmware.Ftl.Commit.{Vacant}
use issd.Firmware.Ftl.Volume.{Puts}
use issd.Firmware.Ftl.Written.{committed-Puts}
use issd.Firmware.Ftl.Write.{Room, Room-fewer, Room-written, next_page}
use issd.Firmware.Ftl.Serve.{wr_buf_ptr, ftl_write_loop, ftl_write}
use issd.Firmware.Ftl.Serve.Sends.{sent, filled, filled-at, filled-outside, ftl_write_page-sent}

module _ (hw : Nand) (host : Bytes) where
  open hw use {State}

  -- The `len` bytes of the host from `pos` on are written at `base` of the volume, and of the DRAM the
  -- write buffers alone have changed.
  pub record Stores (s : Ftl State) (pos base len : ℕ) (t : Ftl State) : Type 0 where
    pub puts : Puts hw s base len (λ i. host (pos + i)) t
    pub next : t.write_buf_id < num_wr_buffers
    pub reads : t.read_buf_id ≡ s.read_buf_id
    pub kept :
        (x : ℕ)
        → within wr_buf_addr (num_wr_buffers * bytes_per_page) x ≡ false
        → t.dram x ≡ s.dram x

  sent-Stores :
      (s : Ftl State) (pos l off rem row : ℕ)
      → off < sectors_per_page
      → 0 < rem
      → IsValid hw s
      → s.write_buf_id < num_wr_buffers
      → Vacant hw s row
      → Stores s pos
          (l * bytes_per_page + off * bytes_per_sector)
          (sectors_to_write hw off rem * bytes_per_sector)
          (sent hw s host pos l off rem row)
  sent-Stores s pos l off rem row o r v id f =
      let dma = wr_buf_ptr s.write_buf_id in
      let dram = filled hw (moved hw s row) host pos (s.page_map l) off rem in
      let a =
        committed-Puts hw s l off rem row (λ i. host (pos + i)) (λ i. s.dram (dma + i))
          (λ i. dram (dma + i)) dram o r v f
          (λ i h. filled-at hw (moved hw s row) host pos (s.page_map l) off rem i o r h) in
      record {
        puts = record {
          valid = record {
            bank = a.valid.bank;
            ready = a.valid.ready;
            mapped = a.valid.mapped;
            blank = a.valid.blank;
          };
          new = a.new;
          old = a.old;
        };
        next = omega arith;
        reads = refl;
        kept = λ x w. filled-outside hw (moved hw s row) host pos (s.page_map l) off rem x o r id w;
      }

  Stores-none :
      (s : Ftl State) (pos base len : ℕ)
      → len ≡ 0
      → IsValid hw s
      → s.write_buf_id < num_wr_buffers
      → Stores s pos base len s
  Stores-none s pos base len e v id = record {
    puts = record { valid = v; new = λ x w. absurd (ground arith); old = λ x m w. (m, refl) };
    next = id;
    reads = refl;
    kept = λ x w. refl;
  }

  -- A round and the rounds behind it.
  Stores-rounds :
      (s t u : Ftl State) (pos l off rem : ℕ)
      → 0 < rem
      → off < sectors_per_page
      → Stores s pos
          (l * bytes_per_page + off * bytes_per_sector)
          (sectors_to_write hw off rem * bytes_per_sector)
          t
      → Stores t
          (pos + sectors_to_write hw off rem * bytes_per_sector)
          ((l + 1) * bytes_per_page + 0 * bytes_per_sector)
          ((rem - sectors_to_write hw off rem) * bytes_per_sector)
          u
      → Stores s pos (l * bytes_per_page + off * bytes_per_sector) (rem * bytes_per_sector) u
  Stores-rounds s t u pos l off rem r o a b =
      let num = sectors_to_write hw off rem in
      let base = l * bytes_per_page + off * bytes_per_sector in
      record {
        puts = record {
          valid = b.puts.valid;
          new = λ x w. elim (Bool-cases (within base (num * bytes_per_sector) x)) [
            | inl first ↦
                let (m, e) = a.puts.new x first in
                let (m', e') = b.puts.old x m (ground arith) in (m', e' ∙ e)
            | inr second ↦
                let (m, e) = b.puts.new x (ground arith) in (m, e ∙ ap host (ground arith))
          ];
          old = λ x m w.
              let (m', e) = a.puts.old x m (ground arith) in
              let (m'', e') = b.puts.old x m' (ground arith) in (m'', e' ∙ e);
        };
        next = b.next;
        reads = b.reads ∙ a.reads;
        kept = λ x w. b.kept x w ∙ a.kept x w;
      }

  -- A write of the host that returns, has stored its bytes, and leaves `k` pages in every bank.
  unfoldable pub Stored : Ftl State → ℕ → ℕ → ℕ → ℕ → Option (Ftl State) → Type 0
  Stored s pos base len k result =
      (t : Ftl State) × (result ≡ some t) × Stores s pos base len t × Room hw t k

  ftl_write_loop-Stored :
      (n : ℕ) (s : Ftl State) (pos l off rem k j : ℕ)
      → rem ≤ n
      → off < sectors_per_page
      → off + rem ≤ sectors_per_page * k
      → l * sectors_per_page + off + rem ≤ num_lpages * sectors_per_page
      → IsValid hw s
      → s.write_buf_id < num_wr_buffers
      → Room hw s (k + j)
      → Stored s pos
          (l * bytes_per_page + off * bytes_per_sector)
          (rem * bytes_per_sector)
          j
          (ftl_write_loop hw n s host pos l off rem)
  unfolding Stored ftl_write_loop
  ftl_write_loop-Stored zero s pos l off rem k j fuel o fit inside v id room = (
    s,
    refl,
    Stores-none s pos _ _ (omega arith) v id,
    Room-fewer hw s (k + j) j (omega arith) room,
  )
  ftl_write_loop-Stored (suc n) s pos l off rem k j fuel o fit inside v id room =
      elim (Bool-cases (rem == 0)) [
        | inl stop ↦
            let done : rem ≡ 0 = ==→≡ rem 0 stop in
            (
              s,
              rw (stop, ftl_write_loop) refl,
              Stores-none s pos _ _ (omega arith) v id,
              Room-fewer hw s (k + j) j (omega arith) room,
            )
        | inr go ↦
            let num = sectors_to_write hw off rem in
            let enough : k + j ≡ k - 1 + j + 1 = ground arith in
            let room_here = subst (Room hw s) enough room in
            let (row, got, vacant, ahead) = next_page hw s (k - 1 + j) v room_here in
            let a = sent-Stores s pos l off rem row o (ground arith) v id vacant in
            let (u, rest, b, room') =
              ftl_write_loop-Stored n (sent hw s host pos l off rem row)
                (pos + num * bytes_per_sector) (l + 1) 0 (rem - num) (k - 1) j (ground arith)
                (omega arith) (ground arith) (ground arith) a.puts.valid a.next
                (Room-written hw s 0 l off rem row (k - 1 + j) room_here ahead) in
            (
              u,
              rw
                  (
                    go,
                    ftl_write_page-sent hw s host pos l off rem row (ground arith) got,
                    ftl_write_loop,
                  )
                  rest,
              Stores-rounds s (sent hw s host pos l off rem row) u pos l off rem (ground arith) o a
                  b,
              room',
            )
      ]

  -- A valid state whose banks can all hand out `k + j` pages can take a write of the host that ends
  -- on the device, starts `lba % 64` sectors into a page and reaches over `k` pages at most: `ftl_write` returns, the volume
  -- then holds the host's bytes at the sectors written and what it held at every other mapped
  -- place, the DRAM is changed in the write buffers only, the state is valid again, and every bank
  -- can hand out `j` pages more.
  pub ftl_write-Stored :
      (s : Ftl State) (lba total k j : ℕ)
      → IsValid hw s
      → s.write_buf_id < num_wr_buffers
      → Room hw s (k + j)
      → lba % sectors_per_page + total ≤ sectors_per_page * k
      → lba + total ≤ num_lsectors
      → Stored s 0
          (lba * bytes_per_sector)
          (total * bytes_per_sector)
          j
          (ftl_write hw s host lba total)
  unfolding ftl_write
  ftl_write-Stored s lba total k j v id room fit inside =
      let at : lba / sectors_per_page * bytes_per_page + lba % sectors_per_page * bytes_per_sector
          ≡ lba * bytes_per_sector =
        omega arith in
      subst (λ b. Stored s 0 b (total * bytes_per_sector) j (ftl_write hw s host lba total)) at
        (ftl_write_loop-Stored total s 0 (lba / sectors_per_page) (lba % sectors_per_page) total k j
          (omega arith) (omega arith) fit (omega arith) v id room)
