-- ===== src/Firmware/Ftl/Serve/Back.antt =====
-- ftl.c (ftl_write, ftl_read): the host reads what it wrote.
use issd.Base.{
  ℕ, ◌+◌, ◌-◌, ◌*◌, ◌%◌, ◌≤◌, ◌<◌, ◌≡◌, ap, ◌∙◌, false, Option, some, Bytes, ◌==◌, arith, ne→not-==,
}
use issd.Firmware.Layout.{
  bytes_per_sector, sectors_per_page, num_lsectors, num_wr_buffers, num_rd_buffers,
}
use issd.Firmware.Nand.{Nand}
use issd.Firmware.Ftl.{Ftl}
use issd.Firmware.Ftl.Round.{IsValid}
use issd.Firmware.Ftl.Volume.{place}
use issd.Firmware.Ftl.Write.{Room, Room-fewer}
use issd.Firmware.Ftl.Serve.{ftl_read, ftl_write}
use issd.Firmware.Ftl.Serve.Gets.{host_view, ftl_read-Gets}
use issd.Firmware.Ftl.Serve.Stores.{Stored, ftl_write-Stored}

module _ (hw : Nand) where
  open hw use {State}

  -- What the host gets when it reads what it wrote.
  pub Returned : Bytes → Bytes → ℕ → ℕ → Option (Ftl State) → Type 0
  Returned host host' lba total result =
      (t : Ftl State) × (result ≡ some t)
      × ((i : ℕ) → i < total * bytes_per_sector → (ftl_read hw t host' lba total).0 i ≡ host i)

  -- In a valid state with room for the pages, `ftl_write` of sectors on the device returns, and
  -- `ftl_read` of the same sectors then gives the host the bytes that it sent.
  pub ftl_read-ftl_write :
      (s : Ftl State) (host host' : Bytes) (lba total k : ℕ)
      → IsValid hw s
      → s.write_buf_id < num_wr_buffers
      → s.read_buf_id < num_rd_buffers
      → Room hw s k
      → lba % sectors_per_page + total ≤ sectors_per_page * k
      → lba + total ≤ num_lsectors
      → Returned host host' lba total (ftl_write hw s host lba total)
  unfolding Returned Stored
  ftl_read-ftl_write s host host' lba total k v wr rd room fit inside =
      let (t, returned, a, more) =
        ftl_write-Stored hw host s lba total k 0 v wr (Room-fewer hw s k (k + 0) (omega arith) room)
          fit inside in
      let b = ftl_read-Gets hw t host' lba total (omega (arith, a.reads, rd)) in
      (
        t,
        returned,
        λ i h.
            let x = lba * bytes_per_sector + i in
            let (m, e) = a.puts.new x (ground arith) in
            let there : (place hw t x == 0) ≡ false = ne→not-== (place hw t x) 0 m in
            let view : host_view hw t x ≡ host (0 + (x - lba * bytes_per_sector)) = rw there e in
            ap (ftl_read hw t host' lba total).0 (omega arith)
            ∙ b.got x (ground arith)
            ∙ view
            ∙ ap host (omega arith),
      )
