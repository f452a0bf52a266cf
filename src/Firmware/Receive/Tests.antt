-- ===== src/Firmware/Receive/Tests.antt =====
-- A command of three packets, delivered whole and cut off, and the theorems at it.
use issd.Base.{ℕ, suc, ◌+◌, ◌-◌, ◌*◌, ◌≡◌, refl, true, false, Bytes, arith, ltb}
use issd.Host.SataCom.{System, sata_write_buffer}
use issd.Firmware.Layout.{issd_cmd_buffer_addr}
use issd.Firmware.Receive.{receive}
use issd.Firmware.Receive.Deliver.{
  packet_count, counted, idle, after_run, command_dram, transfer-runs, transfer-partial,
}

-- A device that counts the commands which it runs.
abbrev counting : Bytes → ℕ → Bytes × ℕ
counting d s = (d, suc s)

abbrev command : Bytes
command a = a

abbrev blank : Bytes
blank a = 0

abbrev healthy : System
healthy = record { opens = true; allocates = true; delivers = λ i. true }

-- Two packets get through.
abbrev failing : System
failing = record { opens = true; allocates = true; delivers = λ i. ltb i 2 }

transfer-runs_example :
    let sent = sata_write_buffer healthy command 1200 in
    let d = command_dram sent.buffer blank 3 in
    (sent.ok ≡ true)
    × (receive counting (idle counting blank 0) sent.packets ≡ after_run counting d 0)
    × (d (issd_cmd_buffer_addr + 1000) ≡ counted command 1200 1000)
transfer-runs_example =
    transfer-runs counting healthy command 1200 blank 0 1000 (refl, refl) (λ t lt. refl)
      (omega arith) (omega arith) (omega arith)

transfer-partial_example :
    let sent = sata_write_buffer failing command 1200 in
    let r = receive counting (idle counting blank 0) sent.packets in
    (sent.ok ≡ false)
    × (r.device ≡ 0)
    × (r.num_packet ≡ packet_count 1200 - 2)
    × (r.packet_rcv_buf_offset ≡ 2 * 512)
transfer-partial_example =
    transfer-partial counting failing command 1200 blank 0 2 (refl, refl) (λ t lt. ground arith)
      refl (omega arith) (omega arith) (omega arith)
