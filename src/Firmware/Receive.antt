-- ===== src/Firmware/Receive.antt =====
-- OpenSSD-1.1.0/sata/sata_cmd.c (ata_write_buffer): the device collects the packets of a command,
-- and runs it when the last one is there.
pub mod Deliver
mod Tests
use issd.Base.{
  ℕ, ◌+◌, ◌-◌, ◌%◌, ◌==◌, List, [], ◌∷◌, Bytes, copy_bytes, read_32, u32, if◌then◌else◌,
}
use issd.Firmware.Layout.{bytes_per_page, hil_buf_addr, issd_cmd_buffer_addr}

-- The DRAM, the globals `num_packet` (its 32 bits) and `packet_rcv_buf_offset`, and the state of
-- what `issd_process_cmd` works on.
pub record Receiver (S : Type 0) : Type 0 where
  pub dram : Bytes
  pub num_packet : ℕ
  pub packet_rcv_buf_offset : ℕ
  pub device : S

module _ {S : Type 0} (issd_process_cmd : Bytes → S → Bytes × S) where
  -- The end of `ata_write_buffer`: with no packet left the command is copied and run.
  pub run_if_complete : Receiver S → Receiver S
  run_if_complete r =
      let cmd = copy_bytes r.dram issd_cmd_buffer_addr r.dram hil_buf_addr bytes_per_page in
      let (dram, device) = issd_process_cmd cmd r.device in
      if r.num_packet == 0
      then record r { dram = dram; packet_rcv_buf_offset = 0; device = device }
      else r

  -- `ata_write_buffer`, with the sector that the PIO transfer brings.
  pub ata_write_buffer : Receiver S → Bytes → Receiver S
  unfolding run_if_complete
  ata_write_buffer r sector =
      let dram = copy_bytes r.dram (hil_buf_addr + r.packet_rcv_buf_offset) sector 0 512 in
      let num = if r.num_packet == 0 then read_32 dram hil_buf_addr else r.num_packet in
      run_if_complete (record r {
        dram = dram;
        num_packet = (num + u32 - 1) % u32;
        packet_rcv_buf_offset = (r.packet_rcv_buf_offset + 512) % u32;
      })

  -- A sequence of WRITE BUFFER commands.
  pub receive : Receiver S → List Bytes → Receiver S
  receive r [] = r
  receive r (p ∷ ps) = receive (ata_write_buffer r p) ps
