-- ===== src/Host/SataCom.antt =====
-- PCModule2/server/sataCom.c (sata_writeBuffer): the command buffer sent to the device in packets.
use issd.Base.{
  ℕ, zero, suc, ◌+◌, ◌-◌, ◌*◌, ◌/◌, Bool, true, false, not, ◌||◌, List, [], ◌∷◌, Bytes, write_32,
  if◌then◌else◌,
}

-- SECTOR_SIZE
abbrev pub sector_size : ℕ
sector_size = 512

-- How the system answers: `open`, `malloc`, and for each packet the `ioctl` that sends it.
pub record System : Type 0 where
  pub opens : Bool
  pub allocates : Bool
  pub delivers : ℕ → Bool

-- What the call leaves: whether it returned 0, the command buffer and the packets sent.
pub record Sent : Type 0 where
  pub ok : Bool
  pub buffer : Bytes
  pub packets : List Bytes

-- The `i`-th sector of the buffer, as copied to `data`.
abbrev pub packet : Bytes → ℕ → Bytes
packet buffer i a = buffer (i * sector_size + a)

-- The loop from packet `i` on, with `n` packets left.
unfoldable pub send_packets : System → Bytes → ℕ → ℕ → Bool × List Bytes
send_packets sys buffer i zero = (true, [])
send_packets sys buffer i (suc n) =
    let (ok, rest) = send_packets sys buffer (i + 1) n in
    if sys.delivers i then (ok, packet buffer i ∷ rest) else (false, [])

-- `sata_writeBuffer`: the packet count goes into the first word of the buffer before anything can
-- fail.
unfoldable pub sata_write_buffer : System → Bytes → ℕ → Sent
unfolding send_packets
sata_write_buffer sys cmd bufsize =
    let num_packet = (bufsize + sector_size - 1) / sector_size in
    let buffer = write_32 cmd 0 num_packet in
    let (ok, packets) = send_packets sys buffer 0 num_packet in
    if not sys.opens || not sys.allocates
    then record { ok = false; buffer = buffer; packets = [] }
    else record { ok = ok; buffer = buffer; packets = packets }
