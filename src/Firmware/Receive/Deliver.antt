-- ===== src/Firmware/Receive/Deliver.antt =====
-- sataCom.c and sata_cmd.c together: the command that the host sends is the one that the device
-- runs.
use issd.Base.{
  ℕ, zero, suc, ◌+◌, ◌-◌, ◌*◌, ◌/◌, ◌≤◌, ◌<◌, ◌≡◌, refl, ap, ap₂, ◌∙◌, true, false, List, [], ◌∷◌,
  Bytes, copy_bytes, within, read_32, write_32, read-write_32, u32, if◌then◌else◌, arith,
}
use issd.Host.SataCom.{System, packet, send_packets, sata_write_buffer, sector_size}
use issd.Firmware.Layout.{bytes_per_page, hil_buf_addr, issd_cmd_buffer_addr}
use issd.Firmware.Receive.{Receiver, run_if_complete, ata_write_buffer, receive}

-- The host's packets from `i` on, `k` of them.
abbrev pub packets_from : Bytes → ℕ → ℕ → List Bytes
packets_from b i zero = []
packets_from b i (suc k) = packet b i ∷ packets_from b (i + 1) k

-- The DRAM when packets `i`, …, `i + k - 1` have been stored.
stored : Bytes → Bytes → ℕ → ℕ → Bytes
stored b dram i zero = dram
stored b dram i (suc k) =
    stored b (copy_bytes dram (hil_buf_addr + i * 512) (packet b i) 0 512) (i + 1) k

stored-at :
    (b dram : Bytes) (i k a : ℕ)
    → stored b dram i k a
      ≡ (if within (hil_buf_addr + i * 512) (k * 512) a then b (a - hil_buf_addr) else dram a)
unfolding stored copy_bytes
stored-at b dram i zero a = ground arith
stored-at b dram i (suc k) a =
    ground
      (arith, stored-at b (copy_bytes dram (hil_buf_addr + i * 512) (packet b i) 0 512) (i + 1) k a)

-- The DRAM that the command starts with.
pub command_dram : Bytes → Bytes → ℕ → Bytes
unfolding stored
command_dram b dram n =
    let full = stored b dram 0 n in
    copy_bytes full issd_cmd_buffer_addr full hil_buf_addr bytes_per_page

module _ {S : Type 0} (process : Bytes → S → Bytes × S) where
  -- A receiver in the middle of a command.
  abbrev midway : Bytes → ℕ → ℕ → S → Receiver S
  midway dram num i s = record {
    dram = dram;
    num_packet = num;
    packet_rcv_buf_offset = i * 512;
    device = s;
  }

  -- The receiver when a command has been run on the DRAM `d`.
  abbrev pub after_run : Bytes → S → Receiver S
  after_run d s =
      let (dram, device) = process d s in
      record { dram = dram; num_packet = 0; packet_rcv_buf_offset = 0; device = device }

  -- A packet that is not the last of its command is only stored.
  store_step :
      (b dram : Bytes) (num i : ℕ) (s : S)
      → 1 < num
      → num < u32
      → i < 64
      → ata_write_buffer process (midway dram num i s) (packet b i)
        ≡ midway (copy_bytes dram (hil_buf_addr + i * 512) (packet b i) 0 512) (num - 1) (i + 1) s
  unfolding ata_write_buffer run_if_complete
  store_step b dram num i s h w f = ground arith

  run_step :
      (b dram : Bytes) (i : ℕ) (s : S)
      → ata_write_buffer process (midway dram 1 i s) (packet b i) ≡ (
          let full = copy_bytes dram (hil_buf_addr + i * 512) (packet b i) 0 512 in
          after_run (copy_bytes full issd_cmd_buffer_addr full hil_buf_addr bytes_per_page) s)
  unfolding ata_write_buffer run_if_complete
  run_step b dram i s = ground arith

  receive-midway :
      (b dram : Bytes) (num i j : ℕ) (s : S)
      → j < num
      → num < u32
      → i + j ≤ 64
      → receive process (midway dram num i s) (packets_from b i j)
        ≡ midway (stored b dram i j) (num - j) (i + j) s
  unfolding receive stored
  receive-midway b dram num i zero s h w f = ground arith
  receive-midway b dram num i (suc j) s h w f =
      let next = copy_bytes dram (hil_buf_addr + i * 512) (packet b i) 0 512 in
      ap (λ r. receive process r (packets_from b (i + 1) j))
        (store_step b dram num i s (omega arith) w (omega arith))
      ∙ receive-midway b next (num - 1) (i + 1) j s (omega arith) (omega arith) (omega arith)
      ∙ ap₂ (λ n k. midway (stored b next (i + 1) j) n k s) (omega arith) (omega arith)

  receive-rest :
      (b dram : Bytes) (i k : ℕ) (s : S)
      → i + suc k ≤ 64
      → receive process (midway dram (suc k) i s) (packets_from b i (suc k)) ≡ (
          let full = stored b dram i (suc k) in
          after_run (copy_bytes full issd_cmd_buffer_addr full hil_buf_addr bytes_per_page) s)
  unfolding receive stored
  receive-rest b dram i zero s f = run_step b dram i s
  receive-rest b dram i (suc k) s f =
      let next = copy_bytes dram (hil_buf_addr + i * 512) (packet b i) 0 512 in
      ap (λ r. receive process r (packets_from b (i + 1) (suc k)))
        (store_step b dram (suc (suc k)) i s (omega arith) fits (omega arith))
      ∙ ap (λ n. receive process (midway next n (i + 1) s) (packets_from b (i + 1) (suc k)))
          (let less : suc (suc k) - 1 ≡ suc k = omega arith in less)
      ∙ receive-rest b next (i + 1) k s (omega arith)
    where
      fits : suc (suc k) < u32
      fits = omega arith

  -- An idle receiver takes the count from the first packet.
  idle_step :
      (b dram : Bytes) (n : ℕ) (s : S)
      → read_32 b 0 ≡ n
      → 0 < n
      → ata_write_buffer process (midway dram 0 0 s) (packet b 0)
        ≡ ata_write_buffer process (midway dram n 0 s) (packet b 0)
  unfolding ata_write_buffer
  idle_step b dram n s e h =
      let first : read_32 (copy_bytes dram (hil_buf_addr + 0 * 512) (packet b 0) 0 512) hil_buf_addr
          ≡ n =
        unfold read_32 copy_bytes in (e) in
      ground (arith, first)

-- The DRAM that the command starts with: where the n packets of the buffer `b` belong.
-- The bytes of the command lie at ISSD_CMD_BUFFER_ADDR.
command_dram-at :
    (b dram : Bytes) (n a : ℕ)
    → n ≤ 64
    → a < n * 512
    → command_dram b dram n (issd_cmd_buffer_addr + a) ≡ b a
unfolding command_dram copy_bytes
command_dram-at b dram n a h k = ground (arith, stored-at b dram 0 n (hil_buf_addr + a))

-- Outside the two buffers the DRAM is as it was.
command_dram-outside :
    (b dram : Bytes) (n a : ℕ)
    → n ≤ 64
    → within hil_buf_addr bytes_per_page a ≡ false
    → within issd_cmd_buffer_addr bytes_per_page a ≡ false
    → command_dram b dram n a ≡ dram a
unfolding command_dram copy_bytes
command_dram-outside b dram n a h k m = ground (arith, stored-at b dram 0 n a)

-- The loop stops at the first packet that the system does not deliver.
send_packets-until :
    (sys : System) (b : Bytes) (i j k n : ℕ)
    → n ≡ j + suc k
    → ((t : ℕ) → t < i + j → sys.delivers t ≡ true)
    → sys.delivers (i + j) ≡ false
    → send_packets sys b i n ≡ (false, packets_from b i j)
unfolding send_packets
send_packets-until sys b i zero k zero e good bad = absurd (omega arith)
send_packets-until sys b i zero k (suc n) e good bad =
    rw (let off : sys.delivers i ≡ false = ap sys.delivers (omega arith) ∙ bad in off) refl
send_packets-until sys b i (suc j) k zero e good bad = absurd (omega arith)
send_packets-until sys b i (suc j) k (suc n) e good bad =
    let rest =
      send_packets-until sys b (i + 1) j k n (omega arith) (λ t lt. good t (omega arith))
        (ap sys.delivers (omega arith) ∙ bad) in
    rw (good i (omega arith), rest) refl

send_packets-all :
    (sys : System) (b : Bytes) (i n : ℕ)
    → ((t : ℕ) → t < i + n → sys.delivers t ≡ true)
    → send_packets sys b i n ≡ (true, packets_from b i n)
unfolding send_packets
send_packets-all sys b i zero h = refl
send_packets-all sys b i (suc n) h =
    rw (h i (omega arith), send_packets-all sys b (i + 1) n (λ t lt. h t (omega arith)))

-- The number of packets of a command of `size` bytes.
abbrev pub packet_count : ℕ → ℕ
packet_count size = (size + sector_size - 1) / sector_size

-- The buffer with the count in its first word.
abbrev pub counted : Bytes → ℕ → Bytes
counted cmd size = write_32 cmd 0 (packet_count size)

module _ {S : Type 0} (process : Bytes → S → Bytes × S) where
  -- A receiver between two commands.
  abbrev pub idle : Bytes → S → Receiver S
  idle dram s = record { dram = dram; num_packet = 0; packet_rcv_buf_offset = 0; device = s }

  receive-first :
      (b dram : Bytes) (n j : ℕ) (s : S)
      → read_32 b 0 ≡ n
      → 0 < n
      → receive process (idle dram s) (packets_from b 0 (suc j))
        ≡ receive process (record (idle dram s) { num_packet = n }) (packets_from b 0 (suc j))
  unfolding receive
  receive-first b dram n j s e h =
      ap (λ r. receive process r (packets_from b 1 j)) (idle_step process b dram n s e h)

  receive-command :
      (b dram : Bytes) (n : ℕ) (s : S)
      → read_32 b 0 ≡ n
      → 0 < n
      → n ≤ 64
      → receive process (idle dram s) (packets_from b 0 n)
        ≡ after_run process (command_dram b dram n) s
  unfolding command_dram
  receive-command b dram zero s e h f = elim h [ ]
  receive-command b dram (suc k) s e h f =
      receive-first b dram (suc k) k s e h ∙ receive-rest process b dram 0 k s (omega arith)

  -- Where the system delivers every packet of a command of at most 32 KB, `sata_writeBuffer`
  -- returns 0, and the device, idle before, runs `issd_process_cmd` exactly once, after the last
  -- packet, is idle again, and the command buffer that it runs on holds the bytes of the command
  -- behind its first word, which holds the packet count.
  pub transfer-runs :
      (sys : System) (cmd : Bytes) (size : ℕ) (dram : Bytes) (s : S) (a : ℕ)
      → (sys.opens ≡ true) × (sys.allocates ≡ true)
      → ((t : ℕ) → t < packet_count size → sys.delivers t ≡ true)
      → 0 < size
      → size ≤ bytes_per_page
      → a < size
      → let sent = sata_write_buffer sys cmd size in
        let d = command_dram sent.buffer dram (packet_count size) in
        (sent.ok ≡ true)
        × (receive process (idle dram s) sent.packets ≡ after_run process d s)
        × (d (issd_cmd_buffer_addr + a) ≡ counted cmd size a)
  unfolding sata_write_buffer
  transfer-runs sys cmd size dram s a up all pos fits at =
      rw (sent, up.0, up.1)
        (
          refl,
          receive-command b dram n s count (omega arith) (omega arith),
          command_dram-at b dram n a (omega arith) (omega arith),
        )
    where
      n : ℕ
      n = packet_count size

      b : Bytes
      b = counted cmd size

      sent : send_packets sys b 0 n ≡ (true, packets_from b 0 n)
      sent = send_packets-all sys b 0 n (λ t lt. all t (omega arith))

      count : read_32 b 0 ≡ n
      count = read-write_32 cmd 0 n (omega arith)

  -- Where the system delivers the first j packets of a command of n and refuses the next, with
  -- 0 < j < n ≤ 64, `sata_writeBuffer` fails, and the device, idle before, has run nothing; it keeps
  -- waiting for n - j packets, to be stored from byte 512 * j on.
  pub transfer-partial :
      (sys : System) (cmd : Bytes) (size : ℕ) (dram : Bytes) (s : S) (j : ℕ)
      → (sys.opens ≡ true) × (sys.allocates ≡ true)
      → ((t : ℕ) → t < j → sys.delivers t ≡ true)
      → sys.delivers j ≡ false
      → 0 < j
      → j < packet_count size
      → size ≤ bytes_per_page
      → let sent = sata_write_buffer sys cmd size in
        let r = receive process (idle dram s) sent.packets in
        (sent.ok ≡ false)
        × (r.device ≡ s)
        × (r.num_packet ≡ packet_count size - j)
        × (r.packet_rcv_buf_offset ≡ j * 512)
  unfolding sata_write_buffer
  transfer-partial sys cmd size dram s zero up good bad pos more fits = absurd (omega arith)
  transfer-partial sys cmd size dram s (suc j) up good bad pos more fits =
      rw (sent, up.0, up.1, left) (refl, refl, refl, omega arith)
    where
      n : ℕ
      n = packet_count size

      b : Bytes
      b = counted cmd size

      sent : send_packets sys b 0 n ≡ (false, packets_from b 0 (suc j))
      sent =
          send_packets-until sys b 0 (suc j) (n - suc j - 1) n (omega arith)
            (λ t lt. good t (omega arith)) (ap sys.delivers (omega arith) ∙ bad)

      left :
          receive process (idle dram s) (packets_from b 0 (suc j))
          ≡ midway process (stored b dram 0 (suc j)) (n - suc j) (0 + suc j) s
      left =
          receive-first b dram n j s (read-write_32 cmd 0 n (omega arith)) (omega arith)
          ∙ receive-midway process b dram n 0 (suc j) s more (omega arith) (omega arith)
