-- ===== src/Firmware/Sata.antt =====
-- OpenSSD-1.1.0/sata/sata_isr.c and sata_main.c: the interrupt handler takes the commands of the host,
-- and Main carries them out. What the registers hold when they are read is an argument, and the
-- event queue of the controller an interface.
pub mod Table
pub mod Range
pub mod Order
mod Tests
use issd.Base.{
  Option, none, some, ℕ, ◌+◌, ◌-◌, ◌*◌, ◌/◌, ◌%◌, Bool, true, false, not, ◌&&◌, ◌||◌, ◌≡◌, List, [],
  ◌∷◌, ◌++◌, ltb, ◌==◌, u32, if◌then◌else◌,
}
use issd.Firmware.Layout.{num_lsectors}
use issd.Firmware.Sata.Table.{AtaFunction, cmd_class, search_ata_function}

-- The controller's event queue: an entry, as the two words that SATA_EQ_DATA_0 and SATA_EQ_DATA_1 give.
pub record EventQueue : Type 0 where
  pub entry : Bool → ℕ → ℕ → ℕ × ℕ
  pub count-entry :
      (write : Bool) (lba sector_count : ℕ)
      → (entry write lba sector_count).0 / 65536 ≡ sector_count % 65536
  pub lba-entry :
      (write : Bool) (lba sector_count : ℕ)
      → (entry write lba sector_count).1 % 1073741824 ≡ lba % 1073741824
  pub type-entry :
      (write : Bool) (lba sector_count : ℕ)
      → (entry write lba sector_count).1 / 2147483648 ≡ (if write then 1 else 0)

-- The registers of a command: SATA_FIS_H2D_0 to SATA_FIS_H2D_3, and bit 31 of SATA_EQ_STATUS.
pub record Frame : Type 0 where
  pub fis_d0 : ℕ
  pub fis_d1 : ℕ
  pub fis_d2 : ℕ
  pub fis_d3 : ℕ
  pub queue_full : Bool

-- The bits of SATA_INT_STAT & SATA_INT_ENABLE that the handler tests, with the frame that is there.
pub record Interrupt : Type 0 where
  pub frame : Frame
  pub cmd_recv : Bool
  pub operation_err : Bool
  pub reg_fis_recv : Bool
  pub phy_online : Bool

pub data SlowStatus : Type 0 where
  idle : SlowStatus
  pending : SlowStatus
  busy : SlowStatus

-- What the code starts: a transfer with the flags of `action_flags` (SETREG(SATA_CTRL_2, ..)), the report
-- B_IDNF to the host, and the calls of Main.
pub data Call : Type 0 where
  transfer : ℕ → Call
  report_idnf : Call
  call_ftl_read : ℕ → ℕ → Call
  call_ftl_write : ℕ → ℕ → Call
  call_ata : AtaFunction → ℕ → ℕ → Call

-- `g_sata_context` and `g_sata_action_flags`, the event queue, whether the link is up, whether Main is in an ATA function, and what
-- has been started, in order.
pub record Sata : Type 0 where
  pub slow_status : SlowStatus
  pub slow_code : ℕ
  pub slow_lba : ℕ
  pub slow_sector_count : ℕ
  pub eq_full : Bool
  pub srst : Bool
  pub chs_cur_heads : ℕ
  pub chs_cur_sectors : ℕ
  pub action_flags : ℕ
  pub events : List (ℕ × ℕ)
  pub link_up : Bool
  pub in_function : Bool
  pub calls : List Call

abbrev pub ata_srst_code : ℕ
ata_srst_code = 255

-- Bit `2 ^ n` of a number, by its weight.
abbrev pub flag : ℕ → ℕ → Bool
flag weight x = x / weight % 2 == 1

abbrev pub cmd_code_of : Frame → ℕ
cmd_code_of f = f.fis_d0 / 65536 % 256

-- The number of sectors; 0 stands for the largest, but in the commands that have none.
abbrev sectors_or : ℕ → ℕ → ℕ → ℕ
sectors_or cmd_type n all = if n == 0 && not (flag 64 cmd_type) then all else n

-- `lba` of `handle_got_cfis`.
pub decode_lba : Sata → Frame → ℕ
decode_lba s f =
    let cmd_type = cmd_class (cmd_code_of f) in
    let cylinder = f.fis_d1 / 256 % 65536 in
    let head = f.fis_d1 / 16777216 % 16 in
    let sector = f.fis_d1 % 256 in
    let chs =
      ((cylinder * s.chs_cur_heads + head) * s.chs_cur_sectors + sector + (u32 - 1)) % u32 in
    if flag 16 cmd_type
    then (if flag 1073741824 f.fis_d1 then f.fis_d1 % 268435456 else chs)
    else if flag 32 cmd_type
    then f.fis_d1 % 16777216 + f.fis_d2 % 256 * 16777216
    else 0

-- `sector_count`
pub decode_count : Frame → ℕ
decode_count f =
    let cmd_type = cmd_class (cmd_code_of f) in
    if flag 16 cmd_type
    then sectors_or cmd_type (f.fis_d3 % 256) 256
    else if flag 32 cmd_type
    then sectors_or cmd_type (f.fis_d3 % 65536) 65536
    else 0

-- `lba + sector_count > MAX_LBA + 1 && (cmd_type & ATR_NO_SECT) == 0`
abbrev pub out_of_range : ℕ → ℕ → ℕ → Bool
out_of_range lba sector_count cmd_type =
    ltb num_lsectors ((lba + sector_count) % u32) && not (flag 64 cmd_type)

-- DMA_WRITE, PIO_WRITE, DMA_READ and PIO_READ with CLR_STAT_PIO_SETUP, each with COMPLETE.
abbrev pub action_flags_of : Bool → ℕ → ℕ
action_flags_of write cmd_code =
    if write
    then (if cmd_code == 0xCA || cmd_code == 0x35 then 16416 else 4128)
    else (if cmd_code == 0xC8 || cmd_code == 0x25 then 1056 else 800)

-- `handle_srst`, without the answer to the link and the reset of the controller's FIFO.
pub handle_srst : Sata → Frame → Sata
handle_srst s f =
    if flag 67108864 f.fis_d3
    then record s { srst = true }
    else if s.srst
    then record s { srst = false; slow_code = ata_srst_code; slow_status = pending; slow_lba = 0 }
    else s

-- The interrupts of `fiq_handler` behind those of a command and of an error.
pub handle_other : Sata → Interrupt → Sata
unfolding handle_srst
handle_other s i =
    if i.reg_fis_recv
    then (if i.frame.fis_d0 % 256 == 0x27 then handle_srst s i.frame else s)
    else if i.phy_online
    then record s { slow_code = ata_srst_code; slow_status = pending; slow_lba = 0 }
    else s

module _ (hw : EventQueue) where
  open hw use {entry}

  -- `handle_got_cfis`, without the registers that describe the transfer to the controller.
  pub handle_got_cfis : Sata → Frame → Sata
  unfolding decode_lba decode_count
  handle_got_cfis s f =
      let cmd_code = cmd_code_of f in
      let cmd_type = cmd_class cmd_code in
      let lba = decode_lba s f in
      let sector_count = decode_count f in
      let write = flag 2 cmd_type in
      let flags = action_flags_of write cmd_code in
      let s' = record s { events = s.events ++ (entry write lba sector_count ∷ []) } in
      if out_of_range lba sector_count cmd_type
      then record s { calls = s.calls ++ (report_idnf ∷ []) }
      else if flag 1 cmd_type || flag 2 cmd_type
      then (if f.queue_full
          then record s' { eq_full = true; action_flags = flags }
          else record s' { calls = s.calls ++ (transfer flags ∷ []) })
      else record s {
        slow_status = pending;
        slow_code = cmd_code;
        slow_lba = lba;
        slow_sector_count = sector_count;
      }

  -- `fiq_handler`, without the registers that it clears. `none` is the endless loop of `led_blink` after an
  -- error of the link.
  pub fiq_handler : Sata → Interrupt → Option Sata
  unfolding handle_got_cfis handle_other
  fiq_handler s i =
      if i.cmd_recv
      then some (handle_got_cfis s i.frame)
      else if i.operation_err
      then none
      else some (handle_other s i)

-- `eventq_get` of the entry: whether it writes, its `lba` and its `sector_count`.
pub read_entry : ℕ × ℕ → Bool × (ℕ × ℕ)
read_entry e =
    let n = e.0 / 65536 in
    (e.1 / 2147483648 == 1, (e.1 % 1073741824, (if n == 0 then 65536 else n)))

-- What it does when the queue was full.
pub resume_transfer : Sata → Sata
resume_transfer s =
    if s.eq_full
    then record s {
      eq_full = false;
      calls = if s.link_up then s.calls ++ (transfer s.action_flags ∷ []) else s.calls;
    }
    else s

-- The call for an entry.
pub call_of : ℕ × ℕ → Call
unfolding read_entry
call_of e =
    let cmd = read_entry e in
    if cmd.0 then call_ftl_write cmd.1.0 cmd.1.1 else call_ftl_read cmd.1.0 cmd.1.1

-- A round of the loop of `Main`, in two when it calls an ATA function, which interrupts may come into: by
-- whether Main is in the function, the queue and the state of the slow command. A step is one that comes to
-- its end: where a function of the FTL does not return, there is no step behind its call.
pub main_round : Bool → List (ℕ × ℕ) → SlowStatus → Sata → Sata
unfolding call_of resume_transfer
main_round true events status s = record s { in_function = false; slow_status = idle }
main_round false (e ∷ rest) status s =
    let s' = resume_transfer (record s { events = rest }) in
    record s' { calls = s'.calls ++ (call_of e ∷ []) }
main_round false [] pending s = record s {
  slow_status = busy;
  in_function = true;
  calls =
      s.calls ++ (call_ata (search_ata_function s.slow_code) s.slow_lba s.slow_sector_count ∷ []);
}
main_round false [] idle s = s
main_round false [] busy s = s

pub main_step : Sata → Sata
unfolding main_round
main_step s = main_round s.in_function s.events s.slow_status s
