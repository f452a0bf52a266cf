-- ===== src/Lib.antt =====
-- issd: in-storage computing on the OpenSSD Jasmine board. A client puts a request (a file operation
-- and its files) into a queue in shared memory; a server on the same host takes it out, gives it to
-- the thread of its device, turns the files into sector extents and sends a command to the device
-- in WRITE BUFFER packets; the firmware collects the packets, carries out the command on its flash
-- translation layer, and the host reads the result back.
--
-- Host:
-- Host/Client.antt: the client library's counters (issd_compute_init, issd_compute_destroy and
--   getNextReqSeq of PCModule2/client/issd_Compute_client.c); the operations of getNextReqSeq are steps.
-- Host/ReqQueue.antt: the queue in shared memory (createRQueue and getNextReqPacket of
--   PCModule2/server/reqQueue.c, sendReqPacket of PCModule2/client/issd_Compute_client.c): a step is one
--   semaphore operation or one use of the buffer, a list of steps is an interleaving.
-- Host/Routines.antt: the server's threads and queues (PCModule2/server/reqPRoutine.c,
--   dispatchReqPacket of reqQueue.c). An `Action` is a step of a thread between two waits; a
--   sequence of actions is an interleaving. `none` is a step that cannot happen, or an access outside
--   an array.
-- Host/DevMap.antt: the table of devices (getProcessRoutineIdx).
-- Host/Extents.antt: the extents of a file (postProcess of PCModule2/server/issd_compute.c).
-- Host/Command.antt: the command for an operation on files (getLbaExts and issd_createCmd of
--   issd_compute.c); `Files` and `Output` are the answers of the file system.
-- Host/Compute.antt: issd_compute and issd_waitFinish of issd_compute.c; `Machine` is what the
--   system and the device answer.
-- Host/SataCom.antt: the packets of a command (sata_writeBuffer of PCModule2/server/sataCom.c);
--   the answers of the system are the parameter `System`.
-- Firmware, under OpenSSD-1.1.0:
-- Firmware/Layout.antt: the geometry and the DRAM regions (include/jasmine.h, include/nand.h,
--   ftl_tutorial/ftl.h).
-- Firmware/Sata.antt: the interrupt handler and Main (sata/sata_isr.c, sata/sata_main.c), with the command
--   tables of sata/sata_table.c. A sequence of actions is an interleaving of interrupts with the
--   rounds of Main. The registers that are read are arguments, the calls are a list.
-- Firmware/Receive.antt: ata_write_buffer of sata/sata_cmd.c, for any issd_process_cmd.
-- Firmware/ScanList.antt, Firmware/Ftl.antt: ftl_tutorial/ftl.c, the FTL of the Makefile.
-- Firmware/Ftl/Serve.antt: ftl_write and ftl_read of it, the commands of the host.
-- Firmware/Greedy.antt: ftl_greedy/ftl.c, with the functions of target_spw/flash_wrapper.c that it calls; Gc has
--   garbage_collection, Write has assign_new_write_vpn, write_page and
--   ftl_write, Read has ftl_read, and Buffers the regions of the DRAM of ftl_greedy/ftl.h. Bank states what holds of a
--   bank when its current block is full (Closed), when it has pages left (Open), and between
--   two writes (Idle), once every block of the bank has been used (free_blk_cnt is 2 then). Copying, Copy,
--   Confined and Loop follow the copies of the collection, Swept, Reclaim and Reopen its end, Asserted and Ranges its ASSERTs; Close,
--   Assign, Commit, Step, Entries, Exact, Opened, Content, Asserted and Written follow a write.
-- Firmware/Nand.antt: what the flash controller does, as an interface with laws.
-- Firmware/Backup.antt: issd_process_cmd and do_issd_backup of issd/issd.c on the FTL, with the command
--   in the DRAM. Targets says which sectors a copy may write, Lands and Moved state a write and a copy over lists of sectors, Cursor gives the
--   sectors of a file, and WriteOut, WriteLoop, Chunk, Extent, Extents and Copy follow the loops outwards.
-- Firmware/Chips.antt: test data.
-- Base: the Boolean tests, memories as functions of an address, list and name helpers.
--
-- Machine integers keep their 32 bits in Host/Extents.antt, Firmware/Receive.antt and Firmware/Sata.antt,
-- where the code computes with values that come from outside. The FTL's sector numbers and addresses are
-- below 2 ^ 32 on the board, and are plain numbers in the model. The loops of issd_write_sectors,
-- issd_read_sectors, ftl_write and ftl_read run on fuel, one round for each sector: a round moves a sector at least,
-- and the theorems show that the fuel is enough. The endless loop of get_free_page on an
-- exhausted bank is `none`. The loops of do_issd_backup run on one round for each sector left,
-- and one more for each extent of the output, which the theorem on the copy shows to be enough.
-- The flow control between the FTL and the host is left out, and a transfer is a copy.
-- In the tutorial FTL the mapping table is a field beside the DRAM, so the theorems are about sectors on the
-- device and buffers beside the table; a store behind the table changes the DRAM.
-- In the greedy FTL a failed ASSERT is `none` (Ranged says which blocks and logical pages the ASSERTs accept), and
-- the search in hardware for the least count is the parameter MemUtil. Its loops over the pages of a block run on their number.
-- An entry of a list is a logical page of the list's bank in Closed and Open. The skipped first page of the
-- first block of a bank has the entry 0, so the banks but bank 0 come to be so when that block is erased.
-- issd_waitFinish waits for as many answers as its
-- fuel says. Flash commands take effect when they are issued; the waits for idle banks are left
-- out.
--
-- Not modelled: the older PCModule, the DAC, FASTer and dummy FTLs, what the greedy FTL saves at a flush, register access, the installer,
-- the system calls themselves, and the layout of C strings beyond the length that their arrays have.
pub mod Base
pub mod Host
pub mod Firmware
