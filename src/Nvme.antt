-- ===== src/Nvme.antt =====
-- kernel/nvme.c: the queues, doorbells and block reads of the NVMe driver, with the structures of
-- kernel/nvme.h. The controller is hardware: `Controller` says what the driver sees of it.
-- The driver's state is passed from call to call; stores to device registers are logged.
pub mod Api
pub mod Progress
pub mod Doorbell
pub mod Wait
pub mod Read
pub mod Init
pub mod Startup
pub mod Registers
pub mod Find
pub mod RamDisk
pub mod Example
mod InitTests
mod Tests
use os_kernel_and_bootloader.Base.{
  ℕ, zero, suc, ◌+◌, ◌-◌, ◌*◌, ◌/◌, ◌%◌, ◌^◌, List, [], ◌∷◌, ◌++◌, Bool, true, false, not, ltb,
  ◌==◌, if◌then◌else◌, Option, none, some, set, take, codes, u8, u16, u32, u64, sub32, ◌<<<◌, ◌>>>◌,
  bit_and, bit_xor, store,
}
use os_kernel_and_bootloader.Base.Io.{Io, ◌>>=◌, ◌>>◌, return, halt, print, print_hex}

pub record Cmd : Type 0 where
  pub opcode : ℕ
  pub flags : ℕ
  pub cid : ℕ
  pub nsid : ℕ
  pub rsvd2 : ℕ
  pub mptr : ℕ
  pub prp1 : ℕ
  pub prp2 : ℕ
  pub cdw10 : ℕ
  pub cdw11 : ℕ
  pub cdw12 : ℕ
  pub cdw13 : ℕ
  pub cdw14 : ℕ
  pub cdw15 : ℕ

-- `struct nvme_cmd cmd = {0}`.
abbrev pub zero_cmd : Cmd
zero_cmd = record {
  opcode = 0;
  flags = 0;
  cid = 0;
  nsid = 0;
  rsvd2 = 0;
  mptr = 0;
  prp1 = 0;
  prp2 = 0;
  cdw10 = 0;
  cdw11 = 0;
  cdw12 = 0;
  cdw13 = 0;
  cdw14 = 0;
  cdw15 = 0;
}

abbrev pub admin_q_depth : ℕ
admin_q_depth = 32

abbrev pub io_q_depth : ℕ
io_q_depth = 64

-- A submission queue with its tail, and the head and phase of its completion queue.
pub record Queue : Type 0 where
  pub sq : List Cmd
  pub sq_tail : ℕ
  pub cq_head : ℕ
  pub cq_phase : ℕ

pub record Driver : Type 0 where
  pub admin : Queue
  pub io : Queue
  pub block_size : ℕ
  pub dstrd : ℕ
  pub io_buf : List ℕ  -- nvme_io_buf, 4096 bytes
  pub io_buf_address : ℕ  -- where the linker has put it
  pub stores : List (ℕ × ℕ)  -- register offsets and values, the latest first

-- What the driver sees of the controller. After a command has been submitted, `status` gives the
-- status word of the completion entry at the head, on the first, second, … look at it, and
-- `transfer` what the 4096-byte buffer then holds. The driver looks `patience` times.
pub record Controller : Type 0 where
  pub patience : ℕ
  pub status : Driver → Cmd → ℕ → ℕ
  pub transfer : Driver → Cmd → List ℕ

-- Register offsets from BAR0; the doorbells begin at 0x1000.
unfoldable pub sq_doorbell : ℕ → ℕ → ℕ
sq_doorbell dstrd qid = 0x1000 + u32 (2 * qid * (4 <<< dstrd))

unfoldable pub cq_doorbell : ℕ → ℕ → ℕ
cq_doorbell dstrd qid = 0x1000 + u32 ((2 * qid + 1) * (4 <<< dstrd))

-- `nvme_submit_sq`: the queue and the value for its doorbell.
unfoldable pub submit_sq : Queue → ℕ → Cmd → Queue
submit_sq q depth cmd = record q {
  sq = set q.sq q.sq_tail cmd;
  sq_tail = u16 ((q.sq_tail + 1) % depth);
}

-- The wait of `nvme_poll_cq`, with the looks left and the number of the next one.
unfoldable pub wait_phase : ℕ → ℕ → (ℕ → ℕ) → ℕ → Option ℕ
wait_phase zero phase seen t = none
wait_phase (suc n) phase seen t =
    let rest = wait_phase n phase seen (t + 1) in
    if bit_and (seen t) 1 == phase then some (seen t) else rest

unfoldable pub advance_cq : Queue → ℕ → Queue
advance_cq q depth =
    let head = u16 ((q.cq_head + 1) % depth) in
    record q { cq_head = head; cq_phase = if head == 0 then bit_xor q.cq_phase 1 else q.cq_phase }

unfoldable pub status_code : ℕ → ℕ
status_code status = bit_and (status >>> 1) 0x7FF

-- What `nvme_poll_cq` prints.
unfoldable pub status_text : ℕ → Io (Unit {0})
status_text status = if status_code status == 0 then return tt else (do
  print (codes "NVMe: CQ error, status=")
  print_hex (status_code status)
  print (codes "\n"))

unfoldable pub finish_poll : Option ℕ → Queue → ℕ → Io (Queue × ℕ)
finish_poll none q depth = halt
finish_poll (some status) q depth = do status_text status; return (advance_cq q depth, status)

-- `nvme_poll_cq`: the new queue and the status of the entry that it returns.
unfoldable pub poll_cq : ℕ → (ℕ → ℕ) → Queue → ℕ → Io (Queue × ℕ)
poll_cq patience seen q depth = finish_poll (wait_phase patience q.cq_phase seen 0) q depth

unfoldable pub read_cmd : Driver → ℕ → ℕ → ℕ → Cmd
read_cmd d nsid lba count = record zero_cmd {
  opcode = 0x02;
  cid = 10;
  nsid = nsid;
  prp1 = d.io_buf_address;
  prp2 = 0;
  cdw10 = u32 lba;
  cdw11 = u32 (lba >>> 32);
  cdw12 = sub32 count 1;
}

-- The I/O queue, the log and the buffer when a command has been submitted and its doorbell rung.
unfoldable pub submit_io : Driver → Cmd → Driver
submit_io d cmd =
    let q = submit_sq d.io io_q_depth cmd in
    record d { io = q; stores = (sq_doorbell d.dstrd 1, q.sq_tail) ∷ d.stores }

-- … and when its completion has been taken.
unfoldable pub complete_io : Controller → Driver → Cmd → Queue → Driver
complete_io hw d cmd q = record d {
  io = q;
  io_buf = hw.transfer d cmd;
  stores = (cq_doorbell d.dstrd 1, q.cq_head) ∷ d.stores;
}

-- `nvme_read_blocks`: 0 is `none`; 1 comes with the bytes copied to the caller's buffer.
unfoldable pub read_blocks : Controller → Driver → ℕ → ℕ → ℕ → ℕ → Io (Driver × Option (List ℕ))
read_blocks hw d nsid lba count buffer_size =
    let total = count * d.block_size in
    if ltb 4096 total
    then (do print (codes "NVMe: read too big for single-PRP buffer\n"); return (d, none))
    else if ltb buffer_size total
    then (do print (codes "NVMe: destination buffer too small\n"); return (d, none))
    else (do
      let cmd = read_cmd d nsid lba count
      let d' = submit_io d cmd
      (q, status) ← poll_cq hw.patience (hw.status d' cmd) d'.io io_q_depth
      let d'' = complete_io hw d' cmd q
      return (d'', some (take total d''.io_buf)))
