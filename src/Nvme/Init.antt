-- ===== src/Nvme/Init.antt =====
-- `nvme_init` of kernel/nvme.c, with the registers of kernel/nvme_regs.h: from the controller's reset to
-- the I/O queues.
use os_kernel_and_bootloader.Base.{
  ℕ, ◌+◌, ◌-◌, ◌*◌, ◌^◌, List, ◌∷◌, ◌==◌, if◌then◌else◌, Option, none, some, codes, u8, u32, ◌<<<◌,
  ◌>>>◌, bit_and, bit_or, le8, le32, le64,
}
use os_kernel_and_bootloader.Base.Io.{Io, ◌>>=◌, ◌>>◌, return, halt, print, print_hex}
use os_kernel_and_bootloader.Nvme.{
  Cmd, zero_cmd, Queue, Driver, admin_q_depth, io_q_depth, sq_doorbell, cq_doorbell, submit_sq,
  poll_cq, wait_phase,
}

-- Where the linker has put the queues and the buffers.
pub record Places : Type 0 where
  pub admin_sq : ℕ
  pub admin_cq : ℕ
  pub io_sq : ℕ
  pub io_cq : ℕ
  pub identify_ctrl : ℕ
  pub identify_ns : ℕ

-- The controller: its capabilities; the status register at the first, second, … look after a value was
-- stored in `cc`; the status word of the completion of a command on the admin queue, at each look; and
-- the page that a command leaves in memory. The driver looks `patience` times.
pub record Hardware : Type 0 where
  pub patience : ℕ
  pub cap : ℕ
  pub csts : ℕ → ℕ → ℕ
  pub status : Driver → Cmd → ℕ → ℕ
  pub page : Driver → Cmd → List ℕ

-- The driver, the 32-bit words of the controller's registers by offset, and the identify buffers.
pub record Startup : Type 0 where
  pub driver : Driver
  pub regs : ℕ → ℕ
  pub identify_ctrl_buf : List ℕ
  pub identify_ns_buf : List ℕ

-- The offsets of `cc`, `aqa`, `asq` and `acq` in the packed `struct nvme_regs`.
abbrev pub cc : ℕ
cc = 0x14

abbrev pub aqa : ℕ
aqa = 0x24

abbrev pub asq : ℕ
asq = 0x2C

abbrev pub acq : ℕ
acq = 0x34

-- A store to a register, which the log of stores gets as well.
unfoldable pub write32 : ℕ → ℕ → Startup → Startup
write32 offset val s = record s {
  regs = λ r. if r == offset then val else s.regs r;
  driver = record s.driver { stores = (offset, val) ∷ s.driver.stores };
}

-- A 64-bit store, as one of each half.
unfoldable pub write64 : ℕ → ℕ → Startup → Startup
write64 offset val s = write32 (offset + 4) (val >>> 32) (write32 offset (u32 val) s)

unfoldable pub finish_ready : Option ℕ → Startup → Io Startup
finish_ready none s = halt
finish_ready (some csts) s = return s

module _ (hw : Hardware) where
  -- `ready` is 0 or 1, and so is the bit of `csts` that the loop waits for.
  unfoldable pub nvme_wait_ready : ℕ → Startup → Io Startup
  nvme_wait_ready ready s = finish_ready (wait_phase hw.patience ready (hw.csts (s.regs cc)) 0) s

  unfoldable pub nvme_parse_cap : Startup → Io Startup
  nvme_parse_cap s = do
    print (codes "NVMe CAP: ")
    print_hex hw.cap
    print (codes "\n")
    return (record s { driver = record s.driver { dstrd = u8 (bit_and (hw.cap >>> 32) 0xF) } })

-- The admin queue pair as its counters are reset.
unfoldable pub reset_counters : Queue → Queue
reset_counters q = record q { sq_tail = 0; cq_head = 0; cq_phase = 1 }

unfoldable pub nvme_setup_admin_queue : Places → Startup → Startup
nvme_setup_admin_queue at s =
    let depth = admin_q_depth - 1 in
    let s' =
      write64 acq at.admin_cq
        (write64 asq at.admin_sq (write32 aqa (bit_or (depth <<< 16) depth) s)) in
    record s' { driver = record s'.driver { admin = reset_counters s'.driver.admin } }

-- The value for `cc`, but for the enable bit.
unfoldable pub configured : ℕ → ℕ
configured cc =
    let clear = bit_or (bit_or (0xF <<< 7) (0xF <<< 20)) (0xF <<< 16) in
    bit_or (bit_or (bit_or (bit_and cc (2 ^ 32 - 1 - clear)) (0 <<< 7)) (6 <<< 20)) (4 <<< 16)

abbrev pub disabled : ℕ → ℕ
disabled cc = bit_and cc (2 ^ 32 - 1 - 1)

abbrev pub enabled : ℕ → ℕ
enabled cc = bit_or cc 1

-- A command on the admin queue: the submission …
unfoldable pub submit_admin : Driver → Cmd → Driver
submit_admin d cmd =
    let q = submit_sq d.admin admin_q_depth cmd in
    record d { admin = q; stores = (sq_doorbell d.dstrd 0, q.sq_tail) ∷ d.stores }

-- … the state when its completion has been taken …
unfoldable pub complete_admin : Driver → Queue → Driver
complete_admin d q = record d { admin = q; stores = (cq_doorbell d.dstrd 0, q.cq_head) ∷ d.stores }

-- The admin commands.
abbrev pub identify_ctrl_cmd : Places → Cmd
identify_ctrl_cmd at = record zero_cmd {
  opcode = 0x06;
  cid = 1;
  nsid = 0;
  prp1 = at.identify_ctrl;
  cdw10 = 1;
}

abbrev pub identify_ns_cmd : Places → ℕ → Cmd
identify_ns_cmd at nsid = record zero_cmd {
  opcode = 0x06;
  cid = 2;
  nsid = nsid;
  prp1 = at.identify_ns;
  cdw10 = 0;
}

abbrev pub create_cq_cmd : Places → Cmd
create_cq_cmd at = record zero_cmd {
  opcode = 0x05;
  cid = 3;
  prp1 = at.io_cq;
  cdw10 = bit_or (1 <<< 16) (io_q_depth - 1);
  cdw11 = 1 <<< 0;
}

abbrev pub create_sq_cmd : Places → Cmd
create_sq_cmd at = record zero_cmd {
  opcode = 0x01;
  cid = 4;
  prp1 = at.io_sq;
  cdw10 = bit_or (1 <<< 16) (io_q_depth - 1);
  cdw11 = bit_or (1 <<< 0) (1 <<< 16);
}

-- The block size that the page gives. A shift by 32 or more, which C leaves undefined, gives 0.
unfoldable pub block_size_of : List ℕ → ℕ
block_size_of page =
    let lba_format = bit_and (le8 page 0x28) 0x0F in
    let lbads = bit_and (le32 page (0x30 + lba_format * 4)) 0xFF in u32 (1 <<< lbads)

module _ (hw : Hardware) where
  unfoldable pub nvme_enable_controller : Startup → Io Startup
  nvme_enable_controller s = do
    let value = configured (s.regs cc)
    s' ← nvme_wait_ready hw 0 (write32 cc (disabled value) s)
    s'' ← nvme_wait_ready hw 1 (write32 cc (enabled value) s')
    print (codes "NVMe: controller enabled\n")
    return s''

  -- … and both with the wait between them.
  unfoldable pub admin_command : Driver → Cmd → Io Driver
  admin_command d cmd = do
    let d' = submit_admin d cmd
    (q, status) ← poll_cq hw.patience (hw.status d' cmd) d'.admin admin_q_depth
    return (complete_admin d' q)

  module _ (at : Places) where
    unfoldable pub nvme_identify_controller : Startup → Io Startup
    nvme_identify_controller s = do
      d ← admin_command s.driver (identify_ctrl_cmd at)
      print (codes "NVMe: Identify Controller OK\n")
      return (record s { driver = d; identify_ctrl_buf = hw.page s.driver (identify_ctrl_cmd at) })

    unfoldable pub nvme_identify_namespace : ℕ → Startup → Io Startup
    nvme_identify_namespace nsid s = do
      d ← admin_command s.driver (identify_ns_cmd at nsid)
      let page = hw.page s.driver (identify_ns_cmd at nsid)
      print (codes "NVMe: NS size (blocks)=")
      print_hex (le64 page 0)
      print (codes "\n")
      print (codes "NVMe: block size=")
      print_hex (block_size_of page)
      print (codes "\n")
      return (record s {
        driver = record d { block_size = block_size_of page };
        identify_ns_buf = page;
      })

    unfoldable pub nvme_setup_io_queue : Startup → Io Startup
    nvme_setup_io_queue s = do
      d ← admin_command s.driver (create_cq_cmd at)
      d' ← admin_command d (create_sq_cmd at)
      print (codes "NVMe: I/O queue created\n")
      return (record s { driver = record d' { io = reset_counters d'.io } })

    -- `nvme_init` always returns 1; the registers are those at `dev->bar0`.
    unfoldable pub nvme_init : Startup → Io Startup
    nvme_init s = do
      s₁ ← nvme_parse_cap hw s
      s₂ ← nvme_wait_ready hw 0 (write32 cc (disabled (s₁.regs cc)) s₁)
      s₃ ← nvme_enable_controller (nvme_setup_admin_queue at s₂)
      s₄ ← nvme_identify_controller s₃
      s₅ ← nvme_identify_namespace 1 s₄
      nvme_setup_io_queue s₅
