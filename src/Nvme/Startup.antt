-- ===== src/Nvme/Startup.antt =====
-- `nvme_init` with a controller that responds, and the values it stores in the registers.
use os_kernel_and_bootloader.Base.{
  ℕ, suc, ◌/◌, ◌%◌, ◌^◌, ◌<◌, ◌≡◌, refl, ap, ◌∙◌, [], some, arith, bit_and, length, u8, u32, ◌>>>◌,
}
use native.Mathlib.Nat.{zero-add}
use os_kernel_and_bootloader.Base.Bits.{and_low, and_digit, or_digit}
use os_kernel_and_bootloader.Base.Io.{bind-some}
use os_kernel_and_bootloader.Nvme.{Cmd, Driver, admin_q_depth, io_q_depth, submit_sq, advance_cq}
use os_kernel_and_bootloader.Nvme.Progress.{
  HasProgress, submit_sq-HasProgress, advance_cq-HasProgress,
}
use os_kernel_and_bootloader.Nvme.Wait.{wait_phase-some, poll_cq_found}
use os_kernel_and_bootloader.Nvme.Init.{
  Places, Hardware, Startup, cc, write32, write64, finish_ready, nvme_wait_ready, nvme_parse_cap,
  reset_counters, nvme_setup_admin_queue, configured, disabled, enabled, nvme_enable_controller,
  submit_admin, complete_admin, admin_command, identify_ctrl_cmd, identify_ns_cmd, create_cq_cmd,
  create_sq_cmd, block_size_of, nvme_identify_controller, nvme_identify_namespace,
  nvme_setup_io_queue, nvme_init,
}

-- A controller that responds within the driver's patience: its ready bit takes the value of the
-- enable bit, and each admin command gets a completion with the phase tag that the driver waits for.
pub record Responds (hw : Hardware) : Type 0 where
  pub ready_after : ℕ → ℕ
  pub ready_in_time : (v : ℕ) → ready_after v < hw.patience
  pub ready : (v : ℕ) → bit_and (hw.csts v (ready_after v)) 1 ≡ bit_and v 1
  pub done_after : Driver → Cmd → ℕ
  pub done_in_time : (d : Driver) (cmd : Cmd) → done_after d cmd < hw.patience
  pub done :
      (d : Driver) (cmd : Cmd)
      → d.admin.cq_phase < 2
      → bit_and (hw.status d cmd (done_after d cmd)) 1 ≡ d.admin.cq_phase

low_bit : (a : ℕ) → bit_and a 1 ≡ a % 2
low_bit a = and_low 1 a

disabled_bit : (v : ℕ) → bit_and (disabled v) 1 ≡ 0
disabled_bit v = omega (arith, low_bit (disabled v), and_digit v 0xFFFF_FFFE)

enabled_bit : (v : ℕ) → bit_and (enabled v) 1 ≡ 1
enabled_bit v = omega (arith, low_bit (enabled v), or_digit v 1)

module _ (hw : Hardware) (responds : Responds hw) where
  wait_ready_lem :
      (ready : ℕ) (s : Startup)
      → bit_and (s.regs cc) 1 ≡ ready
      → nvme_wait_ready hw ready s ≡ (some s, [])
  unfolding nvme_wait_ready finish_ready
  wait_ready_lem ready s e =
      let value = s.regs cc in
      let (j, found) =
        wait_phase-some hw.patience ready 0 (responds.ready_after value) (hw.csts value)
          (responds.ready_in_time value)
          (ap (λ t. bit_and (hw.csts value t) 1) (zero-add (responds.ready_after value))
            ∙ responds.ready value
            ∙ e) in
      rw (found, finish_ready) refl

  -- The driver when an admin command has been completed.
  abbrev after_command : Driver → Cmd → Driver
  after_command d cmd =
      complete_admin (submit_admin d cmd) (advance_cq (submit_admin d cmd).admin admin_q_depth)

  admin_command_lem :
      (d : Driver) (cmd : Cmd) (n m : ℕ)
      → HasProgress admin_q_depth n m d.admin
      → ((admin_command hw d cmd).0 ≡ some (after_command d cmd))
        × HasProgress admin_q_depth (suc n) (suc m) (after_command d cmd).admin
  unfolding admin_command submit_admin complete_admin
  admin_command_lem d cmd n m h =
      let d' = submit_admin d cmd in
      let p : HasProgress admin_q_depth (suc n) m (submit_sq d.admin admin_q_depth cmd) =
        submit_sq-HasProgress admin_q_depth n m cmd (omega arith) (omega arith) h in
      let q : HasProgress admin_q_depth (suc n) (suc m) (advance_cq d'.admin admin_q_depth) =
        advance_cq-HasProgress admin_q_depth (suc n) m (omega arith) (omega arith) p in
      let (j, found) =
        wait_phase-some hw.patience d'.admin.cq_phase 0 (responds.done_after d' cmd)
          (hw.status d' cmd) (responds.done_in_time d' cmd)
          (ap (λ t. bit_and (hw.status d' cmd t) 1) (zero-add (responds.done_after d' cmd))
            ∙ responds.done d' cmd (omega (arith, p.phase))) in
      (rw (poll_cq_found hw.patience admin_q_depth _ (hw.status d' cmd) d'.admin found) refl, q)

  enable_lem :
      (s : Startup)
      → let value = configured (s.regs cc) in
        (nvme_enable_controller hw s).0
        ≡ some (write32 cc (enabled value) (write32 cc (disabled value) s))
  unfolding nvme_enable_controller write32
  enable_lem s =
      let value = configured (s.regs cc) in
      let off = write32 cc (disabled value) s in
      rw
        (
          wait_ready_lem 0 off (disabled_bit value),
          wait_ready_lem 1 (write32 cc (enabled value) off) (enabled_bit value),
        )
        refl

  identify_controller_lem :
      (at : Places) (s : Startup) (n : ℕ)
      → HasProgress admin_q_depth n n s.driver.admin
      → (nvme_identify_controller hw at s).0
        ≡ some (record s {
          driver = after_command s.driver (identify_ctrl_cmd at);
          identify_ctrl_buf = hw.page s.driver (identify_ctrl_cmd at);
        })
  unfolding nvme_identify_controller
  identify_controller_lem at s n h =
      bind-some _ _ _ (admin_command_lem s.driver (identify_ctrl_cmd at) n n h).0

  identify_namespace_lem :
      (at : Places) (nsid : ℕ) (s : Startup) (n : ℕ)
      → HasProgress admin_q_depth n n s.driver.admin
      → let page = hw.page s.driver (identify_ns_cmd at nsid) in
        (nvme_identify_namespace hw at nsid s).0
        ≡ some (record s {
          driver = record (after_command s.driver (identify_ns_cmd at nsid)) {
            block_size = block_size_of page;
          };
          identify_ns_buf = page;
        })
  unfolding nvme_identify_namespace
  identify_namespace_lem at nsid s n h =
      bind-some _ _ _ (admin_command_lem s.driver (identify_ns_cmd at nsid) n n h).0

  setup_io_queue_lem :
      (at : Places) (s : Startup) (n : ℕ)
      → HasProgress admin_q_depth n n s.driver.admin
      → let d = after_command (after_command s.driver (create_cq_cmd at)) (create_sq_cmd at) in
        ((nvme_setup_io_queue hw at s).0
          ≡ some (record s { driver = record d { io = reset_counters d.io } }))
        × HasProgress admin_q_depth (suc (suc n)) (suc (suc n)) d.admin
  unfolding nvme_setup_io_queue
  setup_io_queue_lem at s n h =
      let (first, p) = admin_command_lem s.driver (create_cq_cmd at) n n h in
      let (second, q) =
        admin_command_lem (after_command s.driver (create_cq_cmd at)) (create_sq_cmd at) (suc n)
          (suc n) p in
      (bind-some _ _ _ first ∙ bind-some _ _ _ second, q)

  -- With a controller that completes the admin commands wherever it has its queues, `nvme_init` returns. Four
  -- commands have then gone through the admin queues and none through the I/O queues, the doorbells have the
  -- controller's stride, the block size is what the code computes from the page that the controller gives for
  -- the namespace, `cc` is configured with the enable bit, and the addresses of the admin queues are in the
  -- words from 0x2C on.
  pub nvme_init_lem :
      (at : Places) (s : Startup)
      → length s.driver.admin.sq ≡ admin_q_depth
      → length s.driver.io.sq ≡ io_q_depth
      → (s' : Startup) × ((nvme_init hw at s).0 ≡ some s')
        × HasProgress admin_q_depth 4 4 s'.driver.admin
        × HasProgress io_q_depth 0 0 s'.driver.io
        × (s'.driver.dstrd ≡ hw.cap / 2 ^ 32 % 16)
        × (s'.driver.block_size ≡ block_size_of s'.identify_ns_buf)
        × ((d : Driver) × (s'.identify_ns_buf ≡ hw.page d (identify_ns_cmd at 1)))
        × (s'.regs cc ≡ enabled (configured (disabled (s.regs cc))))
        × (s'.regs 0x28 ≡ s.regs 0x28)
        × (s'.regs 0x2C ≡ u32 at.admin_sq)
        × (s'.regs 0x30 ≡ at.admin_sq / 2 ^ 32)
        × (s'.regs 0x34 ≡ u32 at.admin_cq)
  unfolding nvme_init nvme_parse_cap nvme_setup_admin_queue reset_counters write64 write32
      submit_admin complete_admin submit_sq advance_cq
  nvme_init_lem at s admin io =
      let stride = u8 (bit_and (hw.cap >>> 32) 0xF) in
      let s₁ : Startup = record s { driver = record s.driver { dstrd = stride } } in
      let s₂ : Startup = write32 cc (disabled (s.regs cc)) s₁ in
      let s₃ : Startup = nvme_setup_admin_queue at s₂ in
      let value = configured (s₃.regs cc) in
      let s₄ : Startup = write32 cc (enabled value) (write32 cc (disabled value) s₃) in
      let p : HasProgress admin_q_depth 0 0 s₄.driver.admin = record {
        tail = refl;
        head = refl;
        phase = refl;
        room = admin;
      } in
      let ctrl = identify_ctrl_cmd at in
      let s₅ : Startup = record s₄ {
        driver = after_command s₄.driver ctrl;
        identify_ctrl_buf = hw.page s₄.driver ctrl;
      } in
      let p₅ = (admin_command_lem s₄.driver ctrl 0 0 p).1 in
      let ns = identify_ns_cmd at 1 in
      let s₆ : Startup = record s₅ {
        driver = record (after_command s₅.driver ns) {
          block_size = block_size_of (hw.page s₅.driver ns);
        };
        identify_ns_buf = hw.page s₅.driver ns;
      } in
      let p₆ = (admin_command_lem s₅.driver ns 1 1 p₅).1 in
      let (last, p₈) = setup_io_queue_lem at s₆ 2 p₆ in
      let off = ap (λ m. m.0) (wait_ready_lem 0 s₂ (disabled_bit (s.regs cc))) in
      (
        _,
        bind-some _ _ _ off
            ∙ bind-some _ _ _ (enable_lem s₃)
            ∙ bind-some _ _ _ (identify_controller_lem at s₄ 0 p)
            ∙ bind-some _ _ _ (identify_namespace_lem at 1 s₅ 1 p₅)
            ∙ last,
        p₈,
        record { tail = refl; head = refl; phase = refl; room = io },
        omega (arith, and_low 4 (hw.cap / 2 ^ 32)),
        refl,
        (s₅.driver, refl),
        refl,
        refl,
        refl,
        refl,
        refl,
      )
