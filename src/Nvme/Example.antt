-- ===== src/Nvme/Example.antt =====
-- NVMe controllers for the tests, which show that `Reads` and `Responds` can hold.
use os_kernel_and_bootloader.Base.{
  ℕ, zero, suc, ◌+◌, ◌*◌, ◌^◌, ◌%◌, ◌<◌, ◌≡◌, refl, ap, ◌∙◌, [], ◌∷◌, ◌++◌, arith, replicate,
  stretch, bit_and, take-drop-stretch,
}
use os_kernel_and_bootloader.Base.Bits.{and_low}
use os_kernel_and_bootloader.Nvme.{zero_cmd, Queue, Controller, status_code}
use os_kernel_and_bootloader.Nvme.Init.{Places, Hardware, Startup}
use os_kernel_and_bootloader.Nvme.Startup.{Responds}
use os_kernel_and_bootloader.Nvme.Read.{Answers, Reads}

one_bit : (n : ℕ) → n < 2 → bit_and (n % 2) 1 ≡ n
one_bit zero h = refl
one_bit (suc zero) h = refl
one_bit (suc (suc n)) h = absurd (omega arith)

no_status : (n : ℕ) → n < 2 → status_code n ≡ 0
unfolding status_code
no_status zero h = refl
no_status (suc zero) h = refl
no_status (suc (suc n)) h = absurd (omega arith)

-- It completes each command at once, and reads blocks of 512 bytes.
module _ (content : ℕ → ℕ) where
  abbrev pub controller : Controller
  controller = record {
    patience = 1;
    status = λ d cmd t. d.io.cq_phase % 2;
    transfer = λ d cmd. stretch content ((cmd.cdw10 + cmd.cdw11 * 2 ^ 32) * 512) 4096;
  }

  pub controller-Answers : Answers controller
  controller-Answers = record {
    when = λ d cmd. 0;
    in_time = λ d cmd. omega arith;
    tagged = λ d cmd h. one_bit d.io.cq_phase h;
  }

  pub controller-Reads : (nsid : ℕ) → Reads controller nsid 512 content
  controller-Reads nsid = record {
    answers = controller-Answers;
    succeeds = λ d cmd t. no_status (d.io.cq_phase % 2) (omega arith);
    transfers = λ d cmd bytes opcode space total page.
        let start = (cmd.cdw10 + cmd.cdw11 * 2 ^ 32) * 512 in
        let same : start + 0 ≡ start = omega arith in
        take-drop-stretch content start 4096 0 bytes (omega arith)
        ∙ ap (λ s. stretch content s bytes) same;
  }

abbrev pub unused : ℕ → Queue
unused depth = record { sq = replicate depth zero_cmd; sq_tail = 5; cq_head = 5; cq_phase = 1 }

abbrev pub at_reset : Startup
at_reset = record {
  driver = record {
    admin = unused 32;
    io = unused 64;
    block_size = 512;
    dstrd = 0;
    io_buf = replicate 4096 0;
    io_buf_address = 0x20_0000;
    stores = [];
  };
  regs = λ r. 0;
  identify_ctrl_buf = replicate 4096 0;
  identify_ns_buf = replicate 4096 0;
}

abbrev pub places : Places
places = record {
  admin_sq = 0x10_1000;
  admin_cq = 0x10_2000;
  io_sq = 0x10_3000;
  io_cq = 0x10_4000;
  identify_ctrl = 0x10_5000;
  identify_ns = 0x10_6000;
}

-- It responds at once, has doorbells 16 bytes apart, and its page shows blocks of 512 bytes where
-- the driver looks.
abbrev pub hardware : Hardware
hardware = record {
  patience = 1;
  cap = 0x2_0000_0000;
  csts = λ v t. v % 2;
  status = λ d cmd t. d.admin.cq_phase;
  page = λ d cmd. replicate 0x30 0 ++ 9 ∷ replicate 4047 0;
}

pub hardware-Responds : Responds hardware
hardware-Responds = record {
  ready_after = λ v. 0;
  ready_in_time = λ v. omega arith;
  ready = λ v. omega (arith, and_low 1 (v % 2), and_low 1 v);
  done_after = λ d cmd. 0;
  done_in_time = λ d cmd. omega arith;
  done = λ d cmd h. omega (arith, h, and_low 1 d.admin.cq_phase);
}
