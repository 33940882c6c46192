-- ===== src/Lapic/Tests.antt =====
-- The theorem about the start of the local controller at an input.
use os_kernel_and_bootloader.Base.{
  ◌+◌, ◌-◌, ◌*◌, ◌/◌, ◌^◌, ◌≡◌, [], ◌==◌, if◌then◌else◌, bit_or, some, arith,
}
use os_kernel_and_bootloader.Lapic.{
  Lapic, Timers, pit_count, reg_tpr, reg_svr, reg_lvt_timer, reg_lvt_lint0, reg_lvt_lint1,
  reg_lvt_error, reg_timer_initcnt, reg_timer_div, lapic_init,
}
use os_kernel_and_bootloader.Lapic.Calibration.{lapic_init_lem}

-- The PIT starts again at the fourth look; a million counts pass.
abbrev timers : Timers
timers = record {
  pit_lo = λ t. 0;
  pit_hi = λ t. if t == 3 then 46 else 40 - 10 * t;
  patience = 100;
  remaining = 0xFFFF_FFFF - 1000000;
}

abbrev at_reset : Lapic
at_reset = record {
  address = 0;
  regs = λ r. 0x1_0000;
  apic_base = 0xFEE0_0100;
  eois = 0;
  lapic_timer_freq = 0;
  pit_writes = [];
}

lapic_init_lem_example :
    (l' : Lapic) × (lapic_init timers at_reset 0xFEE0_0000 ≡ (some l', []))
    × (l'.address ≡ 0xFEE0_0000)
    × (l'.apic_base ≡ bit_or 0xFEE0_0100 0x800)
    × (l'.regs reg_svr ≡ 0x1FF)
    × (l'.regs reg_lvt_lint0 ≡ 2 ^ 16)
    × (l'.regs reg_lvt_lint1 ≡ 2 ^ 16)
    × (l'.regs reg_lvt_error ≡ 2 ^ 16)
    × (l'.regs reg_tpr ≡ 0)
    × (l'.regs reg_timer_div ≡ 3)
    × (l'.regs reg_lvt_timer ≡ 0x2_0040)
    × (l'.regs reg_timer_initcnt ≡ (0xFFFF_FFFF - timers.remaining) / 10)
    × (l'.eois ≡ 0 + 1)
unfolding pit_count
lapic_init_lem_example =
    lapic_init_lem timers at_reset 0xFEE0_0000 (2, omega arith, omega arith) (omega arith)
      (omega arith)
