-- ===== src/Isr/Tests.antt =====
-- Each theorem about the interrupt handler at an input.
use os_kernel_and_bootloader.Base.{◌+◌, ◌≡◌, [], ◌++◌, none, some, refl, arith, codes}
use os_kernel_and_bootloader.Lapic.{Lapic}
use os_kernel_and_bootloader.Isr.{Cpu, irq_common, isr_common}
use os_kernel_and_bootloader.Isr.Frames.{
  exception_report, fault_report, register_report, isr_common_exception, irq_common_returns,
}

abbrev cpu : Cpu
cpu = record {
  rip = 0x10_0123;
  cs = 8;
  rflags = 0x202;
  rsp = 0x20_0000;
  ss = 0x10;
  rax = 1;
  rbx = 2;
  rcx = 3;
  rdx = 4;
  rbp = 5;
  rdi = 6;
  rsi = 7;
  r8 = 8;
  r9 = 9;
  r10 = 10;
  r11 = 11;
  r12 = 12;
  r13 = 13;
  r14 = 14;
  r15 = 15;
}

abbrev lapic : Lapic
lapic = record {
  address = 0xFEE0_0000;
  regs = λ r. 0;
  apic_base = 0xFEE0_0900;
  eois = 7;
  lapic_timer_freq = 0;
  pit_writes = [];
}

isr_common_exception_example : isr_common cpu 14 2 0xDEAD_0000 lapic ≡ (
  none,
  exception_report cpu 14 2
      ++ (fault_report 14 0xDEAD_0000 ++ (register_report cpu ++ codes "\nSystem halted.\n")),
)
isr_common_exception_example = isr_common_exception cpu 14 2 0xDEAD_0000 lapic (omega arith)

irq_common_returns_example :
    (l' : Lapic) × (irq_common cpu 33 0 lapic ≡ (some l', [])) × (l'.eois ≡ 7 + 2)
irq_common_returns_example = irq_common_returns cpu 33 0 lapic refl
