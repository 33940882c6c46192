-- ===== src/Tables/Tests.antt =====
-- Runs of the table functions, and each theorem about them at an input.
use os_kernel_and_bootloader.Base.{ℕ, ◌<◌, ◌≢◌, ◌≡◌, refl, arith, get_or}
use os_kernel_and_bootloader.Tables.{tss_init, no_gate, Handlers, idt_init}
use os_kernel_and_bootloader.Tables.Gates.{IsGate, AreAddresses, idt_init_lem}

-- The two stacks end where they should.
tss_test : (tss_init 0x10_0000 0x10_2000).ist1 ≡ 0x10_1000
unfolding tss_init
tss_test = refl

abbrev handlers : Handlers
handlers = record { isr = λ n. n; irq0 = 100; irq1 = 101; apic_timer = 102 }

handlers-AreAddresses : AreAddresses handlers
handlers-AreAddresses = record {
  isr = λ n small. omega (arith, small);
  irq0 = omega arith;
  irq1 = omega arith;
  apic_timer = omega arith;
}

idt_init_lem_example :
    let entry = λ (n : ℕ). get_or (idt_init handlers) n no_gate in
    IsGate 8 1 (entry 8)
    × ((n : ℕ) → n < 32 → n ≢ 8 → IsGate n 0 (entry n))
    × IsGate 100 0 (entry 32)
    × IsGate 101 0 (entry 33)
    × IsGate 102 0 (entry 0x40)
    × ((n : ℕ) → 33 < n → n < 256 → n ≢ 0x40 → entry n ≡ no_gate)
idt_init_lem_example = idt_init_lem handlers handlers-AreAddresses
