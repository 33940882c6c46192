-- ===== src/Irq/Tests.antt =====
-- Each theorem about the routing of interrupts at an input.
use os_kernel_and_bootloader.Base.{◌≡◌, [], ◌∷◌, ◌++◌, some, arith, codes}
use os_kernel_and_bootloader.Acpi.Example.{entries, example_memory, example_memory-IsMadt}
use os_kernel_and_bootloader.Pic.{pic_disable}
use os_kernel_and_bootloader.Lapic.{pit_count, reg_svr}
use os_kernel_and_bootloader.Irq.{Interrupts, resolve, madt_resolve_gsi, irq_init}
use os_kernel_and_bootloader.Irq.Routing.{Routes}
use os_kernel_and_bootloader.Irq.Init.{irq_init_lem}
use os_kernel_and_bootloader.Base.Returns.{Returns}
use os_kernel_and_bootloader.Irq.Example.{
  madt, apart, timers, interrupts, rsdp_found, xsdt_found, madt_found,
}

irq_init_lem_example :
    (s' : Interrupts) × (irq_init example_memory timers interrupts
      ≡ (some s', [] ++ codes "IRQ: LAPIC + IOAPIC + MADT overrides initialized\n"))
    × (s'.ports ≡ pic_disable ∷ [])
    × (s'.lapic.address ≡ 0xFEE0_0000)
    × (s'.lapic.regs reg_svr ≡ 0x1FF)
    × (s'.ioapic.gsi_base ≡ 0)
    × Routes s'.ioapic (madt_resolve_gsi madt 0) 32
    × Routes s'.ioapic (madt_resolve_gsi madt 1) 33
unfolding madt_resolve_gsi resolve pit_count
irq_init_lem_example =
    irq_init_lem example_memory timers interrupts 0xE0000 90 16 [] entries rsdp_found xsdt_found
      madt_found example_memory-IsMadt (2, omega arith, omega arith) (omega arith) (omega arith)
      (omega arith, omega arith) (omega arith, omega arith) apart
