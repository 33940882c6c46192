-- ===== src/Irq.antt =====
-- kernel/irq.c: the routing of the timer's and the keyboard's interrupts, from the firmware's tables to
-- the I/O APIC.
pub mod Init
pub mod Routing
pub mod Ports
pub mod Total
pub mod Example
mod Tests
use os_kernel_and_bootloader.Base.{
  ℕ, ◌+◌, List, [], ◌∷◌, ◌++◌, ◌==◌, if◌then◌else◌, Option, none, some, codes, u32,
}
use os_kernel_and_bootloader.Base.Io.{Io, ◌>>=◌, ◌>>◌, return, print}
use os_kernel_and_bootloader.Acpi.{acpi_find_rsdp, acpi_get_xsdt, acpi_find_table}
use os_kernel_and_bootloader.Acpi.Madt.{Override, MadtInfo, acpi_parse_madt}
use os_kernel_and_bootloader.Pic.{Write, pic_disable}
use os_kernel_and_bootloader.Lapic.{Lapic, Timers, lapic_init}
use os_kernel_and_bootloader.Ioapic.{
  Ioapic, ioapic_init, ioapic_set_gsi, ioapic_mask, ioapic_unmask,
}

-- The interrupt controllers: the ports written to, the latest first, and the two APICs.
pub record Interrupts : Type 0 where
  pub ports : List (List Write)
  pub lapic : Lapic
  pub ioapic : Ioapic

-- The loop of `madt_resolve_gsi`: the number and the flags.
unfoldable pub resolve : List Override → ℕ → ℕ → ℕ × ℕ
resolve [] irq otherwise = (otherwise, 0)
resolve (o ∷ os) irq otherwise =
    if o.irq_source == irq then (o.gsi, o.flags) else resolve os irq otherwise

unfoldable pub madt_resolve_gsi : MadtInfo → ℕ → ℕ × ℕ
madt_resolve_gsi madt irq = resolve madt.overrides irq (u32 (madt.ioapic_gsi_base + irq))

-- What `irq_init` stores in the I/O APIC after `ioapic_init`.
unfoldable pub route : MadtInfo → Ioapic → Ioapic
route madt io =
    let timer = madt_resolve_gsi madt 0 in
    let kbd = madt_resolve_gsi madt 1 in
    let io₁ = ioapic_set_gsi io timer.0 32 0 timer.1 in
    let io₂ = ioapic_set_gsi io₁ kbd.0 33 0 kbd.1 in ioapic_unmask (ioapic_unmask io₂ timer.0) kbd.0

module _ (mem : ℕ → ℕ) (hw : Timers) (s : Interrupts) where
  -- The last part of `irq_init`, from `pic_disable` on.
  unfoldable pub irq_setup : MadtInfo → Io Interrupts
  irq_setup madt = do
    lapic ← lapic_init hw s.lapic madt.lapic_addr
    print (codes "IRQ: LAPIC + IOAPIC + MADT overrides initialized\n")
    return (record {
      ports = pic_disable ∷ s.ports;
      lapic = lapic;
      ioapic = route madt (ioapic_init s.ioapic madt.ioapic_gsi_base);
    })

  -- Its earlier parts, each with the pointer that the one before has found.
  unfoldable pub with_madt : Option MadtInfo → Io Interrupts
  with_madt none = print (codes "ACPI: MADT parse failed\n") >> return s
  with_madt (some madt) = irq_setup madt

  unfoldable pub with_table : Option ℕ → Io Interrupts
  with_table none = print (codes "ACPI: MADT not found\n") >> return s
  with_table (some hdr) = acpi_parse_madt mem hdr >>= with_madt

  unfoldable pub with_xsdt : Option ℕ → Io Interrupts
  with_xsdt none = print (codes "ACPI: XSDT/RSDT not found\n") >> return s
  with_xsdt (some xsdt) = acpi_find_table mem xsdt (codes "APIC") >>= with_table

  unfoldable pub with_rsdp : Option ℕ → Io Interrupts
  with_rsdp none = print (codes "ACPI: RSDP not found\n") >> return s
  with_rsdp (some rsdp) = with_xsdt (acpi_get_xsdt mem rsdp)

  unfoldable pub irq_init : Io Interrupts
  irq_init = with_rsdp (acpi_find_rsdp mem)

unfoldable pub irq_mask : Interrupts → ℕ → Interrupts
irq_mask s irq = record s { ioapic = ioapic_mask s.ioapic irq }

unfoldable pub irq_unmask : Interrupts → ℕ → Interrupts
irq_unmask s irq = record s { ioapic = ioapic_unmask s.ioapic irq }
