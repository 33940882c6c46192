-- ===== src/Irq/Example.antt =====
-- Controllers and timers for the tests, with the tables of `Acpi.Example`.
use os_kernel_and_bootloader.Base.{
  ◌-◌, ◌*◌, ◌≡◌, ◌≢◌, refl, [], ◌==◌, if◌then◌else◌, some, arith, codes, stretch,
}
use os_kernel_and_bootloader.Acpi.{
  acpi_find_rsdp, acpi_get_xsdt, acpi_find_table, find_rsdp_from, is_rsdp, checksum, sum_from,
  find_table_from, entry_count,
}
use os_kernel_and_bootloader.Memory.{memcmp}
use os_kernel_and_bootloader.Acpi.Madt.{MadtInfo}
use os_kernel_and_bootloader.Acpi.Decode.{described}
use os_kernel_and_bootloader.Acpi.Example.{entries, example_memory}
use os_kernel_and_bootloader.Lapic.{Timers}
use os_kernel_and_bootloader.Ioapic.{Ioapic}
use os_kernel_and_bootloader.Irq.{Interrupts, resolve, madt_resolve_gsi}

abbrev pub madt : MadtInfo
madt = described 0xFEE0_0000 entries

abbrev pub ioapic : Ioapic
ioapic = record { gsi_base = 0; regs = λ r. if r == 1 then 0x17_0020 else 0x1_0000 }

pub timer_at_2 : madt_resolve_gsi madt 0 ≡ (2, 5)
unfolding madt_resolve_gsi resolve
timer_at_2 = refl

pub kbd_at_1 : madt_resolve_gsi madt 1 ≡ (1, 0)
unfolding madt_resolve_gsi resolve
kbd_at_1 = refl

pub apart : (madt_resolve_gsi madt 0).0 ≢ (madt_resolve_gsi madt 1).0
unfolding madt_resolve_gsi resolve
apart e = omega (arith, e)

abbrev pub timers : Timers
timers = record {
  pit_lo = λ t. 0;
  pit_hi = λ t. if t == 3 then 46 else 40 - 10 * t;
  patience = 100;
  remaining = 0xFFFF_FFFF - 1000000;
}

abbrev pub interrupts : Interrupts
interrupts = record {
  ports = [];
  lapic = record {
    address = 0;
    regs = λ r. 0x1_0000;
    apic_base = 0xFEE0_0100;
    eois = 0;
    lapic_timer_freq = 0;
    pit_writes = [];
  };
  ioapic = ioapic;
}

pub rsdp_found : acpi_find_rsdp example_memory ≡ some 0xE0000
unfolding acpi_find_rsdp find_rsdp_from is_rsdp checksum sum_from memcmp stretch
rsdp_found = refl

pub xsdt_found : acpi_get_xsdt example_memory 0xE0000 ≡ some 90
unfolding acpi_get_xsdt
xsdt_found = refl

pub madt_found : acpi_find_table example_memory 90 (codes "APIC") ≡ (some (some 16), [])
unfolding acpi_find_table find_table_from entry_count checksum sum_from memcmp stretch
madt_found = refl
