-- ===== src/Ioapic/Tests.antt =====
-- Each theorem about the I/O APIC at an input.
use os_kernel_and_bootloader.Base.{◌+◌, ◌-◌, ◌*◌, ◌/◌, ◌%◌, ◌^◌, ◌≡◌, arith, ◌==◌, if◌then◌else◌}
use os_kernel_and_bootloader.Ioapic.{Ioapic, ioapic_set_gsi}
use os_kernel_and_bootloader.Ioapic.Redirection.{fields, ioapic_set_gsi_lem}

-- The first interrupt of the device is number 24.
abbrev second_ioapic : Ioapic
second_ioapic = record { gsi_base = 24; regs = λ r. 0x1_0000 }

ioapic_set_gsi_lem_example : (ioapic_set_gsi second_ioapic 25 33 2 0xF).regs 0x12 ≡ (
    if 0x12 == 0x10 + (25 - 24) * 2
    then fields 33 (0xF % 4 == 3) (0xF / 4 % 4 == 3)
    else if 0x12 == 0x10 + (25 - 24) * 2 + 1
    then 2 * 2 ^ 24
    else 0x1_0000)
ioapic_set_gsi_lem_example =
    ioapic_set_gsi_lem second_ioapic 25 33 2 0xF 0x12 (omega arith) (omega arith) (omega arith)
