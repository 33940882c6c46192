-- ===== src/Acpi/Tests.antt =====
-- Each theorem about the ACPI tables at a memory with tables.
use os_kernel_and_bootloader.Base.{
  ℕ, zero, suc, ◌*◌, ◌^◌, ◌-◌, ◌<◌, refl, arith, ◌∷◌, ◌++◌, ltb, if◌then◌else◌, get_or, replicate,
  stretch, ◌+◌, ◌≡◌, true, false, none, some, [], codes, m32,
}
use mathlib.Core.Option
use os_kernel_and_bootloader.Base.First.{first_from}
use os_kernel_and_bootloader.Acpi.{
  checksum, table_length, entry_count, acpi_find_table, find_table_from, sum_from,
}
use os_kernel_and_bootloader.Acpi.Entries.{word}
use os_kernel_and_bootloader.Memory.{memcmp}
use os_kernel_and_bootloader.Acpi.Madt.{MadtInfo, acpi_parse_madt}
use os_kernel_and_bootloader.Acpi.Walk.{IsInRange, acpi_parse_madt_total}
use os_kernel_and_bootloader.Acpi.Decode.{described, acpi_parse_madt_lem}
use os_kernel_and_bootloader.Acpi.Search.{is_table_at, shifted, acpi_find_table-shifted}
use os_kernel_and_bootloader.Acpi.Example.{entries, example_memory, example_memory-IsMadt}

acpi_parse_madt_lem_example :
    acpi_parse_madt example_memory 16
    ≡ (some (some (described (m32 example_memory (16 + 36)) entries)), [])
acpi_parse_madt_lem_example = acpi_parse_madt_lem example_memory 16 entries example_memory-IsMadt

acpi_parse_madt_total_example :
    (checksum example_memory 16 (table_length example_memory 16) ≡ true
      → (info : MadtInfo) × (acpi_parse_madt example_memory 16 ≡ (some (some info), []))
        × IsInRange info)
    × (checksum example_memory 16 (table_length example_memory 16) ≡ false
        → acpi_parse_madt example_memory 16 ≡ (some none, codes "ACPI: MADT checksum failed\n"))
acpi_parse_madt_total_example = acpi_parse_madt_total example_memory 16

-- An XSDT at 0 with the address 0x1000, and a table with the signature at 4 GiB.
abbrev low_tables : ℕ → ℕ
low_tables a =
    if ltb a (2 ^ 32)
    then get_or
        (codes "XSDT" ++ (word 44 ++ (replicate 28 0 ++ (word 0x1000 ++ (word 0 ++ word 1))))) a 0
    else get_or (codes "APIC" ++ (word 36 ++ (0 ∷ 191 ∷ replicate 26 0))) (a - 2 ^ 32) 0

found_high : (acpi_find_table low_tables 0 (codes "APIC")).0 ≡ some (some 4294967296)
unfolding acpi_find_table find_table_from entry_count checksum sum_from memcmp stretch
found_high = refl

upper_halves : (i : ℕ) → i < 1 → m32 low_tables (0 + 36 + 8 * i + 4) ≡ 0
upper_halves zero h = refl
upper_halves (suc i) h = absurd (omega arith)

acpi_find_table-shifted_example :
    (acpi_find_table low_tables 0 (codes "APIC")).0
    ≡ some (
        Option.map
          (shifted low_tables 0)
          (first_from 1 0 (λ i. is_table_at low_tables (codes "APIC") (shifted low_tables 0 i))))
acpi_find_table-shifted_example =
    acpi_find_table-shifted low_tables 0 1 (codes "APIC") refl (omega arith) upper_halves
