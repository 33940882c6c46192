-- ===== src/Acpi/Madt.antt =====
-- `acpi_parse_madt`: the interrupt controllers and the overrides of the MADT.
use os_kernel_and_bootloader.Base.{
  ℕ, zero, suc, ◌+◌, List, [], ◌∷◌, ◌++◌, ltb, ◌==◌, if◌then◌else◌, Option, none, some, codes,
  length, m16, m32,
}
use os_kernel_and_bootloader.Base.Io.{Io, ◌>>◌, return, halt, print}
use os_kernel_and_bootloader.Acpi.{checksum, table_length}

-- `struct madt_override_info`
pub record Override : Type 0 where
  pub irq_source : ℕ
  pub gsi : ℕ
  pub flags : ℕ

-- `struct madt_info`: the overrides up to `override_count`.
pub record MadtInfo : Type 0 where
  pub lapic_addr : ℕ
  pub ioapic_addr : ℕ
  pub ioapic_gsi_base : ℕ
  pub overrides : List Override

-- A new override is stored while there is room for it.
unfoldable pub add_override : MadtInfo → Override → MadtInfo
add_override info o =
    if ltb (length info.overrides) 16
    then record info { overrides = info.overrides ++ o ∷ [] }
    else info

-- What the function returns when the loop has ended.
unfoldable pub parsed : Option MadtInfo → Io (Option MadtInfo)
parsed none = halt
parsed (some info) = return (some info)

module _ (mem : ℕ → ℕ) where
  -- A round of the loop, at the structure at `ptr`.
  unfoldable pub take_entry : ℕ → MadtInfo → MadtInfo
  take_entry ptr info =
      if mem ptr == 1
      then record info { ioapic_addr = m32 mem (ptr + 4); ioapic_gsi_base = m32 mem (ptr + 8) }
      else if mem ptr == 2
      then add_override info (record {
        irq_source = mem (ptr + 3);
        gsi = m32 mem (ptr + 4);
        flags = m16 mem (ptr + 8);
      })
      else info

  -- The loop from `ptr` to `end`; without fuel it does not end.
  unfoldable pub walk : ℕ → ℕ → ℕ → MadtInfo → Option MadtInfo
  walk zero ptr end info = none
  walk (suc fuel) ptr end info =
      let rest = walk fuel (ptr + mem (ptr + 1)) end (take_entry ptr info) in
      if ltb ptr end then (if ltb (mem (ptr + 1)) 2 then some info else rest) else some info

  abbrev pub no_entries : ℕ → MadtInfo
  no_entries hdr = record {
    lapic_addr = m32 mem (hdr + 36);
    ioapic_addr = 0;
    ioapic_gsi_base = 0;
    overrides = [];
  }

  -- Each round advances by two bytes or more, so the table's length is fuel enough.
  unfoldable pub acpi_parse_madt : ℕ → Io (Option MadtInfo)
  acpi_parse_madt hdr =
      if checksum mem hdr (table_length mem hdr)
      then parsed
          (walk (table_length mem hdr + 1) (hdr + 44) (hdr + table_length mem hdr) (no_entries hdr))
      else (print (codes "ACPI: MADT checksum failed\n") >> return none)
