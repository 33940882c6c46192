-- ===== src/Acpi/Walk.antt =====
-- The loop of `acpi_parse_madt` ends on every table.
use os_kernel_and_bootloader.Base.{
  ℕ, zero, suc, ◌+◌, ◌≤◌, ◌<◌, ◌≡◌, refl, [], ◌∷◌, true, false, Bool-cases, inl, inr, ltb, none,
  some, arith, codes, length, length-append, m16, m32,
}
use os_kernel_and_bootloader.Acpi.{checksum, table_length}
use os_kernel_and_bootloader.Acpi.Madt.{
  Override, MadtInfo, add_override, take_entry, walk, parsed, no_entries, acpi_parse_madt,
}

-- No more overrides than the array has room for.
abbrev pub IsInRange : MadtInfo → Type 0
IsInRange info = length info.overrides ≤ 16

add_override-IsInRange :
    (info : MadtInfo) (o : Override) → IsInRange info → IsInRange (add_override info o)
unfolding add_override
add_override-IsInRange info o h = ground (arith, length-append info.overrides (o ∷ []))

module _ (mem : ℕ → ℕ) where
  take_entry-IsInRange :
      (ptr : ℕ) (info : MadtInfo) → IsInRange info → IsInRange (take_entry mem ptr info)
  unfolding take_entry
  take_entry-IsInRange ptr info h = ground (
    arith,
    add_override-IsInRange info
        (record { irq_source = mem (ptr + 3); gsi = m32 mem (ptr + 4); flags = m16 mem (ptr + 8) }),
  )

  walk_total :
      (fuel ptr end : ℕ) (info : MadtInfo)
      → IsInRange info
      → 0 < fuel
      → end < ptr + fuel
      → (info' : MadtInfo) × (walk mem fuel ptr end info ≡ some info') × IsInRange info'
  unfolding walk
  walk_total zero ptr end info h some_fuel enough = absurd (omega arith)
  walk_total (suc fuel) ptr end info h some_fuel enough =
      let len = mem (ptr + 1) in
      elim (Bool-cases (ltb ptr end)) [
        | inr past ↦ (info, rw past refl, h)
        | inl more ↦ elim (Bool-cases (ltb len 2)) [
          | inl short ↦ (info, rw (more, short) refl, h)
          | inr whole ↦
              let (info', e, p) =
                walk_total fuel (ptr + len) end (take_entry mem ptr info)
                  (take_entry-IsInRange ptr info h) (ground arith) (ground arith) in
              (info', rw (more, whole) e, p)
        ]
      ]

  -- On every table `acpi_parse_madt` ends. With a good checksum it returns what it has read, with
  -- 16 overrides at most; else it returns a null pointer and says so.
  pub acpi_parse_madt_total :
      (hdr : ℕ)
      → (checksum mem hdr (table_length mem hdr) ≡ true
          → (info : MadtInfo) × (acpi_parse_madt mem hdr ≡ (some (some info), [])) × IsInRange info)
        × (checksum mem hdr (table_length mem hdr) ≡ false
            → acpi_parse_madt mem hdr ≡ (some none, codes "ACPI: MADT checksum failed\n"))
  unfolding acpi_parse_madt parsed
  acpi_parse_madt_total hdr = (good, bad)
    where
      good :
          checksum mem hdr (table_length mem hdr) ≡ true
          → (info : MadtInfo) × (acpi_parse_madt mem hdr ≡ (some (some info), [])) × IsInRange info
      good e =
          let len = table_length mem hdr in
          let (info, ends, p) =
            walk_total (len + 1) (hdr + 44) (hdr + len) (no_entries mem hdr) (omega arith)
              (omega arith) (omega arith) in
          (info, rw (e, ends) refl, p)

      bad :
          checksum mem hdr (table_length mem hdr) ≡ false
          → acpi_parse_madt mem hdr ≡ (some none, codes "ACPI: MADT checksum failed\n")
      bad e = rw e refl
