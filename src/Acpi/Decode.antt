-- ===== src/Acpi/Decode.antt =====
-- What `acpi_parse_madt` makes of a table of structures.
use os_kernel_and_bootloader.Base.{
  ℕ, zero, suc, ◌+◌, ◌≤◌, ◌<◌, ◌≡◌, refl, ap, sym, ◌∙◌, List, [], ◌∷◌, ◌++◌, true, ltb, lt→ltb,
  le→ltb, take-append_left, take_all, Bool-cases, inl, inr, some, arith, length, length-append,
  take, append_assoc, append-nil, m32,
}
use os_kernel_and_bootloader.Acpi.{checksum, table_length}
use os_kernel_and_bootloader.Acpi.Madt.{
  Override, MadtInfo, add_override, walk, parsed, no_entries, acpi_parse_madt,
}
use os_kernel_and_bootloader.Acpi.Entries.{
  Entry, ioapic, override, other, size, HoldsAll, sizes, last_ioapic, overrides_of, apply,
  take_entry-apply,
}

abbrev apply_all : List Entry → MadtInfo → MadtInfo
apply_all [] info = info
apply_all (e ∷ es) info = apply_all es (apply e info)

size_lem : (e : Entry) → 2 ≤ size e
size_lem (ioapic id reserved addr gsi_base) = omega arith
size_lem (override bus irq_source gsi flags) = omega arith
size_lem (other type payload) = omega arith

walk-apply_all :
    (mem : ℕ → ℕ) (fuel a end : ℕ) (es : List Entry) (info : MadtInfo)
    → end ≡ a + sizes es
    → sizes es < fuel
    → HoldsAll mem a es
    → walk mem fuel a end info ≡ some (apply_all es info)
unfolding walk
walk-apply_all mem zero a end es info e enough h = absurd (omega arith)
walk-apply_all mem (suc fuel) a end [] info e enough h = ground arith
walk-apply_all mem (suc fuel) a end (x ∷ es) info e enough (valid, (here, later)) =
    let (step, len) = take_entry-apply mem x a info valid here in
    let more : a < end = omega (arith, size_lem x) in
    rw (lt→ltb a end more, len, le→ltb (size x) 2 (size_lem x), step)
      (walk-apply_all mem fuel (a + size x) end es (apply x info) (omega arith)
        (omega (arith, size_lem x)) later)

-- What the structures leave: the last I/O APIC, and the first sixteen overrides.
abbrev meaning : List Entry → MadtInfo → MadtInfo
meaning es info = record {
  lapic_addr = info.lapic_addr;
  ioapic_addr = (last_ioapic es (info.ioapic_addr, info.ioapic_gsi_base)).0;
  ioapic_gsi_base = (last_ioapic es (info.ioapic_addr, info.ioapic_gsi_base)).1;
  overrides = take 16 (info.overrides ++ overrides_of es);
}

add_override-meaning :
    (es : List Entry) (info : MadtInfo) (o : Override)
    → length info.overrides ≤ 16
    → ((info : MadtInfo) → length info.overrides ≤ 16 → apply_all es info ≡ meaning es info)
    → apply_all es (add_override info o)
      ≡ record (meaning es info) { overrides = take 16 (info.overrides ++ o ∷ overrides_of es) }
unfolding add_override
add_override-meaning es info o h ih = elim (Bool-cases (ltb (length info.overrides) 16)) [
  | inl room ↦
      let longer : length (info.overrides ++ o ∷ []) ≤ 16 =
        ground (arith, length-append info.overrides (o ∷ [])) in
      let joined : (info.overrides ++ o ∷ []) ++ overrides_of es
          ≡ info.overrides ++ o ∷ overrides_of es =
        append_assoc info.overrides (o ∷ []) (overrides_of es) in
      rw room (
        ih (record info { overrides = info.overrides ++ o ∷ [] }) longer
        ∙ (λ i. record (meaning es info) { overrides = take 16 (joined i) }))
  | inr full ↦
      let exact : 16 ≤ length info.overrides = ground arith in
      let same : take 16 (info.overrides ++ overrides_of es)
          ≡ take 16 (info.overrides ++ o ∷ overrides_of es) =
        take-append_left 16 info.overrides (overrides_of es) exact
        ∙ sym (take-append_left 16 info.overrides (o ∷ overrides_of es) exact) in
      rw full (ih info h ∙ (λ i. record (meaning es info) { overrides = same i }))
]

apply_all-meaning :
    (es : List Entry) (info : MadtInfo)
    → length info.overrides ≤ 16
    → apply_all es info ≡ meaning es info
apply_all-meaning [] info h =
    let same : info.overrides ≡ take 16 (info.overrides ++ []) =
      sym (ap (take 16) (append-nil info.overrides) ∙ take_all 16 info.overrides h) in
    λ i. record info { overrides = same i }
apply_all-meaning (ioapic id reserved addr gsi_base ∷ es) info h =
    apply_all-meaning es (record info { ioapic_addr = addr; ioapic_gsi_base = gsi_base }) h
apply_all-meaning (override bus irq_source gsi flags ∷ es) info h =
    let o : Override = record { irq_source = irq_source; gsi = gsi; flags = flags } in
    add_override-meaning es info o h (apply_all-meaning es)
apply_all-meaning (other type payload ∷ es) info h = apply_all-meaning es info h

-- What a table with these structures describes, with the address that stands in its header.
abbrev pub described : ℕ → List Entry → MadtInfo
described lapic_addr es = record {
  lapic_addr = lapic_addr;
  ioapic_addr = (last_ioapic es (0, 0)).0;
  ioapic_gsi_base = (last_ioapic es (0, 0)).1;
  overrides = take 16 (overrides_of es);
}

-- A table of structures: it has a good checksum, and well-formed structures fill its length.
abbrev pub IsMadt : (ℕ → ℕ) → ℕ → List Entry → Type 0
IsMadt mem hdr es =
    (checksum mem hdr (table_length mem hdr) ≡ true)
    × ((table_length mem hdr ≡ 44 + sizes es) × HoldsAll mem (hdr + 44) es)

-- From a table with a good checksum, whose entries are well-formed structures that fill its length,
-- `acpi_parse_madt` reads the local APIC's address, the last I/O APIC and the first sixteen overrides
-- in their order, whatever other structures stand between them.
pub acpi_parse_madt_lem :
    (mem : ℕ → ℕ) (hdr : ℕ) (es : List Entry)
    → IsMadt mem hdr es
    → acpi_parse_madt mem hdr ≡ (some (some (described (m32 mem (hdr + 36)) es)), [])
unfolding acpi_parse_madt parsed
acpi_parse_madt_lem mem hdr es (good, (len, h)) =
    let fuel = table_length mem hdr + 1 in
    let read =
      walk-apply_all mem fuel (hdr + 44) (hdr + table_length mem hdr) es (no_entries mem hdr)
        (omega (arith, len)) (omega (arith, len)) h
      ∙ ap some (apply_all-meaning es (no_entries mem hdr) (omega arith)) in
    rw (good, read) refl
