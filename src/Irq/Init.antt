-- ===== src/Irq/Init.antt =====
-- `irq_init` as a whole, from the firmware's tables to the controllers.
use os_kernel_and_bootloader.Base.{
  ℕ, ◌+◌, ◌-◌, ◌^◌, zero, suc, ◌≤◌, ◌<◌, ◌≡◌, ◌≢◌, refl, ◌∙◌, List, ◌∷◌, ◌++◌, some, arith, codes,
  m32, bit_and, ◌>>>◌,
}
use os_kernel_and_bootloader.Acpi.{acpi_find_rsdp, acpi_get_xsdt, acpi_find_table}
use os_kernel_and_bootloader.Acpi.Madt.{MadtInfo}
use os_kernel_and_bootloader.Acpi.Entries.{Entry}
use os_kernel_and_bootloader.Acpi.Decode.{described, IsMadt, acpi_parse_madt_lem}
use os_kernel_and_bootloader.Pic.{pic_disable}
use os_kernel_and_bootloader.Lapic.{Timers, reg_svr}
use os_kernel_and_bootloader.Lapic.Calibration.{Wraps, lapic_init_lem}
use os_kernel_and_bootloader.Ioapic.{Ioapic, ioapic_init, ioapic_write, mask_from}
use os_kernel_and_bootloader.Irq.{
  Interrupts, madt_resolve_gsi, route, irq_setup, with_madt, with_table, with_xsdt, with_rsdp,
  irq_init,
}
use os_kernel_and_bootloader.Irq.Routing.{IsEntryOf, Routes, route-Routes, route_base}

-- The number is that of an entry of the device.
abbrev pub IsGsiFrom : ℕ → ℕ → Type 0
IsGsiFrom base gsi = (base ≤ gsi) × (gsi < base + 120)

mask_from_base : (n i : ℕ) (io : Ioapic) → (mask_from n i io).gsi_base ≡ io.gsi_base
unfolding mask_from ioapic_write
mask_from_base zero i io = refl
mask_from_base (suc n) i io = mask_from_base n (i + 1) _

ioapic_init_base : (io : Ioapic) (base : ℕ) → (ioapic_init io base).gsi_base ≡ base
unfolding ioapic_init
ioapic_init_base io base =
    mask_from_base (bit_and (io.regs 1 >>> 16) 0xFF + 1) 0 (record io { gsi_base = base })

ioapic_init-IsEntryOf :
    (io : Ioapic) (base gsi : ℕ) → IsGsiFrom base gsi → IsEntryOf (ioapic_init io base) gsi
ioapic_init-IsEntryOf io base gsi h =
    let same = ioapic_init_base io base in (omega (arith, same, h), omega (arith, same, h))

module _ (mem : ℕ → ℕ) (hw : Timers) (s : Interrupts) where
  setup_lem :
      (madt : MadtInfo)
      → Wraps hw
      → hw.remaining < 2 ^ 32
      → 0xFFFF_FFFF - hw.remaining < 42949673
      → IsGsiFrom madt.ioapic_gsi_base (madt_resolve_gsi madt 0).0
      → IsGsiFrom madt.ioapic_gsi_base (madt_resolve_gsi madt 1).0
      → (madt_resolve_gsi madt 0).0 ≢ (madt_resolve_gsi madt 1).0
      → (s' : Interrupts) × (irq_setup mem hw s madt
          ≡ (some s', codes "IRQ: LAPIC + IOAPIC + MADT overrides initialized\n"))
        × (s'.ports ≡ pic_disable ∷ s.ports)
        × (s'.lapic.address ≡ madt.lapic_addr)
        × (s'.lapic.regs reg_svr ≡ 0x1FF)
        × (s'.ioapic.gsi_base ≡ madt.ioapic_gsi_base)
        × Routes s'.ioapic (madt_resolve_gsi madt 0) 32
        × Routes s'.ioapic (madt_resolve_gsi madt 1) 33
  unfolding irq_setup
  setup_lem madt wraps h small t k apart =
      let (l, ends, at, msr, svr, lint0, lint1, error, tpr, div, timer, count, eois) =
        lapic_init_lem hw s.lapic madt.lapic_addr wraps h small in
      let io = ioapic_init s.ioapic madt.ioapic_gsi_base in
      let routes =
        route-Routes madt io (ioapic_init-IsEntryOf _ _ _ t) (ioapic_init-IsEntryOf _ _ _ k)
          apart in
      (
        record { ports = pic_disable ∷ s.ports; lapic = l; ioapic = route madt io },
        rw ends refl,
        refl,
        at,
        svr,
        route_base madt io ∙ ioapic_init_base s.ioapic madt.ioapic_gsi_base,
        routes.0,
        routes.1,
      )

  -- Where the firmware's tables are found, with well-formed structures in the MADT that give the timer
  -- and the keyboard two different numbers of the I/O APIC, and the PIT starts again, `irq_init`
  -- returns. It has disabled the legacy controllers, has enabled the local APIC at the address in the
  -- table, and sends the timer's interrupt to vector 32 and the keyboard's to vector 33 of the first
  -- processor, unmasked, with the polarity and trigger of the table.
  pub irq_init_lem :
      (rsdp xsdt hdr : ℕ) (text : List ℕ) (es : List Entry)
      → let madt = described (m32 mem (hdr + 36)) es in
        acpi_find_rsdp mem ≡ some rsdp
        → acpi_get_xsdt mem rsdp ≡ some xsdt
        → acpi_find_table mem xsdt (codes "APIC") ≡ (some (some hdr), text)
        → IsMadt mem hdr es
        → Wraps hw
        → hw.remaining < 2 ^ 32
        → 0xFFFF_FFFF - hw.remaining < 42949673
        → IsGsiFrom madt.ioapic_gsi_base (madt_resolve_gsi madt 0).0
        → IsGsiFrom madt.ioapic_gsi_base (madt_resolve_gsi madt 1).0
        → (madt_resolve_gsi madt 0).0 ≢ (madt_resolve_gsi madt 1).0
        → (s' : Interrupts) × (irq_init mem hw s
            ≡ (some s', text ++ codes "IRQ: LAPIC + IOAPIC + MADT overrides initialized\n"))
          × (s'.ports ≡ pic_disable ∷ s.ports)
          × (s'.lapic.address ≡ m32 mem (hdr + 36))
          × (s'.lapic.regs reg_svr ≡ 0x1FF)
          × (s'.ioapic.gsi_base ≡ madt.ioapic_gsi_base)
          × Routes s'.ioapic (madt_resolve_gsi madt 0) 32
          × Routes s'.ioapic (madt_resolve_gsi madt 1) 33
  unfolding irq_init with_rsdp with_xsdt with_table with_madt
  irq_init_lem rsdp xsdt hdr text es found_rsdp found_xsdt found table wraps h small t k apart =
      let madt = described (m32 mem (hdr + 36)) es in
      let (s', ends, ports, address, svr, base, timer, kbd) =
        setup_lem madt wraps h small t k apart in
      (
        s',
        rw (found_rsdp, found_xsdt, found, acpi_parse_madt_lem mem hdr es table, ends) refl,
        ports,
        address,
        svr,
        base,
        timer,
        kbd,
      )
