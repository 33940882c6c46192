-- ===== src/Irq/Ports.antt =====
-- What `irq_init` does to the legacy controllers, whichever way it ends.
use os_kernel_and_bootloader.Base.{◌≡◌, refl, ◌∷◌, Option, none, some, ◌⊎◌, inl, inr, codes, ℕ}
use os_kernel_and_bootloader.Base.Io.{Io, ◌>>=◌}
use os_kernel_and_bootloader.Acpi.{acpi_find_rsdp, acpi_get_xsdt, acpi_find_table}
use os_kernel_and_bootloader.Acpi.Madt.{MadtInfo, acpi_parse_madt}
use os_kernel_and_bootloader.Pic.{pic_disable}
use os_kernel_and_bootloader.Lapic.{Timers, lapic_init}
use os_kernel_and_bootloader.Irq.{
  Interrupts, irq_setup, with_madt, with_table, with_xsdt, with_rsdp, irq_init,
}

-- A condition on the result of a call, if there is one.
abbrev pub Holds : {A : Type 0} → (A → Type 0) → Option A → Type 0
Holds P none = Unit {0}
Holds P (some a) = P a

module _ (s : Interrupts) where
  -- The writes to the ports are those of before, or `pic_disable` has followed them.
  unfoldable pub KeepsPorts : Io Interrupts → Type 0
  KeepsPorts m = Holds (λ s'. (s'.ports ≡ s.ports) ⊎ (s'.ports ≡ pic_disable ∷ s.ports)) m.0

  bind-KeepsPorts :
      {A : Type 0} (m : Io A) (f : A → Io Interrupts)
      → ((a : A) → KeepsPorts (f a))
      → KeepsPorts (m >>= f)
  unfolding KeepsPorts
  bind-KeepsPorts (none, t) f h = tt
  bind-KeepsPorts (some a, t) f h = h a

  module _ (mem : ℕ → ℕ) (hw : Timers) where
    irq_setup-KeepsPorts : (madt : MadtInfo) → KeepsPorts (irq_setup mem hw s madt)
    unfolding irq_setup KeepsPorts
    irq_setup-KeepsPorts madt =
        bind-KeepsPorts (lapic_init hw s.lapic madt.lapic_addr) _ (λ l. inr refl)

    with_madt-KeepsPorts : (madt : Option MadtInfo) → KeepsPorts (with_madt mem hw s madt)
    unfolding with_madt KeepsPorts
    with_madt-KeepsPorts none = inl refl
    with_madt-KeepsPorts (some madt) = irq_setup-KeepsPorts madt

    with_table-KeepsPorts : (hdr : Option ℕ) → KeepsPorts (with_table mem hw s hdr)
    unfolding with_table KeepsPorts
    with_table-KeepsPorts none = inl refl
    with_table-KeepsPorts (some hdr) =
        bind-KeepsPorts (acpi_parse_madt mem hdr) _ with_madt-KeepsPorts

    with_xsdt-KeepsPorts : (xsdt : Option ℕ) → KeepsPorts (with_xsdt mem hw s xsdt)
    unfolding with_xsdt KeepsPorts
    with_xsdt-KeepsPorts none = inl refl
    with_xsdt-KeepsPorts (some xsdt) =
        bind-KeepsPorts (acpi_find_table mem xsdt (codes "APIC")) _ with_table-KeepsPorts

    with_rsdp-KeepsPorts : (rsdp : Option ℕ) → KeepsPorts (with_rsdp mem hw s rsdp)
    unfolding with_rsdp KeepsPorts
    with_rsdp-KeepsPorts none = inl refl
    with_rsdp-KeepsPorts (some rsdp) = with_xsdt-KeepsPorts (acpi_get_xsdt mem rsdp)

    pub irq_init-KeepsPorts : KeepsPorts (irq_init mem hw s)
    unfolding irq_init
    irq_init-KeepsPorts = with_rsdp-KeepsPorts (acpi_find_rsdp mem)
