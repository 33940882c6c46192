-- ===== src/Kernel/Bringup.antt =====
-- `kernel_main` up to `sti`, where the code finds the tables that it looks for.
use os_kernel_and_bootloader.Base.{ℕ, ◌+◌, ◌≡◌, ◌≢◌, ◌≤◌, ◌<◌, List, some, codes, m32}
use os_kernel_and_bootloader.Acpi.{acpi_find_rsdp, acpi_get_xsdt, acpi_find_table}
use os_kernel_and_bootloader.Acpi.Madt.{MadtInfo}
use os_kernel_and_bootloader.Acpi.Entries.{Entry}
use os_kernel_and_bootloader.Acpi.Decode.{described, IsMadt}
use os_kernel_and_bootloader.Lapic.{Lapic, reg_svr}
use os_kernel_and_bootloader.Irq.{Interrupts, madt_resolve_gsi}
use os_kernel_and_bootloader.Irq.Routing.{Routes}
use os_kernel_and_bootloader.Irq.Total.{IsCalibrated}
use os_kernel_and_bootloader.Kernel.{Machine, Environment}

-- The tables of a machine with one I/O APIC, whose MADT moves the timer's interrupt away from the first two
-- entries.
pub record HasTables (E : Environment) (rsdp xsdt hdr : ℕ) (text : List ℕ) (es : List Entry)
    : Type 0 where
  pub rsdp_found : acpi_find_rsdp E.mem ≡ some rsdp
  pub xsdt_found : acpi_get_xsdt E.mem rsdp ≡ some xsdt
  pub madt_found : acpi_find_table E.mem xsdt (codes "APIC") ≡ (some (some hdr), text)
  pub entries : IsMadt E.mem hdr es
  pub from_zero : (described (m32 E.mem (hdr + 36)) es).ioapic_gsi_base ≡ 0
  pub moved : 2 ≤ (madt_resolve_gsi (described (m32 E.mem (hdr + 36)) es) 0).0
  pub timer : (madt_resolve_gsi (described (m32 E.mem (hdr + 36)) es) 0).0 < 120
  pub kbd : (madt_resolve_gsi (described (m32 E.mem (hdr + 36)) es) 1).0 < 120
  pub apart :
      (madt_resolve_gsi (described (m32 E.mem (hdr + 36)) es) 0).0
      ≢ (madt_resolve_gsi (described (m32 E.mem (hdr + 36)) es) 1).0

module _ (E : Environment) (rsdp xsdt hdr : ℕ) (text : List ℕ) (es : List Entry)
    (tables : HasTables E rsdp xsdt hdr text es) (first : IsCalibrated E.first_timers)
    (second : IsCalibrated E.second_timers) where
  abbrev pub madt : MadtInfo
  madt = described (m32 E.mem (hdr + 36)) es

  -- What is true of the controllers in the end.
  abbrev pub IsRouted : Interrupts → Type 0
  IsRouted i =
      (i.lapic.address ≡ m32 E.mem (hdr + 36))
      × (i.lapic.regs reg_svr ≡ 0x1FF)
      × Routes i.ioapic (madt_resolve_gsi madt 0) 32
      × Routes i.ioapic (0, 0) 32
      × Routes i.ioapic (1, 0) 33

  -- What the disk's part of the kernel uses is as before.
  abbrev pub IsSameDisk : Machine → Machine → Type 0
  IsSameDisk s s' =
      (s'.startup ≡ s.startup)
      × (s'.gpt_buf ≡ s.gpt_buf)
      × (s'.volume ≡ s.volume)
      × (s'.file_buf ≡ s.file_buf)
