-- ===== src/Irq/Total.antt =====
-- `irq_init` returns, whatever the firmware's tables say, where the timers can be calibrated.
use os_kernel_and_bootloader.Base.{ℕ, ◌-◌, ◌^◌, ◌<◌, ap, List, Bool-cases, inl, inr, none, some}
use os_kernel_and_bootloader.Base.Returns.{Returns, some-Returns}
use os_kernel_and_bootloader.Acpi.{acpi_find_table, checksum, table_length}
use os_kernel_and_bootloader.Acpi.Madt.{acpi_parse_madt}
use os_kernel_and_bootloader.Acpi.Walk.{acpi_parse_madt_total}
use os_kernel_and_bootloader.Acpi.Search.{acpi_find_table_lem}
use os_kernel_and_bootloader.Lapic.{Lapic, Timers, lapic_init}
use os_kernel_and_bootloader.Lapic.Calibration.{Wraps, lapic_init_lem}

pub acpi_find_table-Returns :
    (mem : ℕ → ℕ) (xsdt : ℕ) (sig : List ℕ) → Returns (acpi_find_table mem xsdt sig)
acpi_find_table-Returns mem xsdt sig = some-Returns _ _ (acpi_find_table_lem mem xsdt sig)

pub acpi_parse_madt-Returns : (mem : ℕ → ℕ) (hdr : ℕ) → Returns (acpi_parse_madt mem hdr)
acpi_parse_madt-Returns mem hdr = elim (Bool-cases (checksum mem hdr (table_length mem hdr))) [
  | inl good ↦
      let found = (acpi_parse_madt_total mem hdr).0 good in
      some-Returns _ (some found.0) (ap (λ m. m.0) found.1)
  | inr bad ↦ some-Returns _ none (ap (λ m. m.0) ((acpi_parse_madt_total mem hdr).1 bad))
]

-- The PIT starts again, and the local timer has counted less than the calibration can hold.
pub record IsCalibrated (hw : Timers) : Type 0 where
  pub wraps : Wraps hw
  pub remaining : hw.remaining < 2 ^ 32
  pub counted : 0xFFFF_FFFF - hw.remaining < 42949673

module _ (mem : ℕ → ℕ) (hw : Timers) (calibrated : IsCalibrated hw) where
  pub lapic_init-Returns : (l : Lapic) (address : ℕ) → Returns (lapic_init hw l address)
  lapic_init-Returns l address =
      let done =
        lapic_init_lem hw l address calibrated.wraps calibrated.remaining calibrated.counted in
      some-Returns _ done.0 (ap (λ m. m.0) done.1)
