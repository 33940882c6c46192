-- ===== src/Kernel/Routes.antt =====
-- The two entries of the I/O APIC that `kernel_main` sets itself, after `irq_init`.
use os_kernel_and_bootloader.Base.{
  ℕ, ◌+◌, ◌-◌, ◌*◌, ◌≡◌, ◌≤◌, ◌<◌, ap, sym, ◌∙◌, false, arith, ◌==◌, if◌then◌else◌,
}
use mathlib.Core.Path.{subst}
use os_kernel_and_bootloader.Ioapic.{Ioapic}
use os_kernel_and_bootloader.Ioapic.Redirection.{fields}
use os_kernel_and_bootloader.Irq.Routing.{
  Routes, IsEntryOf, low_of, high_of, both_set_base, both_set_regs,
}
use os_kernel_and_bootloader.Kernel.{example_routes}

module _ (io : Ioapic) (from_zero : io.gsi_base ≡ 0) where
  is_entry : (gsi : ℕ) → gsi < 120 → IsEntryOf io gsi
  is_entry gsi h = (omega (arith, from_zero), omega (arith, from_zero))

  base : (example_routes io).gsi_base ≡ 0
  unfolding example_routes
  base = both_set_base io 0 0 1 0 (is_entry 0 (omega arith)) (is_entry 1 (omega arith)) ∙ from_zero

  example_reg :
      (r : ℕ)
      → (example_routes io).regs r ≡ (
          if r == 0x12
          then fields 33 false false
          else if r == 0x13
          then 0
          else if r == 0x10
          then fields 32 false false
          else if r == 0x11
          then 0
          else io.regs r)
  unfolding example_routes
  example_reg r =
      subst
        (λ b. (example_routes io).regs r ≡ (
          if r == 0x10 + (1 - b) * 2
          then fields 33 false false
          else if r == 0x10 + (1 - b) * 2 + 1
          then 0
          else if r == 0x10 + (0 - b) * 2
          then fields 32 false false
          else if r == 0x10 + (0 - b) * 2 + 1
          then 0
          else io.regs r))
        from_zero (both_set_regs io 0 0 1 0 (is_entry 0 (omega arith)) (is_entry 1 (omega arith)) r)

  -- An entry's register.
  read_reg :
      (place : ℕ → ℕ) (v : ℕ)
      → (example_routes io).regs (place 0) ≡ v
      → (example_routes io).regs (place (example_routes io).gsi_base) ≡ v
  read_reg place v e = ap (λ b. (example_routes io).regs (place b)) base ∙ e

  other_reg : (r : ℕ) → 0x14 ≤ r → (example_routes io).regs r ≡ io.regs r
  other_reg r h = ground (arith, example_reg r)

  -- Where the interrupts of the I/O APIC are numbered from 0, the entries 0 and 1 send their interrupts to the vectors 32 and 33, unmasked, active high and edge
  -- triggered, whatever the overrides of the MADT say of them; an entry from 2 on is as it was.
  pub example_routes_lem :
      (gsi : ℕ)
      → 2 ≤ gsi
      → Routes (example_routes io) (0, 0) 32
        × Routes (example_routes io) (1, 0) 33
        × (low_of (example_routes io) gsi ≡ low_of io gsi)
        × (high_of (example_routes io) gsi ≡ high_of io gsi)
  example_routes_lem gsi h =
      let same = ap (λ b. 0x10 + (gsi - b) * 2) from_zero in
      (
        (
          read_reg (λ b. 0x10 + (0 - b) * 2) 32 (example_reg 0x10),
          read_reg (λ b. 0x10 + (0 - b) * 2 + 1) 0 (example_reg 0x11),
        ),
        (
          read_reg (λ b. 0x10 + (1 - b) * 2) 33 (example_reg 0x12),
          read_reg (λ b. 0x10 + (1 - b) * 2 + 1) 0 (example_reg 0x13),
        ),
        read_reg (λ b. 0x10 + (gsi - b) * 2) _
            (other_reg (0x10 + (gsi - 0) * 2) (omega arith) ∙ ap io.regs (sym same)),
        read_reg (λ b. 0x10 + (gsi - b) * 2 + 1) _
            (other_reg (0x10 + (gsi - 0) * 2 + 1) (omega arith)
              ∙ ap (λ r. io.regs (r + 1)) (sym same)),
      )
