-- ===== src/Irq/Routing.antt =====
-- Where the interrupts of the timer and the keyboard go.
use os_kernel_and_bootloader.Base.{
  ℕ, ◌+◌, ◌-◌, ◌*◌, ◌/◌, ◌%◌, ◌^◌, ◌≤◌, ◌<◌, ◌≡◌, ◌≢◌, ap, ◌∙◌, Bool, ◌==◌, if◌then◌else◌, arith,
}
use mathlib.Core.Path.{subst}
use os_kernel_and_bootloader.Acpi.Madt.{MadtInfo}
use os_kernel_and_bootloader.Ioapic.{Ioapic, ioapic_write, ioapic_set_gsi, ioapic_unmask}
use os_kernel_and_bootloader.Ioapic.Redirection.{fields, ioapic_set_gsi_lem, ioapic_mask_lem}
use os_kernel_and_bootloader.Irq.{madt_resolve_gsi, route}

-- The entry of an interrupt: its lower and its upper register.
abbrev pub low_of : Ioapic → ℕ → ℕ
low_of io gsi = io.regs (0x10 + (gsi - io.gsi_base) * 2)

abbrev pub high_of : Ioapic → ℕ → ℕ
high_of io gsi = io.regs (0x10 + (gsi - io.gsi_base) * 2 + 1)

-- An entry of the device.
abbrev pub IsEntryOf : Ioapic → ℕ → Type 0
IsEntryOf io gsi = (io.gsi_base ≤ gsi) × (gsi < io.gsi_base + 120)

-- The entry sends the interrupt to the first processor with a vector, and is not masked.
abbrev pub Routes : Ioapic → ℕ × ℕ → ℕ → Type 0
Routes io source vector =
    (low_of io source.0 ≡ fields vector (source.1 % 4 == 3) (source.1 / 4 % 4 == 3))
    × (high_of io source.0 ≡ 0)

pub set_gsi_base :
    (io : Ioapic) (gsi vector apic_id flags : ℕ)
    → (ioapic_set_gsi io gsi vector apic_id flags).gsi_base ≡ io.gsi_base
unfolding ioapic_set_gsi ioapic_write
set_gsi_base io gsi vector apic_id flags = ground arith

unmask_base : (io : Ioapic) (gsi : ℕ) → (ioapic_unmask io gsi).gsi_base ≡ io.gsi_base
unfolding ioapic_unmask ioapic_write
unmask_base io gsi = ground arith

-- The device keeps its first interrupt.
pub route_base : (madt : MadtInfo) (io : Ioapic) → (route madt io).gsi_base ≡ io.gsi_base
unfolding route
route_base madt io =
    let timer = madt_resolve_gsi madt 0 in
    let kbd = madt_resolve_gsi madt 1 in
    let io₁ = ioapic_set_gsi io timer.0 32 0 timer.1 in
    let io₂ = ioapic_set_gsi io₁ kbd.0 33 0 kbd.1 in
    unmask_base (ioapic_unmask io₂ timer.0) kbd.0
    ∙ unmask_base io₂ timer.0
    ∙ set_gsi_base io₁ kbd.0 33 0 kbd.1
    ∙ set_gsi_base io timer.0 32 0 timer.1

fields_small :
    (vector : ℕ) (active_low level : Bool) → vector < 256 → fields vector active_low level < 2 ^ 16
fields_small vector active_low level h = ground arith

module _ (io : Ioapic) (gt ft gk fk : ℕ) (t : IsEntryOf io gt) (k : IsEntryOf io gk) where
  abbrev pub both_set : Ioapic
  both_set = ioapic_set_gsi (ioapic_set_gsi io gt 32 0 ft) gk 33 0 fk

  pub both_set_base : both_set.gsi_base ≡ io.gsi_base
  both_set_base =
      set_gsi_base (ioapic_set_gsi io gt 32 0 ft) gk 33 0 fk ∙ set_gsi_base io gt 32 0 ft

  pub both_set_regs :
      (r : ℕ)
      → let low_t = 0x10 + (gt - io.gsi_base) * 2 in
        let low_k = 0x10 + (gk - io.gsi_base) * 2 in
        both_set.regs r ≡ (
          if r == low_k
          then fields 33 (fk % 4 == 3) (fk / 4 % 4 == 3)
          else if r == low_k + 1
          then 0
          else if r == low_t
          then fields 32 (ft % 4 == 3) (ft / 4 % 4 == 3)
          else if r == low_t + 1
          then 0
          else io.regs r)
  both_set_regs r =
      let io₁ = ioapic_set_gsi io gt 32 0 ft in
      let same = set_gsi_base io gt 32 0 ft in
      let above : io₁.gsi_base ≤ gk = omega (arith, same, k) in
      let below : gk < io₁.gsi_base + 120 = omega (arith, same, k) in
      let chosen = λ (b x : ℕ).
        if r == 0x10 + (gk - b) * 2
        then fields 33 (fk % 4 == 3) (fk / 4 % 4 == 3)
        else if r == 0x10 + (gk - b) * 2 + 1
        then 0
        else x in
      let second =
        subst (λ b. both_set.regs r ≡ chosen b (io₁.regs r)) same
          (ioapic_set_gsi_lem io₁ gk 33 0 fk r above below (omega arith)) in
      second ∙ ap (chosen io.gsi_base) (ioapic_set_gsi_lem io gt 32 0 ft r t.0 t.1 (omega arith))

unmask_keeps :
    (io : Ioapic) (gsi r : ℕ)
    → IsEntryOf io gsi
    → io.regs r < 2 ^ 16
    → (ioapic_unmask io gsi).regs r ≡ io.regs r
unmask_keeps io gsi r e small =
    let read = (ioapic_mask_lem io gsi r e.0 e.1 (omega arith)).1 in
    let clear : io.regs r / 2 ^ 17 * 2 ^ 17 + io.regs r % 2 ^ 16 ≡ io.regs r = omega arith in
    ground (arith, read, clear)

-- `route` with the interrupts' numbers found.
routed : Ioapic → ℕ → ℕ → ℕ → ℕ → Ioapic
routed io gt ft gk fk =
    ioapic_unmask (ioapic_unmask (ioapic_set_gsi (ioapic_set_gsi io gt 32 0 ft) gk 33 0 fk) gt) gk

module _ (io : Ioapic) (gt ft gk fk : ℕ) (t : IsEntryOf io gt) (k : IsEntryOf io gk) where
  routed_base : (routed io gt ft gk fk).gsi_base ≡ io.gsi_base
  unfolding routed
  routed_base =
      unmask_base (ioapic_unmask (both_set io gt ft gk fk t k) gt) gk
      ∙ unmask_base (both_set io gt ft gk fk t k) gt
      ∙ both_set_base io gt ft gk fk t k

  routed_reg :
      (r v : ℕ)
      → (both_set io gt ft gk fk t k).regs r ≡ v
      → v < 2 ^ 16
      → (routed io gt ft gk fk).regs r ≡ v
  unfolding routed
  routed_reg r v e small =
      let io₂ = both_set io gt ft gk fk t k in
      let base = both_set_base io gt ft gk fk t k in
      let next_base = unmask_base io₂ gt in
      let first = unmask_keeps io₂ gt r (omega (arith, base, t)) (omega (arith, e)) in
      let second =
        unmask_keeps (ioapic_unmask io₂ gt) gk r (omega (arith, base, next_base, k))
          (omega (arith, first, e)) in
      second ∙ first ∙ e

  -- The same at a place that depends on the device's first interrupt.
  routed_at :
      (place : ℕ → ℕ) (v : ℕ)
      → (both_set io gt ft gk fk t k).regs (place io.gsi_base) ≡ v
      → v < 2 ^ 16
      → (routed io gt ft gk fk).regs (place (routed io gt ft gk fk).gsi_base) ≡ v
  routed_at place v e small =
      ap (λ b. (routed io gt ft gk fk).regs (place b)) routed_base
      ∙ routed_reg (place io.gsi_base) v e small

  routed-Routes :
      gt ≢ gk
      → Routes (routed io gt ft gk fk) (gt, ft) 32 × Routes (routed io gt ft gk fk) (gk, fk) 33
  routed-Routes apart =
      let low_t = 0x10 + (gt - io.gsi_base) * 2 in
      let low_k = 0x10 + (gk - io.gsi_base) * 2 in
      let value = both_set_regs io gt ft gk fk t k in
      let v_t = fields 32 (ft % 4 == 3) (ft / 4 % 4 == 3) in
      let v_k = fields 33 (fk % 4 == 3) (fk / 4 % 4 == 3) in
      let different : low_t ≢ low_k = λ e. apart (omega arith) in
      (
        (
          routed_at (λ b. 0x10 + (gt - b) * 2) v_t (ground (arith, value low_t, different))
              (fields_small 32 _ _ (omega arith)),
          routed_at (λ b. 0x10 + (gt - b) * 2 + 1) 0 (ground (arith, value (low_t + 1)))
              (omega arith),
        ),
        (
          routed_at (λ b. 0x10 + (gk - b) * 2) v_k (ground (arith, value low_k))
              (fields_small 33 _ _ (omega arith)),
          routed_at (λ b. 0x10 + (gk - b) * 2 + 1) 0 (ground (arith, value (low_k + 1)))
              (omega arith),
        ),
      )

-- `irq_init` sends the timer's interrupt to vector 32 and the keyboard's to vector 33 of the first
-- processor, unmasked, at the numbers and with the flags of the overrides, where these are two different
-- entries of the device.
pub route-Routes :
    (madt : MadtInfo) (io : Ioapic)
    → let timer = madt_resolve_gsi madt 0 in
      let kbd = madt_resolve_gsi madt 1 in
      IsEntryOf io timer.0
      → IsEntryOf io kbd.0
      → timer.0 ≢ kbd.0
      → Routes (route madt io) timer 32 × Routes (route madt io) kbd 33
unfolding route
route-Routes madt io t k apart =
    let timer = madt_resolve_gsi madt 0 in
    let kbd = madt_resolve_gsi madt 1 in
    unfold routed in routed-Routes io timer.0 timer.1 kbd.0 kbd.1 t k apart
