-- ===== src/Ioapic/Redirection.antt =====
-- What the calls leave in an entry of the table.
use os_kernel_and_bootloader.Base.{
  ℕ, ◌+◌, ◌-◌, ◌*◌, ◌/◌, ◌%◌, ◌^◌, ◌≤◌, ◌<◌, ◌≡◌, refl, ap, sym, ◌∙◌, Bool, true, false, ◌==◌,
  ==_iff, le→ltb, lt→ltb, if◌then◌else◌, arith, every, every_holds, u8, bit_and, bit_or,
}
use os_kernel_and_bootloader.Base.Bits.{and_low, and_split, or_split, and_digit, or_digit, or-zero}
use os_kernel_and_bootloader.Ioapic.{
  Ioapic, ioapic_write, entry_low, reg_low, ioapic_set_gsi, ioapic_mask, ioapic_unmask,
}

-- The fields of the lower half: the vector, bit 13 for the polarity and bit 15 for the trigger.
abbrev pub fields : ℕ → Bool → Bool → ℕ
fields vector active_low level =
    vector + (if active_low then 2 ^ 13 else 0) + (if level then 2 ^ 15 else 0)

abbrev right : Bool → Bool → ℕ → Bool
right active_low level vector = entry_low vector active_low level == fields vector active_low level

all_right : (active_low level : Bool) → every 256 (right active_low level) ≡ true
unfolding every entry_low
all_right true true = refl
all_right true false = refl
all_right false true = refl
all_right false false = refl

entry_low_lem :
    (vector : ℕ) (active_low level : Bool)
    → vector < 256
    → entry_low vector active_low level ≡ fields vector active_low level
entry_low_lem vector active_low level h =
    (==_iff (entry_low vector active_low level) (fields vector active_low level)).0
      (every_holds 256 (right active_low level) (all_right active_low level) vector h)

bit_16_set : (n : ℕ) → bit_or n (1 * 2 ^ 16) ≡ n / 2 ^ 17 * 2 ^ 17 + 2 ^ 16 + n % 2 ^ 16
bit_16_set n =
    let whole : n ≡ n / 2 ^ 16 * 2 ^ 16 + n % 2 ^ 16 = omega arith in
    let split : bit_or (n / 2 ^ 16 * 2 ^ 16 + n % 2 ^ 16) (1 * 2 ^ 16 + 0)
        ≡ bit_or (n / 2 ^ 16) 1 * 2 ^ 16 + bit_or (n % 2 ^ 16) 0 =
      or_split 16 (n / 2 ^ 16) (n % 2 ^ 16) 1 0 (omega arith) (omega arith) in
    ap (λ k. bit_or k (1 * 2 ^ 16)) whole
    ∙ split
    ∙ omega (arith, or-zero (n % 2 ^ 16), or_digit (n / 2 ^ 16) 1, or-zero (n / 2 ^ 16 / 2))

bit_16_clear : (n : ℕ) → n < 2 ^ 32 → bit_and n 0xFFFE_FFFF ≡ n / 2 ^ 17 * 2 ^ 17 + n % 2 ^ 16
bit_16_clear n h =
    let whole : n ≡ n / 2 ^ 16 * 2 ^ 16 + n % 2 ^ 16 = omega arith in
    let split : bit_and (n / 2 ^ 16 * 2 ^ 16 + n % 2 ^ 16) (0xFFFE * 2 ^ 16 + 0xFFFF)
        ≡ bit_and (n / 2 ^ 16) 0xFFFE * 2 ^ 16 + bit_and (n % 2 ^ 16) 0xFFFF =
      and_split 16 (n / 2 ^ 16) (n % 2 ^ 16) 0xFFFE 0xFFFF (omega arith) (omega arith) in
    ap (λ k. bit_and k 0xFFFE_FFFF) whole
    ∙ split
    ∙ omega
        (arith, and_low 16 (n % 2 ^ 16), and_digit (n / 2 ^ 16) 0xFFFE, and_low 15 (n / 2 ^ 16 / 2))

-- The register of an entry below 120 is not cut off to 8 bits.
reg_fits :
    (io : Ioapic) (gsi : ℕ)
    → io.gsi_base ≤ gsi
    → gsi < io.gsi_base + 120
    → reg_low io gsi ≡ 0x10 + (gsi - io.gsi_base) * 2
reg_fits io gsi h k = omega arith

-- `ioapic_set_gsi` stores in the two registers of the interrupt's entry the vector, the polarity
-- and trigger that the ACPI flags say, and the processor; the entry is not masked, and all other
-- registers are as before.
pub ioapic_set_gsi_lem :
    (io : Ioapic) (gsi vector apic_id flags r : ℕ)
    → io.gsi_base ≤ gsi
    → gsi < io.gsi_base + 120
    → vector < 256
    → let low = 0x10 + (gsi - io.gsi_base) * 2 in
      (ioapic_set_gsi io gsi vector apic_id flags).regs r ≡ (
        if r == low
        then fields vector (flags % 4 == 3) (flags / 4 % 4 == 3)
        else if r == low + 1
        then apic_id * 2 ^ 24
        else io.regs r)
unfolding ioapic_set_gsi ioapic_write
ioapic_set_gsi_lem io gsi vector apic_id flags r h k v =
    let reg = reg_fits io gsi h k in
    let next : u8 (reg_low io gsi + 1) ≡ 0x10 + (gsi - io.gsi_base) * 2 + 1 = omega (arith, reg) in
    rw
      (
        le→ltb gsi io.gsi_base h,
        and_low 2 flags,
        and_low 2 (flags / 2 ^ 2),
        entry_low_lem vector (flags % 4 == 3) (flags / 4 % 4 == 3) v,
        next,
        reg,
      )
      refl

same_at :
    (r low val new old : ℕ)
    → (r ≡ low → val ≡ new)
    → (if r == low then val else old) ≡ (if r == low then new else old)
same_at r low val new old e = ground (arith, e)

-- `ioapic_mask` sets bit 16 of the entry's lower register and `ioapic_unmask` clears it; the other
-- bits and registers are as before.
pub ioapic_mask_lem :
    (io : Ioapic) (gsi r : ℕ)
    → io.gsi_base ≤ gsi
    → gsi < io.gsi_base + 120
    → io.regs r < 2 ^ 32
    → let low = 0x10 + (gsi - io.gsi_base) * 2 in
      let others = io.regs r / 2 ^ 17 * 2 ^ 17 + io.regs r % 2 ^ 16 in
      ((ioapic_mask io gsi).regs r ≡ (if r == low then others + 2 ^ 16 else io.regs r))
      × ((ioapic_unmask io gsi).regs r ≡ (if r == low then others else io.regs r))
unfolding ioapic_mask ioapic_unmask ioapic_write
ioapic_mask_lem io gsi r h k fits =
    let low = 0x10 + (gsi - io.gsi_base) * 2 in
    let others = io.regs r / 2 ^ 17 * 2 ^ 17 + io.regs r % 2 ^ 16 in
    let masked : r ≡ low → bit_or (io.regs low) (1 * 2 ^ 16) ≡ others + 2 ^ 16 = λ e.
      ap (λ i. bit_or (io.regs i) (1 * 2 ^ 16)) (sym e) ∙ bit_16_set (io.regs r) ∙ omega arith in
    let unmasked : r ≡ low → bit_and (io.regs low) 0xFFFE_FFFF ≡ others =
      λ e. ap (λ i. bit_and (io.regs i) 0xFFFE_FFFF) (sym e) ∙ bit_16_clear (io.regs r) fits in
    rw (le→ltb gsi io.gsi_base h, reg_fits io gsi h k)
      (
        same_at r low (bit_or (io.regs low) (1 * 2 ^ 16)) (others + 2 ^ 16) (io.regs r) masked,
        same_at r low (bit_and (io.regs low) 0xFFFE_FFFF) others (io.regs r) unmasked,
      )

-- An interrupt below the device's first is not the device's: the calls do nothing.
pub ioapic_other :
    (io : Ioapic) (gsi vector apic_id flags : ℕ)
    → gsi < io.gsi_base
    → (ioapic_set_gsi io gsi vector apic_id flags ≡ io)
      × ((ioapic_mask io gsi ≡ io) × (ioapic_unmask io gsi ≡ io))
unfolding ioapic_set_gsi ioapic_mask ioapic_unmask
ioapic_other io gsi vector apic_id flags h = rw (lt→ltb gsi io.gsi_base h) (refl, (refl, refl))
