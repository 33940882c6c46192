-- ===== src/Ioapic.antt =====
-- kernel/ioapic.c: the redirection of interrupts. The device is modelled as 256 registers that
-- hold what was written to them; the index register selects one.
pub mod Redirection
mod Tests
use os_kernel_and_bootloader.Base.{
  ℕ, zero, suc, ◌+◌, ◌-◌, ◌*◌, ◌==◌, Bool, ltb, if◌then◌else◌, u8, ◌<<<◌, ◌>>>◌, bit_and, bit_or,
}

pub record Ioapic : Type 0 where
  pub gsi_base : ℕ
  pub regs : ℕ → ℕ

unfoldable pub ioapic_write : Ioapic → ℕ → ℕ → Ioapic
ioapic_write io reg val = record io { regs = λ r. if r == reg then val else io.regs r }

-- The loop of `ioapic_init` from `i` on.
unfoldable pub mask_from : ℕ → ℕ → Ioapic → Ioapic
mask_from zero i io = io
mask_from (suc n) i io =
    let reg = u8 (0x10 + i * 2) in
    mask_from n (i + 1) (ioapic_write (ioapic_write io reg (1 <<< 16)) (u8 (reg + 1)) 0)

-- `max + 1` entries, of which register 1 gives the last.
unfoldable pub ioapic_init : Ioapic → ℕ → Ioapic
ioapic_init device gsi_base =
    let io = record device { gsi_base = gsi_base } in
    mask_from (bit_and (io.regs 1 >>> 16) 0xFF + 1) 0 io

-- The lower half of an entry: a level or edge trigger, a low or high polarity, not masked.
unfoldable pub entry_low : ℕ → Bool → Bool → ℕ
entry_low vector active_low level =
    let p = if active_low then bit_or vector (1 <<< 13) else bit_and vector 0xFFFF_DFFF in
    let t = if level then bit_or p (1 <<< 15) else bit_and p 0xFFFF_7FFF in bit_and t 0xFFFE_FFFF

abbrev pub reg_low : Ioapic → ℕ → ℕ
reg_low io gsi = u8 (0x10 + (gsi - io.gsi_base) * 2)

unfoldable pub ioapic_set_gsi : Ioapic → ℕ → ℕ → ℕ → ℕ → Ioapic
ioapic_set_gsi io gsi vector apic_id flags =
    if ltb gsi io.gsi_base
    then io
    else ioapic_write (ioapic_write io (u8 (reg_low io gsi + 1)) (apic_id <<< 24)) (reg_low io gsi)
        (entry_low vector (bit_and flags 3 == 3) (bit_and (flags >>> 2) 3 == 3))

unfoldable pub ioapic_mask : Ioapic → ℕ → Ioapic
ioapic_mask io gsi =
    if ltb gsi io.gsi_base
    then io
    else ioapic_write io (reg_low io gsi) (bit_or (io.regs (reg_low io gsi)) (1 <<< 16))

unfoldable pub ioapic_unmask : Ioapic → ℕ → Ioapic
ioapic_unmask io gsi =
    if ltb gsi io.gsi_base
    then io
    else ioapic_write io (reg_low io gsi) (bit_and (io.regs (reg_low io gsi)) 0xFFFE_FFFF)
