-- ===== src/Lapic.antt =====
-- kernel/lapic.c and kernel/apic.c: the local interrupt controller and its timer. The registers hold what
-- was written to them; the counts of the timers come from the hardware, and are arguments.
pub mod Calibration
mod Tests
use os_kernel_and_bootloader.Base.{
  ℕ, zero, suc, ◌+◌, ◌-◌, ◌*◌, ◌/◌, List, [], ◌∷◌, Bool, ltb, ◌==◌, if◌then◌else◌, Option, none,
  some, u32, sub32, ◌<<<◌, ◌>>>◌, bit_or, bit_and, ◌++◌, replicate,
}
use os_kernel_and_bootloader.Base.Io.{Io, ◌>>=◌, return, halt}

pub record Lapic : Type 0 where
  pub address : ℕ
  pub regs : ℕ → ℕ
  pub apic_base : ℕ  -- the model-specific register 0x1B
  pub eois : ℕ  -- writes to the EOI register
  pub lapic_timer_freq : ℕ
  pub pit_writes : List (ℕ × ℕ)  -- writes to the ports of the PIT, the latest first

-- What the hardware shows: the two bytes of the PIT's count at the first, second, … look, how often
-- the driver looks, and the count of the local timer after the wait.
pub record Timers : Type 0 where
  pub pit_lo : ℕ → ℕ
  pub pit_hi : ℕ → ℕ
  pub patience : ℕ
  pub remaining : ℕ

abbrev pub reg_tpr : ℕ
reg_tpr = 0x080

abbrev pub reg_eoi : ℕ
reg_eoi = 0x0B0

abbrev pub reg_svr : ℕ
reg_svr = 0x0F0

abbrev pub reg_lvt_timer : ℕ
reg_lvt_timer = 0x320

abbrev pub reg_lvt_lint0 : ℕ
reg_lvt_lint0 = 0x350

abbrev pub reg_lvt_lint1 : ℕ
reg_lvt_lint1 = 0x360

abbrev pub reg_lvt_error : ℕ
reg_lvt_error = 0x370

abbrev pub reg_timer_initcnt : ℕ
reg_timer_initcnt = 0x380

abbrev pub reg_timer_div : ℕ
reg_timer_div = 0x3E0

unfoldable pub lapic_write : ℕ → ℕ → Lapic → Lapic
lapic_write reg val l = record l {
  regs = λ r. if r == reg then val else l.regs r;
  eois = if reg == reg_eoi then l.eois + 1 else l.eois;
}

-- The count at a look.
unfoldable pub pit_count : Timers → ℕ → ℕ
pit_count hw t = bit_or (hw.pit_hi t <<< 8) (hw.pit_lo t)

-- The loop of `pit_wait_10ms`, with the looks left and the number of the next one.
unfoldable pub pit_wait : Timers → ℕ → ℕ → ℕ → Option ℕ
pit_wait hw zero prev t = none
pit_wait hw (suc n) prev t =
    let rest = pit_wait hw n (pit_count hw t) (t + 1) in
    if ltb prev (pit_count hw t) then some t else rest

-- `pit_wait_10ms` programs the PIT …
unfoldable pub start_pit : Lapic → Lapic
start_pit l = record l {
  pit_writes = (0x40, 11932 >>> 8) ∷ (0x40, bit_and 11932 0xFF) ∷ (0x43, 0x34) ∷ l.pit_writes;
}

-- … and latches its count for each look.
unfoldable pub latched : ℕ → Lapic → Lapic
latched looks l = record l { pit_writes = replicate looks (0x43, 0x00) ++ l.pit_writes }

-- The registers when the timer has been started for the calibration.
unfoldable pub start_timer : Lapic → Lapic
start_timer l =
    lapic_write reg_timer_initcnt 0xFFFF_FFFF
      (lapic_write reg_lvt_timer 0x40 (lapic_write reg_timer_div 0x3 l))

-- … and when 10 ms have passed.
unfoldable pub set_timer : ℕ → Lapic → Lapic
set_timer remaining l =
    let freq = u32 (sub32 0xFFFF_FFFF remaining * 100) in
    lapic_write reg_timer_initcnt (freq / 1000)
      (lapic_write reg_lvt_timer (bit_or 0x40 (1 <<< 17)) (record l { lapic_timer_freq = freq }))

unfoldable pub after_wait : Timers → Lapic → Option ℕ → Io Lapic
after_wait hw l none = halt
after_wait hw l (some t) = return (set_timer hw.remaining (latched (t + 1) l))

unfoldable pub lapic_calibrate : Timers → Lapic → Io Lapic
lapic_calibrate hw l = after_wait hw (start_pit (start_timer l)) (pit_wait hw hw.patience 0xFFFF 0)

-- The registers that `lapic_init` sets before the calibration.
unfoldable pub lapic_setup : ℕ → Lapic → Lapic
lapic_setup lapic_addr l = lapic_write reg_tpr 0 (
    lapic_write reg_lvt_error (1 <<< 16) (
      lapic_write reg_lvt_lint1 (1 <<< 16) (
        lapic_write reg_lvt_lint0 (1 <<< 16) (
          lapic_write reg_svr (bit_or 0x100 0xFF)
            (record l { address = lapic_addr; apic_base = bit_or l.apic_base (1 <<< 11) })))))

unfoldable pub lapic_eoi : Lapic → Lapic
lapic_eoi l = lapic_write reg_eoi 0 l

unfoldable pub lapic_init : Timers → Lapic → ℕ → Io Lapic
lapic_init hw l lapic_addr = do
  l' ← lapic_calibrate hw (lapic_setup lapic_addr l)
  return (lapic_eoi l')

unfoldable pub apic_eoi : Lapic → Lapic
apic_eoi l = lapic_eoi l
