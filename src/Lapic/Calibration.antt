-- ===== src/Lapic/Calibration.antt =====
-- The wait for the PIT, and what `lapic_init` leaves in the registers.
use os_kernel_and_bootloader.Base.{
  ℕ, zero, suc, ◌+◌, ◌-◌, ◌/◌, ◌^◌, ◌<◌, ◌≡◌, refl, ap, Bool-cases, inl, inr, ltb, lt→ltb, some,
  arith, [], bit_or,
}
use os_kernel_and_bootloader.Lapic.{
  Lapic, Timers, reg_tpr, reg_svr, reg_lvt_timer, reg_lvt_lint0, reg_lvt_lint1, reg_lvt_error,
  reg_timer_initcnt, reg_timer_div, lapic_write, pit_count, pit_wait, start_pit, latched,
  start_timer, set_timer, after_wait, lapic_calibrate, lapic_setup, lapic_eoi, lapic_init,
}

-- Within the driver's patience the PIT is seen to start again: a count is larger than the one before.
abbrev pub Wraps : Timers → Type 0
Wraps hw = (k : ℕ) × (suc k < hw.patience) × (pit_count hw k < pit_count hw (suc k))

pit_wait_now :
    (hw : Timers) (n prev t : ℕ)
    → 0 < n
    → prev < pit_count hw t
    → (j : ℕ) × (pit_wait hw n prev t ≡ some j)
unfolding pit_wait
pit_wait_now hw zero prev t h now = absurd (omega arith)
pit_wait_now hw (suc n) prev t h now = (t, rw (lt→ltb prev (pit_count hw t) now) refl)

-- The first round of the wait: it ends, or the wait goes on.
pit_wait_round :
    (hw : Timers) (n prev t : ℕ)
    → (j : ℕ) × (pit_wait hw n (pit_count hw t) (t + 1) ≡ some j)
    → (j : ℕ) × (pit_wait hw (suc n) prev t ≡ some j)
unfolding pit_wait
pit_wait_round hw n prev t (j, e) = elim (Bool-cases (ltb prev (pit_count hw t))) [
  | inl now ↦ (t, rw now refl)
  | inr later ↦ (j, rw later e)
]

pit_wait_ends :
    (hw : Timers) (n prev t k : ℕ)
    → suc k < n
    → pit_count hw (t + k) < pit_count hw (t + suc k)
    → (j : ℕ) × (pit_wait hw n prev t ≡ some j)
pit_wait_ends hw zero prev t k h wraps = absurd (omega arith)
pit_wait_ends hw (suc n) prev t zero h wraps =
    let here : t + 0 ≡ t = omega arith in
    let next : t + suc 0 ≡ t + 1 = omega arith in
    pit_wait_round hw n prev t (
      pit_wait_now hw n (pit_count hw t) (t + 1) (omega arith)
        (omega (arith, ap (pit_count hw) here, ap (pit_count hw) next)))
pit_wait_ends hw (suc n) prev t (suc k) h wraps =
    let here : t + 1 + k ≡ t + suc k = omega arith in
    let next : t + 1 + suc k ≡ t + suc (suc k) = omega arith in
    pit_wait_round hw n prev t (
      pit_wait_ends hw n (pit_count hw t) (t + 1) k (omega arith)
        (omega (arith, ap (pit_count hw) here, ap (pit_count hw) next)))

-- With a PIT that starts again, and fewer than 42949673 counts in 10 ms, `lapic_init` returns. It leaves
-- the controller at its address enabled, in its model-specific register too, with vector 255 for spurious interrupts, its other local interrupts masked, no priority held back, and the timer
-- periodic at vector 64 with a tenth of the counts in 10 ms, which are those in a millisecond.
pub lapic_init_lem :
    (hw : Timers) (l : Lapic) (lapic_addr : ℕ)
    → Wraps hw
    → hw.remaining < 2 ^ 32
    → 0xFFFF_FFFF - hw.remaining < 42949673
    → (l' : Lapic) × (lapic_init hw l lapic_addr ≡ (some l', []))
      × (l'.address ≡ lapic_addr)
      × (l'.apic_base ≡ bit_or l.apic_base 0x800)
      × (l'.regs reg_svr ≡ 0x1FF)
      × (l'.regs reg_lvt_lint0 ≡ 2 ^ 16)
      × (l'.regs reg_lvt_lint1 ≡ 2 ^ 16)
      × (l'.regs reg_lvt_error ≡ 2 ^ 16)
      × (l'.regs reg_tpr ≡ 0)
      × (l'.regs reg_timer_div ≡ 3)
      × (l'.regs reg_lvt_timer ≡ 0x2_0040)
      × (l'.regs reg_timer_initcnt ≡ (0xFFFF_FFFF - hw.remaining) / 10)
      × (l'.eois ≡ l.eois + 1)
unfolding lapic_init lapic_calibrate after_wait start_pit latched lapic_setup lapic_eoi start_timer
    set_timer lapic_write
lapic_init_lem hw l lapic_addr (k, in_time, wraps) h small =
    let wraps_at_zero : (pit_count hw (0 + k) ≡ pit_count hw k)
        × (pit_count hw (0 + suc k) ≡ pit_count hw (suc k)) =
      (ap (pit_count hw) (omega arith), ap (pit_count hw) (omega arith)) in
    let (j, ends) =
      pit_wait_ends hw hw.patience 0xFFFF 0 k in_time (omega (arith, wraps_at_zero)) in
    (
      lapic_eoi (
          set_timer hw.remaining
            (latched (j + 1) (start_pit (start_timer (lapic_setup lapic_addr l))))),
      rw ends refl,
      refl,
      refl,
      refl,
      refl,
      refl,
      refl,
      refl,
      refl,
      refl,
      omega arith,
      refl,
    )
