-- ===== src/Tables/Gates.antt =====
-- The gates of the IDT.
use os_kernel_and_bootloader.Base.{
  ℕ, zero, suc, ◌+◌, ◌*◌, ◌/◌, ◌^◌, ◌≤◌, ◌<◌, ◌≡◌, ◌≢◌, sym, refl, ap, ◌∙◌, List, arith, get_or,
  get_or-set, length-set, length, replicate, length-replicate, get_or-replicate, set, ◌==◌, ltb,
  if◌then◌else◌,
}
use mathlib.Core.Path.{subst}
use os_kernel_and_bootloader.Base.Bits.{and_low}
use os_kernel_and_bootloader.Tables.{
  IdtEntry, gate, no_gate, Handlers, ist_of, set_exceptions, idt_init,
}

pub gate_handler : IdtEntry → ℕ
gate_handler e = e.offset_low + e.offset_mid * 2 ^ 16 + e.offset_high * 2 ^ 32

-- The processor finds in a gate the address of the handler that `idt_set_gate` was given.
pub gate_handler-gate :
    (handler ist : ℕ) → handler < 2 ^ 64 → gate_handler (gate handler ist) ≡ handler
unfolding gate gate_handler
gate_handler-gate handler ist h =
    omega (arith, and_low 16 handler, and_low 16 (handler / 2 ^ 16), and_low 32 (handler / 2 ^ 32))

one_more :
    (m n : ℕ) (old : List IdtEntry) (g x b : IdtEntry)
    → (n ≡ m → x ≡ g)
    → m < length old
    → get_or old n no_gate ≡ (if ltb n m then x else b)
    → get_or (set old m g) n no_gate ≡ (if ltb n (suc m) then x else b)
one_more m n old g x b same room before = ground (arith, get_or-set old m n g no_gate, before, same)

set_exceptions_lem :
    (m n : ℕ) (h : Handlers) (idt : List IdtEntry)
    → m ≤ length idt
    → (length (set_exceptions m h idt) ≡ length idt)
      × (get_or (set_exceptions m h idt) n no_gate
          ≡ (if ltb n m then gate (h.isr n) (ist_of n) else get_or idt n no_gate))
unfolding set_exceptions
set_exceptions_lem zero n h idt k = (refl, ground arith)
set_exceptions_lem (suc m) n h idt k =
    let (size, before) = set_exceptions_lem m n h idt (omega arith) in
    let g = gate (h.isr m) (ist_of m) in
    let same : n ≡ m → gate (h.isr n) (ist_of n) ≡ g = ap (λ i. gate (h.isr i) (ist_of i)) in
    (
      length-set (set_exceptions m h idt) m g ∙ size,
      one_more m n (set_exceptions m h idt) g (gate (h.isr n) (ist_of n)) (get_or idt n no_gate)
          same (omega (arith, size)) before,
    )

-- The gate that each vector is meant to have.
unfoldable expected : Handlers → ℕ → IdtEntry
expected h n =
    if n == 0x40
    then gate h.apic_timer 0
    else if n == 33
    then gate h.irq1 0
    else if n == 32
    then gate h.irq0 0
    else if ltb n 32
    then gate (h.isr n) (ist_of n)
    else no_gate

idt_init_gates : (h : Handlers) (n : ℕ) → n < 256 → get_or (idt_init h) n no_gate ≡ expected h n
unfolding idt_init expected
idt_init_gates h n k =
    let blank = replicate 256 no_gate in
    let size₀ : length blank ≡ 256 = length-replicate 256 no_gate in
    let (size, exceptions) = set_exceptions_lem 32 n h blank (omega arith) in
    let s₁ = set (set_exceptions 32 h blank) 32 (gate h.irq0 0) in
    let s₂ = set s₁ 33 (gate h.irq1 0) in
    ground (
      arith,
      size₀,
      size,
      exceptions,
      get_or-replicate 256 no_gate n no_gate k,
      length-set (set_exceptions 32 h blank) 32 (gate h.irq0 0),
      length-set s₁ 33 (gate h.irq1 0),
      get_or-set (set_exceptions 32 h blank) 32 n (gate h.irq0 0) no_gate,
      get_or-set s₁ 33 n (gate h.irq1 0) no_gate,
      get_or-set s₂ 0x40 n (gate h.apic_timer 0) no_gate,
    )

-- What the processor finds in an interrupt gate of privilege level 0 with the kernel's code segment, of
-- selector 8: the handler's address, and the number of the stack that it takes, 0 for the current one.
pub record IsGate (handler ist : ℕ) (e : IdtEntry) : Type 0 where
  pub address : gate_handler e ≡ handler
  pub stack : e.ist ≡ ist
  pub segment : e.selector ≡ 8
  pub present : e.type_attr ≡ 0x8E
  pub reserved : e.zeros ≡ 0

gate-IsGate : (handler ist : ℕ) → handler < 2 ^ 64 → IsGate handler ist (gate handler ist)
unfolding gate
gate-IsGate handler ist h = record {
  address = gate_handler-gate handler ist h;
  stack = refl;
  segment = refl;
  present = refl;
  reserved = refl;
}

pub record AreAddresses (h : Handlers) : Type 0 where
  pub isr : (n : ℕ) → n < 32 → h.isr n < 2 ^ 64
  pub irq0 : h.irq0 < 2 ^ 64
  pub irq1 : h.irq1 < 2 ^ 64
  pub apic_timer : h.apic_timer < 2 ^ 64

exception : (h : Handlers) (n : ℕ) → n < 32 → n ≢ 8 → expected h n ≡ gate (h.isr n) 0
unfolding expected
exception h n k other = ground (arith, k, other)

unused : (h : Handlers) (n : ℕ) → 33 < n → n ≢ 0x40 → expected h n ≡ no_gate
unfolding expected
unused h n above other = ground (arith, above, other)

-- `idt_init`, with handlers at addresses of 64 bits, installs a gate for each of the 32 exceptions, of which
-- the double fault, 8, takes the first stack of the interrupt stack table and the others the current one; the
-- gates of the two device interrupts at 32 and 33 and of the timer at 64; and leaves every other entry zero.
pub idt_init_lem :
    (h : Handlers)
    → AreAddresses h
    → let entry = λ (n : ℕ). get_or (idt_init h) n no_gate in
      IsGate (h.isr 8) 1 (entry 8)
      × ((n : ℕ) → n < 32 → n ≢ 8 → IsGate (h.isr n) 0 (entry n))
      × IsGate h.irq0 0 (entry 32)
      × IsGate h.irq1 0 (entry 33)
      × IsGate h.apic_timer 0 (entry 0x40)
      × ((n : ℕ) → 33 < n → n < 256 → n ≢ 0x40 → entry n ≡ no_gate)
unfolding expected
idt_init_lem h a =
    let at =
      λ (n : ℕ) (handler ist : ℕ) (k : n < 256) (e : expected h n ≡ gate handler ist)
          (small : handler < 2 ^ 64).
        subst (IsGate handler ist) (sym (idt_init_gates h n k ∙ e))
          (gate-IsGate handler ist small) in
    (
      at 8 (h.isr 8) 1 (omega arith) refl (a.isr 8 (omega arith)),
      λ n k other. at n (h.isr n) 0 (omega (arith, k)) (exception h n k other) (a.isr n k),
      at 32 h.irq0 0 (omega arith) refl a.irq0,
      at 33 h.irq1 0 (omega arith) refl a.irq1,
      at 0x40 h.apic_timer 0 (omega arith) refl a.apic_timer,
      λ n above k other. idt_init_gates h n k ∙ unused h n above other,
    )
