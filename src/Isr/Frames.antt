-- ===== src/Isr/Frames.antt =====
-- What the handler makes of the stacks of the entry points.
use os_kernel_and_bootloader.Base.{
  ℕ, ◌+◌, ◌/◌, ◌%◌, ◌≤◌, ◌<◌, ◌≡◌, refl, List, [], ◌∷◌, ◌++◌, Bool, true, false, leb, ◌==◌,
  if◌then◌else◌, none, some, arith, codes,
}
use os_kernel_and_bootloader.Base.Io.{◌>>=◌, return, print, print_hex, hex_text}
use os_kernel_and_bootloader.Lapic.{Lapic, lapic_write, lapic_eoi, apic_eoi}
use os_kernel_and_bootloader.Isr.{
  Cpu, print_regs, print_exception, print_page_fault, isr_handler_c, isr_stack, irq_stack,
  irq_common, isr_common,
}

-- Labels and values in turn, and a last text.
abbrev pub labelled : List (List ℕ × ℕ) → List ℕ → List ℕ
labelled [] last = last
labelled ((label, value) ∷ rest) last = label ++ hex_text value ++ labelled rest last

abbrev pub exception_report : Cpu → ℕ → ℕ → List ℕ
exception_report c int_no err_code =
    codes "\n=== CPU EXCEPTION ===\n"
    ++ labelled
        ((codes "Interrupt: ", int_no)
          ∷ (codes "\nError code: ", err_code)
          ∷ (codes "\nRIP: ", c.rip)
          ∷ (codes "\nRSP: ", c.rsp)
          ∷ (codes "\nRFLAGS: ", c.rflags)
          ∷ (codes "\nCS: ", c.cs)
          ∷ (codes "\nSS: ", c.ss)
          ∷ [])
        (codes "\n")

abbrev pub fault_report : ℕ → ℕ → List ℕ
fault_report int_no cr2 =
    if int_no == 14 then labelled ((codes "Page Fault at address: ", cr2) ∷ []) (codes "\n") else []

-- The registers lie in memory in the opposite order to that of the labels.
abbrev pub register_report : Cpu → List ℕ
register_report c =
    codes "\nRegisters:\n"
    ++ labelled
        ((codes "RAX=", c.r15)
          ∷ (codes " RBX=", c.r14)
          ∷ (codes "\nRCX=", c.r13)
          ∷ (codes " RDX=", c.r12)
          ∷ (codes "\nRBP=", c.r11)
          ∷ (codes " RDI=", c.r10)
          ∷ (codes "\nRSI=", c.r9)
          ∷ (codes " R8 =", c.r8)
          ∷ (codes "\nR9 =", c.rsi)
          ∷ (codes " R10=", c.rdi)
          ∷ (codes "\nR11=", c.rbp)
          ∷ (codes " R12=", c.rdx)
          ∷ (codes "\nR13=", c.rcx)
          ∷ (codes " R14=", c.rbx)
          ∷ (codes "\nR15=", c.rax)
          ∷ [])
        (codes "\n")

print_page_fault-text :
    (int_no cr2 : ℕ) → print_page_fault int_no cr2 ≡ (some tt, fault_report int_no cr2)
unfolding print_page_fault
print_page_fault-text int_no cr2 = go (int_no == 14)
  where
    go :
        (b : Bool)
        → (if b
            then (print (codes "Page Fault at address: ") >>= λ _.
                print_hex cr2 >>= λ _. print (codes "\n"))
            else return tt)
          ≡ (
            some tt,
            if b then labelled ((codes "Page Fault at address: ", cr2) ∷ []) (codes "\n") else [],
          )
    go true = refl
    go false = refl

print_exception-text :
    (c : Cpu) (int_no err_code : ℕ)
    → print_exception (isr_stack c int_no err_code) ≡ (some tt, exception_report c int_no err_code)
unfolding print_exception isr_stack
print_exception-text c int_no err_code = refl

print_regs-text :
    (c : Cpu) (int_no err_code : ℕ)
    → print_regs (isr_stack c int_no err_code) ≡ (some tt, register_report c)
unfolding print_regs isr_stack
print_regs-text c int_no err_code = refl

below : (n : ℕ) → n < 32 → leb 32 n ≡ false
below n h = ground arith

above : (n : ℕ) → 32 ≤ n → leb 32 n ≡ true
above n h = ground arith

-- An exception, whose number is below 32, never returns: it reports the exception with its error code,
-- the address of a page fault and no other, and the registers in the reverse order of their labels:
-- `RAX=` shows R15 and `R15=` shows RAX, and so on.
pub isr_common_exception :
    (c : Cpu) (int_no err_code cr2 : ℕ) (l : Lapic)
    → int_no < 32
    → isr_common c int_no err_code cr2 l ≡ (
      none,
      exception_report c int_no err_code
          ++ (fault_report int_no cr2 ++ (register_report c ++ codes "\nSystem halted.\n")),
    )
unfolding isr_common isr_handler_c isr_stack
isr_common_exception c int_no err_code cr2 l h =
    rw
      (
        below int_no h,
        print_exception-text c int_no err_code,
        print_page_fault-text int_no cr2,
        print_regs-text c int_no err_code,
      )
      refl

-- An interrupt from the controllers, which finds the interrupt flag set, returns and prints nothing,
-- whatever its number, and ends two interrupts.
pub irq_common_returns :
    (c : Cpu) (int_no cr2 : ℕ) (l : Lapic)
    → c.rflags / 512 % 2 ≡ 1
    → (l' : Lapic) × (irq_common c int_no cr2 l ≡ (some l', [])) × (l'.eois ≡ l.eois + 2)
unfolding irq_common isr_handler_c irq_stack apic_eoi lapic_eoi lapic_write
irq_common_returns c int_no cr2 l h =
    (apic_eoi (apic_eoi l), rw (above c.rflags (omega arith)) refl, omega arith)
