-- ===== src/Isr.antt =====
-- kernel/isr.c, with the stack that the entry points of kernel/isr.asm give it.
pub mod Frames
mod Tests
use os_kernel_and_bootloader.Base.{
  ℕ, List, [], ◌∷◌, ◌++◌, Bool, leb, ◌==◌, if◌then◌else◌, Option, none, some, get_or, codes,
}
use os_kernel_and_bootloader.Base.Io.{Io, ◌>>=◌, ◌>>◌, return, halt, print, print_hex}
use os_kernel_and_bootloader.Lapic.{Lapic, apic_eoi}

-- The words of the stack are a list, from the pointer on.
abbrev pub word : List ℕ → ℕ → ℕ
word s i = get_or s i 0

unfoldable pub print_regs : List ℕ → Io (Unit {0})
print_regs s = do
  print (codes "\nRegisters:\n")
  print (codes "RAX=")
  print_hex (word s 0)
  print (codes " RBX=")
  print_hex (word s 1)
  print (codes "\nRCX=")
  print_hex (word s 2)
  print (codes " RDX=")
  print_hex (word s 3)
  print (codes "\nRBP=")
  print_hex (word s 4)
  print (codes " RDI=")
  print_hex (word s 5)
  print (codes "\nRSI=")
  print_hex (word s 6)
  print (codes " R8 =")
  print_hex (word s 7)
  print (codes "\nR9 =")
  print_hex (word s 8)
  print (codes " R10=")
  print_hex (word s 9)
  print (codes "\nR11=")
  print_hex (word s 10)
  print (codes " R12=")
  print_hex (word s 11)
  print (codes "\nR13=")
  print_hex (word s 12)
  print (codes " R14=")
  print_hex (word s 13)
  print (codes "\nR15=")
  print_hex (word s 14)
  print (codes "\n")

unfoldable pub print_exception : List ℕ → Io (Unit {0})
print_exception s = do
  print (codes "\n=== CPU EXCEPTION ===\n")
  print (codes "Interrupt: ")
  print_hex (word s 15)
  print (codes "\nError code: ")
  print_hex (word s 16)
  print (codes "\nRIP: ")
  print_hex (word s 17)
  print (codes "\nRSP: ")
  print_hex (word s 20)
  print (codes "\nRFLAGS: ")
  print_hex (word s 19)
  print (codes "\nCS: ")
  print_hex (word s 18)
  print (codes "\nSS: ")
  print_hex (word s 21)
  print (codes "\n")

unfoldable pub print_page_fault : ℕ → ℕ → Io (Unit {0})
print_page_fault int_no cr2 =
    if int_no == 14
    then (do print (codes "Page Fault at address: "); print_hex cr2; print (codes "\n"))
    else return tt

-- `cr2` is the register of that name. The loop at the end does not return.
unfoldable pub isr_handler_c : List ℕ → ℕ → Lapic → Io Lapic
isr_handler_c stack cr2 l = if leb 32 (word stack 15) then return (apic_eoi l) else (do
  print_exception stack
  print_page_fault (word stack 15) cr2
  print_regs stack
  print (codes "\nSystem halted.\n")
  halt)

-- What the processor pushes, and the registers that `isr_common` pushes.
pub record Cpu : Type 0 where
  pub rip : ℕ
  pub cs : ℕ
  pub rflags : ℕ
  pub rsp : ℕ
  pub ss : ℕ
  pub rax : ℕ
  pub rbx : ℕ
  pub rcx : ℕ
  pub rdx : ℕ
  pub rbp : ℕ
  pub rdi : ℕ
  pub rsi : ℕ
  pub r8 : ℕ
  pub r9 : ℕ
  pub r10 : ℕ
  pub r11 : ℕ
  pub r12 : ℕ
  pub r13 : ℕ
  pub r14 : ℕ
  pub r15 : ℕ

abbrev pub interrupted : Cpu → List ℕ
interrupted c = c.rip ∷ c.cs ∷ c.rflags ∷ c.rsp ∷ c.ss ∷ []

-- The eleven registers that both entry points push, as they lie in memory.
abbrev pub pushed : Cpu → List ℕ
pushed c = c.r11 ∷ c.r10 ∷ c.r9 ∷ c.r8 ∷ c.rsi ∷ c.rdi ∷ c.rbp ∷ c.rdx ∷ c.rcx ∷ c.rbx ∷ c.rax ∷ []

unfoldable pub isr_stack : Cpu → ℕ → ℕ → List ℕ
isr_stack c int_no err_code =
    c.r15 ∷ c.r14 ∷ c.r13 ∷ c.r12 ∷ pushed c ++ int_no ∷ err_code ∷ interrupted c

unfoldable pub irq_stack : Cpu → ℕ → List ℕ
irq_stack c int_no = pushed c ++ int_no ∷ 0 ∷ interrupted c

-- `irq_common`, for an interrupt from the controllers: the handler, and another EOI.
unfoldable pub irq_common : Cpu → ℕ → ℕ → Lapic → Io Lapic
irq_common c int_no cr2 l = do l' ← isr_handler_c (irq_stack c int_no) cr2 l; return (apic_eoi l')

-- `isr_common`, for an exception.
unfoldable pub isr_common : Cpu → ℕ → ℕ → ℕ → Lapic → Io Lapic
isr_common c int_no err_code cr2 l = isr_handler_c (isr_stack c int_no err_code) cr2 l
