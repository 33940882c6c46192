-- ===== src/Kernel/State.antt =====
-- The state of `kernel_main`, the ways in which it ends, and what it prints.
use os_kernel_and_bootloader.Base.{ℕ, List, ◌++◌, Bool, Option, none, some, codes}
use os_kernel_and_bootloader.Base.Io.{Io, hex_text}
use os_kernel_and_bootloader.Base.Run.{Code, ◌>>◌, return, call, act, end}
use os_kernel_and_bootloader.Lapic.{Timers}
use os_kernel_and_bootloader.Tables.{IdtEntry, Handlers}
use os_kernel_and_bootloader.Irq.{Interrupts}
use os_kernel_and_bootloader.Kheap.{Heap}
use os_kernel_and_bootloader.Nvme.{Controller}
use os_kernel_and_bootloader.Nvme.Init.{Places, Hardware, Startup}
use os_kernel_and_bootloader.Fat32.Volume.{Volume}

-- What the modules of the kernel keep, with the flag that `sti` sets and the text printed since the last
-- `vga_clear`.
pub record Machine : Type 0 where
  pub interrupts : Interrupts
  pub idt : List IdtEntry
  pub enabled : Bool
  pub heap : Heap
  pub startup : Startup
  pub gpt_buf : List ℕ
  pub volume : Volume
  pub file_buf : List ℕ
  pub console : List ℕ

-- `for(;;)` after a message, the loop of `hlt` at the end, and a call that does not return.
pub data End : Type 0 where
  stopped idle hung : End

abbrev pub Kernel : Type 0 → Type 0
Kernel A = Code End Machine A

-- What the kernel finds: the physical memory, the counts of the timers in its two calibrations, the
-- addresses of its entry points, the masks of the legacy controllers, the NVMe controller during and
-- after its initialisation, the addresses of the queues, and the bytes of the array `entries`.
pub record Environment : Type 0 where
  pub mem : ℕ → ℕ
  pub first_timers : Timers
  pub second_timers : Timers
  pub handlers : Handlers
  pub first_mask : ℕ
  pub second_mask : ℕ
  pub nvme : Hardware
  pub places : Places
  pub disk : Controller
  pub entries : List ℕ

abbrev pub get : Kernel Machine
get = call (λ m. (m, m))

unfoldable pub say : List ℕ → Kernel (Unit {0})
say text = act (λ m. record m { console = m.console ++ text })

-- A call of another module.
unfoldable pub from_io : {A : Type 0} → Io A → Kernel A
from_io (none, text) = say text >> end hung
from_io (some a, text) = say text >> return a

-- `if (!pointer)`, with the message.
unfoldable pub found : {A : Type 0} → List ℕ → Option A → Kernel A
found text none = say text >> end stopped
found text (some a) = return a

-- A line with a number.
abbrev pub say_hex : List ℕ → ℕ → Kernel (Unit {0})
say_hex label value = say label >> say (hex_text value) >> say (codes "\n")
