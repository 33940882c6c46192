-- ===== src/Pci.antt =====
-- kernel/pci.c: the configuration space of PCI Express, mapped at `ecam_base` in physical memory,
-- which is a function from addresses to bytes.
pub mod Address
pub mod Search
use os_kernel_and_bootloader.Base.{
  ℕ, zero, suc, ◌+◌, ◌*◌, ◌^◌, ◌%◌, List, Option, none, some, Bool, ◌==◌, if◌then◌else◌, codes, u64,
  ◌<<<◌, m16, m32,
}
use os_kernel_and_bootloader.Base.Io.{Io, ◌>>=◌, ◌>>◌, return, print, print_hex}

unfoldable pub pci_ecam_addr : ℕ → ℕ → ℕ → ℕ → ℕ → ℕ
pci_ecam_addr base bus dev func offset =
    u64 (base + (bus <<< 20) + (dev <<< 15) + (func <<< 12) + offset)

module _ (mem : ℕ → ℕ) (base bus dev func offset : ℕ) where
  unfoldable pub pci_read32 : ℕ
  pci_read32 = m32 mem (pci_ecam_addr base bus dev func offset)

  unfoldable pub pci_read16 : ℕ
  pci_read16 = m16 mem (pci_ecam_addr base bus dev func offset)

  unfoldable pub pci_read8 : ℕ
  pci_read8 = mem (pci_ecam_addr base bus dev func offset)

-- The rest of a loop when a round has returned from the function, or not.
unfoldable pub next_round : {A : Type 0} → Io (Option A) → Option A → Io (Option A)
next_round rest none = rest
next_round rest (some a) = return (some a)

-- A `for` loop of `n` rounds from `i` on, whose body may return from the function.
unfoldable pub for_range : {A : Type 0} → ℕ → ℕ → (ℕ → Io (Option A)) → Io (Option A)
for_range zero i body = return none
for_range (suc n) i body = let rest = for_range n (i + 1) body in body i >>= next_round rest

-- The three nested loops over the functions of all devices.
unfoldable pub for_functions : {A : Type 0} → (ℕ → ℕ → ℕ → Io (Option A)) → Io (Option A)
for_functions body =
    for_range 256 0 (λ bus. for_range 32 0 (λ dev. for_range 8 0 (λ func. body bus dev func)))

unfoldable pub describe_function : (ℕ → ℕ) → ℕ → ℕ → ℕ → ℕ → Io (Option (Unit {0}))
describe_function mem ecam_base bus dev func =
    if pci_read16 mem ecam_base bus dev func 0x00 == 0xFFFF then return none else (do
      print (codes "PCIe: ")
      print_hex bus
      print (codes ":")
      print_hex dev
      print (codes ".")
      print_hex func
      print (codes "  VID=")
      print_hex (pci_read16 mem ecam_base bus dev func 0x00)
      print (codes " DID=")
      print_hex (pci_read16 mem ecam_base bus dev func 0x02)
      print (codes "\n")
      return none)

unfoldable pub pci_enumerate : (ℕ → ℕ) → ℕ → Io (Option (Unit {0}))
pci_enumerate mem ecam_base = for_functions (describe_function mem ecam_base)
