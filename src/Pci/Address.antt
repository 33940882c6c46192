-- ===== src/Pci/Address.antt =====
-- Where the configuration spaces of the functions lie.
use os_kernel_and_bootloader.Base.{ℕ, ◌+◌, ◌^◌, ◌≤◌, ◌<◌, ◌≡◌, arith}
use os_kernel_and_bootloader.Pci.{pci_ecam_addr}

-- Below the end of the address space, the 4096 bytes of each function lie inside the 256 MB from the
-- base on, and no two functions share an address.
pub pci_ecam_addr_injective :
    (base bus dev func offset bus' dev' func' offset' : ℕ)
    → base + 2 ^ 28 ≤ 2 ^ 64
    → bus < 256
    → dev < 32
    → func < 8
    → offset < 4096
    → bus' < 256
    → dev' < 32
    → func' < 8
    → offset' < 4096
    → ((base ≤ pci_ecam_addr base bus dev func offset)
        × (pci_ecam_addr base bus dev func offset < base + 2 ^ 28))
      × (pci_ecam_addr base bus dev func offset ≡ pci_ecam_addr base bus' dev' func' offset'
          → (bus ≡ bus') × (dev ≡ dev') × (func ≡ func') × (offset ≡ offset'))
unfolding pci_ecam_addr
pci_ecam_addr_injective base bus dev func offset bus' dev' func' offset' room b d f o b' d' f' o' =
    ((omega arith, omega arith), λ e. (omega arith, omega arith, omega arith, omega arith))
