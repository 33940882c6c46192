-- ===== src/Nvme/Find.antt =====
-- `nvme_find`: the first function of the PCI bus that is an NVMe controller.
use os_kernel_and_bootloader.Base.{
  ℕ, ◌+◌, ◌*◌, ◌/◌, ◌%◌, ◌<◌, ◌≡◌, refl, ap, ap₂, append-nil, sym, ◌∙◌, List, Option, none, some,
  Bool, not, ◌&&◌, ◌==◌, Bool-cases, inl, inr, if◌then◌else◌, arith, codes, ◌<<<◌, bit_and, bit_or,
}
use os_kernel_and_bootloader.Base.Io.{Io, ◌>>◌, return, print, print_hex}
use os_kernel_and_bootloader.Base.First.{first_from}
use os_kernel_and_bootloader.Pci.{pci_read8, pci_read16, pci_read32, for_functions}
use os_kernel_and_bootloader.Pci.Search.{report, for_functions-report}

-- `struct nvme_device`
pub record Device : Type 0 where
  pub bar0 : ℕ
  pub bus : ℕ
  pub dev : ℕ
  pub func : ℕ

module _ (mem : ℕ → ℕ) (ecam_base : ℕ) where
  -- The tests on the vendor, class, subclass and programming interface.
  unfoldable pub is_nvme : ℕ → ℕ → ℕ → Bool
  is_nvme bus dev func =
      not (pci_read16 mem ecam_base bus dev func 0x00 == 0xFFFF)
      && (pci_read8 mem ecam_base bus dev func 0x0B == 0x01
          && (pci_read8 mem ecam_base bus dev func 0x0A == 0x08
              && pci_read8 mem ecam_base bus dev func 0x09 == 0x02))

  unfoldable pub device_at : ℕ → ℕ → ℕ → Device
  device_at bus dev func =
      let bar_low = pci_read32 mem ecam_base bus dev func 0x10 in
      let bar_high = pci_read32 mem ecam_base bus dev func 0x14 in
      record {
        bar0 = bit_and (bit_or (bar_high <<< 32) bar_low) 0xFFFF_FFFF_FFFF_FFF0;
        bus = bus;
        dev = dev;
        func = func;
      }

  unfoldable pub find_message : ℕ → ℕ → ℕ → Io (Unit {0})
  find_message bus dev func = do
    print (codes "NVMe found at ")
    print_hex bus
    print (codes ":")
    print_hex dev
    print (codes ".")
    print_hex func
    print (codes "\n")

  unfoldable pub look_at : ℕ → ℕ → ℕ → Io (Option Device)
  look_at bus dev func =
      if is_nvme bus dev func
      then (find_message bus dev func >> return (some (device_at bus dev func)))
      else return none

  -- The result 0 is `none`, and 1 comes with the device stored.
  unfoldable pub nvme_find : Io (Option Device)
  nvme_find = for_functions look_at

  -- The function with a number, counted by bus, device and function.
  abbrev pub numbered : {B : Type 0} → (ℕ → ℕ → ℕ → B) → ℕ → B
  numbered f k = f (k / 256) (k / 8 % 32) (k % 8)

  abbrev pub found_text : ℕ → List ℕ
  found_text k = (numbered find_message k).1

  numbered_lem :
      {B : Type 0} (f : ℕ → ℕ → ℕ → B) (bus dev func : ℕ)
      → dev < 32
      → func < 8
      → numbered f (bus * 256 + dev * 8 + func) ≡ f bus dev func
  numbered_lem f bus dev func p q =
      let k = bus * 256 + dev * 8 + func in
      let first : k / 256 ≡ bus = omega arith in
      let second : k / 8 % 32 ≡ dev = omega arith in
      let third : k % 8 ≡ func = omega arith in λ i. f (first i) (second i) (third i)

  found_alone :
      (k bus dev func : ℕ)
      → numbered is_nvme k ≡ is_nvme bus dev func
      → numbered device_at k ≡ device_at bus dev func
      → numbered find_message k ≡ find_message bus dev func
      → look_at bus dev func
        ≡ report (numbered device_at) found_text (first_from 1 k (numbered is_nvme))
  unfolding look_at first_from find_message
  found_alone k bus dev func same_test same_device same_text =
      elim (Bool-cases (is_nvme bus dev func)) [
        | inl yes_nvme ↦
            rw (same_test, yes_nvme)
              (ap₂ (λ t v. (some (some v), t)) (append-nil _ ∙ sym (ap (λ m. m.1) same_text))
                (sym same_device))
        | inr other ↦ rw (same_test, other) refl
      ]

  look_at-report :
      (bus dev func : ℕ)
      → bus < 256
      → dev < 32
      → func < 8
      → look_at bus dev func
        ≡ report
            (numbered device_at)
            found_text
            (first_from 1 (bus * 256 + dev * 8 + func) (numbered is_nvme))
  look_at-report bus dev func b d f =
      found_alone (bus * 256 + dev * 8 + func) bus dev func (numbered_lem is_nvme bus dev func d f)
        (numbered_lem device_at bus dev func d f) (numbered_lem find_message bus dev func d f)

  -- `nvme_find` returns the first of the 65536 functions, counted by bus, device and function,
  -- that is an NVMe controller, with its address and number, and none if there is none.
  pub nvme_find_lem :
      nvme_find ≡ report (numbered device_at) found_text (first_from 65536 0 (numbered is_nvme))
  unfolding nvme_find
  nvme_find_lem = for_functions-report _ _ (numbered is_nvme) look_at look_at-report
