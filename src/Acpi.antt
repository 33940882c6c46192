-- ===== src/Acpi.antt =====
-- kernel/acpi.c and kernel/acpi.h: the tables that the firmware leaves in physical memory. Memory is
-- a function from addresses to bytes, and a null pointer is `none`. The offsets of the fields are
-- those of the structures, which the compiler lays out with their natural alignment. Each function
-- but the first returns a null pointer for one, which its callers here test themselves.
pub mod Madt
pub mod Walk
pub mod Entries
pub mod Search
pub mod Decode
pub mod Example
mod Tests
use os_kernel_and_bootloader.Base.{
  ℕ, zero, suc, ◌+◌, ◌-◌, ◌*◌, ◌/◌, ◌%◌, ◌^◌, List, [], ◌∷◌, Bool, true, false, not, ◌&&◌, ltb, leb,
  ◌==◌, if◌then◌else◌, Option, none, some, codes, stretch, m32, m64, u8, u32, sub64,
}
use os_kernel_and_bootloader.Base.Io.{Io, ◌>>=◌, ◌>>◌, return, print}
use os_kernel_and_bootloader.Memory.{memcmp, is_zero}

module _ (mem : ℕ → ℕ) where
  -- The loop of `checksum` over the bytes left.
  unfoldable pub sum_from : ℕ → ℕ → ℕ → ℕ
  sum_from zero ptr sum = sum
  sum_from (suc n) ptr sum = sum_from n (ptr + 1) (u8 (sum + mem ptr))

  unfoldable pub checksum : ℕ → ℕ → Bool
  checksum ptr len = sum_from len ptr 0 == 0

  -- `!__builtin_memcmp(ptr, text, n)`, for a text of `n` characters.
  abbrev pub bytes_are : ℕ → ℕ → List ℕ → Bool
  bytes_are ptr n text = is_zero (memcmp (stretch mem ptr n) text n)

  unfoldable pub is_rsdp : ℕ → Bool
  is_rsdp addr = bytes_are addr 8 (codes "RSD PTR ") && checksum addr 20

  -- The loop of `acpi_find_rsdp`. The second checksum, of revision 2, decides nothing.
  unfoldable pub find_rsdp_from : ℕ → ℕ → Option ℕ
  find_rsdp_from zero addr = none
  find_rsdp_from (suc n) addr =
      let rest = find_rsdp_from n (addr + 16) in if is_rsdp addr then some addr else rest

  unfoldable pub acpi_find_rsdp : Option ℕ
  acpi_find_rsdp = find_rsdp_from 0x2000 0xE0000

  unfoldable pub acpi_get_xsdt : ℕ → Option ℕ
  acpi_get_xsdt rsdp =
      if leb 2 (mem (rsdp + 15)) && not (m64 mem (rsdp + 24) == 0)
      then some (m64 mem (rsdp + 24))
      else if not (m32 mem (rsdp + 16) == 0)
      then some (m32 mem (rsdp + 16))
      else none

  -- `header.length`
  abbrev pub table_length : ℕ → ℕ
  table_length hdr = m32 mem (hdr + 4)

  -- The number of entries is converted to `int`; a negative one ends the loop at once.
  unfoldable pub entry_count : ℕ → ℕ
  entry_count xsdt =
      let n = u32 (sub64 (table_length xsdt) 36 / 8) in if ltb n (2 ^ 31) then n else 0

  -- `xsdt->entries[i]`: the array is aligned to 8 bytes.
  abbrev pub entry_at : ℕ → ℕ → ℕ
  entry_at xsdt i = m64 mem (xsdt + 40 + 8 * i)

  unfoldable pub bad_checksum : ℕ → Io (Unit {0})
  bad_checksum hdr = do
    print (codes "ACPI: bad checksum for table ")
    print (stretch mem hdr 4)
    print (codes "\n")

  unfoldable pub find_table_from : ℕ → ℕ → ℕ → List ℕ → Io (Option ℕ)
  find_table_from zero xsdt i sig = return none
  find_table_from (suc n) xsdt i sig =
      let hdr = entry_at xsdt i in
      let rest = find_table_from n xsdt (i + 1) sig in
      if not (bytes_are hdr 4 sig)
      then rest
      else if checksum hdr (table_length hdr)
      then return (some hdr)
      else (bad_checksum hdr >> rest)

  unfoldable pub acpi_find_table : ℕ → List ℕ → Io (Option ℕ)
  acpi_find_table xsdt sig = find_table_from (entry_count xsdt) xsdt 0 sig

  -- The entries of the MCFG table and their number.
  unfoldable pub acpi_parse_mcfg : ℕ → Io (Option (ℕ × ℕ))
  acpi_parse_mcfg hdr =
      if checksum hdr (table_length hdr)
      then return (some (hdr + 48, u32 (sub64 (table_length hdr) 48 / 16)))
      else (print (codes "ACPI: MCFG checksum failed\n") >> return none)
