-- ===== src/Acpi/Search.antt =====
-- The searches for the root pointer and for a table.
use os_kernel_and_bootloader.Base.{
  ℕ, zero, suc, ◌+◌, ◌*◌, ◌^◌, ◌<◌, ◌≡◌, refl, ap, ap₂, m32, sym, ◌∙◌, List, Bool, ◌&&◌, Bool-cases,
  inl, inr, some, arith,
}
use mathlib.Core.Option
use os_kernel_and_bootloader.Base.First.{first_from}
use os_kernel_and_bootloader.Acpi.{
  checksum, bytes_are, is_rsdp, find_rsdp_from, acpi_find_rsdp, table_length, entry_count, entry_at,
  bad_checksum, find_table_from, acpi_find_table,
}

zero_plus : (n : ℕ) → 0 + n ≡ n
zero_plus n = omega arith

-- Searches with tests and results that agree in their range.
found_equal :
    {A : Type 0} (n k : ℕ) (f g : ℕ → Bool) (u v : ℕ → A)
    → ((j : ℕ) → j < k + n → f j ≡ g j)
    → ((j : ℕ) → j < k + n → u j ≡ v j)
    → Option.map u (first_from n k f) ≡ Option.map v (first_from n k g)
unfolding first_from
found_equal zero k f g u v p q = refl
found_equal (suc n) k f g u v p q =
    let rest =
      found_equal n (k + 1) f g u v (λ j h. p j (omega (arith, h)))
        (λ j h. q j (omega (arith, h))) in
    let same = p k (omega arith) in
    elim (Bool-cases (g k)) [
      | inl here ↦ rw (same, here) (ap some (q k (omega arith)))
      | inr later ↦ rw (same, later) rest
    ]

module _ (mem : ℕ → ℕ) where
  -- The table that an entry of the XSDT points to has the signature and a good checksum.
  abbrev pub is_table : ℕ → List ℕ → ℕ → Bool
  is_table xsdt sig i =
      let hdr = entry_at mem xsdt i in
      bytes_are mem hdr 4 sig && checksum mem hdr (table_length mem hdr)

  find_table_from_lem :
      (n xsdt i : ℕ) (sig : List ℕ)
      → (find_table_from mem n xsdt i sig).0
        ≡ some (Option.map (entry_at mem xsdt) (first_from n i (is_table xsdt sig)))
  unfolding find_table_from first_from bad_checksum
  find_table_from_lem zero xsdt i sig = refl
  find_table_from_lem (suc n) xsdt i sig =
      let hdr = entry_at mem xsdt i in
      let rest = find_table_from_lem n xsdt (i + 1) sig in
      elim (Bool-cases (bytes_are mem hdr 4 sig)) [
        | inr other ↦ rw other rest
        | inl same ↦ elim (Bool-cases (checksum mem hdr (table_length mem hdr))) [
          | inl good ↦ rw (same, good) refl
          | inr bad ↦ rw (same, bad) rest
        ]
      ]

  -- `acpi_find_table` always returns. It finds the first table among the XSDT's entries that has the
  -- signature and a good checksum: a table with a bad one is passed over.
  pub acpi_find_table_lem :
      (xsdt : ℕ) (sig : List ℕ)
      → (acpi_find_table mem xsdt sig).0
        ≡ some (
            Option.map
              (entry_at mem xsdt)
              (first_from (entry_count mem xsdt) 0 (is_table xsdt sig)))
  unfolding acpi_find_table
  acpi_find_table_lem xsdt sig = find_table_from_lem (entry_count mem xsdt) xsdt 0 sig

  -- What the code takes for the address with number `i` of a table as the specification has it: the low
  -- half of the next address, 32 bits to the left.
  abbrev pub shifted : ℕ → ℕ → ℕ
  shifted xsdt i = 2 ^ 32 * m32 mem (xsdt + 36 + 8 * (i + 1))

  abbrev pub is_table_at : List ℕ → ℕ → Bool
  is_table_at sig hdr = bytes_are mem hdr 4 sig && checksum mem hdr (table_length mem hdr)

  entry_at-shifted :
      (xsdt i : ℕ) → m32 mem (xsdt + 36 + 8 * i + 4) ≡ 0 → entry_at mem xsdt i ≡ shifted xsdt i
  entry_at-shifted xsdt i below =
      let low_place : xsdt + 40 + 8 * i ≡ xsdt + 36 + 8 * i + 4 = omega arith in
      let high_place : xsdt + 40 + 8 * i + 4 ≡ xsdt + 36 + 8 * (i + 1) = omega arith in
      ap₂ (λ l h. l + 2 ^ 32 * h) (ap (m32 mem) low_place ∙ below) (ap (m32 mem) high_place)
      ∙ zero_plus (shifted xsdt i)

  -- `acpi_find_table` on an XSDT as the specification has it, with `n` addresses of 64 bits from byte 36 on, all
  -- below 4 GiB. The code looks at 2^32 times the low half of the next address in place of each address, behind
  -- the table in place of the last, and finds the first of those places with the signature and a good
  -- checksum: never a table that lies below 4 GiB, if not at address 0.
  pub acpi_find_table-shifted :
      (xsdt n : ℕ) (sig : List ℕ)
      → table_length mem xsdt ≡ 36 + 8 * n
      → n < 2 ^ 29
      → ((i : ℕ) → i < n → m32 mem (xsdt + 36 + 8 * i + 4) ≡ 0)
      → (acpi_find_table mem xsdt sig).0
        ≡ some (Option.map (shifted xsdt) (first_from n 0 (λ i. is_table_at sig (shifted xsdt i))))
  unfolding entry_count
  acpi_find_table-shifted xsdt n sig size small below =
      let count : entry_count mem xsdt ≡ n = ground (arith, size, small) in
      acpi_find_table_lem xsdt sig
      ∙ ap some (
          ap (λ m. Option.map (entry_at mem xsdt) (first_from m 0 (is_table xsdt sig))) count
          ∙ found_equal n 0 (is_table xsdt sig) (λ i. is_table_at sig (shifted xsdt i))
              (entry_at mem xsdt) (shifted xsdt)
              (λ j k. ap (is_table_at sig) (entry_at-shifted xsdt j (below j (omega (arith, k)))))
              (λ j k. entry_at-shifted xsdt j (below j (omega (arith, k)))))

  -- The places that the search looks at.
  abbrev pub bios_area : ℕ → ℕ
  bios_area k = 0xE0000 + 16 * k

  find_rsdp_from_lem :
      (n k addr : ℕ)
      → addr ≡ bios_area k
      → find_rsdp_from mem n addr
        ≡ Option.map bios_area (first_from n k (λ k. is_rsdp mem (bios_area k)))
  unfolding find_rsdp_from first_from
  find_rsdp_from_lem zero k addr e = refl
  find_rsdp_from_lem (suc n) k addr e =
      let rest = find_rsdp_from_lem n (k + 1) (addr + 16) (omega arith) in
      elim (Bool-cases (is_rsdp mem (bios_area k))) [
        | inl found ↦ rw (e, found) refl
        | inr other ↦ rw (e, other) (ap (find_rsdp_from mem n) (omega (arith, sym e)) ∙ rest)
      ]

  -- `acpi_find_rsdp` finds the first of the 8192 places, 16 bytes apart, that has the signature and
  -- a good checksum of the first 20 bytes.
  pub acpi_find_rsdp_lem :
      acpi_find_rsdp mem
      ≡ Option.map bios_area (first_from 0x2000 0 (λ k. is_rsdp mem (bios_area k)))
  unfolding acpi_find_rsdp
  acpi_find_rsdp_lem = find_rsdp_from_lem 0x2000 0 0xE0000 refl
