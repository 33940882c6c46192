-- ===== src/Acpi/Entries.antt =====
-- The structures of a MADT, as the ACPI specification describes them, and how `acpi_parse_madt` takes
-- one of them.
use os_kernel_and_bootloader.Base.{
  ℕ, zero, suc, ◌+◌, ◌/◌, ◌%◌, ◌^◌, ◌<◌, ◌≡◌, ◌≢◌, refl, ap, List, [], ◌∷◌, ◌++◌, arith, length,
  take, drop, m16, m32,
}
use mathlib.Core.Path.{subst}
use os_kernel_and_bootloader.Acpi.Madt.{Override, MadtInfo, add_override, take_entry}

-- An I/O APIC, an interrupt source override, or a structure of another type.
pub data Entry : Type 0 where
  ioapic : (id reserved addr gsi_base : ℕ) → Entry
  override : (bus irq_source gsi flags : ℕ) → Entry
  other : (type : ℕ) (payload : List ℕ) → Entry

abbrev pub word : ℕ → List ℕ
word n = n % 256 ∷ n / 256 % 256 ∷ n / 2 ^ 16 % 256 ∷ n / 2 ^ 24 % 256 ∷ []

abbrev pub size : Entry → ℕ
size (ioapic id reserved addr gsi_base) = 12
size (override bus irq_source gsi flags) = 10
size (other type payload) = 2 + length payload

-- The bytes of a structure: its type, its length and its fields.
abbrev pub encode : Entry → List ℕ
encode (ioapic id reserved addr gsi_base) = 1 ∷ 12 ∷ id ∷ reserved ∷ word addr ++ word gsi_base
encode (override bus irq_source gsi flags) =
    2 ∷ 10 ∷ bus ∷ irq_source ∷ word gsi ++ flags % 256 ∷ flags / 256 % 256 ∷ []
encode (other type payload) = type ∷ (2 + length payload) ∷ payload

abbrev pub IsEntry : Entry → Type 0
IsEntry (ioapic id reserved addr gsi_base) = (addr < 2 ^ 32) × (gsi_base < 2 ^ 32)
IsEntry (override bus irq_source gsi flags) = (gsi < 2 ^ 32) × (flags < 2 ^ 16)
IsEntry (other type payload) = (type ≢ 1) × (type ≢ 2)

-- Memory holds the bytes from an address on.
abbrev pub Holds : (ℕ → ℕ) → ℕ → List ℕ → Type 0
Holds mem a [] = Unit {0}
Holds mem a (b ∷ bs) = (mem a ≡ b) × Holds mem (a + 1) bs

-- Memory holds well-formed structures one after the other from an address on.
abbrev pub HoldsAll : (ℕ → ℕ) → ℕ → List Entry → Type 0
HoldsAll mem a [] = Unit {0}
HoldsAll mem a (e ∷ es) = IsEntry e × (Holds mem a (encode e) × HoldsAll mem (a + size e) es)

abbrev pub sizes : List Entry → ℕ
sizes [] = 0
sizes (e ∷ es) = size e + sizes es

-- The meaning of a table: the last I/O APIC and the overrides in order.
abbrev pub last_ioapic : List Entry → ℕ × ℕ → ℕ × ℕ
last_ioapic [] last = last
last_ioapic (ioapic id reserved addr gsi_base ∷ es) last = last_ioapic es (addr, gsi_base)
last_ioapic (override bus irq_source gsi flags ∷ es) last = last_ioapic es last
last_ioapic (other type payload ∷ es) last = last_ioapic es last

abbrev pub overrides_of : List Entry → List Override
overrides_of [] = []
overrides_of (ioapic id reserved addr gsi_base ∷ es) = overrides_of es
overrides_of (override bus irq_source gsi flags ∷ es) =
    (record { irq_source = irq_source; gsi = gsi; flags = flags }) ∷ overrides_of es
overrides_of (other type payload ∷ es) = overrides_of es

abbrev pub apply : Entry → MadtInfo → MadtInfo
apply (ioapic id reserved addr gsi_base) info = record info {
  ioapic_addr = addr;
  ioapic_gsi_base = gsi_base;
}
apply (override bus irq_source gsi flags) info =
    add_override info (record { irq_source = irq_source; gsi = gsi; flags = flags })
apply (other type payload) info = info

module _ (mem : ℕ → ℕ) where
  Holds-drop : (k a : ℕ) (bytes : List ℕ) → Holds mem a bytes → Holds mem (a + k) (drop k bytes)
  Holds-drop zero a bytes h =
      let same : a ≡ a + 0 = omega arith in subst (λ x. Holds mem x bytes) same h
  Holds-drop (suc k) a [] h = tt
  Holds-drop (suc k) a (b ∷ bytes) h =
      let same : a + 1 + k ≡ a + suc k = omega arith in
      subst (λ x. Holds mem x (drop k bytes)) same (Holds-drop k (a + 1) bytes h.1)

  Holds-take : (n a : ℕ) (bytes : List ℕ) → Holds mem a bytes → Holds mem a (take n bytes)
  Holds-take zero a bytes h = tt
  Holds-take (suc n) a [] h = tt
  Holds-take (suc n) a (b ∷ bytes) h = (h.0, Holds-take n (a + 1) bytes h.1)

  -- The bytes at an offset.
  part :
      (k n a : ℕ) (bytes : List ℕ) → Holds mem a bytes → Holds mem (a + k) (take n (drop k bytes))
  part k n a bytes h = Holds-take n (a + k) (drop k bytes) (Holds-drop k a bytes h)

  -- A field of four bytes reads back, and one of two.
  word_lem : (a n : ℕ) → n < 2 ^ 32 → Holds mem a (word n) → m32 mem a ≡ n
  word_lem a n h p =
      let third : mem (a + 2) ≡ mem (a + 1 + 1) = ap mem (omega arith) in
      let fourth : mem (a + 2 + 1) ≡ mem (a + 1 + 1 + 1) = ap mem (omega arith) in
      omega (arith, third, fourth)

  half_lem : (a n : ℕ) → n < 2 ^ 16 → Holds mem a (n % 256 ∷ n / 256 % 256 ∷ []) → m16 mem a ≡ n
  half_lem a n h p = omega arith

  pub take_entry-apply :
      (e : Entry) (a : ℕ) (info : MadtInfo)
      → IsEntry e
      → Holds mem a (encode e)
      → (take_entry mem a info ≡ apply e info) × (mem (a + 1) ≡ size e)
  unfolding take_entry
  take_entry-apply (ioapic id reserved addr gsi_base) a info v h =
      let bytes = encode (ioapic id reserved addr gsi_base) in
      let first = word_lem (a + 4) addr v.0 (part 4 4 a bytes h) in
      let second = word_lem (a + 8) gsi_base v.1 (part 8 4 a bytes h) in
      (rw (h.0, first, second) refl, h.1.0)
  take_entry-apply (override bus irq_source gsi flags) a info v h =
      let bytes = encode (override bus irq_source gsi flags) in
      let source = (part 3 1 a bytes h).0 in
      let number = word_lem (a + 4) gsi v.0 (part 4 4 a bytes h) in
      let bits = half_lem (a + 8) flags v.1 (part 8 2 a bytes h) in
      (rw (h.0, source, number, bits) refl, h.1.0)
  take_entry-apply (other type payload) a info v h = (ground (arith, v, h), h.1.0)
