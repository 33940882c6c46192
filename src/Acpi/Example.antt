-- ===== src/Acpi/Example.antt =====
-- Tables as a firmware leaves them, for the tests: an MADT at address 16 with a local APIC, an I/O APIC
-- and an override of the timer's interrupt, an XSDT and an MCFG after it, the root pointer, and the
-- configuration space of functions that are all NVMe controllers.
use os_kernel_and_bootloader.Base.{
  ℕ, ◌-◌, ◌%◌, List, [], ◌∷◌, ◌++◌, ltb, if◌then◌else◌, codes, get_or, length, drop, stretch, ap,
  replicate, ◌≡◌, refl, true, ◌+◌, arith,
}
use os_kernel_and_bootloader.Acpi.{checksum, sum_from, table_length}
use os_kernel_and_bootloader.Acpi.Decode.{IsMadt}
use os_kernel_and_bootloader.Acpi.Entries.{Holds, Entry, ioapic, override, other, encode, word}

abbrev pub entries : List Entry
entries = other 0 (0 ∷ 0 ∷ 1 ∷ 0 ∷ 0 ∷ 0 ∷ []) ∷ ioapic 2 0 0xFEC0_0000 0 ∷ override 0 0 2 5 ∷ []

abbrev pub encode_all : List Entry → List ℕ
encode_all [] = []
encode_all (e ∷ es) = encode e ++ encode_all es

-- The checksum is the tenth byte.
abbrev madt : List ℕ
madt =
    codes "APIC"
    ++ (word 74
        ++ (3 ∷ 206 ∷ (replicate 26 0 ++ (word 0xFEE0_0000 ++ (word 1 ++ encode_all entries)))))

abbrev xsdt : List ℕ
xsdt =
    codes "XSDT" ++ (word 52 ++ (replicate 32 0 ++ (word 16 ++ (word 0 ++ (word 146 ++ word 0)))))

-- The configuration space is at 0x100000.
abbrev mcfg : List ℕ
mcfg =
    codes "MCFG"
    ++ (word 64 ++ (0 ∷ 147 ∷ (replicate 38 0 ++ (word 0x10_0000 ++ word 0 ++ word 0 ++ word 0))))

abbrev rsdp : List ℕ
rsdp =
    codes "RSD PTR "
    ++ (223 ∷ (replicate 6 0 ++ (2 ∷ (word 0 ++ (word 36 ++ (word 90 ++ word 0))))))

abbrev pub example_memory : ℕ → ℕ
example_memory a =
    if ltb a 0xE0000
    then get_or (replicate 16 0 ++ (madt ++ (xsdt ++ mcfg))) a 0
    else if ltb a 0x10_0000
    then get_or rsdp (a - 0xE0000) 0
    else get_or (replicate 9 16 ++ 2 ∷ 8 ∷ 1 ∷ []) (a % 4096) 16

good_checksum : checksum example_memory 16 (table_length example_memory 16) ≡ true
unfolding checksum sum_from
good_checksum = refl

Holds-stretch :
    (mem : ℕ → ℕ) (a : ℕ) (bytes : List ℕ)
    → stretch mem a (length bytes) ≡ bytes
    → Holds mem a bytes
unfolding stretch
Holds-stretch mem a [] e = tt
Holds-stretch mem a (b ∷ bytes) e =
    (ap (λ l. get_or l 0 0) e, Holds-stretch mem (a + 1) bytes (ap (drop 1) e))

stored :
    (e : Entry) (a : ℕ)
    → stretch example_memory a (length (encode e)) ≡ encode e
    → Holds example_memory a (encode e)
stored e a same = Holds-stretch example_memory a (encode e) same

pub example_memory-IsMadt : IsMadt example_memory 16 entries
unfolding stretch
example_memory-IsMadt =
    let lapic = stored (other 0 (0 ∷ 0 ∷ 1 ∷ 0 ∷ 0 ∷ 0 ∷ [])) 60 refl in
    let io = stored (ioapic 2 0 0xFEC0_0000 0) 68 refl in
    let timer = stored (override 0 0 2 5) 80 refl in
    (
      good_checksum,
      (
        refl,
        (
          (λ e. absurd (omega (arith, e)), λ e. absurd (omega (arith, e))),
          (lapic, ((omega arith, omega arith), (io, ((omega arith, omega arith), (timer, tt))))),
        ),
      ),
    )
