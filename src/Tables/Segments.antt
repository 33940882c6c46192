-- ===== src/Tables/Segments.antt =====
-- The processor's reading of the descriptors in the GDT.
use os_kernel_and_bootloader.Base.{
  ℕ, ◌+◌, ◌*◌, ◌/◌, ◌%◌, ◌^◌, ◌<◌, ◌≡◌, refl, ap, ap₂, ◌∙◌, arith, get_or, u32, bit_and, bit_or,
}
use os_kernel_and_bootloader.Base.Bits.{and_low, and_split, or_split, and-zero, zero-or, or-zero}
use os_kernel_and_bootloader.Tables.{GdtEntry, gdt_entry, tss_low, tss_high, zero_entry, gdt_init}

pub segment_base : GdtEntry → ℕ
segment_base e = e.base_low + e.base_mid * 2 ^ 16 + e.base_high * 2 ^ 24

pub segment_limit : GdtEntry → ℕ
segment_limit e = e.limit_low + e.granularity % 16 * 2 ^ 16

-- The base of a system segment in two entries.
pub system_base : GdtEntry → GdtEntry → ℕ
system_base low high = segment_base low + (high.limit_low + high.base_low * 2 ^ 16) * 2 ^ 32

high_digit : (n : ℕ) → bit_and n 0xF0 ≡ n / 16 % 16 * 16
high_digit n =
    let whole : n ≡ n / 16 * 2 ^ 4 + n % 16 = omega arith in
    ap (λ k. bit_and k 0xF0) whole
    ∙ and_split 4 (n / 16) (n % 16) 15 0 (omega arith) (omega arith)
    ∙ omega (arith, and_low 4 (n / 16), and-zero (n % 16))

join_digits : (q r : ℕ) → r < 16 → bit_or r (q * 16) ≡ q * 16 + r
join_digits q r h =
    let left : r ≡ 0 * 2 ^ 4 + r = omega arith in
    let right : q * 16 ≡ q * 2 ^ 4 + 0 = omega arith in
    ap₂ bit_or left right ∙ or_split 4 0 r q 0 h (omega arith) ∙ omega (arith, zero-or q, or-zero r)

granularity_lem :
    (limit gran : ℕ)
    → bit_or (bit_and (limit / 2 ^ 16) 0x0F) (bit_and gran 0xF0)
      ≡ gran / 16 % 16 * 16 + limit / 2 ^ 16 % 16
granularity_lem limit gran =
    ap₂ bit_or (and_low 4 (limit / 2 ^ 16)) (high_digit gran)
    ∙ join_digits (gran / 16 % 16) (limit / 2 ^ 16 % 16) (omega arith)

-- An entry that `gdt_set_entry` stores has the base, the limit and the upper four flags that it
-- was given, in the places where the processor looks for them.
pub gdt_entry_lem :
    (base limit access gran : ℕ)
    → base < 2 ^ 32
    → limit < 2 ^ 20
    → gran < 2 ^ 8
    → let e = gdt_entry base limit access gran in
      (segment_base e ≡ base)
      × ((segment_limit e ≡ limit) × ((e.granularity / 16 ≡ gran / 16) × (e.access ≡ access)))
unfolding gdt_entry segment_base segment_limit
gdt_entry_lem base limit access gran h k g = (
  omega (arith, and_low 16 base, and_low 8 (base / 2 ^ 16), and_low 8 (base / 2 ^ 24)),
  (
    omega (arith, and_low 16 limit, granularity_lem limit gran),
    (omega (arith, granularity_lem limit gran), refl),
  ),
)

-- In the table that `gdt_init` loads, the descriptor of the task state segment, at selector
-- 5 * 8, has the address of the segment.
pub gdt_init-tss :
    (tss_addr : ℕ)
    → tss_addr < 2 ^ 64
    → let gdt = gdt_init tss_addr in
      system_base (get_or gdt 5 zero_entry) (get_or gdt 6 zero_entry) ≡ tss_addr
unfolding gdt_init tss_low tss_high segment_base system_base
gdt_init-tss tss_addr h =
    let low : u32 (tss_addr / 2 ^ 32) ≡ tss_addr / 2 ^ 32 = omega arith in
    omega (
      arith,
      low,
      and_low 16 tss_addr,
      and_low 8 (tss_addr / 2 ^ 16),
      and_low 8 (tss_addr / 2 ^ 24),
      and_low 16 (u32 (tss_addr / 2 ^ 32)),
    )
