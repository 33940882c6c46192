-- ===== src/Vga/Hex.antt =====
-- `vga_print_hex` prints `0x` and the sixteen hexadecimal digits of the value, the highest first.
use os_kernel_and_bootloader.Base.{
  ℕ, zero, suc, ◌+◌, ◌-◌, ◌*◌, ◌/◌, ◌%◌, ◌^◌, ◌<◌, ◌≡◌, refl, ap, ◌∙◌, List, [], ◌∷◌, Option, none,
  some, Bool, true, false, get_or, every, every_holds, leb, ◌==◌, ◌&&◌, if◌then◌else◌, arith, codes,
}
use os_kernel_and_bootloader.Base.Bits.{and_low}
use os_kernel_and_bootloader.Base.Io.{hex_char, hex_tail, hex_text}
use native.Mathlib.Nat.{div-div-eq-div-mul, one-le-pow, pow-suc}

-- The reader of hexadecimal text, written without regard to the printer.
digit_value : ℕ → Option ℕ
digit_value c =
    if leb b'0' c && leb c b'9'
    then some (c - b'0')
    else if leb b'A' c && leb c b'F'
    then some (c - b'A' + 10)
    else none

read_digits : ℕ → List ℕ → Option ℕ
read_digits acc [] = some acc
read_digits acc (c ∷ cs) = elim (digit_value c) [
  | none ↦ none
  | some d ↦ read_digits (acc * 16 + d) cs
]

pub read_hex : List ℕ → Option ℕ
unfolding read_digits digit_value
read_hex [] = none
read_hex (c ∷ []) = none
read_hex (c ∷ d ∷ cs) = if c == b'0' && d == b'x' then read_digits 0 cs else none

reads_as : ℕ → ℕ → Bool
reads_as c d = elim (digit_value c) [ none ↦ false | some e ↦ e == d ]

reads_as_lem : (c d : ℕ) → reads_as c d ≡ true → digit_value c ≡ some d
unfolding reads_as
reads_as_lem c d h = ground arith

digit_table : every 16 (λ d. reads_as (get_or (codes "0123456789ABCDEF") d 0) d) ≡ true
unfolding every reads_as digit_value
digit_table = refl

-- Every digit prints as a character that reads back as that digit.
digit_round_trip : (v i : ℕ) → digit_value (hex_char v i) ≡ some (v / 2 ^ i % 16)
digit_round_trip v i =
    rw (and_low 4 (v / 2 ^ i))
      (reads_as_lem _ _ (every_holds 16 _ digit_table (v / 2 ^ i % 16) (omega arith)))

split_mod : (v p : ℕ) → 0 < p → v % (p * 16) ≡ v / p % 16 * p + v % p
split_mod v p h =
    let whole : v / p / 16 ≡ v / (p * 16) = div-div-eq-div-mul v p 16 in
    let parts : v / p ≡ 16 * (v / p / 16) + v / p % 16 = omega arith in
    omega (arith, whole, ap (λ (t : ℕ). t * p) parts, ap (λ (t : ℕ). t * p) whole)

pow_step : (n : ℕ) → 2 ^ (4 * suc n) ≡ 2 ^ (4 * n) * 16
pow_step n =
    let e : 4 * suc n ≡ suc (suc (suc (suc (4 * n)))) = omega arith in
    rw e (
      omega (
        arith,
        pow-suc 2 (suc (suc (suc (4 * n)))),
        pow-suc 2 (suc (suc (4 * n))),
        pow-suc 2 (suc (4 * n)),
        pow-suc 2 (4 * n),
      ))

read_digits-hex_tail :
    (n acc v : ℕ) → read_digits acc (hex_tail n v) ≡ some (acc * 2 ^ (4 * n) + v % 2 ^ (4 * n))
unfolding read_digits hex_tail
read_digits-hex_tail zero acc v = ap some (omega arith)
read_digits-hex_tail (suc n) acc v =
    rw (read_digits, digit_round_trip v (4 * n))
      (read_digits-hex_tail n (acc * 16 + v / 2 ^ (4 * n) % 16) v
        ∙ ap some (
            omega (
              arith,
              pow_step n,
              split_mod v (2 ^ (4 * n)) (one-le-pow (4 * n) 2 (omega arith)),
              ap (λ (t : ℕ). acc * t) (pow_step n),
              ap (λ (t : ℕ). v % t) (pow_step n),
            )))

-- The text of every 64-bit value reads back as that value.
pub read_hex-hex_text : (v : ℕ) → v < 2 ^ 64 → read_hex (hex_text v) ≡ some v
unfolding read_hex hex_text
read_hex-hex_text v h = read_digits-hex_tail 16 0 v ∙ ap some (omega arith)
