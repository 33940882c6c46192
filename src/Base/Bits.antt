-- ===== src/Base/Bits.antt =====
-- `&` and `|` at variables. The native operations stand for a recursion on binary digits; one
-- equation for the lowest digit gives masks and fields at every width.
use Prim.Native.Nat.{ℕ, zero, suc, ◌+◌, ◌-◌, ◌*◌, ◌/◌, ◌%◌, ◌^◌, ◌≤◌, ◌<◌, min, max}
use Prim.Native.Nat.{bit_and, bit_or, digits, bit_and-bitwise, bit_or-bitwise}
use mathlib.Core.Path.{◌≡◌, refl, ap}
use native.Mathlib.Nat.{pow-suc, one-le-pow, mod-lt}
use native.Mathlib.Omega.{arith}

-- Fuel above the first number is never used up.
module _ (last : ℕ → ℕ) (digit : ℕ → ℕ → ℕ) where
  fuel_irrelevant :
      (f g a b : ℕ) → a ≤ f → a ≤ g → digits last digit f a b ≡ digits last digit g a b
  fuel_irrelevant zero zero a b p q = refl
  fuel_irrelevant (suc f) (suc g) zero b p q = refl
  fuel_irrelevant (suc f) (suc g) (suc a) b p q =
      rw (fuel_irrelevant f g (suc a / 2) (b / 2) (omega arith) (omega arith))
  fuel_irrelevant zero (suc g) zero b p q = refl
  fuel_irrelevant (suc f) zero zero b p q = refl
  fuel_irrelevant zero (suc g) (suc a) b p q = absurd (omega arith)
  fuel_irrelevant (suc f) zero (suc a) b p q = absurd (omega arith)

pub and_digit : (a b : ℕ) → bit_and a b ≡ bit_and (a / 2) (b / 2) * 2 + min (a % 2) (b % 2)
and_digit zero b = omega (arith, bit_and-bitwise 0 b, bit_and-bitwise 0 (b / 2))
and_digit (suc a) b = omega (
  arith,
  bit_and-bitwise (suc a) b,
  bit_and-bitwise (suc a / 2) (b / 2),
  fuel_irrelevant (λ y. zero) min a (suc a / 2) (suc a / 2) (b / 2) (omega arith) (omega arith),
)

pub or_digit : (a b : ℕ) → bit_or a b ≡ bit_or (a / 2) (b / 2) * 2 + max (a % 2) (b % 2)
or_digit zero b = omega (arith, bit_or-bitwise 0 b, bit_or-bitwise 0 (b / 2))
or_digit (suc a) b = omega (
  arith,
  bit_or-bitwise (suc a) b,
  bit_or-bitwise (suc a / 2) (b / 2),
  fuel_irrelevant (λ y. y) max a (suc a / 2) (suc a / 2) (b / 2) (omega arith) (omega arith),
)

and_zero_fuel : (f a : ℕ) → a ≤ f → bit_and a 0 ≡ 0
and_zero_fuel f zero h = refl
and_zero_fuel zero (suc a) h = absurd (omega arith)
and_zero_fuel (suc f) (suc a) h =
    omega (arith, and_digit (suc a) 0, and_zero_fuel f (suc a / 2) (omega arith))

pub and-zero : (a : ℕ) → bit_and a 0 ≡ 0
and-zero a = and_zero_fuel a a (omega arith)

or_zero_fuel : (f a : ℕ) → a ≤ f → bit_or a 0 ≡ a
or_zero_fuel f zero h = refl
or_zero_fuel zero (suc a) h = absurd (omega arith)
or_zero_fuel (suc f) (suc a) h =
    omega (arith, or_digit (suc a) 0, or_zero_fuel f (suc a / 2) (omega arith))

pub or-zero : (a : ℕ) → bit_or a 0 ≡ a
or-zero a = or_zero_fuel a a (omega arith)

pub zero-and : (b : ℕ) → bit_and 0 b ≡ 0
zero-and b = bit_and-bitwise 0 b

pub zero-or : (b : ℕ) → bit_or 0 b ≡ b
zero-or b = bit_or-bitwise 0 b

twice_pow : (q k : ℕ) → q * 2 ^ suc k ≡ 2 * (q * 2 ^ k)
twice_pow q k = omega (arith, ap (λ (t : ℕ). q * t) (pow-suc 2 k))

-- `&` works on the fields above and below bit `k` apart.
pub and_split :
    (k h l m n : ℕ)
    → l < 2 ^ k
    → n < 2 ^ k
    → bit_and (h * 2 ^ k + l) (m * 2 ^ k + n) ≡ bit_and h m * 2 ^ k + bit_and l n
and_split zero h l m n p q = ground (arith, zero-and 0)
and_split (suc k) h l m n p q = ground (
  arith,
  pow-suc 2 k,
  twice_pow h k,
  twice_pow m k,
  twice_pow (bit_and h m) k,
  and_digit (h * 2 ^ suc k + l) (m * 2 ^ suc k + n),
  and_digit l n,
  and_split k h (l / 2) m (n / 2) (omega arith) (omega arith),
)

-- `|` works on the fields above and below bit `k` apart.
pub or_split :
    (k h l m n : ℕ)
    → l < 2 ^ k
    → n < 2 ^ k
    → bit_or (h * 2 ^ k + l) (m * 2 ^ k + n) ≡ bit_or h m * 2 ^ k + bit_or l n
or_split zero h l m n p q = ground (arith, zero-or 0)
or_split (suc k) h l m n p q = ground (
  arith,
  pow-suc 2 k,
  twice_pow h k,
  twice_pow m k,
  twice_pow (bit_or h m) k,
  or_digit (h * 2 ^ suc k + l) (m * 2 ^ suc k + n),
  or_digit l n,
  or_split k h (l / 2) m (n / 2) (omega arith) (omega arith),
)

and_ones : (k r : ℕ) → r < 2 ^ k → bit_and r (2 ^ k - 1) ≡ r
and_ones zero r h = omega (arith, and-zero r)
and_ones (suc k) r h = ground (
  arith,
  pow-suc 2 k,
  one-le-pow k 2,
  and_digit r (2 ^ suc k - 1),
  and_ones k (r / 2) (omega (arith, pow-suc 2 k)),
)

-- `x & (2 ^ k - 1)` keeps the low `k` bits.
pub and_low : (k a : ℕ) → bit_and a (2 ^ k - 1) ≡ a % 2 ^ k
and_low k a = ground (
  arith,
  one-le-pow k 2,
  and_split k (a / 2 ^ k) (a % 2 ^ k) 0 (2 ^ k - 1) (mod-lt _ (omega (arith, one-le-pow k 2))),
  and-zero (a / 2 ^ k),
  and_ones k (a % 2 ^ k),
)

-- `(q << k) | r` is a sum when `r` fits `k` bits.
pub or_fields : (k q r : ℕ) → r < 2 ^ k → bit_or (q * 2 ^ k) r ≡ q * 2 ^ k + r
or_fields k q r h = ground (arith, or_split k q 0 0 r (omega arith) h, or-zero q, zero-or r)
