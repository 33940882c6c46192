-- ===== src/Base/First.antt =====
-- The first number with a property in a range, for the searches of the program.
use os_kernel_and_bootloader.Base.Tests.{if◌then◌else◌}
use Prim.Native.Nat.{ℕ, zero, suc, ◌+◌}
use mathlib.Core.Path.{◌≡◌, ap₂}
use mathlib.Core.Option.{Option, none, some}
use mathlib.Core.Bool.{Bool}
use native.Mathlib.Omega.{arith}

-- Of the numbers `k`, `k + 1`, … `k + n - 1`.
unfoldable pub first_from : ℕ → ℕ → (ℕ → Bool) → Option ℕ
first_from zero k test = none
first_from (suc n) k test = let rest = first_from n (k + 1) test in if test k then some k else rest

abbrev pub or_later : Option ℕ → Option ℕ → Option ℕ
or_later none later = later
or_later (some k) later = some k

pub first_from_add :
    (m n k end : ℕ) (test : ℕ → Bool)
    → end ≡ k + m
    → first_from (m + n) k test ≡ or_later (first_from m k test) (first_from n end test)
unfolding first_from
first_from_add zero n k end test e =
    let n_eq : 0 + n ≡ n = omega arith in
    let k_eq : k ≡ end = omega arith in ap₂ (λ i j. first_from i j test) n_eq k_eq
first_from_add (suc m) n k end test e =
    let sum_eq : suc m + n ≡ suc (m + n) = omega arith in
    rw sum_eq (ground (arith, first_from_add m n (k + 1) end test))
