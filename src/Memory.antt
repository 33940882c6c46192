-- ===== src/Memory.antt =====
-- kernel/string.c: the memory and string functions, over lists of bytes. A function that stores
-- through its pointer returns the buffer's new contents.
pub mod Laws
mod Tests
use os_kernel_and_bootloader.Base.{
  ℕ, zero, suc, ◌+◌, ◌-◌, List, [], ◌∷◌, Bool, true, false, ltb, ◌==◌, if◌then◌else◌, set, drop,
  le8, u8,
}

-- C's `int`.
pub data ℤ : Type 0 where
  pos : ℕ → ℤ
  negsuc : ℕ → ℤ

abbrev pub difference : ℕ → ℕ → ℤ
difference a b = if ltb a b then negsuc (b - a - 1) else pos (a - b)

-- The loops carry the offset of `d`, `s`.
unfoldable pub memcpy_from : ℕ → ℕ → List ℕ → List ℕ → List ℕ
memcpy_from zero i dst src = dst
memcpy_from (suc n) i dst src = memcpy_from n (i + 1) (set dst i (le8 src i)) src

unfoldable pub memcpy : List ℕ → List ℕ → ℕ → List ℕ
memcpy dst src n = memcpy_from n 0 dst src

unfoldable pub memset_from : ℕ → ℕ → List ℕ → ℕ → List ℕ
memset_from zero i dst value = dst
memset_from (suc n) i dst value = memset_from n (i + 1) (set dst i (u8 value)) value

unfoldable pub memset : List ℕ → ℕ → ℕ → List ℕ
memset dst value n = memset_from n 0 dst value

-- The end of the list counts as the zero byte.
unfoldable pub strlen : List ℕ → ℕ
strlen [] = 0
strlen (c ∷ cs) = if c == 0 then 0 else suc (strlen cs)

unfoldable pub memcmp : List ℕ → List ℕ → ℕ → ℤ
memcmp a b zero = pos 0
memcmp a b (suc n) =
    let rest = memcmp (drop 1 a) (drop 1 b) n in
    if le8 a 0 == le8 b 0 then rest else difference (le8 a 0) (le8 b 0)

-- The tests `memcmp(a, b, n) == 0`.
abbrev pub is_zero : ℤ → Bool
is_zero (pos n) = n == 0
is_zero (negsuc n) = false
