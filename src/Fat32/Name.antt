-- ===== src/Fat32/Name.antt =====
-- `fat32_names_equal_8_3`: a directory entry's eleven characters against the C string of a name.
use os_kernel_and_bootloader.Base.{
  ℕ, zero, suc, ◌≡◌, ◌≢◌, ◌⊎◌, inl, inr, refl, List, [], ◌∷◌, ◌++◌, Bool, true, false, ◌&&◌, ◌||◌,
  ◌==◌, Bool-cases, if◌then◌else◌, arith, get_or, drop,
}

-- The loops that copy up to `n` characters, and stop at a space.
unfoldable pub until_space : ℕ → List ℕ → List ℕ
until_space zero chars = []
until_space (suc n) [] = []
until_space (suc n) (c ∷ cs) = if c == b' ' then [] else c ∷ until_space n cs

-- `temp`, without the zero that ends it.
unfoldable pub name_8_3 : List ℕ → List ℕ
name_8_3 chars =
    until_space 8 chars
    ++ (if get_or chars 8 0 == b' ' then [] else b'.' ∷ until_space 3 (drop 8 chars))

-- The comparison of two C strings; the end of a list is the zero byte.
unfoldable pub strings_equal : List ℕ → List ℕ → Bool
strings_equal [] [] = true
strings_equal [] (t ∷ ts) = t == 0
strings_equal (s ∷ ss) [] = s == 0
strings_equal (s ∷ ss) (t ∷ ts) =
    let rest = strings_equal ss ts in
    if s == 0 || t == 0 then s == 0 && t == 0 else if s == t then rest else false

unfoldable pub names_equal_8_3 : List ℕ → List ℕ → Bool
names_equal_8_3 chars name = strings_equal name (name_8_3 chars)

-- A string without zeros, and one without spaces.
abbrev pub All : (ℕ → Type 0) → List ℕ → Type 0
All P [] = Unit {0}
All P (c ∷ cs) = P c × All P cs

abbrev pub IsNot : ℕ → ℕ → Type 0
IsNot a c = c ≢ a

abbrev pub Has : ℕ → List ℕ → Type 0
Has a [] = ⊥
Has a (c ∷ cs) = (c ≡ a) ⊎ Has a cs

until_space-All : (n : ℕ) (cs : List ℕ) → All (IsNot b' ') (until_space n cs)
unfolding until_space
until_space-All zero cs = tt
until_space-All (suc n) [] = tt
until_space-All (suc n) (c ∷ cs) = ground (arith, until_space-All n cs)

append-All : (P : ℕ → Type 0) (xs ys : List ℕ) → All P xs → All P ys → All P (xs ++ ys)
append-All P [] ys p q = q
append-All P (x ∷ xs) ys p q = (p.0, append-All P xs ys p.1 q)

name_8_3-All : (chars : List ℕ) → All (IsNot b' ') (name_8_3 chars)
unfolding name_8_3
name_8_3-All chars =
    append-All (IsNot b' ') (until_space 8 chars) _ (until_space-All 8 chars)
      (extension (get_or chars 8 0 == b' '))
  where
    extension :
        (b : Bool) → All (IsNot b' ') (if b then [] else b'.' ∷ until_space 3 (drop 8 chars))
    extension true = tt
    extension false = (omega arith, until_space-All 3 (drop 8 chars))

strings_equal-space :
    (s t : List ℕ) → Has b' ' s → All (IsNot 0) s → All (IsNot b' ') t → strings_equal s t ≡ false
unfolding strings_equal
strings_equal-space [] t h p q = absurd h
strings_equal-space (c ∷ cs) [] h p q = ground (arith, p)
strings_equal-space (c ∷ cs) (d ∷ ds) (inl e) p q = ground (arith, p, q)
strings_equal-space (c ∷ cs) (d ∷ ds) (inr h) p q =
    ground (arith, p, q, strings_equal-space cs ds h p.1 q.1)

-- A name with a space, and without zeros, equals no directory entry's name.
pub names_equal_8_3-space :
    (chars name : List ℕ) → Has b' ' name → All (IsNot 0) name → names_equal_8_3 chars name ≡ false
unfolding names_equal_8_3
names_equal_8_3-space chars name h p =
    strings_equal-space name (name_8_3 chars) h p (name_8_3-All chars)

-- The comparison decides equality of strings without zeros.
pub strings_equal_iff_left :
    (s t : List ℕ) → All (IsNot 0) s → All (IsNot 0) t → strings_equal s t ≡ true → s ≡ t
unfolding strings_equal
strings_equal_iff_left [] [] p q e = refl
strings_equal_iff_left [] (d ∷ ds) p q e = ground (arith, q)
strings_equal_iff_left (c ∷ cs) [] p q e = ground (arith, p)
strings_equal_iff_left (c ∷ cs) (d ∷ ds) p q e = elim (Bool-cases (c == d)) [
  | inl same ↦ ground (arith, p, q, strings_equal_iff_left cs ds p.1 q.1)
  | inr other ↦ ground (arith, p, q)
]

strings_equal_self : (s : List ℕ) → All (IsNot 0) s → strings_equal s s ≡ true
unfolding strings_equal
strings_equal_self [] p = refl
strings_equal_self (c ∷ cs) p = ground (arith, p, strings_equal_self cs p.1)
