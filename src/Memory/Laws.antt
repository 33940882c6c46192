-- ===== src/Memory/Laws.antt =====
-- The loops of kernel/string.c against the list functions.
use os_kernel_and_bootloader.Base.{
  ℕ, zero, suc, ◌+◌, ◌≤◌, ◌<◌, ◌≡◌, ◌≢◌, ◌↔◌, refl, ap, ◌∙◌, List, [], ◌∷◌, ◌++◌, true, arith,
  length, set, take, le8, u8, get_or, get_or-set, ltb, leb, ◌&&◌, if◌then◌else◌, length-set,
}
use os_kernel_and_bootloader.Memory.{
  memcpy_from, memcpy, memset_from, memset, strlen, memcmp, is_zero,
}

-- `memcmp` tells apart exactly the buffers whose first `n` bytes differ.
pub memcmp_lem :
    (n : ℕ) (a b : List ℕ)
    → n ≤ length a
    → n ≤ length b
    → (is_zero (memcmp a b n) ≡ true) ↔ (take n a ≡ take n b)
unfolding memcmp
memcmp_lem zero a b h k = ground arith
memcmp_lem (suc n) [] b h k = absurd (omega arith)
memcmp_lem (suc n) (x ∷ a) [] h k = absurd (omega arith)
memcmp_lem (suc n) (x ∷ a) (y ∷ b) h k = ground (arith, memcmp_lem n a b)

-- The length of a C string is the number of characters before its zero.
pub strlen-append :
    (s rest : List ℕ)
    → ((i : ℕ) → i < length s → get_or s i 0 ≢ 0)
    → strlen (s ++ 0 ∷ rest) ≡ length s
unfolding strlen
strlen-append [] rest h = refl
strlen-append (c ∷ s) rest h =
    ground (arith, h 0, strlen-append s rest (λ i p. h (suc i) (omega arith)))

module _ (j : ℕ) where
  loop_step :
      (i n v w : ℕ) (dst : List ℕ)
      → (i ≡ j → v ≡ w)
      → i + suc n ≤ length dst
      → (if leb (i + 1) j && ltb j (i + 1 + n) then w else le8 (set dst i v) j)
        ≡ (if leb i j && ltb j (i + suc n) then w else le8 dst j)
  loop_step i n v w dst same h = ground (arith, get_or-set dst i j v 0)

  memcpy_from_lem :
      (n i : ℕ) (dst src : List ℕ)
      → i + n ≤ length dst
      → (length (memcpy_from n i dst src) ≡ length dst)
        × (le8 (memcpy_from n i dst src) j
            ≡ (if leb i j && ltb j (i + n) then le8 src j else le8 dst j))
  unfolding memcpy_from
  memcpy_from_lem zero i dst src h = (refl, ground arith)
  memcpy_from_lem (suc n) i dst src h =
      let v = le8 src i in
      let (size, byte) =
        memcpy_from_lem n (i + 1) (set dst i v) src (omega (arith, length-set dst i v)) in
      (size ∙ length-set dst i v, byte ∙ loop_step i n v (le8 src j) dst (ap (le8 src)) h)

  memset_from_lem :
      (n i : ℕ) (dst : List ℕ) (value : ℕ)
      → i + n ≤ length dst
      → (length (memset_from n i dst value) ≡ length dst)
        × (le8 (memset_from n i dst value) j
            ≡ (if leb i j && ltb j (i + n) then u8 value else le8 dst j))
  unfolding memset_from
  memset_from_lem zero i dst value h = (refl, ground arith)
  memset_from_lem (suc n) i dst value h =
      let v = u8 value in
      let (size, byte) =
        memset_from_lem n (i + 1) (set dst i v) value (omega (arith, length-set dst i v)) in
      (size ∙ length-set dst i v, byte ∙ loop_step i n v v dst (λ _. refl) h)

-- `memcpy` between buffers that do not overlap stores the first `n` bytes of the source in the
-- destination, and leaves its other bytes and its length.
pub memcpy_lem :
    (n j : ℕ) (dst src : List ℕ)
    → n ≤ length dst
    → (length (memcpy dst src n) ≡ length dst)
      × (le8 (memcpy dst src n) j ≡ (if ltb j n then le8 src j else le8 dst j))
unfolding memcpy
memcpy_lem n j dst src h = ground (arith, memcpy_from_lem j n 0 dst src)

-- `memset` stores the low byte of the value in the first `n` bytes of the buffer, and leaves its
-- other bytes and its length.
pub memset_lem :
    (n j : ℕ) (dst : List ℕ) (value : ℕ)
    → n ≤ length dst
    → (length (memset dst value n) ≡ length dst)
      × (le8 (memset dst value n) j ≡ (if ltb j n then u8 value else le8 dst j))
unfolding memset
memset_lem n j dst value h = ground (arith, memset_from_lem j n 0 dst value)
