-- ===== src/Base/Bytes.antt =====
-- Byte buffers: little-endian fields, copies into a buffer, and stretches of an address space.
use Prim.Native.Nat.{ℕ, zero, suc, ◌+◌, ◌*◌, ◌<◌, ◌≤◌}
use mathlib.Core.Path.{◌≡◌, refl, ap, ap₂, ◌∙◌}
use mathlib.Core.List.{List, [], ◌∷◌, ◌++◌}
use native.Mathlib.Omega.{arith}
use os_kernel_and_bootloader.Base.Lists.{length, get_or, take, drop}

-- The fields of a packed structure, at a byte offset.
abbrev pub le8 : List ℕ → ℕ → ℕ
le8 b i = get_or b i 0

abbrev pub le16 : List ℕ → ℕ → ℕ
le16 b i = le8 b i + 0x100 * le8 b (i + 1)

abbrev pub le32 : List ℕ → ℕ → ℕ
le32 b i = le16 b i + 0x1_0000 * le16 b (i + 2)

abbrev pub le64 : List ℕ → ℕ → ℕ
le64 b i = le32 b i + 0x1_0000_0000 * le32 b (i + 4)

-- The fields of a structure in physical memory, whose bytes are a function of the address.
abbrev pub m16 : (ℕ → ℕ) → ℕ → ℕ
m16 mem a = mem a + 0x100 * mem (a + 1)

abbrev pub m32 : (ℕ → ℕ) → ℕ → ℕ
m32 mem a = m16 mem a + 0x1_0000 * m16 mem (a + 2)

abbrev pub m64 : (ℕ → ℕ) → ℕ → ℕ
m64 mem a = m32 mem a + 0x1_0000_0000 * m32 mem (a + 4)

-- The buffer after `memcpy(buffer, bytes, length)`, where the bytes fit.
unfoldable pub store : List ℕ → List ℕ → List ℕ
store buffer bytes = bytes ++ drop (length bytes) buffer

-- The bytes `[start, start + n)` of an address space, such as a disk.
unfoldable pub stretch : (ℕ → ℕ) → ℕ → ℕ → List ℕ
stretch content start zero = []
stretch content start (suc n) = content start ∷ stretch content (start + 1) n

module _ (content : ℕ → ℕ) where
  pub length-stretch : (start n : ℕ) → length (stretch content start n) ≡ n
  unfolding stretch
  length-stretch start zero = refl
  length-stretch start (suc n) = ap suc (length-stretch (start + 1) n)

  -- Adjacent stretches join.
  pub stretch-append :
      (start m n end : ℕ)
      → end ≡ start + m
      → stretch content start m ++ stretch content end n ≡ stretch content start (m + n)
  unfolding stretch
  stretch-append start zero n end e =
      let start_eq : end ≡ start = omega arith in
      let n_eq : n ≡ 0 + n = omega arith in ap₂ (stretch content) start_eq n_eq
  stretch-append start (suc m) n end e =
      let sum_eq : suc (m + n) ≡ suc m + n = omega arith in
      ap (λ l. content start ∷ l) (stretch-append (start + 1) m n end (omega arith))
      ∙ ap (stretch content start) sum_eq

  -- A part of a stretch is a stretch.
  pub take-drop-stretch :
      (start n skip count : ℕ)
      → skip + count ≤ n
      → take count (drop skip (stretch content start n)) ≡ stretch content (start + skip) count
  unfolding stretch
  take-drop-stretch start n zero zero h = refl
  take-drop-stretch start zero zero (suc count) h = absurd (omega arith)
  take-drop-stretch start (suc n) zero (suc count) h =
      let first : start ≡ start + 0 = omega arith in
      let rest : start + 1 + 0 ≡ start + 0 + 1 = omega arith in
      ap₂ ◌∷◌ (ap content first) (
        take-drop-stretch (start + 1) n zero count (omega arith)
        ∙ ap (λ s. stretch content s count) rest)
  take-drop-stretch start zero (suc skip) count h = absurd (omega arith)
  take-drop-stretch start (suc n) (suc skip) count h =
      let e : start + 1 + skip ≡ start + suc skip = omega arith in
      take-drop-stretch (start + 1) n skip count (omega arith) ∙ ap (λ s. stretch content s count) e

  pub get_or-stretch :
      (start n i : ℕ) → i < n → get_or (stretch content start n) i 0 ≡ content (start + i)
  unfolding stretch
  get_or-stretch start zero i h = absurd (omega arith)
  get_or-stretch start (suc n) zero h = let e : start ≡ start + 0 = omega arith in ap content e
  get_or-stretch start (suc n) (suc i) h =
      let e : start + 1 + i ≡ start + suc i = omega arith in
      get_or-stretch (start + 1) n i (omega arith) ∙ ap content e
