-- ===== src/Kheap/Alloc.antt =====
-- What the allocator promises, where the heap does not reach the end of the address space.
use os_kernel_and_bootloader.Base.{
  ℕ, ◌+◌, ◌%◌, ◌^◌, ◌≤◌, ◌<◌, ◌≡◌, refl, List, [], ◌∷◌, Bool-cases, inl, inr, ◌⊎◌, arith, ltb, none,
  some, codes, u64, ltb→lt,
}
use mathlib.Core.Option.{Option}
use mathlib.Core.Path.{subst}
use os_kernel_and_bootloader.Kheap.{Heap, round_up, kmalloc, kfree}

-- A block handed out.
pub record Block : Type 0 where
  pub address : ℕ
  pub size : ℕ

-- Blocks that lie in `[low, high)` one after the other, the highest first: no two overlap.
unfoldable pub AreApart : ℕ → ℕ → List Block → Type 0
AreApart low high [] = low ≤ high
AreApart low high (b ∷ bs) =
    (b.address + b.size ≤ high) × ((b.address % 16 ≡ 0) × AreApart low b.address bs)

-- The heap with the blocks handed out of it.
pub record IsValid (h : Heap) (blocks : List Block) : Type 0 where
  pub ordered : h.heap_curr ≤ h.heap_end
  pub aligned : h.heap_curr % 16 ≡ 0
  pub room : h.heap_end + 2 ^ 32 < 2 ^ 64
  pub apart : AreApart h.heap_start h.heap_curr blocks

-- A request of less than 4 GB, rounded up to 16 bytes.
fits :
    (size : ℕ)
    → size + 16 ≤ 2 ^ 32
    → (size ≤ round_up size) × ((round_up size ≤ size + 15) × (round_up size % 16 ≡ 0))
fits size h = omega arith

-- Where the rounded request fits what is left, `kmalloc` returns the address of a block that is
-- aligned to 16 bytes and apart from all blocks handed out before, and keeps the invariant with
-- that block. Else it returns a null pointer, and the heap is as before.
pub kmalloc_lem :
    (h : Heap) (size : ℕ) (blocks : List Block)
    → IsValid h blocks
    → size + 16 ≤ 2 ^ 32
    → ((h.heap_curr + round_up size ≤ h.heap_end)
        × (h' : Heap) × (kmalloc h size ≡ (some (h', some h.heap_curr), []))
        × IsValid h' (record { address = h.heap_curr; size = size } ∷ blocks))
      ⊎ ((h.heap_end < h.heap_curr + round_up size)
          × (kmalloc h size ≡ (some (h, none), codes "kheap: OUT OF MEMORY\n")))
unfolding kmalloc AreApart
kmalloc_lem h size blocks v small =
    let size_fits = fits size small in
    let sum : u64 (h.heap_curr + round_up size) ≡ h.heap_curr + round_up size =
      omega (arith, v.ordered, v.room, size_fits.1.0) in
    elim (Bool-cases (ltb h.heap_end (u64 (h.heap_curr + round_up size)))) [
      | inl full ↦ inr (
        omega (arith, sum, ltb→lt h.heap_end (u64 (h.heap_curr + round_up size)) full),
        rw full refl,
      )
      | inr room ↦
          let below : h.heap_curr + round_up size ≤ h.heap_end = ground (arith, sum, room) in
          inl (
            below,
            record h { heap_curr = u64 (h.heap_curr + round_up size) },
            rw room refl,
            record {
              ordered = omega (arith, sum, below);
              aligned = omega (arith, sum, v.aligned, size_fits);
              room = v.room;
              apart = (omega (arith, sum, size_fits), (v.aligned, v.apart));
            },
          )
    ]

-- A sequence of calls, with the blocks handed out before and after it, the latest first. Each request is of
-- less than 4 GB.
pub data Calls : Heap → List Block → Heap → List Block → Type 0 where
  done : (h : Heap) (bs : List Block) → Calls h bs h bs
  allocated :
      {h h₁ h' : Heap} {bs bs' : List Block} (size a : ℕ)
      → size + 16 ≤ 2 ^ 32
      → (kmalloc h size).0 ≡ some (h₁, some a)
      → Calls h₁ (record { address = a; size = size } ∷ bs) h' bs'
      → Calls h bs h' bs'
  refused :
      {h h₁ h' : Heap} {bs bs' : List Block} (size : ℕ)
      → size + 16 ≤ 2 ^ 32
      → (kmalloc h size).0 ≡ some (h₁, none)
      → Calls h₁ bs h' bs'
      → Calls h bs h' bs'
  freed :
      {h h' : Heap} {bs bs' : List Block} (ptr : ℕ)
      → Calls (kfree h ptr) bs h' bs'
      → Calls h bs h' bs'

-- A call that hands out a block keeps the invariant with it, and one that does not keeps the heap.
abbrev Kept : List Block → ℕ → Option (Heap × Option ℕ) → Type 0
Kept bs size none = ⊥
Kept bs size (some (h, none)) = IsValid h bs
Kept bs size (some (h, some a)) = IsValid h (record { address = a; size = size } ∷ bs)

kmalloc-Kept :
    (h : Heap) (bs : List Block) (size : ℕ)
    → IsValid h bs
    → size + 16 ≤ 2 ^ 32
    → Kept bs size (kmalloc h size).0
kmalloc-Kept h bs size v small = elim (kmalloc_lem h size bs v small) [
  | inl (room, h', same, valid) ↦ rw same valid
  | inr (full, same) ↦ rw same v
]

-- However the calls of `kmalloc` and `kfree` follow each other, all blocks ever handed out are inside the heap,
-- aligned to 16 bytes, and apart from each other.
pub Calls-IsValid :
    {h h' : Heap} {bs bs' : List Block} → IsValid h bs → Calls h bs h' bs' → IsValid h' bs'
unfolding kfree
Calls-IsValid v (done h bs) = v
Calls-IsValid v (allocated {h} {h₁} {bs} size a small e rest) =
    Calls-IsValid (subst (Kept bs size) e (kmalloc-Kept h bs size v small)) rest
Calls-IsValid v (refused {h} {h₁} {bs} size small e rest) =
    Calls-IsValid (subst (Kept bs size) e (kmalloc-Kept h bs size v small)) rest
Calls-IsValid v (freed ptr rest) = Calls-IsValid v rest
