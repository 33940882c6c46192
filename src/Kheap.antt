-- ===== src/Kheap.antt =====
-- kernel/kheap.c: the allocator that moves one pointer through the heap. Addresses are 64-bit
-- numbers. `kfree` does nothing.
pub mod Alloc
mod Tests
use os_kernel_and_bootloader.Base.{
  ℕ, ◌+◌, ◌-◌, ◌*◌, ◌/◌, ◌%◌, ◌^◌, List, [], Bool, ltb, if◌then◌else◌, Option, none, some, codes,
  u64,
}
use os_kernel_and_bootloader.Base.Io.{Io, ◌>>=◌, ◌>>◌, return, print, print_hex}

pub record Heap : Type 0 where
  pub heap_start : ℕ
  pub heap_end : ℕ
  pub heap_curr : ℕ

unfoldable pub kheap_init : ℕ → ℕ → Io Heap
kheap_init start size = do
  print (codes "kheap: init at ")
  print_hex start
  print (codes " size=")
  print_hex size
  print (codes "\n")
  return (record { heap_start = start; heap_end = u64 (start + size); heap_curr = start })

-- `(size + 15) & ~15ULL`.
abbrev pub round_up : ℕ → ℕ
round_up size = u64 (size + 15) / 16 * 16

-- A null pointer is `none`.
unfoldable pub kmalloc : Heap → ℕ → Io (Heap × Option ℕ)
kmalloc h size =
    let n = round_up size in
    if ltb h.heap_end (u64 (h.heap_curr + n))
    then (print (codes "kheap: OUT OF MEMORY\n") >> return (h, none))
    else return (record h { heap_curr = u64 (h.heap_curr + n) }, some h.heap_curr)

unfoldable pub kfree : Heap → ℕ → Heap
kfree h ptr = h
