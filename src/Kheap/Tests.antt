-- ===== src/Kheap/Tests.antt =====
-- Runs of the allocator, and its theorem at an input.
use os_kernel_and_bootloader.Base.{◌+◌, ◌≤◌, ◌<◌, ◌≡◌, ◌⊎◌, refl, [], ◌∷◌, arith, some, none, codes}
use os_kernel_and_bootloader.Kheap.{Heap, round_up, kmalloc, kfree}
use os_kernel_and_bootloader.Kheap.Alloc.{
  IsValid, AreApart, kmalloc_lem, Calls, done, allocated, refused, freed, Calls-IsValid,
}

abbrev heap : Heap
heap = record { heap_start = 0x20_0000; heap_end = 0x30_0000; heap_curr = 0x20_0000 }

heap-IsValid : IsValid heap []
unfolding AreApart
heap-IsValid = record {
  ordered = omega arith;
  aligned = refl;
  room = omega arith;
  apart = omega arith;
}

-- The sizes just below 2^64 wrap round: the call succeeds and takes nothing.
wrapping_size : kmalloc heap 0xFFFF_FFFF_FFFF_FFFF ≡ (some (heap, some 0x20_0000), [])
unfolding kmalloc
wrapping_size = refl

kmalloc_lem_example :
    ((heap.heap_curr + round_up 100 ≤ heap.heap_end)
      × (h' : Heap) × (kmalloc heap 100 ≡ (some (h', some heap.heap_curr), []))
      × IsValid h' (record { address = heap.heap_curr; size = 100 } ∷ []))
    ⊎ ((heap.heap_end < heap.heap_curr + round_up 100)
        × (kmalloc heap 100 ≡ (some (heap, none), codes "kheap: OUT OF MEMORY\n")))
kmalloc_lem_example = kmalloc_lem heap 100 [] heap-IsValid (omega arith)

abbrev after_two : Heap
after_two = record { heap_start = 0x20_0000; heap_end = 0x30_0000; heap_curr = 0x20_00B0 }

-- Two blocks, a free of the first one, and a request for more than is left.
four-Calls :
    Calls heap [] after_two
      (record { address = 0x20_0070; size = 50 } ∷ record { address = 0x20_0000; size = 100 } ∷ [])
unfolding kmalloc kfree
four-Calls = allocated 100 0x20_0000 (omega arith) refl (
    freed 0x20_0000 (
      allocated 50 0x20_0070 (omega arith) refl
        (refused 0x80_0000 (omega arith) refl (done after_two _))))

Calls-IsValid_example :
    IsValid after_two
      (record { address = 0x20_0070; size = 50 } ∷ record { address = 0x20_0000; size = 100 } ∷ [])
Calls-IsValid_example = Calls-IsValid heap-IsValid four-Calls
