-- ===== src/Kernel/Ready.antt =====
-- In which order `kernel_main` sets the machine up: what is in place when interrupts are enabled.
use os_kernel_and_bootloader.Base.{ℕ, ◌≡◌, refl, List, [], ◌∷◌, Bool, false, arith, ◌⊎◌}
use os_kernel_and_bootloader.Base.Run.{Run, stop, next}
use os_kernel_and_bootloader.Pic.{Write, pic_remap, pic_disable, pic_mask_all}
use os_kernel_and_bootloader.Pic.Chip.{ready, Chip, Pics, run}
use os_kernel_and_bootloader.Pic.Remap.{pic_remap_lem}
use os_kernel_and_bootloader.Kheap.{Heap}
use os_kernel_and_bootloader.Tables.{IdtEntry, idt_init}
use os_kernel_and_bootloader.Kernel.{Machine, End, Environment}

-- The legacy controllers after lists of writes, the latest list first.
unfoldable pub played : Pics → List (List Write) → Pics
played p [] = p
played p (ws ∷ wss) = run (played p wss) ws

-- Initialised with the vectors from `vector` on, and all its lines masked.
pub record IsMasked (c : Chip) (vector : ℕ) : Type 0 where
  pub ready : c.phase ≡ ready
  pub offset : c.offset ≡ vector
  pub mask : c.mask ≡ 0xFF

abbrev pub AreMasked : Pics → Type 0
AreMasked p = IsMasked p.first 0x20 × IsMasked p.second 0x28

-- What `kernel_main` has set up: the table of interrupt gates, the legacy controllers, whatever they
-- were doing before, and the heap.
pub record IsReady (E : Environment) (idt : List IdtEntry) (ports : List (List Write))
    (blocks : Heap) : Type 0 where
  pub gates : idt ≡ idt_init E.handlers
  pub masked : (p : Pics) → AreMasked (played p ports)
  pub heap : blocks ≡ record { heap_start = 0x200000; heap_end = 0x1200000; heap_curr = 0x200000 }

-- A condition on the parts of the machine that this is about.
abbrev pub Condition : Type 1
Condition = Bool → List IdtEntry → List (List Write) → Heap → Type 0

-- Interrupts are disabled, or the machine is set up for them.
abbrev pub Safe : Environment → Condition
Safe E enabled idt ports heap = (enabled ≡ false) ⊎ IsReady E idt ports heap

abbrev pub Meets : Condition → Machine → Type 0
Meets R m = R m.enabled m.idt m.interrupts.ports m.heap

abbrev pub state_of : {A : Type 0} → Run End Machine A → Machine
state_of (stop e m) = m
state_of (next a m) = m

pub disable-AreMasked :
    (p : Pics) (wss : List (List Write))
    → AreMasked (played p wss)
    → AreMasked (played p (pic_disable ∷ wss))
unfolding played run pic_disable pic_mask_all
disable-AreMasked p wss (first, second) =
    rw (first.ready, second.ready)
      (
        record { ready = refl; offset = first.offset; mask = refl },
        record { ready = refl; offset = second.offset; mask = refl },
      )

-- The remapping leaves the masks that it has read; the disabling follows it.
pub remap-AreMasked :
    (p : Pics) (wss : List (List Write)) (a1 a2 : ℕ)
    → AreMasked (played p (pic_disable ∷ pic_remap a1 a2 0x20 0x28 ∷ wss))
unfolding played run pic_disable pic_mask_all
remap-AreMasked p wss a1 a2 =
    rw (pic_remap_lem (played p wss) a1 a2 4 5 (omega arith) (omega arith)) (
      record { ready = refl; offset = refl; mask = refl },
      record { ready = refl; offset = refl; mask = refl },
    )
