-- ===== src/Kernel/Order.antt =====
-- In which order `kernel_main` sets the machine up.
use os_kernel_and_bootloader.Base.{ℕ, ◌≡◌, refl, sym, List, ◌∷◌, false, none, some, ◌⊎◌, inl, inr}
use mathlib.Core.Path.{subst}
use os_kernel_and_bootloader.Base.Io.{Io}
use os_kernel_and_bootloader.Base.Run.{Run, stop, next, ◌>>=◌, ◌>>◌, act}
use os_kernel_and_bootloader.Acpi.Madt.{MadtInfo}
use os_kernel_and_bootloader.Pic.{pic_remap, pic_disable}
use os_kernel_and_bootloader.Pic.Chip.{Pics}
use os_kernel_and_bootloader.Irq.{Interrupts, irq_init}
use os_kernel_and_bootloader.Kheap.{kheap_init}
use os_kernel_and_bootloader.Tables.{idt_init}
use os_kernel_and_bootloader.Kernel.{
  Machine, End, Kernel, Environment, say, from_io, with_interrupts, write_ports, start_irqs,
  start_heap, load_idt, set_example_routes, sti, init_interrupts, kernel_main,
}
use os_kernel_and_bootloader.Irq.Ports.{KeepsPorts, irq_init-KeepsPorts}
use os_kernel_and_bootloader.Kernel.Ready.{
  Condition, Safe, Meets, AreMasked, played, IsReady, state_of, disable-AreMasked, remap-AreMasked,
}
use os_kernel_and_bootloader.Kernel.Keeps.{
  Arrives, Leads, bind-Leads, act-Leads, start_apics-Keeps, find_tables-Keeps, start_storage-Keeps,
  use_disk-Keeps, say-Keeps, get-Keeps,
}

module _ (E : Environment) where
  -- What is in place after each step, with interrupts still disabled.
  abbrev pub Disabled : Condition
  Disabled enabled idt ports heap = enabled ≡ false

  abbrev Gated : Condition
  Gated enabled idt ports heap = (enabled ≡ false) × (idt ≡ idt_init E.handlers)

  abbrev Remapped : Condition
  Remapped enabled idt ports heap =
      (enabled ≡ false)
      × (idt ≡ idt_init E.handlers)
      × ((p : Pics) → AreMasked (played p (pic_disable ∷ ports)))

  abbrev Masked : Condition
  Masked enabled idt ports heap =
      (enabled ≡ false) × (idt ≡ idt_init E.handlers) × ((p : Pics) → AreMasked (played p ports))

  abbrev Full : Condition
  Full enabled idt ports heap = (enabled ≡ false) × IsReady E idt ports heap

  seq-Leads :
      (R Q T : Condition) {B : Type 0} (m : Kernel (Unit {0})) (k : Kernel B)
      → Leads E R Q m
      → Leads E Q T k
      → Leads E R T (m >> k)
  seq-Leads R Q T m k hm hk = bind-Leads E R Q T m (λ _. k) hm (λ _. hk)

  pic_remap-Leads :
      Leads E Gated Remapped (act (write_ports (pic_remap E.first_mask E.second_mask 0x20 0x28)))
  pic_remap-Leads = act-Leads E Gated Remapped _ (λ s (off, gates).
      (off, gates, λ p. remap-AreMasked p s.interrupts.ports E.first_mask E.second_mask))

  start_irqs-Leads : Leads E Masked Masked (start_irqs E)
  unfolding Leads start_irqs from_io say KeepsPorts
  start_irqs-Leads s (off, gates, masked) =
      go (irq_init E.mem E.second_timers s.interrupts)
        (irq_init-KeepsPorts s.interrupts E.mem E.second_timers)
    where
      go :
          (i : Io Interrupts)
          → KeepsPorts s.interrupts i
          → Arrives E Masked ((from_io i >>= λ i. act (with_interrupts (λ _. i))) s)
      go (none, t) h = inl off
      go (some i, t) (inl same) =
          (off, gates, λ p. subst (λ ws. AreMasked (played p ws)) (sym same) (masked p))
      go (some i, t) (inr more) = (
        off,
        gates,
        λ p.
            subst (λ ws. AreMasked (played p ws)) (sym more)
              (disable-AreMasked p s.interrupts.ports (masked p)),
      )

  start_heap-Leads : Leads E Masked Full (start_heap E)
  unfolding Leads start_heap from_io say kheap_init
  start_heap-Leads s (off, gates, masked) =
      (off, record { gates = gates; masked = masked; heap = refl })

  said :
      (R : Condition)
      → ((s : Machine) → Meets R s → Meets (Safe E) s)
      → (text : List ℕ) → Leads E R R (say text)
  said R safe text = say-Keeps E R safe text

  pub init_interrupts-Leads : (madt : MadtInfo) → Leads E Disabled (Safe E) (init_interrupts E madt)
  unfolding init_interrupts
  init_interrupts-Leads madt =
      seq-Leads Disabled Disabled (Safe E) _ _
        (start_apics-Keeps E Disabled (λ s off. inl off) madt)
        (seq-Leads Disabled Gated (Safe E) _ _
          (act-Leads E Disabled Gated (load_idt E) (λ s off. (off, refl)))
          (seq-Leads Gated Gated (Safe E) _ _ (said Gated (λ s (off, _). inl off) _) (
            seq-Leads Gated Remapped (Safe E) _ _ pic_remap-Leads (
              seq-Leads Remapped Masked (Safe E) _ _
                (act-Leads E Remapped Masked (write_ports pic_disable) (λ s h. h))
                (seq-Leads Masked Masked (Safe E) _ _ (said Masked (λ s h. inl h.0) _) (
                  seq-Leads Masked Masked (Safe E) _ _ start_irqs-Leads (
                    seq-Leads Masked Masked (Safe E) _ _ (said Masked (λ s h. inl h.0) _) (
                      seq-Leads Masked Masked (Safe E) _ _
                        (act-Leads E Masked Masked set_example_routes (λ s h. h))
                        (seq-Leads Masked Full (Safe E) _ _ start_heap-Leads (
                          seq-Leads Full (Safe E) (Safe E) _ _
                            (act-Leads E Full (Safe E) sti (λ s (off, complete). inr complete))
                            (say-Keeps E (Safe E) (λ s h. h) _)))))))))))

  kernel_main-Leads : Leads E Disabled (Safe E) (kernel_main E)
  unfolding kernel_main
  kernel_main-Leads =
      bind-Leads E Disabled Disabled (Safe E) _ _ (find_tables-Keeps E Disabled (λ s off. inl off))
        (λ tables. seq-Leads Disabled (Safe E) (Safe E) _ _ (init_interrupts-Leads tables.1) (
          bind-Leads E (Safe E) (Safe E) (Safe E) _ _
            (start_storage-Keeps E (Safe E) (λ s h. h) tables.0)
            (λ block_size.
              bind-Leads E (Safe E) (Safe E) (Safe E) _ _ (get-Keeps E (Safe E) (λ s h. h))
                (λ m. use_disk-Keeps E (Safe E) (λ s h. h) _ block_size E.entries))))

  -- Whatever the firmware's tables say and the devices answer, and however the kernel ends, it has not
  -- enabled interrupts, or its gates are in place, both legacy controllers are initialised for the vectors
  -- 0x20 and 0x28 with all their lines masked, and the heap is initialised.
  pub kernel_main_safe :
      (s : Machine)
      → s.enabled ≡ false
      → let m = state_of (kernel_main E s) in
        (m.enabled ≡ false) ⊎ IsReady E m.idt m.interrupts.ports m.heap
  unfolding Leads
  kernel_main_safe s off = here (kernel_main E s) (kernel_main-Leads s off)
    where
      here : (r : Run End Machine (Unit {0})) → Arrives E (Safe E) r → Meets (Safe E) (state_of r)
      here (stop e m) h = h
      here (next a m) h = h
