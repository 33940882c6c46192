-- ===== src/Kernel/Tests.antt =====
-- Each theorem about `kernel_main` at the machine of `Kernel.Example`.
use os_kernel_and_bootloader.Base.{
  ℕ, ◌≡◌, ◌⊎◌, refl, List, [], ◌++◌, false, arith, codes, stretch, store,
}
use os_kernel_and_bootloader.Base.Run.{stop}
use os_kernel_and_bootloader.Memory.{memcmp}
use os_kernel_and_bootloader.Acpi.Example.{entries}
use os_kernel_and_bootloader.Irq.Example.{ioapic}
use os_kernel_and_bootloader.Irq.Routing.{Routes, low_of, high_of}
use os_kernel_and_bootloader.Nvme.RamDisk.{disk_read, disk_read-IsDisk}
use os_kernel_and_bootloader.Kernel.{stopped, use_disk, kernel_main, example_routes}
use os_kernel_and_bootloader.Kernel.Ready.{IsReady, state_of}
use os_kernel_and_bootloader.Kernel.Order.{kernel_main_safe}
use os_kernel_and_bootloader.Kernel.Routes.{example_routes_lem}
use os_kernel_and_bootloader.Kernel.Disk.{header_block}
use os_kernel_and_bootloader.Kernel.Outcome.{use_disk_stops}
use os_kernel_and_bootloader.Kernel.Example.{disk_content, environment, machine}

kernel_main_safe_example :
    let m = state_of (kernel_main environment machine) in
    (m.enabled ≡ false) ⊎ IsReady environment m.idt m.interrupts.ports m.heap
kernel_main_safe_example = kernel_main_safe environment machine refl

-- A table of 128 entries.
use_disk_stops_example :
    (text : List ℕ) × (use_disk (disk_read 512 (disk_content 128)) 512 environment.entries machine
      ≡ stop stopped (record machine {
        gpt_buf = header_block (disk_content 128) 512 [];
        console = text ++ codes "GPT entries read failed\n";
      }))
unfolding store stretch memcmp
use_disk_stops_example =
    use_disk_stops (disk_read 512 (disk_content 128)) 512 (disk_content 128)
      (disk_read-IsDisk 512 (disk_content 128) 1) machine environment.entries (omega arith)
      (omega arith) refl refl (omega arith) (omega arith)

example_routes_lem_example :
    Routes (example_routes ioapic) (0, 0) 32
    × Routes (example_routes ioapic) (1, 0) 33
    × (low_of (example_routes ioapic) 2 ≡ low_of ioapic 2)
    × (high_of (example_routes ioapic) 2 ≡ high_of ioapic 2)
example_routes_lem_example = example_routes_lem ioapic refl 2 (omega arith)
