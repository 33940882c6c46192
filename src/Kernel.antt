-- ===== src/Kernel.antt =====
-- kernel/kernel.c: `kernel_main`, from the firmware's tables to the file that it reads. The loops that wait
-- for ever, and the calls that do not return, are the ways to end.
mod State
pub mod Ready
pub mod Keeps
pub mod Order
pub mod Routes
pub mod Runs
pub mod Disk
pub mod Outcome
pub mod Bringup
pub mod Example
mod Tests
unfoldable pub use State.*
use os_kernel_and_bootloader.Base.{
  ℕ, ◌*◌, List, [], ◌∷◌, ◌++◌, Bool, true, false, if◌then◌else◌, Option, none, some, codes, m32,
  m64, store,
}
use os_kernel_and_bootloader.Base.Io.{Io, hex_text}
use os_kernel_and_bootloader.Base.Run.{
  Run, stop, next, Code, after, ◌>>=◌, ◌>>◌, return, call, act, end,
}
use os_kernel_and_bootloader.Acpi.{acpi_find_rsdp, acpi_get_xsdt, acpi_find_table, acpi_parse_mcfg}
use os_kernel_and_bootloader.Acpi.Madt.{MadtInfo, acpi_parse_madt}
use os_kernel_and_bootloader.Lapic.{Timers, Lapic, lapic_init}
use os_kernel_and_bootloader.Ioapic.{Ioapic, ioapic_init, ioapic_set_gsi}
use os_kernel_and_bootloader.Tables.{IdtEntry, Handlers, idt_init}
use os_kernel_and_bootloader.Pic.{Write, pic_remap, pic_disable}
use os_kernel_and_bootloader.Irq.{Interrupts, irq_init}
use os_kernel_and_bootloader.Kheap.{Heap, kheap_init}
use os_kernel_and_bootloader.Pci.{pci_enumerate}
use os_kernel_and_bootloader.Nvme.{Controller}
use os_kernel_and_bootloader.Nvme.Api.{ReadBlocks}
use os_kernel_and_bootloader.Nvme.Read.{seen_by_client}
use os_kernel_and_bootloader.Nvme.Init.{Places, Hardware, Startup, nvme_init}
use os_kernel_and_bootloader.Nvme.Find.{Device, nvme_find}
use os_kernel_and_bootloader.Gpt.{GptHeader, read_header, read_entries, find_partition}
use os_kernel_and_bootloader.Fat32.Volume.{Volume, mount}
use os_kernel_and_bootloader.Fat32.Directory.{list_root}
use os_kernel_and_bootloader.Fat32.File.{FileRead, read_file_from_root}

-- `mi`: the fields at address 0 for a null pointer, which the kernel does not test. The overrides are
-- not read here.
unfoldable pub madt_or_null : (ℕ → ℕ) → Option MadtInfo → MadtInfo
madt_or_null mem none = record {
  lapic_addr = m32 mem 0;
  ioapic_addr = m32 mem 4;
  ioapic_gsi_base = m32 mem 8;
  overrides = [];
}
madt_or_null mem (some madt) = madt

-- `mcfg[0].base_addr`, at address 0 for a null pointer.
unfoldable pub first_ecam : (ℕ → ℕ) → Option (ℕ × ℕ) → ℕ
first_ecam mem none = m64 mem 0
first_ecam mem (some (mcfg, count)) = m64 mem mcfg

abbrev pub with_interrupts : (Interrupts → Interrupts) → Machine → Machine
with_interrupts f m = record m { interrupts = f m.interrupts }

abbrev pub write_ports : List Write → Machine → Machine
write_ports ws = with_interrupts (λ i. record i { ports = ws ∷ i.ports })

-- The entries for the timer and the keyboard that `kernel_main` sets itself.
unfoldable pub example_routes : Ioapic → Ioapic
example_routes io = ioapic_set_gsi (ioapic_set_gsi io 0 32 0 0) 1 33 0 0

abbrev pub set_example_routes : Machine → Machine
set_example_routes = with_interrupts (λ i. record i { ioapic = example_routes i.ioapic })

abbrev pub sti : Machine → Machine
sti m = record m { enabled = true }

-- GPT, FAT32 and the test file.
module _ (read : ReadBlocks) (block_size : ℕ) where
  unfoldable pub get_header : Kernel GptHeader
  get_header = do
    m ← get
    r ← from_io (read_header read 1 m.gpt_buf)
    act (λ m. record m { gpt_buf = r.0 })
    found (codes "GPT header read failed\n") r.1

  unfoldable pub get_entries : List ℕ → GptHeader → Kernel (List ℕ)
  get_entries entries hdr = do
    m ← get
    r ← from_io (read_entries read 1 block_size hdr m.gpt_buf entries)
    act (λ m. record m { gpt_buf = r.0 })
    found (codes "GPT entries read failed\n") r.1

  unfoldable pub get_partition : GptHeader → List ℕ → Kernel ℕ
  get_partition hdr entries = do
    r ← from_io (find_partition hdr entries)
    range ← found (codes "No usable partition found\n") r
    say_hex (codes "Partition start LBA: ") range.0
    say_hex (codes "Partition end LBA: ") range.1
    return range.0

  unfoldable pub mount_volume : ℕ → Kernel (Unit {0})
  mount_volume part_start = do
    m ← get
    r ← from_io (mount read m.volume part_start block_size)
    act (λ m. record m { volume = r.1 })
    (if r.0 then return tt else (say (codes "FAT32 mount failed\n") >> end stopped))

  unfoldable pub file_report : FileRead → Kernel (Unit {0})
  file_report r =
      if r.result
      then say_hex (codes "Read KERNEL.BIN, size=") (elim r.out_size [ none ↦ 0 | some n ↦ n ])
      else say (codes "Failed to read KERNEL.BIN\n")

  unfoldable pub read_kernel_bin : Kernel (Unit {0})
  read_kernel_bin = do
    m ← get
    from_io (list_root read m.volume)
    r ← from_io (read_file_from_root read m.volume (codes "KERNEL.BIN") 4096)
    act (λ m. record m { file_buf = store m.file_buf r.bytes })
    file_report r

  unfoldable pub use_disk : List ℕ → Kernel (Unit {0})
  use_disk entries = do
    hdr ← get_header
    entries' ← get_entries entries hdr
    part_start ← get_partition hdr entries'
    mount_volume part_start
    read_kernel_bin
    end idle

module _ (E : Environment) where
  -- The root table, and what the MADT says.
  unfoldable pub find_tables : Kernel (ℕ × MadtInfo)
  find_tables = do
    act (λ m. record m { console = [] })
    say (codes "Kernel startuje...\n")
    rsdp ← found (codes "RSDP not found!\n") (acpi_find_rsdp E.mem)
    say (codes "RSDP OK\n")
    xsdt ← found (codes "XSDT not found!\n") (acpi_get_xsdt E.mem rsdp)
    say (codes "XSDT OK\n")
    table ← from_io (acpi_find_table E.mem xsdt (codes "APIC"))
    hdr ← found (codes "MADT not found\n") table
    parsed ← from_io (acpi_parse_madt E.mem hdr)
    let madt = madt_or_null E.mem parsed
    say (codes "MADT:\n")
    say_hex (codes "  LAPIC addr: ") madt.lapic_addr
    say_hex (codes "  IOAPIC addr: ") madt.ioapic_addr
    say_hex (codes "  IOAPIC GSI base: ") madt.ioapic_gsi_base
    return (xsdt, madt)

  unfoldable pub start_apics : MadtInfo → Kernel (Unit {0})
  start_apics madt = do
    m ← get
    lapic ← from_io (lapic_init E.first_timers m.interrupts.lapic madt.lapic_addr)
    act (
        with_interrupts
          (λ i. record i { lapic = lapic; ioapic = ioapic_init i.ioapic madt.ioapic_gsi_base }))

  unfoldable pub start_irqs : Kernel (Unit {0})
  start_irqs = do
    m ← get
    i ← from_io (irq_init E.mem E.second_timers m.interrupts)
    act (with_interrupts (λ _. i))

  unfoldable pub start_heap : Kernel (Unit {0})
  start_heap = do
    heap ← from_io (kheap_init 0x200000 (16 * 1024 * 1024))
    act (λ m. record m { heap = heap })

  abbrev pub load_idt : Machine → Machine
  load_idt m = record m { idt = idt_init E.handlers }

  unfoldable pub init_interrupts : MadtInfo → Kernel (Unit {0})
  init_interrupts madt = do
    start_apics madt
    act load_idt
    say (codes "IDT OK\n")
    act (write_ports (pic_remap E.first_mask E.second_mask 0x20 0x28))
    act (write_ports pic_disable)
    say (codes "PIC OK\n")
    start_irqs
    say (codes "IRQ OK\n")
    act set_example_routes
    start_heap
    act sti
    say (codes "Przerwania wlaczone\n")

  -- The result is the block size.
  unfoldable pub start_storage : ℕ → Kernel ℕ
  start_storage xsdt = do
    table ← from_io (acpi_find_table E.mem xsdt (codes "MCFG"))
    hdr ← found (codes "MCFG not found\n") table
    mcfg ← from_io (acpi_parse_mcfg E.mem hdr)
    let ecam_base = first_ecam E.mem mcfg
    say_hex (codes "PCIe ECAM base: ") ecam_base
    listed ← from_io (pci_enumerate E.mem ecam_base)
    r ← from_io (nvme_find E.mem ecam_base)
    nvme ← found (codes "NVMe not found\n") r
    say_hex (codes "NVMe BAR0: ") nvme.bar0
    m ← get
    startup ← from_io (nvme_init E.nvme E.places m.startup)
    act (λ m. record m { startup = startup })
    say_hex (codes "NVMe block size: ") startup.driver.block_size
    return startup.driver.block_size

  -- Each read finds the driver as `nvme_init` has left it: the queues are not used by another caller,
  -- and only their places change.
  unfoldable pub kernel_main : Kernel (Unit {0})
  kernel_main = do
    tables ← find_tables
    init_interrupts tables.1
    block_size ← start_storage tables.0
    m ← get
    use_disk (seen_by_client E.disk m.startup.driver) block_size E.entries
