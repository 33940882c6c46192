-- ===== src/Kernel/Example.antt =====
-- A machine for the tests: the tables and controllers of the other examples, and a disk with KERNEL.BIN.
use os_kernel_and_bootloader.Base.{
  ℕ, ◌-◌, ◌+◌, ◌*◌, ◌%◌, ◌≡◌, refl, zero, List, [], ◌∷◌, ◌++◌, false, ltb, if◌then◌else◌, get_or,
  replicate, codes, arith, some, store, stretch, length-replicate,
}
use os_kernel_and_bootloader.Memory.{memcmp, memcpy, memcpy_from}
use os_kernel_and_bootloader.Acpi.Example.{entries, example_memory, example_memory-IsMadt}
use os_kernel_and_bootloader.Lapic.{pit_count}
use os_kernel_and_bootloader.Irq.{resolve, madt_resolve_gsi}
use os_kernel_and_bootloader.Irq.Example.{
  timers, interrupts, rsdp_found, xsdt_found, madt_found, apart,
}
use os_kernel_and_bootloader.Nvme.Example.{controller, at_reset, places, hardware}
use os_kernel_and_bootloader.Gpt.{fat32_guid}
use os_kernel_and_bootloader.Gpt.Search.{table, first_usable}
use os_kernel_and_bootloader.Fat32.Volume.{Volume, with_bpb, with_layout, fat_size}
use os_kernel_and_bootloader.Fat32.Mounting.{described, loaded}
use os_kernel_and_bootloader.Fat32.Sectors.{HasSectors}
use os_kernel_and_bootloader.Fat32.Chain.{HasClusters, cluster_data}
use os_kernel_and_bootloader.Fat32.Name.{names_equal_8_3, strings_equal, name_8_3, until_space}
use os_kernel_and_bootloader.Fat32.Directory.{
  DirEntry, dir_entry, ends_directory, is_not_file, is_skipped,
}
use os_kernel_and_bootloader.Fat32.Lookup.{live_entries, first_with, is_file_named, root_entries}
use os_kernel_and_bootloader.Kernel.{Machine, Environment}
use os_kernel_and_bootloader.Irq.Total.{IsCalibrated}
use os_kernel_and_bootloader.Kernel.Bringup.{HasTables}
use os_kernel_and_bootloader.Kernel.Outcome.{HasKernelBin}

-- The header of a GPT with `n` entries, in block 1 of 512 bytes.
abbrev gpt_header : ℕ → List ℕ
gpt_header n =
    codes "EFI PART" ++ (replicate 64 0 ++ (2 ∷ replicate 7 0 ++ (n ∷ replicate 3 0 ++ 128 ∷ [])))

-- One partition, from block 3 on.
abbrev gpt_entry : List ℕ
gpt_entry = fat32_guid ++ (replicate 16 0 ++ (3 ∷ replicate 7 0 ++ 40 ∷ []))

-- Sectors of 512 bytes, clusters of one sector, two FATs of one sector from sector 11 on.
abbrev boot_sector : List ℕ
boot_sector =
    replicate 12 0 ++ (2 ∷ 1 ∷ 8 ∷ 0 ∷ 2 ∷ replicate 19 0 ++ (1 ∷ replicate 7 0 ++ 2 ∷ []))

-- A file of 300 bytes in cluster 3.
abbrev directory : List ℕ
directory = codes "KERNEL  BIN" ++ (0x20 ∷ replicate 14 0 ++ 3 ∷ 0 ∷ 44 ∷ 1 ∷ 0 ∷ 0 ∷ [])

-- The disk, with a table of `n` entries.
abbrev pub disk_content : ℕ → ℕ → ℕ
disk_content n i =
    if ltb i 512
    then 0
    else if ltb i 1024
    then get_or (gpt_header n) (i - 512) 0
    else if ltb i 1536
    then get_or gpt_entry (i - 1024) 0
    else if ltb i 2048
    then get_or boot_sector (i - 1536) 0
    else if ltb i 6656
    then 0
    else if ltb i 7168
    then get_or directory (i - 6656) 0
    else i % 251

abbrev pub kernel_bin : DirEntry
kernel_bin = record { name = codes "KERNEL  BIN"; attr = 0x20; first_cluster = 3; file_size = 300 }

abbrev pub environment : Environment
environment = record {
  mem = example_memory;
  first_timers = timers;
  second_timers = timers;
  handlers = record {
    isr = λ n. 0x10_0000 + 16 * n;
    irq0 = 0x10_1000;
    irq1 = 0x10_1010;
    apic_timer = 0x10_1020;
  };
  first_mask = 0xB8;
  second_mask = 0x8E;
  nvme = hardware;
  places = places;
  disk = controller (disk_content 1);
  entries = replicate 16384 0;
}

abbrev pub machine : Machine
machine = record {
  interrupts = interrupts;
  idt = [];
  enabled = false;
  heap = record { heap_start = 0; heap_end = 0; heap_curr = 0 };
  startup = at_reset;
  gpt_buf = [];
  volume = record {
    part_start_lba = 0;
    block_size = 0;
    first_fat_sector = 0;
    data_region_sector = 0;
    root_cluster = 0;
    bytes_per_sector = 0;
    sectors_per_cluster = 0;
    sector_buf = [];
    fat_buf = [];
    fat_loaded = false;
    fat_entries = 0;
  };
  file_buf = replicate 4096 0;
  console = [];
}

pub timers-IsCalibrated : IsCalibrated timers
unfolding pit_count
timers-IsCalibrated = record {
  wraps = (2, omega arith, omega arith);
  remaining = omega arith;
  counted = omega arith;
}

pub environment-HasTables : HasTables environment 0xE0000 90 16 [] entries
unfolding madt_resolve_gsi resolve
environment-HasTables = record {
  rsdp_found = rsdp_found;
  xsdt_found = xsdt_found;
  madt_found = madt_found;
  entries = example_memory-IsMadt;
  from_zero = refl;
  moved = omega arith;
  timer = omega arith;
  kbd = omega arith;
  apart = apart;
}

abbrev pub mounted : Volume
mounted = described machine.volume 3 512 (disk_content 1)

mounted_fields :
    (mounted.bytes_per_sector ≡ 512) × (mounted.first_fat_sector ≡ 11) × (fat_size mounted ≡ 1)
unfolding with_bpb with_layout store stretch
mounted_fields = (refl, refl, refl)

mounted-HasSectors : HasSectors mounted
unfolding with_bpb with_layout store stretch
mounted-HasSectors = record {
  sector = omega arith;
  some_sectors = omega arith;
  divides = refl;
  one_page = omega arith;
}

abbrev volume_loaded : Volume
volume_loaded = loaded mounted (disk_content 1)

loaded-HasClusters : HasClusters volume_loaded
unfolding with_bpb with_layout store stretch
loaded-HasClusters = record {
  sectors = record {
    sector = omega arith;
    some_sectors = omega arith;
    divides = refl;
    one_page = omega arith;
  };
  some_bytes = omega arith;
  fits = omega arith;
  whole = refl;
  in_range = λ cluster. omega arith;
}

kernel_bin_found :
    first_with (is_file_named (codes "KERNEL.BIN")) (root_entries volume_loaded (disk_content 1))
    ≡ some kernel_bin
unfolding with_bpb with_layout store first_with live_entries cluster_data stretch dir_entry
    ends_directory is_not_file is_skipped names_equal_8_3 strings_equal name_8_3 until_space
kernel_bin_found = refl

pub disk-HasKernelBin :
    HasKernelBin (disk_content 1) 512 [] machine.volume environment.entries 3 40 kernel_bin
unfolding store stretch memcmp memcpy memcpy_from first_usable table with_bpb with_layout
disk-HasKernelBin = record {
  some_bytes = omega arith;
  page = omega arith;
  signature = refl;
  entry_size = refl;
  some_blocks = omega arith;
  table_range = omega arith;
  table_fits = omega arith;
  total_fits = omega arith;
  entries_room = omega (arith, length-replicate 16384 zero);
  copy_room = omega (arith, length-replicate 16384 zero);
  partition = refl;
  first_range = omega arith;
  sectors = mounted-HasSectors;
  fat_range = omega (arith, mounted_fields);
  fat_bytes = omega (arith, mounted_fields);
  clusters = loaded-HasClusters;
  root = omega arith;
  file = kernel_bin_found;
}
