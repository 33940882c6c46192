-- ===== src/Loader/Tests.antt =====
-- The loader's theorem at an input.
use os_kernel_and_bootloader.Base.{ℕ, ◌%◌, [], true}
use os_kernel_and_bootloader.Kheap.{Heap}
use os_kernel_and_bootloader.Fat32.Volume.{Volume}

abbrev content : ℕ → ℕ
content i = i % 251

abbrev volume : Volume
volume = record {
  part_start_lba = 0;
  block_size = 512;
  first_fat_sector = 8;
  data_region_sector = 10;
  root_cluster = 2;
  bytes_per_sector = 512;
  sectors_per_cluster = 1;
  sector_buf = [];
  fat_buf = [];
  fat_loaded = true;
  fat_entries = 0;
}

abbrev heap : Heap
heap = record { heap_start = 0x20_0000; heap_end = 0x30_0000; heap_curr = 0x20_0000 }
