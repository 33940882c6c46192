-- ===== src/Fat32/Tests.antt =====
-- Runs of the file system, and each theorem about it at an input.
use os_kernel_and_bootloader.Base.{
  ℕ, ◌-◌, ◌*◌, ◌%◌, ◌≡◌, refl, List, [], ◌∷◌, ◌++◌, true, false, arith, some, none, replicate, take,
  stretch, codes, get_or, ltb, if◌then◌else◌, min,
}
use os_kernel_and_bootloader.Nvme.RamDisk.{disk_read, disk_read-IsDisk}
use os_kernel_and_bootloader.Base.{false}
use os_kernel_and_bootloader.Fat32.Volume.{Volume, read_sectors, next_cluster}
use os_kernel_and_bootloader.Fat32.Sectors.{HasSectors, read_sectors-stretch}
use os_kernel_and_bootloader.Fat32.Name.{names_equal_8_3, strings_equal, name_8_3, until_space}
use os_kernel_and_bootloader.Fat32.Directory.{
  DirEntry, dir_entry, is_skipped, is_not_file, ends_directory,
}
use os_kernel_and_bootloader.Fat32.File.{failed, read_chain, read_all}
use os_kernel_and_bootloader.Fat32.Chain.{HasClusters, cluster_data, chain_data, read_chain-data}
use os_kernel_and_bootloader.Fat32.Lookup.{
  live_entries, first_with, is_file_named, root_entries, read_all_fails,
}

-- A file of 600 bytes in the clusters 3 and 5, in a directory in cluster 2.
abbrev hello_entry : List ℕ
hello_entry =
    codes "HELLO   TXT"
    ++ 0x20 ∷ replicate 8 0
    ++ 0 ∷ 0 ∷ replicate 4 0
    ++ 3 ∷ 0 ∷ 0x58 ∷ 2 ∷ 0 ∷ 0 ∷ []

abbrev content : ℕ → ℕ
content i = if ltb i 5632 then get_or hello_entry (i - 5120) 0 else i % 251

abbrev volume : Volume
volume = record {
  part_start_lba = 0;
  block_size = 512;
  first_fat_sector = 8;
  data_region_sector = 10;
  root_cluster = 2;
  bytes_per_sector = 512;
  sectors_per_cluster = 1;
  sector_buf = [];
  fat_buf = replicate 12 0 ++ 5 ∷ 0 ∷ 0 ∷ 0 ∷ replicate 16 0;
  fat_loaded = true;
  fat_entries = 8;
}

volume-HasSectors : HasSectors volume
volume-HasSectors = record {
  sector = omega arith;
  some_sectors = omega arith;
  divides = refl;
  one_page = omega arith;
}

volume-HasClusters : HasClusters volume
volume-HasClusters = record {
  sectors = volume-HasSectors;
  some_bytes = omega arith;
  fits = omega arith;
  whole = refl;
  in_range = λ cluster. omega arith;
}

next_of_first : (next_cluster volume 3 ≡ 5) × (next_cluster volume 9 ≡ 0x0FFF_FFFF)
unfolding next_cluster
next_of_first = (refl, refl)

name_test :
    (names_equal_8_3 (codes "HELLO   TXT") (codes "HELLO.TXT") ≡ true)
    × (names_equal_8_3 (codes "KERNEL  BIN") (codes "KERNEL  BIN") ≡ false)
unfolding names_equal_8_3 strings_equal name_8_3 until_space
name_test = (refl, refl)

-- The image of the file, in two clusters.
abbrev hello : DirEntry
hello = record { name = codes "HELLO   TXT"; attr = 0x20; first_cluster = 3; file_size = 600 }

read_sectors-stretch_example :
    read_sectors (disk_read 512 content) volume 10 3
    ≡ (some (true, stretch content (10 * 512) (3 * 512)), [])
read_sectors-stretch_example =
    read_sectors-stretch (disk_read 512 content) volume content volume-HasSectors
      (disk_read-IsDisk 512 content 1) 10 3 (omega arith)

read_chain-data_example :
    read_chain (disk_read 512 content) volume 601 3 600 4096
    ≡ (some (true, take (min 600 4096) (chain_data volume content 601 3)), [])
read_chain-data_example =
    read_chain-data (disk_read 512 content) volume content volume-HasClusters
      (disk_read-IsDisk 512 content 1) 601 601 3 600 4096 (omega arith) (omega arith)

other_missing : first_with (is_file_named (codes "OTHER")) (root_entries volume content) ≡ none
unfolding first_with live_entries cluster_data stretch dir_entry ends_directory is_not_file
    is_skipped names_equal_8_3 strings_equal name_8_3 until_space
other_missing = refl

read_all_fails_example :
    read_all (disk_read 512 content) volume 4096
    ≡ (some failed, codes "FAT32: file not found in root\n")
read_all_fails_example =
    read_all_fails (disk_read 512 content) volume content volume-HasClusters
      (disk_read-IsDisk 512 content 1) 4096 (omega arith)
