-- ===== src/Gpt/Tests.antt =====
-- A run of the search for a partition.
use os_kernel_and_bootloader.Base.{ℕ, ◌≡◌, List, ◌∷◌, ◌++◌, some, replicate}
use os_kernel_and_bootloader.Memory.{memcmp}
use os_kernel_and_bootloader.Base.{codes, refl}
use os_kernel_and_bootloader.Gpt.{find_loop, find_partition, linux_guid}

-- An unused entry and a Linux partition.
abbrev two_entries : List ℕ
two_entries =
    replicate 128 0
    ++ linux_guid
    ++ replicate 16 0
    ++ 0 ∷ 8 ∷ replicate 6 0
    ++ 0xFF ∷ 0x0F ∷ replicate 86 0

linux_found :
    find_partition
      (record { part_entries_lba = 2; num_part_entries = 2; part_entry_size = 128 })
      two_entries
    ≡ (some (some (0x800, 0xFFF)), codes "GPT: partition found\n")
unfolding find_partition find_loop memcmp
linux_found = refl
