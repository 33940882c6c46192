-- ===== src/Kernel/Outcome.antt =====
-- How `kernel_main` ends on a disk with a FAT32 volume that holds the file, and on one with a large partition
-- table.
use os_kernel_and_bootloader.Base.{
  ℕ, ◌+◌, ◌*◌, ◌^◌, ◌≤◌, ◌<◌, ◌≡◌, ◌∙◌, List, length, ◌++◌, true, some, codes, le32,
}
use os_kernel_and_bootloader.Base.Run.{stop}
use os_kernel_and_bootloader.Memory.{memcmp, memcpy, is_zero}
use os_kernel_and_bootloader.Nvme.Api.{ReadBlocks, IsDisk}
use os_kernel_and_bootloader.Gpt.{header_of, buf_size, total_size, blocks}
use os_kernel_and_bootloader.Gpt.Search.{table, first_usable}
use os_kernel_and_bootloader.Fat32.Volume.{Volume, fat_size}
use os_kernel_and_bootloader.Fat32.Mounting.{loaded, described}
use os_kernel_and_bootloader.Fat32.Sectors.{HasSectors}
use os_kernel_and_bootloader.Fat32.Chain.{HasClusters}
use os_kernel_and_bootloader.Fat32.Directory.{DirEntry, entries}
use os_kernel_and_bootloader.Fat32.Lookup.{first_with, is_file_named, root_entries}
use os_kernel_and_bootloader.Kernel.{Machine, stopped, get_header, get_entries, use_disk}
use os_kernel_and_bootloader.Kernel.Runs.{continues, stops}
use os_kernel_and_bootloader.Kernel.Disk.{
  header_block, table_block, get_header_lem, get_entries_stops,
}

-- A disk with a GPT whose table fits the driver's page, and, on its first usable partition, a FAT32 volume
-- with the file KERNEL.BIN in its root; `gpt_buf` and `volume` are what the modules keep
-- before, and `entries` is the kernel's array.
pub record HasKernelBin (content : ℕ → ℕ) (block_size : ℕ) (gpt_buf : List ℕ) (volume : Volume)
    (entries : List ℕ) (first last : ℕ) (e : DirEntry) : Type 0 where
  pub some_bytes : 0 < block_size
  pub page : block_size ≤ 4096
  pub signature :
      is_zero (memcmp (header_block content block_size gpt_buf) (codes "EFI PART") 8) ≡ true
  pub entry_size : le32 (header_block content block_size gpt_buf) 84 ≡ 128
  pub some_blocks : 0 < blocks (header_of (header_block content block_size gpt_buf)) block_size
  pub table_range : (header_of (header_block content block_size gpt_buf)).part_entries_lba < 2 ^ 64
  pub table_fits :
      blocks (header_of (header_block content block_size gpt_buf)) block_size * block_size ≤ 4096
  pub total_fits : total_size (header_of (header_block content block_size gpt_buf)) ≤ buf_size
  pub entries_room :
      (header_of (header_block content block_size gpt_buf)).num_part_entries * 128 ≤ length entries
  pub copy_room : total_size (header_of (header_block content block_size gpt_buf)) ≤ length entries
  pub partition :
      let hdr = header_of (header_block content block_size gpt_buf) in
      let b = table_block content block_size hdr (header_block content block_size gpt_buf) in
      first_usable (table hdr.num_part_entries (memcpy entries b (total_size hdr)))
      ≡ some (first, last)
  pub first_range : first < 2 ^ 64
  pub sectors : HasSectors (described volume first block_size content)
  pub fat_range :
      let w = described volume first block_size content in w.first_fat_sector + fat_size w < 2 ^ 64
  pub fat_bytes :
      let w = described volume first block_size content in fat_size w * w.bytes_per_sector < 2 ^ 32
  pub clusters : HasClusters (loaded (described volume first block_size content) content)
  pub root : 0 < (loaded (described volume first block_size content) content).root_cluster
  pub file :
      first_with
        (is_file_named (codes "KERNEL.BIN"))
        (root_entries (loaded (described volume first block_size content) content) content)
      ≡ some e

module _ (read : ReadBlocks) (block_size : ℕ) (content : ℕ → ℕ)
    (disk : IsDisk read 1 block_size content) where
  -- A partition table that takes more than one page of the driver stops the kernel, though the table fits the
  -- buffer of 16 KiB.
  pub use_disk_stops :
      (s : Machine) (entries : List ℕ)
      → 0 < block_size
      → block_size ≤ 4096
      → is_zero (memcmp (header_block content block_size s.gpt_buf) (codes "EFI PART") 8) ≡ true
      → le32 (header_block content block_size s.gpt_buf) 84 ≡ 128
      → let hdr = header_of (header_block content block_size s.gpt_buf) in
        total_size hdr ≤ buf_size
        → 4096 < blocks hdr block_size * block_size
        → (text : List ℕ) × (use_disk read block_size entries s
            ≡ stop stopped (record s {
              gpt_buf = header_block content block_size s.gpt_buf;
              console = text ++ codes "GPT entries read failed\n";
            }))
  unfolding use_disk
  use_disk_stops s entries pos page signature size room large =
      let b = header_block content block_size s.gpt_buf in
      let hdr = header_of b in
      let (t₁, header) = get_header_lem read block_size content disk s page signature size in
      let s₁ : Machine = record s { gpt_buf = b; console = t₁ } in
      let (t₂, refused) =
        get_entries_stops read block_size content disk s₁ entries hdr pos page room large in
      (
        t₂,
        continues (get_header read block_size) _ s s₁ hdr header
            ∙ stops (get_entries read block_size entries hdr) _ s₁ _ stopped refused,
      )
