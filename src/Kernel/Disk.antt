-- ===== src/Kernel/Disk.antt =====
-- The parts of `kernel_main` that use the disk, each on a disk with what it looks for.
use os_kernel_and_bootloader.Base.{
  ℕ, ◌+◌, ◌*◌, ◌^◌, ◌≤◌, ◌<◌, ◌≡◌, refl, ap, ◌∙◌, List, length, ◌++◌, true, Bool-cases, inl, inr,
  some, arith, codes, stretch, store, le32, pos→ne_zero, zero, suc, drop, le→ltb,
}
use os_kernel_and_bootloader.Base.Run.{stop, next}
use os_kernel_and_bootloader.Memory.{memcmp, memcpy, is_zero}
use os_kernel_and_bootloader.Nvme.Api.{ReadBlocks, IsDisk}
use os_kernel_and_bootloader.Gpt.{
  GptHeader, header_of, buf_size, total_size, blocks, check_header, take_entries, read_header,
  read_entries, find_partition,
}
use os_kernel_and_bootloader.Gpt.Table.{read_entries_refused}
use os_kernel_and_bootloader.Gpt.Search.{table, first_usable, find_partition_lem}
use os_kernel_and_bootloader.Fat32.Volume.{Volume, mount, fat_size}
use os_kernel_and_bootloader.Fat32.Mounting.{loaded, described, mount_lem}
use os_kernel_and_bootloader.Fat32.Sectors.{HasSectors}
use os_kernel_and_bootloader.Fat32.Chain.{HasClusters, cluster_data, read_cluster-data}
use os_kernel_and_bootloader.Fat32.Directory.{
  DirEntry, dir_entry, ends_directory, is_skipped, list_entry, list_loop, list_root, entries,
}
use os_kernel_and_bootloader.Fat32.Lookup.{
  first_with, is_file_named, root_entries, contents, read_file_from_root_found,
}
use os_kernel_and_bootloader.Fat32.File.{read_file_from_root}
use os_kernel_and_bootloader.Kernel.{
  Machine, stopped, say, from_io, found, get_header, get_entries, get_partition, mount_volume,
  file_report, read_kernel_bin,
}
use os_kernel_and_bootloader.Kernel.Runs.{with_console, continues, from_io_lem}

-- What the first block leaves in the buffer, and the header in it.
abbrev pub header_block : (ℕ → ℕ) → ℕ → List ℕ → List ℕ
header_block content block_size gpt_buf =
    store gpt_buf (stretch content (1 * block_size) (1 * block_size))

-- What the partition table leaves in the buffer.
abbrev pub table_block : (ℕ → ℕ) → ℕ → GptHeader → List ℕ → List ℕ
table_block content block_size hdr gpt_buf =
    store gpt_buf
      (stretch content (hdr.part_entries_lba * block_size) (blocks hdr block_size * block_size))

module _ (read : ReadBlocks) (block_size : ℕ) (content : ℕ → ℕ)
    (disk : IsDisk read 1 block_size content) where
  read_header_lem :
      (gpt_buf : List ℕ)
      → block_size ≤ 4096
      → let b = store gpt_buf (stretch content (1 * block_size) (1 * block_size)) in
        is_zero (memcmp b (codes "EFI PART") 8) ≡ true
        → le32 b 84 ≡ 128
        → (read_header read 1 gpt_buf).0 ≡ some (b, some (header_of b))
  unfolding read_header check_header
  read_header_lem gpt_buf page signature size =
      rw
        (
          disk.serves 1 1 buf_size (omega arith) (omega arith) (omega arith) (omega arith),
          signature,
          size,
        )
        refl

  read_entries_lem :
      (hdr : GptHeader) (gpt_buf entries : List ℕ)
      → 0 < block_size
      → 0 < blocks hdr block_size
      → hdr.part_entries_lba < 2 ^ 64
      → blocks hdr block_size * block_size ≤ 4096
      → total_size hdr ≤ buf_size
      → let b = table_block content block_size hdr gpt_buf in
        (read_entries read 1 block_size hdr gpt_buf entries).0
        ≡ some (b, some (memcpy entries b (total_size hdr)))
  unfolding read_entries take_entries
  read_entries_lem hdr gpt_buf entries pos more range fits room =
      rw
        (
          pos→ne_zero block_size pos,
          le→ltb buf_size (total_size hdr) room,
          disk.serves hdr.part_entries_lba (blocks hdr block_size) buf_size more range fits
              (omega arith),
        )
        refl

list_loop_returns : (n : ℕ) (bytes : List ℕ) → (list_loop n bytes).0 ≡ some tt
unfolding list_loop list_entry
list_loop_returns zero bytes = refl
list_loop_returns (suc n) bytes =
    let rest = list_loop_returns n (drop 32 bytes) in
    elim (Bool-cases (ends_directory (dir_entry bytes))) [
      | inl ends ↦ rw ends refl
      | inr more ↦ elim (Bool-cases (is_skipped (dir_entry bytes))) [
        | inl skipped ↦ rw (more, skipped) rest
        | inr listed ↦ rw (more, listed) rest
      ]
    ]

module _ (read : ReadBlocks) (v : Volume) (content : ℕ → ℕ) (clusters : HasClusters v)
    (disk : IsDisk read 1 v.block_size content) where
  list_root_returns : 0 < v.root_cluster → (list_root read v).0 ≡ some tt
  unfolding list_root
  list_root_returns h =
      rw
        (
          pos→ne_zero v.root_cluster h,
          read_cluster-data read v content clusters disk v.root_cluster,
        )
        (list_loop_returns (entries v) (cluster_data v content v.root_cluster))

module _ (read : ReadBlocks) (block_size : ℕ) (content : ℕ → ℕ)
    (disk : IsDisk read 1 block_size content) where
  pub get_header_lem :
      (s : Machine)
      → block_size ≤ 4096
      → is_zero (memcmp (header_block content block_size s.gpt_buf) (codes "EFI PART") 8) ≡ true
      → le32 (header_block content block_size s.gpt_buf) 84 ≡ 128
      → let b = header_block content block_size s.gpt_buf in
        (text : List ℕ) × (get_header read block_size s
          ≡ next (header_of b) (record s { gpt_buf = b; console = text }))
  unfolding get_header found
  get_header_lem s page signature size = (
    _,
    continues (from_io (read_header read 1 s.gpt_buf)) _ s _ _ (
        from_io_lem _ _ s
          (read_header_lem read block_size content disk s.gpt_buf page signature size)),
  )

  pub get_entries_lem :
      (s : Machine) (entries : List ℕ) (hdr : GptHeader)
      → 0 < block_size
      → 0 < blocks hdr block_size
      → hdr.part_entries_lba < 2 ^ 64
      → blocks hdr block_size * block_size ≤ 4096
      → total_size hdr ≤ buf_size
      → let b = table_block content block_size hdr s.gpt_buf in
        (text : List ℕ) × (get_entries read block_size entries hdr s
          ≡ next (memcpy entries b (total_size hdr)) (record s { gpt_buf = b; console = text }))
  unfolding get_entries found
  get_entries_lem s entries hdr pos more range fits room = (
    _,
    continues (from_io (read_entries read 1 block_size hdr s.gpt_buf entries)) _ s _ _ (
        from_io_lem _ _ s (
          read_entries_lem read block_size content disk hdr s.gpt_buf entries pos more range fits
            room)),
  )

  pub get_entries_stops :
      (s : Machine) (entries : List ℕ) (hdr : GptHeader)
      → 0 < block_size
      → block_size ≤ 4096
      → total_size hdr ≤ buf_size
      → 4096 < blocks hdr block_size * block_size
      → (text : List ℕ) × (get_entries read block_size entries hdr s
          ≡ stop stopped (with_console (text ++ codes "GPT entries read failed\n") s))
  unfolding get_entries found say
  get_entries_stops s entries hdr pos page room large =
      let m = read_entries read 1 block_size hdr s.gpt_buf entries in
      (
        s.console ++ m.1,
        continues (from_io m) _ s _ _ (
            from_io_lem m _ s (
              read_entries_refused read 1 block_size content disk hdr s.gpt_buf entries pos page
                room large)),
      )

  pub get_partition_lem :
      (s : Machine) (hdr : GptHeader) (entries : List ℕ) (first last : ℕ)
      → hdr.num_part_entries * 128 ≤ length entries
      → first_usable (table hdr.num_part_entries entries) ≡ some (first, last)
      → (text : List ℕ) × (get_partition read block_size hdr entries s
          ≡ next first (with_console text s))
  unfolding get_partition found say
  get_partition_lem s hdr entries first last room e = (
    _,
    continues (from_io (find_partition hdr entries)) _ s _ _ (
        from_io_lem _ (some (first, last)) s
          (ap (λ m. m.0) (find_partition_lem hdr entries room) ∙ ap some e)),
  )

  pub mount_volume_lem :
      (s : Machine) (first : ℕ)
      → let w = described s.volume first block_size content in
        HasSectors w
        → first < 2 ^ 64
        → w.first_fat_sector + fat_size w < 2 ^ 64
        → fat_size w * w.bytes_per_sector < 2 ^ 32
        → (text : List ℕ) × (mount_volume read block_size first s
            ≡ next tt (record s { volume = loaded w content; console = text }))
  unfolding mount_volume
  mount_volume_lem s first sectors range fat_range no_wrap = (
    _,
    continues (from_io (mount read s.volume first block_size)) _ s _ _ (
        from_io_lem _ _ s
          (mount_lem read s.volume content first block_size disk sectors range fat_range no_wrap)),
  )

  pub read_kernel_bin_lem :
      (s : Machine) (e : DirEntry)
      → HasClusters s.volume
      → IsDisk read 1 s.volume.block_size content
      → 0 < s.volume.root_cluster
      → first_with (is_file_named (codes "KERNEL.BIN")) (root_entries s.volume content) ≡ some e
      → (text : List ℕ) × (read_kernel_bin read block_size s
          ≡ next tt (record s {
            file_buf = store s.file_buf (contents s.volume content e 4096).bytes;
            console = text;
          }))
  unfolding read_kernel_bin file_report say
  read_kernel_bin_lem s e clusters same_disk root file =
      let t : Machine = with_console (s.console ++ (list_root read s.volume).1) s in
      (
        _,
        continues (from_io (list_root read s.volume)) _ s _ _
              (from_io_lem _ _ s (list_root_returns read s.volume content clusters same_disk root))
            ∙ continues (from_io (read_file_from_root read s.volume (codes "KERNEL.BIN") 4096)) _ t
                _ _
                (from_io_lem _ _ t (
                  ap (λ m. m.0)
                    (read_file_from_root_found read s.volume content clusters same_disk
                      (codes "KERNEL.BIN") 4096 e root file))),
      )
