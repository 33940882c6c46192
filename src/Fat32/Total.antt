-- ===== src/Fat32/Total.antt =====
-- The functions of the file system return, if the clusters of the volume fit the driver's buffer.
use os_kernel_and_bootloader.Base.{
  ℕ, zero, suc, ◌+◌, ◌-◌, ◌/◌, ◌≤◌, ◌<◌, ◌≡◌, ◌*◌, ◌^◌, ap, u32, length, length-append, length-take,
  le→ltb, inl, inr, arith, List, [], ◌++◌, Bool, true, false, ◌&&◌, ◌||◌, ltb, ◌==◌, Bool-cases,
  Option, none, some, pos→ne_zero, u64, drop, codes,
}
use native.Mathlib.Nat.{mod-lt, mod-le}
use os_kernel_and_bootloader.Base.Io.{Io, ◌>>◌, return, print}
use os_kernel_and_bootloader.Base.Returns.{
  said-Returns, Returns, return-Returns, print-Returns, bind-Returns, seq-Returns, if-Returns,
  Gives, return-Gives, bind-Gives, said-Gives,
}
use os_kernel_and_bootloader.Nvme.Api.{ReadBlocks, Answering}
use os_kernel_and_bootloader.Fat32.Volume.{
  Volume, nsid, sectors_per_block, cluster_bytes, sectors_here, copied, within, cluster_buf_size,
  prefixed, read_loop, read_sectors, read_cluster, cluster_to_sector, next_cluster, end_of_chain,
}
use os_kernel_and_bootloader.Fat32.Directory.{
  DirEntry, dir_entry, ends_directory, is_skipped, list_entry, list_loop, list_root, find_entry,
  entries,
}
use os_kernel_and_bootloader.Fat32.File.{
  is_data, to_copy, copy_cluster, read_chain, read_found, read_search, read_file_from_root,
}

prefixed-Returns :
    (chunk : List ℕ) (rest : Io (Bool × List ℕ)) → Returns rest → Returns (prefixed chunk rest)
prefixed-Returns chunk rest h = bind-Returns rest _ h (λ r. return-Returns (r.0, chunk ++ r.1))

-- A cluster fits the driver's buffer.
abbrev pub ClusterFits : Volume → Type 0
ClusterFits v = v.sectors_per_cluster * v.bytes_per_sector ≤ cluster_buf_size

-- No more bytes are stored than that.
abbrev pub Stores : ℕ → Bool × List ℕ → Type 0
Stores n r = length r.1 ≤ n

prefixed-Gives :
    (chunk : List ℕ) (rest : Io (Bool × List ℕ)) (k n : ℕ)
    → length chunk + k ≤ n
    → Gives (Stores k) rest
    → Gives (Stores n) (prefixed chunk rest)
unfolding Gives
prefixed-Gives chunk (none, t) k n h g = absurd g
prefixed-Gives chunk (some r, t) k n h g = omega (arith, length-append chunk r.1)

-- A read that stores no more than the buffer has room for.
pub within-Gives :
    (size n : ℕ) (m : Io (Bool × List ℕ)) → n ≤ size → Gives (Stores n) m → Returns (within size m)
unfolding within Gives Returns
within-Gives size n (none, t) h g = absurd g
within-Gives size n (some r, t) h g = rw (le→ltb size (length r.1) (omega arith)) tt

round_sizes :
    (here count bps stored : ℕ)
    → here ≤ count
    → stored ≤ here * bps
    → stored + (count - here) * bps ≤ count * bps
round_sizes here count bps stored h k =
    let sum : here + (count - here) ≡ count = omega arith in
    omega (arith, ap (λ (t : ℕ). t * bps) sum)

length-copied :
    (v : Volume) (lba count : ℕ) (block : List ℕ)
    → length (copied v lba count block) ≤ sectors_here v lba count * v.bytes_per_sector
length-copied v lba count block =
    let wanted = sectors_here v lba count * v.bytes_per_sector in
    omega (arith, length-take (u32 wanted) (drop _ block), mod-le wanted (2 ^ 32))

module _ (read : ReadBlocks) (answering : Answering read) (v : Volume) where
  read_loop-Gives :
      (fuel lba count : ℕ)
      → 0 < sectors_per_block v
      → count < fuel
      → Gives (Stores (count * v.bytes_per_sector)) (read_loop read v fuel lba count)
  unfolding read_loop
  read_loop-Gives zero lba count more h = absurd (omega arith)
  read_loop-Gives (suc fuel) lba count more h = elim (Bool-cases (count == 0)) [
    | inl finished ↦ rw finished (return-Gives _ (true, []) (omega arith))
    | inr left ↦
        let here = sectors_here v lba count in
        let progress : (0 < here) × (here ≤ count) = ground (arith, left, mod-lt lba more) in
        let rest = read_loop-Gives fuel (u64 (lba + here)) (count - here) more (omega arith) in
        rw left (
          bind-Gives _ (read nsid (lba / sectors_per_block v) 1 v.block_size) _ (answering _ _ _ _)
            (round _ progress.1 rest))
  ]
    where
      round :
          (rest : Io (Bool × List ℕ))
          → sectors_here v lba count ≤ count
          → Gives (Stores ((count - sectors_here v lba count) * v.bytes_per_sector)) rest
          → (r : Option (List ℕ))
          → Gives {A = Bool × List ℕ} (Stores (count * v.bytes_per_sector)) (elim r [
            | none ↦ print (codes "FAT32: nvme_read_blocks failed\n") >> return (false, [])
            | some block ↦ prefixed (copied v lba count block) rest
          ])
      round rest some_here h none =
          said-Gives _ (codes "FAT32: nvme_read_blocks failed\n") (false, []) (omega arith)
      round rest some_here h (some block) =
          prefixed-Gives (copied v lba count block) rest _ _
            (round_sizes (sectors_here v lba count) count v.bytes_per_sector _ some_here
              (length-copied v lba count block))
            h

  pub read_sectors-Gives :
      (lba count : ℕ)
      → 0 < v.bytes_per_sector
      → Gives (Stores (count * v.bytes_per_sector)) (read_sectors read v lba count)
  unfolding read_sectors
  read_sectors-Gives lba count pos = elim (Bool-cases (sectors_per_block v == 0)) [
    | inl none_here ↦
        rw (pos→ne_zero v.bytes_per_sector pos, none_here)
          (return-Gives _ (false, []) (omega arith))
    | inr some_here ↦
        rw (pos→ne_zero v.bytes_per_sector pos, some_here)
          (read_loop-Gives (count + 1) lba count (ground (arith, some_here)) (omega arith))
  ]

  read_cluster-Returns :
      (cluster : ℕ) → 0 < v.bytes_per_sector → ClusterFits v → Returns (read_cluster read v cluster)
  unfolding read_cluster
  read_cluster-Returns cluster pos fits =
      within-Gives cluster_buf_size _ _ fits
        (read_sectors-Gives (cluster_to_sector v cluster) v.sectors_per_cluster pos)

  list_entry-Returns : (e : DirEntry) → Returns (list_entry e)
  unfolding list_entry Returns
  list_entry-Returns e = tt

  list_loop-Returns : (n : ℕ) (bytes : List ℕ) → Returns (list_loop n bytes)
  unfolding list_loop
  list_loop-Returns zero bytes = return-Returns tt
  list_loop-Returns (suc n) bytes =
      let rest = list_loop-Returns n (drop 32 bytes) in
      let e = dir_entry bytes in
      if-Returns (ends_directory e) _ _ (return-Returns tt) (
        if-Returns (is_skipped e) _ _ rest
          (seq-Returns (list_entry e) _ (list_entry-Returns e) rest))

  pub list_root-Returns : 0 < v.bytes_per_sector → ClusterFits v → Returns (list_root read v)
  unfolding list_root
  list_root-Returns pos fits = if-Returns (v.root_cluster == 0) _ _ (print-Returns _) (
      bind-Returns (read_cluster read v v.root_cluster) _
        (read_cluster-Returns v.root_cluster pos fits)
        (λ r.
          if-Returns r.0 _ _
            (seq-Returns (print (codes "FAT32: root directory:\n")) _ (print-Returns _)
              (list_loop-Returns (entries v) r.1))
            (print-Returns _)))

  copy_cluster-Returns :
      (n remaining buffer_size next : ℕ) (rest : Io (Bool × List ℕ)) (r : Bool × List ℕ)
      → Returns rest
      → Returns (copy_cluster n remaining buffer_size next rest r)
  unfolding copy_cluster
  copy_cluster-Returns n remaining buffer_size next rest (false, chunk) h =
      said-Returns (codes "FAT32: failed to read file cluster\n") _
  copy_cluster-Returns n remaining buffer_size next rest (true, chunk) h =
      if-Returns (remaining == 0 || buffer_size == 0) _ _ (return-Returns _) (
        if-Returns (next == end_of_chain || next == 0) _ _ (return-Returns _)
          (prefixed-Returns _ rest h))

  -- Each round copies at least a byte, so a chain that never ends does not matter.
  read_chain-Returns :
      (fuel cluster remaining buffer_size : ℕ)
      → 0 < v.bytes_per_sector
      → ClusterFits v
      → 0 < cluster_bytes v
      → remaining < fuel
      → Returns (read_chain read v fuel cluster remaining buffer_size)
  unfolding read_chain
  read_chain-Returns zero cluster remaining buffer_size pos fits whole h = absurd (omega arith)
  read_chain-Returns (suc fuel) cluster remaining buffer_size pos fits whole h =
      elim (Bool-cases (is_data cluster && ltb 0 remaining && ltb 0 buffer_size)) [
        | inl go ↦
            let n = to_copy v remaining buffer_size in
            let progress : (0 < n) × (n ≤ remaining) = ground (arith, go, whole) in
            let rest =
              read_chain-Returns fuel (next_cluster v cluster) (remaining - n) (buffer_size - n) pos
                fits whole (omega arith) in
            rw go (
              bind-Returns (read_cluster read v cluster) _ (read_cluster-Returns cluster pos fits)
                (λ r.
                  copy_cluster-Returns n (remaining - n) (buffer_size - n) (next_cluster v cluster)
                    _ r rest))
        | inr over ↦ rw over (return-Returns (true, []))
      ]

  read_search-Returns :
      (found : Option DirEntry) (buffer_size : ℕ)
      → 0 < v.bytes_per_sector
      → ClusterFits v
      → 0 < cluster_bytes v
      → Returns (read_search read v found buffer_size)
  unfolding read_search read_found
  read_search-Returns none buffer_size pos fits whole =
      said-Returns (codes "FAT32: file not found in root\n") _
  read_search-Returns (some e) buffer_size pos fits whole =
      bind-Returns (read_chain read v (e.file_size + 1) e.first_cluster e.file_size buffer_size) _
        (read_chain-Returns (e.file_size + 1) e.first_cluster e.file_size buffer_size pos fits whole
          (omega arith))
        (λ r. if-Returns r.0 _ _ (said-Returns (codes "FAT32: file read\n") _) (return-Returns _))

  nothing_found :
      (bytes name : List ℕ) (buffer_size : ℕ)
      → Returns (read_search read v (find_entry 0 bytes name) buffer_size)
  unfolding find_entry read_search
  nothing_found bytes name buffer_size = said-Returns (codes "FAT32: file not found in root\n") _

  -- Without bytes in a cluster, the root has no entries to find.
  search_root :
      (bytes name : List ℕ) (buffer_size : ℕ)
      → 0 < v.bytes_per_sector
      → ClusterFits v
      → Returns (read_search read v (find_entry (entries v) bytes name) buffer_size)
  search_root bytes name buffer_size pos fits = elim (Bool-cases (cluster_bytes v == 0)) [
    | inl empty ↦
        let no_entries : entries v ≡ 0 = ground (arith, empty) in
        rw no_entries (nothing_found bytes name buffer_size)
    | inr some_bytes ↦ read_search-Returns _ buffer_size pos fits (ground (arith, some_bytes))
  ]

  pub read_file-Returns :
      (name : List ℕ) (buffer_size : ℕ)
      → 0 < v.bytes_per_sector
      → ClusterFits v
      → Returns (read_file_from_root read v name buffer_size)
  unfolding read_file_from_root
  read_file-Returns name buffer_size pos fits =
      if-Returns (v.root_cluster == 0) _ _ (said-Returns (codes "FAT32: not mounted\n") _) (
        bind-Returns (read_cluster read v v.root_cluster) _
          (read_cluster-Returns v.root_cluster pos fits)
          (λ r.
            if-Returns r.0 _ _ (search_root r.1 name buffer_size pos fits)
              (said-Returns (codes "FAT32: failed to read root cluster\n") _)))
