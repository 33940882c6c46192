-- ===== src/Fat32/Lookup.antt =====
-- The search of the root directory, and the reads of files by name.
use os_kernel_and_bootloader.Base.{
  ℕ, zero, suc, ◌+◌, ◌<◌, ◌≡◌, refl, ap, sym, ◌∙◌, List, [], ◌∷◌, Bool, true, not, ◌&&◌, Option,
  none, some, arith, pos→ne_zero, if◌then◌else◌, take, drop, min, codes,
}
use os_kernel_and_bootloader.Nvme.Api.{ReadBlocks, IsDisk}
use os_kernel_and_bootloader.Fat32.Volume.{Volume, nsid}
use os_kernel_and_bootloader.Fat32.Name.{Has, All, IsNot, names_equal_8_3, names_equal_8_3-space}
use os_kernel_and_bootloader.Fat32.Directory.{
  DirEntry, dir_entry, ends_directory, is_not_file, find_entry, entries,
}
use os_kernel_and_bootloader.Fat32.File.{
  FileRead, failed, read_found, read_search, read_file_from_root, read_all,
}
use os_kernel_and_bootloader.Fat32.Chain.{
  HasClusters, cluster_data, chain_data, read_cluster-data, read_chain-data,
}

-- The directory as a list: the entries before the first one that ends it.
unfoldable pub live_entries : ℕ → List ℕ → List DirEntry
live_entries zero bytes = []
live_entries (suc n) bytes =
    let e = dir_entry bytes in if ends_directory e then [] else e ∷ live_entries n (drop 32 bytes)

-- The first element with a property.
unfoldable pub first_with : (DirEntry → Bool) → List DirEntry → Option DirEntry
first_with p [] = none
first_with p (e ∷ es) = if p e then some e else first_with p es

abbrev pub is_file_named : List ℕ → DirEntry → Bool
is_file_named name e = not (is_not_file e) && names_equal_8_3 e.name name

-- The search finds the first entry before the end of the directory that is a file of that name:
-- neither deleted, nor a part of a long name, nor a directory.
pub find_entry_lem :
    (n : ℕ) (bytes name : List ℕ)
    → find_entry n bytes name ≡ first_with (is_file_named name) (live_entries n bytes)
unfolding find_entry live_entries first_with
find_entry_lem zero bytes name = refl
find_entry_lem (suc n) bytes name = ground (arith, find_entry_lem n (drop 32 bytes) name)

find_entry-none :
    (n : ℕ) (bytes name : List ℕ)
    → Has b' ' name
    → All (IsNot 0) name
    → find_entry n bytes name ≡ none
unfolding find_entry
find_entry-none zero bytes name h p = refl
find_entry-none (suc n) bytes name h p =
    let unequal = names_equal_8_3-space (dir_entry bytes).name name h p in
    let rest = find_entry-none n (drop 32 bytes) name h p in rw (unequal, rest) (ground arith)

-- The entries of the root directory on the disk.
abbrev pub root_entries : Volume → (ℕ → ℕ) → List DirEntry
root_entries v content = live_entries (entries v) (cluster_data v content v.root_cluster)

-- What a read of a file with this entry returns.
abbrev pub contents : Volume → (ℕ → ℕ) → DirEntry → ℕ → FileRead
contents v content e buffer_size = record {
  result = true;
  out_size = some e.file_size;
  bytes =
      take (min e.file_size buffer_size) (chain_data v content (e.file_size + 1) e.first_cluster);
}

module _ (read : ReadBlocks) (v : Volume) (content : ℕ → ℕ) (clusters : HasClusters v)
    (disk : IsDisk read nsid v.block_size content) where
  read_file-search :
      (name : List ℕ) (buffer_size : ℕ)
      → 0 < v.root_cluster
      → read_file_from_root read v name buffer_size
        ≡ read_search read v (first_with (is_file_named name) (root_entries v content)) buffer_size
  unfolding read_file_from_root
  read_file-search name buffer_size h =
      rw
        (
          pos→ne_zero v.root_cluster h,
          read_cluster-data read v content clusters disk v.root_cluster,
          find_entry_lem (entries v) (cluster_data v content v.root_cluster) name,
        )
        refl

  read_found-data :
      (e : DirEntry) (buffer_size : ℕ)
      → read_found read v e buffer_size
        ≡ (some (contents v content e buffer_size), codes "FAT32: file read\n")
  unfolding read_found
  read_found-data e buffer_size =
      rw
        (read_chain-data read v content clusters disk (e.file_size + 1) (e.file_size + 1)
          e.first_cluster e.file_size buffer_size (omega arith) (omega arith))
        refl

  pub read_file_from_root_found :
      (name : List ℕ) (buffer_size : ℕ) (e : DirEntry)
      → 0 < v.root_cluster
      → first_with (is_file_named name) (root_entries v content) ≡ some e
      → read_file_from_root read v name buffer_size
        ≡ (some (contents v content e buffer_size), codes "FAT32: file read\n")
  unfolding read_search
  read_file_from_root_found name buffer_size e h found =
      read_file-search name buffer_size h
      ∙ ap (λ s. read_search read v s buffer_size) found
      ∙ read_found-data e buffer_size

  -- Where the root's cluster has no such file, the call fails, stores nothing and says so.
  pub read_file_from_root_missing :
      (name : List ℕ) (buffer_size : ℕ)
      → 0 < v.root_cluster
      → first_with (is_file_named name) (root_entries v content) ≡ none
      → read_file_from_root read v name buffer_size
        ≡ (some failed, codes "FAT32: file not found in root\n")
  unfolding read_search
  read_file_from_root_missing name buffer_size h missing =
      read_file-search name buffer_size h ∙ ap (λ s. read_search read v s buffer_size) missing

  -- `fat32_read_all` fails on every mounted volume whose clusters fit the driver's buffer: it looks for the name "KERNEL  BIN" with its
  -- spaces, which is the name of no entry.
  pub read_all_fails :
      (size : ℕ)
      → 0 < v.root_cluster
      → read_all read v size ≡ (some failed, codes "FAT32: file not found in root\n")
  unfolding read_all
  read_all_fails size h = read_file_from_root_missing (codes "KERNEL  BIN") size h (
      sym (find_entry_lem (entries v) (cluster_data v content v.root_cluster) (codes "KERNEL  BIN"))
      ∙ find_entry-none (entries v) _ (codes "KERNEL  BIN") (omega arith) (omega arith))
