-- ===== src/Fat32/File.antt =====
-- `fat32_read_file_from_root`, `fat32_open` and `fat32_read_all`. The static buffer of a cluster
-- is overwritten before each use, and is not part of the state.
use os_kernel_and_bootloader.Base.{
  ℕ, zero, suc, ◌+◌, ◌-◌, List, [], Bool, true, false, ◌&&◌, ◌||◌, ltb, leb, ◌==◌, if◌then◌else◌,
  Option, none, some, take, codes,
}
use os_kernel_and_bootloader.Base.Io.{Io, ◌>>=◌, ◌>>◌, return, halt, print}
use os_kernel_and_bootloader.Nvme.Api.{ReadBlocks}
use os_kernel_and_bootloader.Fat32.Volume.{
  Volume, end_of_chain, fat_buf_size, cluster_bytes, read_cluster, next_cluster, prefixed,
}
use os_kernel_and_bootloader.Fat32.Directory.{DirEntry, find_entry, entries}

-- The clusters that hold data.
abbrev pub is_data : ℕ → Bool
is_data cluster = leb 2 cluster && ltb cluster 0x0FFF_FFF8

abbrev pub to_copy : Volume → ℕ → ℕ → ℕ
to_copy v remaining buffer_size =
    let whole = cluster_bytes v in
    let left = if ltb remaining whole then remaining else whole in
    if ltb buffer_size left then buffer_size else left

-- The result of the function, `*out_size` where it is stored, and the bytes stored from `buffer`.
pub record FileRead : Type 0 where
  pub result : Bool
  pub out_size : Option ℕ
  pub bytes : List ℕ

abbrev pub failed : FileRead
failed = record { result = false; out_size = none; bytes = [] }

-- A round of the loop when `fat32_read_cluster` has returned: `n` bytes are copied, and `rest` is
-- what the next rounds do.
unfoldable pub copy_cluster :
    ℕ → ℕ → ℕ → ℕ → Io (Bool × List ℕ) → Bool × List ℕ → Io (Bool × List ℕ)
copy_cluster n remaining buffer_size next rest (false, chunk) =
    print (codes "FAT32: failed to read file cluster\n") >> return (false, [])
copy_cluster n remaining buffer_size next rest (true, chunk) =
    if remaining == 0 || buffer_size == 0
    then return (true, take n chunk)
    else if next == end_of_chain || next == 0
    then return (true, take n chunk)
    else prefixed (take n chunk) rest

module _ (read : ReadBlocks) (v : Volume) where
  -- The loop over the clusters of a file.
  unfoldable pub read_chain : ℕ → ℕ → ℕ → ℕ → Io (Bool × List ℕ)
  read_chain zero cluster remaining buffer_size = halt
  read_chain (suc fuel) cluster remaining buffer_size =
      let n = to_copy v remaining buffer_size in
      let next = next_cluster v cluster in
      let rest = read_chain fuel next (remaining - n) (buffer_size - n) in
      let round =
        read_cluster read v cluster
        >>= copy_cluster n (remaining - n) (buffer_size - n) next rest in
      if is_data cluster && ltb 0 remaining && ltb 0 buffer_size then round else return (true, [])

  -- What follows when the entry is found. A round copies at least a byte, so
  -- `file_size + 1` rounds are enough.
  unfoldable pub read_found : DirEntry → ℕ → Io FileRead
  read_found e buffer_size = do
    r ← read_chain (e.file_size + 1) e.first_cluster e.file_size buffer_size
    let done : FileRead = record { result = r.0; out_size = some e.file_size; bytes = r.1 }
    if r.0 then (print (codes "FAT32: file read\n") >> return done) else return done

  unfoldable pub read_search : Option DirEntry → ℕ → Io FileRead
  read_search none buffer_size = print (codes "FAT32: file not found in root\n") >> return failed
  read_search (some e) buffer_size = read_found e buffer_size

  unfoldable pub read_file_from_root : List ℕ → ℕ → Io FileRead
  read_file_from_root name buffer_size =
      if v.root_cluster == 0 then (print (codes "FAT32: not mounted\n") >> return failed) else (do
        r ← read_cluster read v v.root_cluster
        if r.0
            then read_search (find_entry (entries v) r.1 name) buffer_size
            else (print (codes "FAT32: failed to read root cluster\n") >> return failed))

  -- `fat32_open`: the entry whose cluster and size it stores.
  unfoldable pub open_file : List ℕ → Io (Option DirEntry)
  open_file path = do
    first ← read_file_from_root path fat_buf_size
    if first.result
        then (do
          r ← read_cluster read v v.root_cluster
          return (if r.0 then find_entry (entries v) r.1 path else none))
        else return none

  -- The structure for the file is not read.
  unfoldable pub read_all : ℕ → Io FileRead
  read_all size = read_file_from_root (codes "KERNEL  BIN") size
