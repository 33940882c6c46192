-- ===== src/Fat32/Volume.antt =====
-- The state of the driver, and its functions from `fat32_read_sectors` to `fat32_next_cluster`.
-- The copy of the boot sector in `g_bpb` is never read, and left out.
use os_kernel_and_bootloader.Base.{
  Option, ℕ, zero, suc, ◌+◌, ◌-◌, ◌*◌, ◌/◌, ◌%◌, List, [], ◌++◌, Bool, true, false, not, ◌||◌, ltb,
  leb, ◌==◌, if◌then◌else◌, none, some, take, drop, codes, u32, u64, sub32, le8, le16, le32, store,
  bit_and, length,
}
use os_kernel_and_bootloader.Base.Io.{Io, ◌>>=◌, ◌>>◌, return, halt, print, print_hex}
use os_kernel_and_bootloader.Nvme.Api.{ReadBlocks}

pub record Volume : Type 0 where
  pub part_start_lba : ℕ
  pub block_size : ℕ
  pub first_fat_sector : ℕ
  pub data_region_sector : ℕ
  pub root_cluster : ℕ
  pub bytes_per_sector : ℕ
  pub sectors_per_cluster : ℕ
  pub sector_buf : List ℕ  -- 4096 bytes
  pub fat_buf : List ℕ  -- 32768 bytes
  pub fat_loaded : Bool  -- whether `g_fat_table` points to `fat_buf`
  pub fat_entries : ℕ

abbrev pub nsid : ℕ
nsid = 1

abbrev pub fat_buf_size : ℕ
fat_buf_size = 4096 * 8

abbrev pub cluster_buf_size : ℕ
cluster_buf_size = 4096 * 8

abbrev pub end_of_chain : ℕ
end_of_chain = 0x0FFF_FFFF

abbrev pub sectors_per_block : Volume → ℕ
sectors_per_block v = v.block_size / v.bytes_per_sector

abbrev pub cluster_bytes : Volume → ℕ
cluster_bytes v = u32 (v.sectors_per_cluster * v.bytes_per_sector)

-- The sectors that a round reads: up to the end of the block, or of the request.
abbrev pub sectors_here : Volume → ℕ → ℕ → ℕ
sectors_here v lba_sector sector_count =
    let here = sectors_per_block v - lba_sector % sectors_per_block v in
    if ltb sector_count here then sector_count else here

-- What a round copies out of the block.
abbrev pub copied : Volume → ℕ → ℕ → List ℕ → List ℕ
copied v lba_sector sector_count block =
    take (u32 (sectors_here v lba_sector sector_count * v.bytes_per_sector))
      (drop (u32 (lba_sector % sectors_per_block v * v.bytes_per_sector)) block)

-- The result of a copy, in front of what the rest of the loop stores.
abbrev pub prefixed : List ℕ → Io (Bool × List ℕ) → Io (Bool × List ℕ)
prefixed chunk rest = do r ← rest; return (r.0, chunk ++ r.1)

abbrev pub cluster_to_sector : Volume → ℕ → ℕ
cluster_to_sector v cluster =
    u64 (v.data_region_sector + u64 (sub32 cluster 2 * v.sectors_per_cluster))

-- A read into a static buffer of `size` bytes, which the driver does not pass on. Bytes stored past its
-- end would go over the driver's other variables: there the model halts, as in a CPU fault.
unfoldable pub within : ℕ → Io (Bool × List ℕ) → Io (Bool × List ℕ)
within size m = m >>= λ r. if ltb size (length r.1) then halt else return r

module _ (read : ReadBlocks) (v : Volume) where
  -- The loop of `fat32_read_sectors`: its result, and the bytes stored from `dst` on.
  unfoldable pub read_loop : ℕ → ℕ → ℕ → Io (Bool × List ℕ)
  read_loop zero lba_sector sector_count = halt
  read_loop (suc fuel) lba_sector sector_count =
      let here = sectors_here v lba_sector sector_count in
      let rest = read_loop fuel (u64 (lba_sector + here)) (sector_count - here) in
      let round = read nsid (lba_sector / sectors_per_block v) 1 v.block_size >>= λ r. elim r [
        | none ↦ print (codes "FAT32: nvme_read_blocks failed\n") >> return (false, [])
        | some block ↦ prefixed (copied v lba_sector sector_count block) rest
      ] in
      if sector_count == 0 then return (true, []) else round

  -- A round reads at least one sector, so `sector_count + 1` rounds are enough. The division
  -- by a zero `g_bytes_per_sector` is a CPU fault.
  unfoldable pub read_sectors : ℕ → ℕ → Io (Bool × List ℕ)
  read_sectors lba_sector sector_count =
      if v.bytes_per_sector == 0
      then halt
      else if sectors_per_block v == 0
      then return (false, [])
      else read_loop (sector_count + 1) lba_sector sector_count

  -- Every caller passes `fat32_cluster_buf`.
  unfoldable pub read_cluster : ℕ → Io (Bool × List ℕ)
  read_cluster cluster =
      within cluster_buf_size (read_sectors (cluster_to_sector v cluster) v.sectors_per_cluster)

unfoldable pub next_cluster : Volume → ℕ → ℕ
next_cluster v cluster =
    if not v.fat_loaded
    then end_of_chain
    else if leb v.fat_entries cluster
    then end_of_chain
    else bit_and (le32 v.fat_buf (4 * cluster)) end_of_chain

-- The globals that `fat32_mount` takes from the boot sector.
unfoldable pub with_bpb : Volume → List ℕ → Volume
with_bpb v bytes =
    let b = store v.sector_buf bytes in
    record v {
      sector_buf = b;
      bytes_per_sector = le16 b 11;
      sectors_per_cluster = le8 b 13;
      root_cluster = le32 b 44;
    }

abbrev pub fat_size : Volume → ℕ
fat_size v = if le32 v.sector_buf 36 == 0 then le16 v.sector_buf 22 else le32 v.sector_buf 36

unfoldable pub with_layout : Volume → Volume
with_layout v =
    let first = u64 (u64 (v.part_start_lba * sectors_per_block v) + le16 v.sector_buf 14) in
    record v {
      first_fat_sector = first;
      data_region_sector = u64 (first + u64 (le8 v.sector_buf 16 * fat_size v));
    }

unfoldable pub mount_report : Volume → Io (Unit {0})
mount_report v = do
  print (codes "FAT32: mounted\n")
  print (codes "  bytes/sector: ")
  print_hex v.bytes_per_sector
  print (codes "\n")
  print (codes "  sectors/cluster: ")
  print_hex v.sectors_per_cluster
  print (codes "\n")
  print (codes "  root_cluster: ")
  print_hex v.root_cluster
  print (codes "\n")
  print (codes "  first_fat_sector: ")
  print_hex v.first_fat_sector
  print (codes "\n")
  print (codes "  data_region_sector: ")
  print_hex v.data_region_sector
  print (codes "\n")

-- The last part of `fat32_mount`: the FAT is read, where it fits the buffer.
unfoldable pub load_fat : ReadBlocks → Volume → Io (Bool × Volume)
load_fat read v =
    let fat_bytes = u32 (fat_size v * v.bytes_per_sector) in
    if ltb fat_buf_size fat_bytes
    then (do print (codes "FAT32: FAT too big for static buffer (demo limit)\n"); return (true, v))
    else (do
      r ← within fat_buf_size (read_sectors read v v.first_fat_sector (fat_size v))
      let v' = record v { fat_buf = store v.fat_buf r.1 }
      if r.0
          then (do
            print (codes "FAT32: FAT loaded\n")
            return (true, record v' { fat_loaded = true; fat_entries = fat_bytes / 4 }))
          else (do print (codes "FAT32: failed to read FAT\n"); return (false, v')))

-- `fat32_mount` when the driver has returned, with the boot sector or not.
unfoldable pub mount_boot : ReadBlocks → Volume → Option (List ℕ) → Io (Bool × Volume)
mount_boot read v none = print (codes "FAT32: failed to read boot block\n") >> return (false, v)
mount_boot read v (some bytes) =
    let v' = with_bpb v bytes in
    if v'.bytes_per_sector == 0 || not (v'.block_size % v'.bytes_per_sector == 0)
    then (print (codes "FAT32: invalid bytes_per_sector vs block_size\n") >> return (false, v'))
    else (mount_report (with_layout v') >> load_fat read (with_layout v'))

unfoldable pub mount : ReadBlocks → Volume → ℕ → ℕ → Io (Bool × Volume)
mount read v part_start_lba block_size =
    read nsid part_start_lba 1 block_size
    >>= mount_boot read (record v { part_start_lba = part_start_lba; block_size = block_size })
