-- ===== src/Fat32/Directory.antt =====
-- The 32-byte entries of the root directory: the loops over them in `fat32_list_root`,
-- `fat32_read_file_from_root` and `fat32_open`.
use os_kernel_and_bootloader.Base.{
  ℕ, zero, suc, ◌/◌, List, [], ◌∷◌, Bool, ◌||◌, not, ◌==◌, if◌then◌else◌, Option, none, some, take,
  drop, codes, le8, le16, le32, ◌<<<◌, bit_and, bit_or,
}
use os_kernel_and_bootloader.Base.Io.{Io, ◌>>=◌, ◌>>◌, return, print, print_hex}
use os_kernel_and_bootloader.Nvme.Api.{ReadBlocks}
use os_kernel_and_bootloader.Fat32.Volume.{Volume, cluster_bytes, read_cluster}
use os_kernel_and_bootloader.Fat32.Name.{name_8_3, names_equal_8_3}

-- `struct fat32_dir_entry`, with the two halves of its first cluster put together. The fields
-- that the driver does not read are left out.
pub record DirEntry : Type 0 where
  pub name : List ℕ
  pub attr : ℕ
  pub first_cluster : ℕ
  pub file_size : ℕ

unfoldable pub dir_entry : List ℕ → DirEntry
dir_entry bytes = record {
  name = take 11 bytes;
  attr = le8 bytes 11;
  first_cluster = bit_or (le16 bytes 20 <<< 16) (le16 bytes 26);
  file_size = le32 bytes 28;
}

unfoldable pub ends_directory : DirEntry → Bool
ends_directory e = le8 e.name 0 == 0

-- Deleted entries and parts of long names, which every loop passes over.
unfoldable pub is_skipped : DirEntry → Bool
is_skipped e = le8 e.name 0 == 0xE5 || bit_and e.attr 0x0F == 0x0F

-- What the search passes over: these, and directories.
unfoldable pub is_not_file : DirEntry → Bool
is_not_file e = is_skipped e || not (bit_and e.attr 0x10 == 0)

-- The loop that sets `found`, over the entries left.
unfoldable pub find_entry : ℕ → List ℕ → List ℕ → Option DirEntry
find_entry zero bytes name = none
find_entry (suc n) bytes name =
    let e = dir_entry bytes in
    let rest = find_entry n (drop 32 bytes) name in
    if ends_directory e
    then none
    else if is_not_file e
    then rest
    else if names_equal_8_3 e.name name
    then some e
    else rest

abbrev pub entries : Volume → ℕ
entries v = cluster_bytes v / 32

-- What `vga_print` prints of a string: the characters before the first zero.
unfoldable pub until_zero : List ℕ → List ℕ
until_zero [] = []
until_zero (c ∷ cs) = if c == 0 then [] else c ∷ until_zero cs

unfoldable pub list_entry : DirEntry → Io (Unit {0})
list_entry e = do
  print (codes "  ")
  print (until_zero (name_8_3 e.name))
  print (codes "  size=")
  print_hex e.file_size
  print (codes "\n")

unfoldable pub list_loop : ℕ → List ℕ → Io (Unit {0})
list_loop zero bytes = return tt
list_loop (suc n) bytes =
    let e = dir_entry bytes in
    let rest = list_loop n (drop 32 bytes) in
    if ends_directory e then return tt else if is_skipped e then rest else (list_entry e >> rest)

unfoldable pub list_root : ReadBlocks → Volume → Io (Unit {0})
list_root read v = if v.root_cluster == 0 then print (codes "FAT32: not mounted\n") else (do
  r ← read_cluster read v v.root_cluster
  if r.0
      then (print (codes "FAT32: root directory:\n") >> list_loop (entries v) r.1)
      else print (codes "FAT32: failed to read root cluster\n"))
