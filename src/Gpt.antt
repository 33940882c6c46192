-- ===== src/Gpt.antt =====
-- kernel/gpt.c and kernel/gpt.h: the partition table of a disk, read through `Nvme.Api`.
pub mod Table
pub mod Search
mod Tests
use os_kernel_and_bootloader.Base.{
  ℕ, zero, suc, ◌+◌, ◌-◌, ◌*◌, ◌/◌, ◌%◌, ◌^◌, List, [], ◌∷◌, Bool, true, false, not, ◌||◌, ltb,
  ◌==◌, if◌then◌else◌, Option, none, some, take, drop, codes, le8, le32, le64, u32, sub32, store,
  length,
}
use os_kernel_and_bootloader.Base.Io.{Io, ◌>>=◌, ◌>>◌, return, halt, print}
use os_kernel_and_bootloader.Nvme.Api.{ReadBlocks}
use os_kernel_and_bootloader.Memory.{memcmp, memcpy, is_zero}

-- The fields of the header that the kernel uses.
pub record GptHeader : Type 0 where
  pub part_entries_lba : ℕ
  pub num_part_entries : ℕ
  pub part_entry_size : ℕ

abbrev pub header_of : List ℕ → GptHeader
header_of b = record {
  part_entries_lba = le64 b 72;
  num_part_entries = le32 b 80;
  part_entry_size = le32 b 84;
}

abbrev pub buf_size : ℕ
buf_size = 16 * 1024

-- The new contents of `gpt_buf`, and the header where the result is 1.
unfoldable pub check_header : List ℕ → Io (List ℕ × Option GptHeader)
check_header b =
    if not (is_zero (memcmp b (codes "EFI PART") 8))
    then (print (codes "GPT: invalid signature\n") >> return (b, none))
    else if not (le32 b 84 == 128)
    then (print (codes "GPT: unexpected entry size\n") >> return (b, none))
    else (print (codes "GPT: header OK\n") >> return (b, some (header_of b)))

unfoldable pub read_header : ReadBlocks → ℕ → List ℕ → Io (List ℕ × Option GptHeader)
read_header read nsid gpt_buf = do
  r ← read nsid 1 1 buf_size
  elim r [
    | none ↦ print (codes "GPT: failed to read LBA1\n") >> return (gpt_buf, none)
    | some bytes ↦ check_header (store gpt_buf bytes)
  ]

abbrev pub total_size : GptHeader → ℕ
total_size hdr = u32 (hdr.num_part_entries * hdr.part_entry_size)

abbrev pub blocks : GptHeader → ℕ → ℕ
blocks hdr block_size = sub32 (u32 (total_size hdr + block_size)) 1 / block_size

-- The end of `gpt_read_entries`, when the driver has returned.
unfoldable pub take_entries : ℕ → List ℕ → List ℕ → Option (List ℕ) → Io (List ℕ × Option (List ℕ))
take_entries total gpt_buf entries none =
    print (codes "GPT: failed to read partition entries\n") >> return (gpt_buf, none)
take_entries total gpt_buf entries (some bytes) =
    let b = store gpt_buf bytes in
    print (codes "GPT: entries OK\n") >> return (b, some (memcpy entries b total))

-- The new contents of `gpt_buf`, and those of `entries` where the result is 1. The division by a
-- zero `block_size` is a CPU fault.
unfoldable pub read_entries :
    ReadBlocks → ℕ → ℕ → GptHeader → List ℕ → List ℕ → Io (List ℕ × Option (List ℕ))
read_entries read nsid block_size hdr gpt_buf entries =
    if block_size == 0
    then halt
    else if ltb buf_size (total_size hdr)
    then (print (codes "GPT: entries too large for buffer\n") >> return (gpt_buf, none))
    else (read nsid hdr.part_entries_lba (blocks hdr block_size) buf_size
        >>= take_entries (total_size hdr) gpt_buf entries)

abbrev pub fat32_guid : List ℕ
fat32_guid =
    0xA2 ∷ 0xA0 ∷ 0xD0 ∷ 0xEB ∷ 0xE5 ∷ 0xB9 ∷ 0x33 ∷ 0x44 ∷ 0x87 ∷ 0xC0 ∷ 0x68 ∷ 0xB6 ∷ 0xB7 ∷ 0x26
    ∷ 0x99 ∷ 0xC7 ∷ []

abbrev pub linux_guid : List ℕ
linux_guid =
    0xAF ∷ 0x3D ∷ 0xC6 ∷ 0x0F ∷ 0x83 ∷ 0x84 ∷ 0x72 ∷ 0x47 ∷ 0x8E ∷ 0x79 ∷ 0x3D ∷ 0x69 ∷ 0xD8 ∷ 0x47
    ∷ 0x7D ∷ 0xE4 ∷ []

-- The entry at the front of the bytes: a type that the kernel can use, and its first and last
-- block.
abbrev pub is_usable : List ℕ → Bool
is_usable e = is_zero (memcmp e fat32_guid 16) || is_zero (memcmp e linux_guid 16)

-- The loop over the entries left, in the bytes left of the caller's array; an entry past its end is memory
-- that is not modelled, and the model halts there. `*out_lba_start` and `*out_lba_end` where the result is 1.
unfoldable pub find_loop : ℕ → List ℕ → Io (Option (ℕ × ℕ))
find_loop zero e = print (codes "GPT: no usable partition found\n") >> return none
find_loop (suc n) e =
    let rest = find_loop n (drop 128 e) in
    if ltb (length e) 128
    then halt
    else if le64 e 32 == 0
    then rest
    else if is_usable e
    then (print (codes "GPT: partition found\n") >> return (some (le64 e 32, le64 e 40)))
    else rest

unfoldable pub find_partition : GptHeader → List ℕ → Io (Option (ℕ × ℕ))
find_partition hdr entries = find_loop hdr.num_part_entries entries
