-- ===== src/Gpt/Table.antt =====
-- The bytes that `gpt_read_entries` stores.
use os_kernel_and_bootloader.Base.{
  ℕ, zero, suc, ◌+◌, ◌-◌, ◌*◌, ◌/◌, ◌^◌, ◌≤◌, ◌<◌, ◌≡◌, refl, ap, ◌∙◌, List, none, some, arith, ltb,
  le→ltb, pos→ne_zero, if◌then◌else◌, length, stretch, length-stretch, store, u32, sub32, codes,
  le8, get_or-stretch, get_or-append_left,
}
use native.Mathlib.Nat.{mod-add-div, mod-lt}
use os_kernel_and_bootloader.Nvme.Api.{ReadBlocks, IsDisk}
use os_kernel_and_bootloader.Memory.{memcpy}
use os_kernel_and_bootloader.Memory.Laws.{memcpy_lem}
use os_kernel_and_bootloader.Gpt.{
  GptHeader, buf_size, total_size, blocks, take_entries, read_entries,
}

-- The numbers of blocks that a number of bytes needs.
round_up_lem :
    (total block_size : ℕ)
    → 0 < block_size
    → let n = (total + block_size - 1) / block_size in
      (total ≤ n * block_size) × (n * block_size < total + block_size)
round_up_lem total block_size pos =
    let m = total + block_size - 1 in omega (arith, mod-add-div m block_size, mod-lt m pos)

some_factor : (m n : ℕ) → 0 < m * n → 0 < m
some_factor zero n h = absurd (omega arith)
some_factor (suc m) n h = omega arith

-- The blocks that hold the table: they have its bytes, and less than a block more.
blocks_hold :
    (hdr : GptHeader) (block_size : ℕ)
    → 0 < block_size
    → block_size ≤ 4096
    → total_size hdr ≤ buf_size
    → (total_size hdr ≤ blocks hdr block_size * block_size)
      × (blocks hdr block_size * block_size < total_size hdr + block_size)
blocks_hold hdr block_size pos page room =
    let numerator : sub32 (u32 (total_size hdr + block_size)) 1 ≡ total_size hdr + block_size - 1 =
      omega arith in
    let same : blocks hdr block_size ≡ (total_size hdr + block_size - 1) / block_size =
      ap (λ n. n / block_size) numerator in
    rw same (round_up_lem (total_size hdr) block_size pos)

module _ (read : ReadBlocks) (nsid block_size : ℕ) (content : ℕ → ℕ)
    (disk : IsDisk read nsid block_size content) (hdr : GptHeader) (gpt_buf entries : List ℕ)
    (pos : 0 < block_size) (page : block_size ≤ 4096) (room : total_size hdr ≤ buf_size) where
  -- A table that fits one read of the driver is stored in the caller's array byte by byte, and
  -- the rest of the array is as before.
  pub read_entries_stored :
      (j : ℕ)
      → 0 < total_size hdr
      → total_size hdr ≤ length entries
      → hdr.part_entries_lba < 2 ^ 64
      → blocks hdr block_size * block_size ≤ 4096
      → (buf' : List ℕ) × (entries' : List ℕ) × ((read_entries read nsid block_size hdr gpt_buf
              entries
            ≡ (some (buf', some entries'), codes "GPT: entries OK\n"))
          × ((length entries' ≡ length entries)
              × (le8 entries' j ≡ (
                  if ltb j (total_size hdr)
                  then content (hdr.part_entries_lba * block_size + j)
                  else le8 entries j))))
  unfolding read_entries take_entries store
  read_entries_stored j some_bytes wide range fits =
      let n = blocks hdr block_size * block_size in
      let bytes = stretch content (hdr.part_entries_lba * block_size) n in
      let hold = blocks_hold hdr block_size pos page room in
      let some_blocks : 0 < blocks hdr block_size =
        some_factor (blocks hdr block_size) block_size (omega arith) in
      let served =
        disk.serves hdr.part_entries_lba (blocks hdr block_size) buf_size some_blocks range fits
          (omega arith) in
      let buf' = store gpt_buf bytes in
      let same : j < total_size hdr → le8 buf' j ≡ content (hdr.part_entries_lba * block_size + j) =
        λ h.
          get_or-append_left bytes _ j 0
            (omega (arith, length-stretch content (hdr.part_entries_lba * block_size) n))
          ∙ get_or-stretch content (hdr.part_entries_lba * block_size) n j (omega arith) in
      let stored = memcpy_lem (total_size hdr) j entries buf' wide in
      (
        buf',
        memcpy entries buf' (total_size hdr),
        (
          rw (pos→ne_zero block_size pos, le→ltb buf_size (total_size hdr) room, served) refl,
          (stored.0, stored.1 ∙ ground (arith, same)),
        ),
      )

  -- A table that needs more than the page of the driver is refused, though the buffer has room
  -- for it.
  pub read_entries_refused :
      4096 < blocks hdr block_size * block_size
      → (read_entries read nsid block_size hdr gpt_buf entries).0 ≡ some (gpt_buf, none)
  unfolding read_entries take_entries
  read_entries_refused large =
      let refused =
        disk.refuses_large hdr.part_entries_lba (blocks hdr block_size) buf_size large in
      rw (pos→ne_zero block_size pos, le→ltb buf_size (total_size hdr) room, refused) refl
