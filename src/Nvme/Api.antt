-- ===== src/Nvme/Api.antt =====
-- What the clients of the driver, kernel/gpt.c and kernel/fat32.c, rely on: `nvme_read_blocks` as a
-- function, and a disk whose blocks it reads. `Nvme.Read` fills this interface.
use os_kernel_and_bootloader.Base.{
  ℕ, ◌*◌, ◌≤◌, ◌<◌, ◌≡◌, List, [], Option, none, some, stretch, ◌^◌,
}
use os_kernel_and_bootloader.Base.Io.{Io}
use os_kernel_and_bootloader.Base.Returns.{Returns}

-- The arguments nsid, lba, count and buffer_size; 0 is `none`, and 1 comes with the bytes stored.
abbrev pub ReadBlocks : Type 0
ReadBlocks = ℕ → ℕ → ℕ → ℕ → Io (Option (List ℕ))

-- The driver returns from every call.
abbrev pub Answering : ReadBlocks → Type 0
Answering read = (nsid lba count buffer_size : ℕ) → Returns (read nsid lba count buffer_size)

-- `read` serves the namespace `nsid` with blocks of `block_size` bytes, whose bytes are
-- `content`: it refuses what does not fit the driver's page or the caller's buffer, and else
-- returns the blocks.
pub record IsDisk (read : ReadBlocks) (nsid block_size : ℕ) (content : ℕ → ℕ) : Type 0 where
  pub serves :
      (lba count buffer_size : ℕ)
      → 0 < count
      → lba < 2 ^ 64
      → count * block_size ≤ 4096
      → count * block_size ≤ buffer_size
      → read nsid lba count buffer_size
        ≡ (some (some (stretch content (lba * block_size) (count * block_size))), [])
  pub refuses_large :
      (lba count buffer_size : ℕ)
      → 4096 < count * block_size
      → (read nsid lba count buffer_size).0 ≡ some none
  pub refuses_small_buffer :
      (lba count buffer_size : ℕ)
      → buffer_size < count * block_size
      → (read nsid lba count buffer_size).0 ≡ some none
