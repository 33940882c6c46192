-- ===== src/Nvme/RamDisk.antt =====
-- A disk in memory, which shows that `IsDisk` can hold. The tests of the driver's clients use it.
use os_kernel_and_bootloader.Base.{
  ℕ, ◌*◌, refl, [], ltb, le→ltb, lt→ltb, if◌then◌else◌, Bool-cases, inl, inr, some, none, stretch,
}
use os_kernel_and_bootloader.Nvme.Api.{ReadBlocks, Answering, IsDisk}
use os_kernel_and_bootloader.Base.Returns.{if-Returns, return-Returns}

module _ (block_size : ℕ) (content : ℕ → ℕ) where
  abbrev pub disk_read : ReadBlocks
  disk_read ns lba count buffer_size =
      let size = count * block_size in
      if ltb 4096 size
      then (some none, [])
      else if ltb buffer_size size
      then (some none, [])
      else (some (some (stretch content (lba * block_size) size)), [])

  pub disk_read-IsDisk : (nsid : ℕ) → IsDisk disk_read nsid block_size content
  disk_read-IsDisk nsid = record {
    serves = λ lba count room some_blocks range page fits.
        rw (le→ltb 4096 (count * block_size) page, le→ltb room (count * block_size) fits) refl;
    refuses_large = λ lba count room h. rw (lt→ltb 4096 (count * block_size) h) refl;
    refuses_small_buffer = λ lba count room h. elim (Bool-cases (ltb 4096 (count * block_size))) [
      | inl e ↦ rw e refl
      | inr e ↦ rw (e, lt→ltb room (count * block_size) h) refl
    ];
  }

  pub disk_read-Answering : Answering disk_read
  disk_read-Answering nsid lba count size =
      if-Returns (ltb 4096 (count * block_size)) _ _ (return-Returns none)
        (if-Returns (ltb size (count * block_size)) _ _ (return-Returns none) (return-Returns _))
