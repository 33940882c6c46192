-- ===== src/Fat32/Mounts.antt =====
-- `fat32_mount` returns, and stores nothing past its buffers.
use os_kernel_and_bootloader.Base.{
  ℕ, ◌%◌, ◌*◌, ◌^◌, ◌≤◌, ap, ◌∙◌, ◌<◌, ◌≡◌, refl, inl, inr, arith, List, Bool, true, false, not,
  ltb, ◌==◌, Bool-cases, Option, none, some, codes, u32,
}
use os_kernel_and_bootloader.Base.Returns.{
  Returns, Gives, known-Gives, bind-Gives, if-Gives, said-Gives, returned,
}
use os_kernel_and_bootloader.Nvme.Api.{ReadBlocks, Answering}
use os_kernel_and_bootloader.Fat32.Volume.{
  Volume, nsid, fat_buf_size, fat_size, with_bpb, with_layout, mount_report, load_fat, mount_boot,
  mount, read_sectors, within,
}
use os_kernel_and_bootloader.Fat32.Total.{read_sectors-Gives, within-Gives, ClusterFits}

-- A mount that succeeds leaves a sector size that is not zero, and clusters that fit the buffer.
abbrev pub IsUsable : Bool × Volume → Type 0
IsUsable (true, v) = (0 < v.bytes_per_sector) × ClusterFits v
IsUsable (false, v) = Unit {0}

-- The boot sector gives a FAT of less than 4 GiB, and clusters of at most 32 KiB.
unfoldable pub Fits : Volume → Type 0
Fits v = (fat_size v * v.bytes_per_sector < 2 ^ 32) × ClusterFits v

-- What the boot sector leaves in the driver's variables before the layout is known.
abbrev pub from_boot : Volume → ℕ → ℕ → List ℕ → Volume
from_boot v part_start block_size bytes =
    with_bpb (record v { part_start_lba = part_start; block_size = block_size }) bytes

not_wrapped : (n : ℕ) → n < 2 ^ 32 → ltb fat_buf_size (u32 n) ≡ false → n ≤ fat_buf_size
not_wrapped n h small =
    let same : u32 n ≡ n = omega (arith, h) in
    let room : u32 n ≤ fat_buf_size = ground (arith, small) in omega (arith, same, room)

module _ (read : ReadBlocks) (answering : Answering read) where
  load_fat-Gives : (v : Volume) → 0 < v.bytes_per_sector → Fits v → Gives IsUsable (load_fat read v)
  unfolding load_fat Fits
  load_fat-Gives v pos fits =
      elim (Bool-cases (ltb fat_buf_size (u32 (fat_size v * v.bytes_per_sector)))) [
        | inl large ↦ rw large (
            said-Gives IsUsable (codes "FAT32: FAT too big for static buffer (demo limit)\n")
              (true, v) (pos, fits.1))
        | inr small ↦ rw small (
            bind-Gives IsUsable
              (within fat_buf_size (read_sectors read v v.first_fat_sector (fat_size v))) _
              (within-Gives fat_buf_size (fat_size v * v.bytes_per_sector) _
                (not_wrapped _ fits.0 small)
                (read_sectors-Gives read answering v v.first_fat_sector (fat_size v) pos))
              (λ r.
                if-Gives IsUsable r.0 _ _
                  (said-Gives IsUsable (codes "FAT32: FAT loaded\n") _ (pos, fits.1))
                  (said-Gives IsUsable (codes "FAT32: failed to read FAT\n") _ tt)))
      ]

  mount_report-Returns : (v : Volume) → Returns (mount_report v)
  unfolding mount_report Returns
  mount_report-Returns v = tt

  mount_boot-Gives :
      (v : Volume) (block : Option (List ℕ))
      → ((bytes : List ℕ) → block ≡ some bytes → Fits (with_bpb v bytes))
      → Gives IsUsable (mount_boot read v block)
  unfolding mount_boot with_layout Fits
  mount_boot-Gives v none fits =
      said-Gives IsUsable (codes "FAT32: failed to read boot block\n") (false, v) tt
  mount_boot-Gives v (some bytes) fits =
      let w = with_bpb v bytes in
      let refused =
        said-Gives IsUsable (codes "FAT32: invalid bytes_per_sector vs block_size\n") (false, w)
          tt in
      elim (Bool-cases (w.bytes_per_sector == 0)) [
        | inl zero_size ↦ rw zero_size refused
        | inr some_size ↦ rw some_size (
            if-Gives IsUsable (not (w.block_size % w.bytes_per_sector == 0)) _ _ refused (
              bind-Gives IsUsable (mount_report (with_layout w)) _
                (mount_report-Returns (with_layout w))
                (λ _.
                  load_fat-Gives (with_layout w) (ground (arith, some_size)) (fits bytes refl))))
      ]

  pub mount-Gives :
      (v : Volume) (part_start block_size : ℕ)
      → ((bytes : List ℕ)
          → (read nsid part_start 1 block_size).0 ≡ some (some bytes)
          → Fits (from_boot v part_start block_size bytes))
      → Gives IsUsable (mount read v part_start block_size)
  unfolding mount
  mount-Gives v part_start block_size fits =
      let (block, served) =
        returned (read nsid part_start 1 block_size) (answering nsid part_start 1 block_size) in
      known-Gives IsUsable (read nsid part_start 1 block_size) _ block served (
        mount_boot-Gives (record v { part_start_lba = part_start; block_size = block_size }) block
          (λ bytes same. fits bytes (served ∙ ap some same)))
