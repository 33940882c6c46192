-- ===== src/Fat32/Mounting.antt =====
-- `fat32_mount` of a volume with a valid boot sector.
use os_kernel_and_bootloader.Base.{
  ℕ, ◌+◌, ◌*◌, ◌/◌, ◌%◌, ◌^◌, ◌≤◌, ◌<◌, ◌≡◌, refl, ap₂, sym, ◌∙◌, List, true, false, length,
  length-stretch, Bool-cases, inl, inr, arith, ltb, if◌then◌else◌, some, pos→ne_zero, stretch,
  store, u32,
}
use native.Mathlib.Nat.{mod-add-div}
use mathlib.Core.Path.{subst}
use os_kernel_and_bootloader.Nvme.Api.{ReadBlocks, IsDisk}
use os_kernel_and_bootloader.Fat32.Volume.{
  Volume, nsid, fat_buf_size, with_bpb, with_layout, fat_size, mount_report, load_fat, mount_boot,
  mount,
}
use os_kernel_and_bootloader.Fat32.Sectors.{HasSectors, read_sectors-stretch, within-fits}

-- The volume when the FAT that begins at its first sector has been loaded, where it fits.
abbrev pub loaded : Volume → (ℕ → ℕ) → Volume
loaded v content =
    let fat_bytes = u32 (fat_size v * v.bytes_per_sector) in
    let fat =
      stretch content (v.first_fat_sector * v.bytes_per_sector) (fat_size v * v.bytes_per_sector) in
    if ltb fat_buf_size fat_bytes
    then v
    else record v { fat_buf = store v.fat_buf fat; fat_loaded = true; fat_entries = fat_bytes / 4 }

-- The volume that the boot sector describes.
abbrev pub described : Volume → ℕ → ℕ → (ℕ → ℕ) → Volume
described v part_start_lba block_size content = with_layout (
    with_bpb (record v { part_start_lba = part_start_lba; block_size = block_size })
      (stretch content (part_start_lba * block_size) (1 * block_size)))

fat_fits :
    (v : Volume) (content : ℕ → ℕ)
    → fat_size v * v.bytes_per_sector < 2 ^ 32
    → ltb fat_buf_size (u32 (fat_size v * v.bytes_per_sector)) ≡ false
    → length (
        stretch content (v.first_fat_sector * v.bytes_per_sector) (fat_size v * v.bytes_per_sector))
      ≤ fat_buf_size
fat_fits v content no_wrap fits =
    let same : u32 (fat_size v * v.bytes_per_sector) ≡ fat_size v * v.bytes_per_sector =
      omega (arith, no_wrap) in
    let room : u32 (fat_size v * v.bytes_per_sector) ≤ fat_buf_size = ground (arith, fits) in
    omega (
      arith,
      length-stretch content (v.first_fat_sector * v.bytes_per_sector)
          (fat_size v * v.bytes_per_sector),
      same,
      room,
    )

load_fat_lem :
    (read : ReadBlocks) (v : Volume) (content : ℕ → ℕ)
    → HasSectors v
    → IsDisk read nsid v.block_size content
    → v.first_fat_sector + fat_size v < 2 ^ 64
    → fat_size v * v.bytes_per_sector < 2 ^ 32
    → (load_fat read v).0 ≡ some (true, loaded v content)
unfolding load_fat
load_fat_lem read v content sectors disk range no_wrap =
    elim (Bool-cases (ltb fat_buf_size (u32 (fat_size v * v.bytes_per_sector)))) [
      | inl large ↦ rw large refl
      | inr fits ↦
          rw
            (
              fits,
              within-fits fat_buf_size _ true
                  (stretch content (v.first_fat_sector * v.bytes_per_sector)
                    (fat_size v * v.bytes_per_sector))
                  (read_sectors-stretch read v content sectors disk v.first_fat_sector (fat_size v)
                    range)
                  (fat_fits v content no_wrap fits),
            )
            refl
    ]

mount_report_returns : (v : Volume) → mount_report v ≡ (some tt, (mount_report v).1)
unfolding mount_report
mount_report_returns v = refl

no_remainder : (n b : ℕ) → n ≡ n / b * b → n % b ≡ 0
no_remainder n b e = omega (arith, mod-add-div n b)

boot_valid :
    (read : ReadBlocks) (v : Volume) (bytes : List ℕ)
    → let w = with_bpb v bytes in
      0 < w.bytes_per_sector
      → w.block_size % w.bytes_per_sector ≡ 0
      → (mount_boot read v (some bytes)).0 ≡ (load_fat read (with_layout w)).0
unfolding mount_boot
boot_valid read v bytes pos divides =
    rw (pos→ne_zero _ pos, divides, mount_report_returns (with_layout (with_bpb v bytes))) refl

boot_fields :
    (v : Volume) (bytes : List ℕ)
    → let w = with_layout (with_bpb v bytes) in
      ((with_bpb v bytes).bytes_per_sector ≡ w.bytes_per_sector)
      × (((with_bpb v bytes).block_size ≡ v.block_size) × (w.block_size ≡ v.block_size))
unfolding with_bpb with_layout
boot_fields v bytes = (refl, (refl, refl))

-- From a disk whose boot sector has a sector size that divides the block size, `fat32_mount`
-- returns success with the layout that the boot sector describes, and with the FAT where it fits
-- the driver's buffer.
pub mount_lem :
    (read : ReadBlocks) (v : Volume) (content : ℕ → ℕ) (part_start_lba block_size : ℕ)
    → let w = described v part_start_lba block_size content in
      IsDisk read nsid block_size content
      → HasSectors w
      → part_start_lba < 2 ^ 64
      → w.first_fat_sector + fat_size w < 2 ^ 64
      → fat_size w * w.bytes_per_sector < 2 ^ 32
      → (mount read v part_start_lba block_size).0 ≡ some (true, loaded w content)
unfolding mount
mount_lem read v content part_start_lba block_size disk sectors range fat_range no_wrap =
    let u : Volume = record v { part_start_lba = part_start_lba; block_size = block_size } in
    let bytes = stretch content (part_start_lba * block_size) (1 * block_size) in
    let w = described v part_start_lba block_size content in
    let (sector_eq, (before_eq, block_eq)) = boot_fields u bytes in
    let page : block_size ≤ 4096 = omega (arith, sectors.one_page, block_eq) in
    let pos : 0 < (with_bpb u bytes).bytes_per_sector = omega (arith, sectors.sector, sector_eq) in
    let no_rest : (with_bpb u bytes).block_size % (with_bpb u bytes).bytes_per_sector ≡ 0 =
      ap₂ (λ m n. m % n) (before_eq ∙ sym block_eq) sector_eq
      ∙ no_remainder w.block_size w.bytes_per_sector sectors.divides in
    let served =
      disk.serves part_start_lba 1 block_size (omega arith) range (omega arith) (omega arith) in
    rw served (
      boot_valid read u bytes pos no_rest
      ∙ load_fat_lem read w content sectors
          (subst (λ b. IsDisk read nsid b content) (sym block_eq) disk) fat_range no_wrap)
