-- ===== src/Fat32/Sectors.antt =====
-- `fat32_read_sectors` reads whole blocks and copies parts of them: together, exactly the sectors
-- that it was asked for.
use os_kernel_and_bootloader.Base.{
  ℕ, zero, suc, ◌+◌, ◌-◌, ◌*◌, ◌/◌, ◌%◌, ◌^◌, ◌≤◌, ◌<◌, ◌≡◌, refl, ap, ap₂, ◌∙◌, List, [], true,
  some, arith, pos→ne_zero, take, drop, u32, u64, stretch, stretch-append, take-drop-stretch,
  length, le→ltb, Bool,
}
use native.Mathlib.Nat.{mod-add-div, mod-lt, mul-le-mul_right}
use os_kernel_and_bootloader.Base.Io.{Io}
use os_kernel_and_bootloader.Nvme.Api.{ReadBlocks, IsDisk}
use os_kernel_and_bootloader.Fat32.Volume.{
  Volume, nsid, sectors_per_block, sectors_here, copied, prefixed, read_loop, read_sectors, within,
}

-- A sector size that divides the block size, as `fat32_mount` checks it, and a block that the
-- driver can read.
pub record HasSectors (v : Volume) : Type 0 where
  pub sector : 0 < v.bytes_per_sector
  pub some_sectors : 0 < sectors_per_block v
  pub divides : v.block_size ≡ sectors_per_block v * v.bytes_per_sector
  pub one_page : v.block_size ≤ 4096

add_multiples : (a d b k : ℕ) → a + d ≡ b → a * k + d * k ≡ b * k
add_multiples a d b k e = omega (arith, ap (λ (t : ℕ). t * k) e)

-- A part of a block that ends inside it fits 32 bits.
part_fits :
    (o here spb bps bs : ℕ)
    → o + here ≤ spb
    → bs ≡ spb * bps
    → bs ≤ 4096
    → (u32 (o * bps) ≡ o * bps) × (u32 (here * bps) ≡ here * bps) × (o * bps + here * bps ≤ bs)
part_fits o here spb bps bs h e page =
    let inside : (o + here) * bps ≤ spb * bps = mul-le-mul_right bps h in
    (omega arith, omega arith, omega arith)

start_of_part : (lba spb bps bs : ℕ) → bs ≡ spb * bps → lba / spb * bs + lba % spb * bps ≡ lba * bps
start_of_part lba spb bps bs e =
    omega (arith, ap (λ (t : ℕ). lba / spb * t) e, ap (λ (t : ℕ). t * bps) (mod-add-div lba spb))

module _ (read : ReadBlocks) (v : Volume) (content : ℕ → ℕ) (sectors : HasSectors v)
    (disk : IsDisk read nsid v.block_size content) where
  copied_part :
      (lba count : ℕ)
      → let here = sectors_here v lba count in
        copied v lba count
          (stretch content (lba / sectors_per_block v * v.block_size) (1 * v.block_size))
        ≡ stretch content (lba * v.bytes_per_sector) (here * v.bytes_per_sector)
  copied_part lba count =
      let spb = sectors_per_block v in
      let here = sectors_here v lba count in
      let o = lba % spb in
      let inside : o + here ≤ spb = ground (arith, mod-lt lba sectors.some_sectors) in
      let (o_fits, here_fits, end_fits) =
        part_fits o here spb v.bytes_per_sector v.block_size inside sectors.divides
          sectors.one_page in
      ap₂ (λ m n. take m (drop n (stretch content (lba / spb * v.block_size) (1 * v.block_size))))
        here_fits o_fits
      ∙ take-drop-stretch content (lba / spb * v.block_size) (1 * v.block_size)
          (o * v.bytes_per_sector) (here * v.bytes_per_sector) (omega arith)
      ∙ ap (λ s. stretch content s (here * v.bytes_per_sector))
          (start_of_part lba spb v.bytes_per_sector v.block_size sectors.divides)

  read_loop-step :
      (fuel lba count : ℕ) (block : List ℕ)
      → 0 < count
      → read nsid (lba / sectors_per_block v) 1 v.block_size ≡ (some (some block), [])
      → let here = sectors_here v lba count in
        read_loop read v (suc fuel) lba count
        ≡ prefixed
            (copied v lba count block)
            (read_loop read v fuel (u64 (lba + here)) (count - here))
  unfolding read_loop
  read_loop-step fuel lba count block h e = rw (pos→ne_zero count h, e)

  read_loop-stretch :
      (fuel lba count : ℕ)
      → count < fuel
      → lba + count < 2 ^ 64
      → read_loop read v fuel lba count
        ≡ (some (true, stretch content (lba * v.bytes_per_sector) (count * v.bytes_per_sector)), [])
  unfolding read_loop stretch
  read_loop-stretch zero lba count h range = absurd (omega arith)
  read_loop-stretch (suc fuel) lba zero h range =
      let none_left : 0 ≡ 0 * v.bytes_per_sector = omega arith in
      ap (λ n. (some (true, stretch content (lba * v.bytes_per_sector) n), [])) none_left
  read_loop-stretch (suc fuel) lba (suc count) h range =
      let spb = sectors_per_block v in
      let here = sectors_here v lba (suc count) in
      let bps = v.bytes_per_sector in
      let progress : (0 < here) × (here ≤ suc count) =
        ground (arith, mod-lt lba sectors.some_sectors) in
      let next : u64 (lba + here) ≡ lba + here = omega arith in
      let rest =
        read_loop-stretch fuel (lba + here) (suc count - here) (omega arith) (omega arith) in
      let served =
        disk.serves (lba / spb) 1 v.block_size (omega arith) (omega arith) (omega arith)
          (omega arith) in
      let ends : (lba + here) * bps ≡ lba * bps + here * bps = omega arith in
      let whole : here * bps + (suc count - here) * bps ≡ suc count * bps =
        add_multiples here (suc count - here) (suc count) bps (omega arith) in
      read_loop-step fuel lba (suc count) _ (omega arith) served
      ∙ ap₂ prefixed (copied_part lba (suc count))
          (ap (λ l. read_loop read v fuel l (suc count - here)) next ∙ rest)
      ∙ ap (λ l. (some (true, l), []))
          (stretch-append content (lba * bps) (here * bps) ((suc count - here) * bps)
              ((lba + here) * bps) ends
            ∙ ap (stretch content (lba * bps)) whole)

  -- From a disk whose block size is a multiple of the sector size, `fat32_read_sectors` returns
  -- success with exactly the bytes of the sectors asked for, whatever block they begin in.
  pub read_sectors-stretch :
      (lba count : ℕ)
      → lba + count < 2 ^ 64
      → read_sectors read v lba count
        ≡ (some (true, stretch content (lba * v.bytes_per_sector) (count * v.bytes_per_sector)), [])
  unfolding read_sectors
  read_sectors-stretch lba count range =
      rw
        (
          pos→ne_zero v.bytes_per_sector sectors.sector,
          pos→ne_zero (sectors_per_block v) sectors.some_sectors,
        )
        (read_loop-stretch (count + 1) lba count (omega arith) range)

-- A read that fits the buffer stores what it does anywhere.
pub within-fits :
    (size : ℕ) (m : Io (Bool × List ℕ)) (result : Bool) (bytes : List ℕ)
    → m ≡ (some (result, bytes), [])
    → length bytes ≤ size
    → within size m ≡ (some (result, bytes), [])
unfolding within
within-fits size m result bytes e h = rw (e, le→ltb size (length bytes) h) refl
