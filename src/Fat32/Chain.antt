-- ===== src/Fat32/Chain.antt =====
-- `fat32_read_file_from_root` follows the chain of clusters through the FAT.
use os_kernel_and_bootloader.Base.{
  take-append_left, take-append_right, take-nil, take_all, ℕ, zero, suc, ◌+◌, ◌-◌, ◌*◌, ◌^◌, ◌≤◌,
  ◌<◌, ◌≡◌, inl, inr, refl, ap, ap₂, sym, ◌∙◌, List, [], ◌++◌, true, false, ◌&&◌, ◌||◌, some, arith,
  ltb, ◌==◌, if◌then◌else◌, take, stretch, length, length-stretch, append-nil, min, Bool-cases,
}
use os_kernel_and_bootloader.Nvme.Api.{ReadBlocks, IsDisk}
use os_kernel_and_bootloader.Fat32.Volume.{
  Volume, nsid, end_of_chain, cluster_bytes, cluster_buf_size, cluster_to_sector, read_cluster,
  next_cluster,
}
use os_kernel_and_bootloader.Fat32.Sectors.{HasSectors, read_sectors-stretch, within-fits}
use os_kernel_and_bootloader.Fat32.File.{is_data, to_copy, copy_cluster, read_chain}

-- A volume whose clusters are not empty, fit the driver's buffer of 32 KiB and lie below the last sector
-- number.
pub record HasClusters (v : Volume) : Type 0 where
  pub sectors : HasSectors v
  pub some_bytes : 0 < cluster_bytes v
  pub fits : cluster_bytes v ≤ cluster_buf_size
  pub whole : cluster_bytes v ≡ v.sectors_per_cluster * v.bytes_per_sector
  pub in_range : (cluster : ℕ) → cluster_to_sector v cluster + v.sectors_per_cluster < 2 ^ 64

-- The bytes of a cluster on the disk.
unfoldable pub cluster_data : Volume → (ℕ → ℕ) → ℕ → List ℕ
cluster_data v content cluster =
    stretch content (cluster_to_sector v cluster * v.bytes_per_sector) (cluster_bytes v)

-- The bytes of a chain: its clusters from `cluster` on, in the order of the FAT, at most `links`.
unfoldable pub chain_data : Volume → (ℕ → ℕ) → ℕ → ℕ → List ℕ
chain_data v content zero cluster = []
chain_data v content (suc links) cluster =
    if is_data cluster
    then cluster_data v content cluster ++ chain_data v content links (next_cluster v cluster)
    else []

chain_data_last :
    (v : Volume) (content : ℕ → ℕ) (links cluster : ℕ)
    → is_data cluster ≡ false
    → chain_data v content links cluster ≡ []
unfolding chain_data
chain_data_last v content zero cluster e = refl
chain_data_last v content (suc links) cluster e = rw e refl

length-cluster_data :
    (v : Volume) (content : ℕ → ℕ) (cluster : ℕ)
    → length (cluster_data v content cluster) ≡ cluster_bytes v
unfolding cluster_data
length-cluster_data v content cluster =
    length-stretch content (cluster_to_sector v cluster * v.bytes_per_sector) (cluster_bytes v)

-- A round of the loop: it copies up to `remaining` and `buffer_size` bytes of the cluster and of
-- what follows.
copy_cluster-append :
    (n remaining buffer_size next : ℕ) (chunk later : List ℕ)
    → n ≡ min (length chunk) (min remaining buffer_size)
    → (is_data next ≡ false → later ≡ [])
    → copy_cluster n
        (remaining - n)
        (buffer_size - n)
        next
        (some (true, take (min (remaining - n) (buffer_size - n)) later), [])
        (true, chunk)
      ≡ (some (true, take (min remaining buffer_size) (chunk ++ later)), [])
unfolding copy_cluster
copy_cluster-append n remaining buffer_size next chunk later e last =
    elim (Bool-cases (remaining - n == 0 || buffer_size - n == 0)) [
      | inl full ↦
          let m_eq : n ≡ min remaining buffer_size = ground arith in
          rw full (
            ap (λ l. (some (true, l), []))
              (ap (λ k. take k chunk) m_eq
                ∙ sym (take-append_left (min remaining buffer_size) chunk later (omega arith))))
      | inr more ↦
          let n_eq : n ≡ length chunk = ground arith in
          let past : length chunk ≤ min remaining buffer_size = omega arith in
          let rest_eq : min (remaining - n) (buffer_size - n)
              ≡ min remaining buffer_size - length chunk =
            omega arith in
          let whole : take n chunk ≡ chunk = take_all n chunk (omega arith) in
          elim (Bool-cases (next == end_of_chain || next == 0)) [
            | inl stop ↦
                let no_later : later ≡ [] = last (ground arith) in
                rw (more, stop)
                  (ap (λ l. (some (true, l), []))
                    (whole
                      ∙ sym (append-nil chunk)
                      ∙ ap (λ l. chunk ++ l)
                          (sym (take-nil (min remaining buffer_size - length chunk)))
                      ∙ ap (λ l. chunk ++ take (min remaining buffer_size - length chunk) l)
                          (sym no_later)
                      ∙ sym (take-append_right (min remaining buffer_size) chunk later past)))
            | inr go ↦
                rw (more, go)
                  (ap (λ l. (some (true, l), []))
                    (ap₂ (λ x k. x ++ take k later) whole rest_eq
                      ∙ sym (take-append_right (min remaining buffer_size) chunk later past)))
          ]
    ]

chain_data_next :
    (v : Volume) (content : ℕ → ℕ) (links cluster : ℕ)
    → is_data cluster ≡ true
    → chain_data v content (suc links) cluster
      ≡ cluster_data v content cluster ++ chain_data v content links (next_cluster v cluster)
unfolding chain_data
chain_data_next v content links cluster e = rw e refl

module _ (read : ReadBlocks) (v : Volume) (content : ℕ → ℕ) (clusters : HasClusters v)
    (disk : IsDisk read nsid v.block_size content) where
  pub read_cluster-data :
      (cluster : ℕ)
      → read_cluster read v cluster ≡ (some (true, cluster_data v content cluster), [])
  unfolding read_cluster cluster_data
  read_cluster-data cluster =
      within-fits cluster_buf_size _ true (cluster_data v content cluster)
        (read_sectors-stretch read v content clusters.sectors disk (cluster_to_sector v cluster)
            v.sectors_per_cluster (clusters.in_range cluster)
          ∙ ap
              (λ n. (
                some (true, stretch content (cluster_to_sector v cluster * v.bytes_per_sector) n),
                [],
              ))
              (sym clusters.whole))
        (omega (arith, length-cluster_data v content cluster, clusters.fits))

  nothing_left :
      (links cluster remaining buffer_size : ℕ)
      → (is_data cluster && ltb 0 remaining && ltb 0 buffer_size) ≡ false
      → take (min remaining buffer_size) (chain_data v content (suc links) cluster) ≡ []
  nothing_left links cluster remaining buffer_size stop = elim (Bool-cases (is_data cluster)) [
    | inl d ↦
        let none_left : min remaining buffer_size ≡ 0 = ground arith in
        ap (λ k. take k (chain_data v content (suc links) cluster)) none_left
    | inr d ↦
        ap (take (min remaining buffer_size)) (chain_data_last v content (suc links) cluster d)
        ∙ take-nil (min remaining buffer_size)
  ]

  -- On a volume whose clusters fit the buffer, the loop returns success with the bytes of the chain, as many
  -- as are left of the file and of the caller's buffer, when the fuel and the links are more than the bytes that are left.
  pub read_chain-data :
      (fuel links cluster remaining buffer_size : ℕ)
      → remaining < fuel
      → remaining < links
      → read_chain read v fuel cluster remaining buffer_size
        ≡ (some (true, take (min remaining buffer_size) (chain_data v content links cluster)), [])
  unfolding read_chain
  read_chain-data zero links cluster remaining buffer_size h k = absurd (omega arith)
  read_chain-data (suc fuel) zero cluster remaining buffer_size h k = absurd (omega arith)
  read_chain-data (suc fuel) (suc links) cluster remaining buffer_size h k =
      elim (Bool-cases (is_data cluster && ltb 0 remaining && ltb 0 buffer_size)) [
        | inl go ↦
            let n = to_copy v remaining buffer_size in
            let progress : (0 < n) × (n ≤ remaining) = ground (arith, clusters.some_bytes) in
            let n_eq : n
                ≡ min (length (cluster_data v content cluster)) (min remaining buffer_size) =
              ground (arith, length-cluster_data v content cluster) in
            let rest =
              read_chain-data fuel links (next_cluster v cluster) (remaining - n) (buffer_size - n)
                (omega arith) (omega arith) in
            rw
              (
                go,
                read_cluster-data cluster,
                rest,
                chain_data_next v content links cluster (ground (arith, go)),
              )
              (copy_cluster-append n remaining buffer_size (next_cluster v cluster)
                (cluster_data v content cluster)
                (chain_data v content links (next_cluster v cluster)) n_eq
                (chain_data_last v content links (next_cluster v cluster)))
        | inr stop ↦ rw stop (
            ap (λ l. (some (true, l), []))
              (sym (nothing_left links cluster remaining buffer_size stop)))
      ]
