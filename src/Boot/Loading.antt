-- ===== src/Boot/Loading.antt =====
-- The loop over the program headers.
use os_kernel_and_bootloader.Base.{
  ℕ, zero, suc, ◌+◌, ◌-◌, ◌*◌, ◌≤◌, ◌<◌, ◌≡◌, ◌≢◌, ◌⊎◌, inl, inr, refl, ap, ◌∙◌, arith, List,
  Bool-cases, lt→ltb, le→ltb, ◌==◌, ==_iff, u64,
}
use native.Mathlib.Decide.{dec_lt}
use mathlib.Core.Path.{subst}
use os_kernel_and_bootloader.Base.Run.{next, after}
use os_kernel_and_bootloader.Boot.{
  Firmware, Phdr, phdr_at, seg_pages, seg_addr, load_segment, load_from,
}
use os_kernel_and_bootloader.Boot.Segments.{
  with_bytes, Behaves, IsSegment, IsLoad, segment_byte, Outside, cleared_state, page_memory,
  load_segment_next, cleared_memory,
}

pages_cover : (size : ℕ) (ph : Phdr) → IsSegment size ph → ph.p_memsz ≤ seg_pages ph * 4096
unfolding seg_pages
pages_cover size ph fits =
    let no_wrap : u64 (ph.p_memsz + 0xFFF) ≡ ph.p_memsz + 0xFFF = omega (arith, fits.space_fits) in
    omega (arith, no_wrap)

with_bytes_inside :
    (mem : ℕ → ℕ) (a n : ℕ) (value : ℕ → ℕ) (k : ℕ)
    → k < n
    → with_bytes mem a n value (a + k) ≡ value k
with_bytes_inside mem a n value k h =
    let same : a + k - a ≡ k = omega arith in
    rw (le→ltb (a + k) a (omega arith), lt→ltb (a + k) (a + n) (omega arith)) (ap value same)

with_bytes_outside :
    (mem : ℕ → ℕ) (a n : ℕ) (value : ℕ → ℕ) (b : ℕ)
    → (b < a) ⊎ (a + n ≤ b)
    → with_bytes mem a n value b ≡ mem b
with_bytes_outside mem a n value b (inl before) = rw (lt→ltb b a before) refl
with_bytes_outside mem a n value b (inr behind) =
    rw (le→ltb b a (omega arith), le→ltb b (a + n) behind) refl

-- Outside the pages is outside the segment.
Outside-bytes :
    (size : ℕ) (ph : Phdr) (b : ℕ)
    → IsSegment size ph
    → Outside ph b
    → (b < seg_addr ph) ⊎ (seg_addr ph + ph.p_memsz ≤ b)
Outside-bytes size ph b fits (inl before) = inl before
Outside-bytes size ph b fits (inr behind) = inr (omega (arith, pages_cover size ph fits))

module _ (F : Firmware) (file : ℕ → ℕ) (size : ℕ) (behaves : Behaves F file size) where
  abbrev pub memory : F.State → ℕ → ℕ
  memory = behaves.memory

  -- One header: nothing happens, or its segment is loaded and the rest of memory kept.
  load_segment_lem :
      (ph : Phdr) (s : F.State)
      → (IsLoad ph → IsSegment size ph)
      → (s' : F.State) × (load_segment F ph s ≡ next tt s')
        × ((b : ℕ) → (IsLoad ph → Outside ph b) → memory s' b ≡ memory s b)
        × ((k : ℕ)
            → IsLoad ph
            → k < ph.p_memsz
            → memory s' (seg_addr ph + k) ≡ segment_byte file ph k)
  unfolding load_segment
  load_segment_lem ph s fits = elim (Bool-cases (ph.p_type == 1)) [
    | inl load ↦
        let is_load = (==_iff ph.p_type 1).0 load in
        let valid = fits is_load in
        let a = seg_addr ph in
        (
          cleared_state F file size behaves ph s,
          load_segment_next F file size behaves ph s is_load valid,
          λ b outside.
              cleared_memory F file size behaves ph s b valid
              ∙ with_bytes_outside (page_memory F file size behaves ph s) a ph.p_memsz
                  (segment_byte file ph) b (Outside-bytes size ph b valid (outside is_load))
              ∙ (behaves.allocate_pages_ok (seg_pages ph) a s).1 b (outside is_load),
          λ k l below.
              cleared_memory F file size behaves ph s (a + k) valid
              ∙ with_bytes_inside (page_memory F file size behaves ph s) a ph.p_memsz
                  (segment_byte file ph) k below,
        )
    | inr skip ↦ (s, rw skip refl, λ b o. refl, λ k l below. absurd (ground (arith, skip, l)))
  ]

  -- What the loop over `n` headers from `i` on does: it changes only the pages of their segments, and
  -- loads each of these.
  abbrev pub Loaded : List ℕ → ℕ → ℕ → F.State → F.State → Type 0
  Loaded phdrs n i s s' =
      ((b : ℕ)
        → ((j : ℕ) → i ≤ j → j < i + n → IsLoad (phdr_at phdrs j) → Outside (phdr_at phdrs j) b)
        → memory s' b ≡ memory s b)
      × ((j : ℕ)
          → i ≤ j
          → j < i + n
          → (k : ℕ) → IsLoad (phdr_at phdrs j)
          → k < (phdr_at phdrs j).p_memsz
          → memory s' (seg_addr (phdr_at phdrs j) + k) ≡ segment_byte file (phdr_at phdrs j) k)

  -- The segments are those of the file, and no two of them share a page.
  pub record AreSegments (phdrs : List ℕ) (n i : ℕ) : Type 0 where
    pub segments :
        (j : ℕ) → i ≤ j → j < i + n → IsLoad (phdr_at phdrs j) → IsSegment size (phdr_at phdrs j)
    pub apart :
        (j k b : ℕ)
        → i ≤ j
        → j < i + n
        → i ≤ k
        → k < i + n
        → j ≢ k
        → IsLoad (phdr_at phdrs j)
        → IsLoad (phdr_at phdrs k)
        → b < (phdr_at phdrs j).p_memsz
        → Outside (phdr_at phdrs k) (seg_addr (phdr_at phdrs j) + b)

  later : (phdrs : List ℕ) (n i : ℕ) → AreSegments phdrs (suc n) i → AreSegments phdrs n (i + 1)
  later phdrs n i h = record {
    segments = λ j p q. h.segments j (omega arith) (omega arith);
    apart = λ j k b p q r t. h.apart j k b (omega arith) (omega arith) (omega arith) (omega arith);
  }

  step :
      (phdrs : List ℕ) (n i : ℕ) (s s₁ s' : F.State)
      → AreSegments phdrs (suc n) i
      → ((b : ℕ)
          → (IsLoad (phdr_at phdrs i) → Outside (phdr_at phdrs i) b)
          → memory s₁ b ≡ memory s b)
      → ((k : ℕ)
          → IsLoad (phdr_at phdrs i)
          → k < (phdr_at phdrs i).p_memsz
          → memory s₁ (seg_addr (phdr_at phdrs i) + k) ≡ segment_byte file (phdr_at phdrs i) k)
      → Loaded phdrs n (i + 1) s₁ s'
      → Loaded phdrs (suc n) i s s'
  step phdrs n i s s₁ s' h kept loaded (rest_kept, rest_loaded) = (
    λ b outside.
        rest_kept b (λ j p q. outside j (omega arith) (omega arith))
        ∙ kept b (outside i (omega arith) (omega arith)),
    λ j p q. elim (dec_lt i j) [
      | yes after_i ↦ rest_loaded j (omega arith) (omega arith)
      | no first ↦ subst Here (only j p first) this
    ],
  )
    where
      Here : ℕ → Type 0
      Here j =
          (k : ℕ)
          → IsLoad (phdr_at phdrs j)
          → k < (phdr_at phdrs j).p_memsz
          → memory s' (seg_addr (phdr_at phdrs j) + k) ≡ segment_byte file (phdr_at phdrs j) k

      only : (j : ℕ) → i ≤ j → ¬ (i < j) → i ≡ j
      only j p q = omega arith

      this : Here i
      this k load below =
          rest_kept (seg_addr (phdr_at phdrs i) + k) (λ j p q load_j.
            h.apart i j k (omega arith) (omega arith) (omega arith) (omega arith)
              (λ e. absurd (omega arith)) load load_j below)
          ∙ loaded k load below

  -- The loop ends with `n` segments loaded.
  pub load_from_lem :
      (phdrs : List ℕ) (n i : ℕ) (s : F.State)
      → AreSegments phdrs n i
      → (s' : F.State) × (load_from F n i phdrs s ≡ next tt s') × Loaded phdrs n i s s'
  unfolding load_from
  load_from_lem phdrs zero i s h = (s, refl, (λ b o. refl, λ j p q. absurd (omega arith)))
  load_from_lem phdrs (suc n) i s h =
      let (s₁, first, kept, loaded) =
        load_segment_lem (phdr_at phdrs i) s (h.segments i (omega arith) (omega arith)) in
      let (s', rest, done) = load_from_lem phdrs n (i + 1) s₁ (later phdrs n i h) in
      (
        s',
        ap (λ r. after r (λ _. load_from F n (i + 1) phdrs)) first ∙ rest,
        step phdrs n i s s₁ s' h kept loaded done,
      )
