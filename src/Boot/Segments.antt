-- ===== src/Boot/Segments.antt =====
-- The memory that the loader leaves, with a firmware whose services succeed.
use os_kernel_and_bootloader.Base.{
  ℕ, ◌+◌, ◌-◌, ◌*◌, ◌^◌, ◌≤◌, ◌<◌, ◌≡◌, ◌⊎◌, inl, inr, refl, ap, ◌∙◌, arith, Bool, true, false,
  Bool-cases, ltb, ◌==◌, ==_iff, if◌then◌else◌, u64,
}
use os_kernel_and_bootloader.Base.Run.{next, return}
use os_kernel_and_bootloader.Boot.{
  Firmware, Boot, Phdr, seg_pages, seg_addr, check, check_read, clear_rest, load_segment,
}

-- Memory in which the bytes `[a, a + n)` have new values.
abbrev pub with_bytes : (ℕ → ℕ) → ℕ → ℕ → (ℕ → ℕ) → ℕ → ℕ
with_bytes mem a n value b =
    if ltb b a then mem b else if ltb b (a + n) then value (b - a) else mem b

-- What the loader relies on, as the UEFI specification describes the services: the file of `size`
-- bytes is read from its position on, pages that are free can be allocated, and each service changes
-- only the memory that it is given.
pub record Behaves (F : Firmware) (file : ℕ → ℕ) (size : ℕ) : Type 0 where
  pub memory : F.State → ℕ → ℕ
  pub position : F.State → ℕ
  pub allocate_pages_ok :
      (n a : ℕ) (s : F.State)
      → (F.is_error (F.allocate_pages n a s).0 ≡ false)
        × ((b : ℕ)
            → (b < a) ⊎ (a + n * 4096 ≤ b)
            → memory (F.allocate_pages n a s).1 b ≡ memory s b)
  pub set_position_ok :
      (p : ℕ) (s : F.State)
      → (F.is_error (F.set_position p s).0 ≡ false)
        × (position (F.set_position p s).1 ≡ p)
        × ((b : ℕ) → memory (F.set_position p s).1 b ≡ memory s b)
  pub read_to_ok :
      (n a : ℕ) (s : F.State)
      → position s + n ≤ size
      → (F.is_error (F.read_to n a s).0.0 ≡ false)
        × ((F.read_to n a s).0.1 ≡ n)
        × ((b : ℕ)
            → memory (F.read_to n a s).1 b
              ≡ with_bytes (memory s) a n (λ k. file (position s + k)) b)
  pub set_mem_ok :
      (a n v b : ℕ) (s : F.State)
      → memory (F.set_mem a n v s) b ≡ with_bytes (memory s) a n (λ k. v) b

-- A segment that the file holds and that does not pass the end of the address space.
pub record IsSegment (size : ℕ) (ph : Phdr) : Type 0 where
  pub file_fits : ph.p_offset + ph.p_filesz ≤ size
  pub memory_fits : ph.p_filesz ≤ ph.p_memsz
  pub space_fits : seg_addr ph + ph.p_memsz + 4096 ≤ 2 ^ 64

abbrev pub IsLoad : Phdr → Type 0
IsLoad ph = ph.p_type ≡ 1

-- The byte that belongs at an offset in a segment: from the file, and then zero.
abbrev pub segment_byte : (ℕ → ℕ) → Phdr → ℕ → ℕ
segment_byte file ph k = if ltb k ph.p_filesz then file (ph.p_offset + k) else 0

-- An address is outside the pages of a segment.
abbrev pub Outside : Phdr → ℕ → Type 0
Outside ph b = (b < seg_addr ph) ⊎ (seg_addr ph + seg_pages ph * 4096 ≤ b)

module _ (F : Firmware) (file : ℕ → ℕ) (size : ℕ) (behaves : Behaves F file size) where
  -- The state after the calls for a segment.
  abbrev pub read_state : Phdr → F.State → F.State
  read_state ph s =
      (F.read_to ph.p_filesz (seg_addr ph)
        (F.set_position ph.p_offset (F.allocate_pages (seg_pages ph) (seg_addr ph) s).1).1).1

  abbrev pub cleared_state : Phdr → F.State → F.State
  cleared_state ph s =
      if ltb ph.p_filesz ph.p_memsz
      then F.set_mem (u64 (seg_addr ph + ph.p_filesz)) (ph.p_memsz - ph.p_filesz) 0
          (read_state ph s)
      else read_state ph s

  clear_rest_lem :
      (ph : Phdr) (s : F.State) → clear_rest F ph (read_state ph s) ≡ next tt (cleared_state ph s)
  unfolding clear_rest
  clear_rest_lem ph s = elim (Bool-cases (ltb ph.p_filesz ph.p_memsz)) [
    | inl more ↦ rw more refl
    | inr none_left ↦ rw none_left refl
  ]

  check_ok :
      (status : ℕ) (cleanup : Boot F.State (Unit {0}))
      → F.is_error status ≡ false
      → check F status cleanup ≡ return tt
  unfolding check
  check_ok status cleanup e = rw e refl

  check_read_ok :
      (status : ℕ) (complete : Bool) (cleanup : Boot F.State (Unit {0}))
      → F.is_error status ≡ false
      → complete ≡ true
      → check_read F status complete cleanup ≡ return tt
  unfolding check_read
  check_read_ok status complete cleanup e c = rw (e, c) refl

  pub load_segment_next :
      (ph : Phdr) (s : F.State)
      → IsLoad ph
      → IsSegment size ph
      → load_segment F ph s ≡ next tt (cleared_state ph s)
  unfolding load_segment
  load_segment_next ph s load fits =
      let s₁ = (F.allocate_pages (seg_pages ph) (seg_addr ph) s).1 in
      let s₂ = (F.set_position ph.p_offset s₁).1 in
      let (seek, place, same) = behaves.set_position_ok ph.p_offset s₁ in
      let (read, count, bytes) =
        behaves.read_to_ok ph.p_filesz (seg_addr ph) s₂ (omega (arith, place, fits.file_fits)) in
      let is_load : (ph.p_type == 1) ≡ true = (==_iff ph.p_type 1).1 load in
      let whole : ((F.read_to ph.p_filesz (seg_addr ph) s₂).0.1 == ph.p_filesz) ≡ true =
        (==_iff _ ph.p_filesz).1 count in
      rw
        (
          is_load,
          check_ok (F.allocate_pages (seg_pages ph) (seg_addr ph) s).0 _
              (behaves.allocate_pages_ok (seg_pages ph) (seg_addr ph) s).0,
          check_ok (F.set_position ph.p_offset s₁).0 _ seek,
          check_read_ok (F.read_to ph.p_filesz (seg_addr ph) s₂).0.0 _ _ read whole,
        )
        (clear_rest_lem ph s)

  -- The memory when the pages have been allocated, and when the file has been read.
  abbrev pub page_memory : Phdr → F.State → ℕ → ℕ
  page_memory ph s = behaves.memory (F.allocate_pages (seg_pages ph) (seg_addr ph) s).1

  read_memory :
      (ph : Phdr) (s : F.State) (b : ℕ)
      → IsSegment size ph
      → behaves.memory (read_state ph s) b
        ≡ with_bytes (page_memory ph s) (seg_addr ph) ph.p_filesz (λ k. file (ph.p_offset + k)) b
  read_memory ph s b fits =
      let a = seg_addr ph in
      let n = ph.p_filesz in
      let s₁ = (F.allocate_pages (seg_pages ph) a s).1 in
      let s₂ = (F.set_position ph.p_offset s₁).1 in
      let (seek, place, same) = behaves.set_position_ok ph.p_offset s₁ in
      let (read, count, bytes) = behaves.read_to_ok n a s₂ (omega (arith, place, fits.file_fits)) in
      bytes b
      ∙ ap (λ p. with_bytes (behaves.memory s₂) a n (λ k. file (p + k)) b) place
      ∙ ap (λ m. if ltb b a then m else if ltb b (a + n) then file (ph.p_offset + (b - a)) else m)
          (same b)

  -- … and when the rest has been cleared.
  pub cleared_memory :
      (ph : Phdr) (s : F.State) (b : ℕ)
      → IsSegment size ph
      → behaves.memory (cleared_state ph s) b
        ≡ with_bytes (page_memory ph s) (seg_addr ph) ph.p_memsz (segment_byte file ph) b
  cleared_memory ph s b fits =
      let a = seg_addr ph in
      let n = ph.p_filesz in
      let m = ph.p_memsz in
      let no_wrap : u64 (a + n) ≡ a + n = omega (arith, fits.space_fits, fits.memory_fits) in
      let base = read_memory ph s b fits in
      let small = fits.memory_fits in
      elim (Bool-cases (ltb n m)) [
        | inl more ↦
            rw (more, no_wrap)
              (behaves.set_mem_ok (a + n) (m - n) 0 b (read_state ph s)
                ∙ ground (arith, base, small))
        | inr exact ↦ rw exact (base ∙ ground (arith, small))
      ]
