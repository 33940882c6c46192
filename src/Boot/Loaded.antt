-- ===== src/Boot/Loaded.antt =====
-- What has succeeded when the parts of the loader have gone on.
use os_kernel_and_bootloader.Base.{
  ℕ, zero, suc, ◌+◌, ◌≤◌, ◌<◌, ◌≡◌, inl, inr, refl, sym, arith, List, [], ◌∷◌, Bool, true, false,
  not, ◌||◌, ◌==◌, ==_iff, if◌then◌else◌, codes, Bool-cases,
}
use mathlib.Core.Path.{subst}
use os_kernel_and_bootloader.Base.Run.{stop, next, ◌>>◌, return, act}
use os_kernel_and_bootloader.Boot.{
  Firmware, Boot, leave, Phdr, phdr_at, seg_addr, seg_pages, check, check_read, close_and_free,
  load_segment, load_from, open_kernel, Ehdr, efi_main, entered, read_header, read_phdrs,
}
use os_kernel_and_bootloader.Boot.Entry.{Went, next_after, entered_parts}

module _ (F : Firmware) where
  refused :
      (b : Bool) (k : Boot F.State (Unit {0})) (s t : F.State)
      → (if b then k else return tt) s ≡ next tt t
      → (Went (k s) → ⊥)
      → b ≡ false
  refused true k s t e h = absurd (h (subst (λ r. Went r) (sym e) tt))
  refused false k s t e h = refl

  check_passed :
      (status : ℕ) (cleanup : Boot F.State (Unit {0})) (s t : F.State)
      → check F status cleanup s ≡ next tt t
      → (Went {A = Unit {0}} ((cleanup >> leave status) s) → ⊥)
      → F.is_error status ≡ false
  unfolding check
  check_passed status cleanup s t e h =
      refused (F.is_error status) (cleanup >> leave status) s t e h

  check_read_passed :
      (status : ℕ) (complete : Bool) (s t : F.State)
      → check_read F status complete (close_and_free F) s ≡ next tt t
      → (F.is_error status ≡ false) × (complete ≡ true)
  unfolding check_read
  check_read_passed status complete s t e =
      let fine =
        refused (F.is_error status || not complete) (close_and_free F >> leave F.load_error) s t e
          (λ w. w) in
      ground (arith, fine)

  -- The firmware has allocated the pages of the segment at its address, has set the position of the file to
  -- that of the segment, and has read all of its bytes to the address, each without an error.
  pub record IsLoaded (ph : Phdr) : Type 0 where
    pub s₁ : F.State
    pub s₂ : F.State
    pub s₃ : F.State
    pub allocated : F.is_error (F.allocate_pages (seg_pages ph) (seg_addr ph) s₁).0 ≡ false
    pub placed : F.is_error (F.set_position ph.p_offset s₂).0 ≡ false
    pub read : F.is_error (F.read_to ph.p_filesz (seg_addr ph) s₃).0.0 ≡ false
    pub complete : (F.read_to ph.p_filesz (seg_addr ph) s₃).0.1 ≡ ph.p_filesz

  load_segment-IsLoaded :
      (ph : Phdr) (s t : F.State) → ph.p_type ≡ 1 → load_segment F ph s ≡ next tt t → IsLoaded ph
  unfolding load_segment
  load_segment-IsLoaded ph s t load done =
      let n = seg_pages ph in
      let a = seg_addr ph in
      let status = (F.allocate_pages n a s).0 in
      let t₁ = (F.allocate_pages n a s).1 in
      let is_load : (ph.p_type == 1) ≡ true = (==_iff ph.p_type 1).1 load in
      let cleanup =
        act (F.print (codes "Blad: AllocatePages dla segmentu: %r\n") (status ∷ []))
        >> close_and_free F in
      let (u₁, s₂, allocated, rest₁) =
        next_after (check F status cleanup) _ t₁ t tt
          (went_on (ph.p_type == 1) _ s t is_load done) in
      let (u₂, t₂, placed, rest₂) =
        next_after (check F (F.set_position ph.p_offset s₂).0 (close_and_free F)) _
          (F.set_position ph.p_offset s₂).1 t tt rest₁ in
      let reply = (F.read_to ph.p_filesz a t₂).0 in
      let (u₃, t₃, whole, rest₃) =
        next_after (check_read F reply.0 (reply.1 == ph.p_filesz) (close_and_free F)) _
          (F.read_to ph.p_filesz a t₂).1 t tt rest₂ in
      let (fine, size) = check_read_passed reply.0 (reply.1 == ph.p_filesz) _ t₃ whole in
      record {
        s₁ = s;
        s₂ = s₂;
        s₃ = t₂;
        allocated = check_passed status cleanup t₁ s₂ allocated (λ w. w);
        placed = check_passed _ (close_and_free F) _ t₂ placed (λ w. w);
        read = fine;
        complete = (==_iff reply.1 ph.p_filesz).0 size;
      }
    where
      went_on :
          (b : Bool) (k : Boot F.State (Unit {0})) (s t : F.State)
          → b ≡ true
          → (if not b then return tt else k) s ≡ next tt t
          → k s ≡ next tt t
      went_on true k s t e h = h
      went_on false k s t e h = absurd (cc e)

  -- When the loop over `n` headers from `i` on is done, each that is to be loaded has been.
  pub load_from-IsLoaded :
      (n i j : ℕ) (phdrs : List ℕ) (s t : F.State)
      → load_from F n i phdrs s ≡ next tt t
      → i ≤ j
      → j < i + n
      → (phdr_at phdrs j).p_type ≡ 1
      → IsLoaded (phdr_at phdrs j)
  unfolding load_from
  load_from-IsLoaded zero i j phdrs s t done low high load = absurd (omega arith)
  load_from-IsLoaded (suc n) i j phdrs s t done low high load =
      let (u, t₁, segment, rest) = next_after (load_segment F (phdr_at phdrs i)) _ s t tt done in
      elim (Bool-cases (i == j)) [
        | inl here ↦
            let same : i ≡ j = (==_iff i j).0 here in
            subst (λ k. (phdr_at phdrs k).p_type ≡ 1 → IsLoaded (phdr_at phdrs k)) same
              (λ load. load_segment-IsLoaded (phdr_at phdrs i) s t₁ load segment) load
        | inr later ↦
            let above : i + 1 ≤ j = ground (arith, later, low) in
            load_from-IsLoaded n (i + 1) j phdrs t₁ t rest above (omega (arith, high)) load
      ]

  -- When the kernel file is open, the firmware has opened it without an error.
  pub open_kernel_opened :
      (s t : F.State)
      → open_kernel F s ≡ next tt t
      → (s' : F.State) × (F.is_error (F.open_file (codes "\\KERNEL.ELF") s').0 ≡ false)
  unfolding open_kernel
  open_kernel_opened s t done =
      let s₁ = F.print (codes "KonradOS ELF UEFI loader startuje...\n") [] (F.initialize_lib s) in
      let (u₁, t₁, image, rest₁) =
        next_after (check F (F.loaded_image s₁).0 (return tt)) _ (F.loaded_image s₁).1 t tt done in
      let (u₂, t₂, system, rest₂) =
        next_after (check F (F.file_system t₁).0 (return tt)) _ (F.file_system t₁).1 t tt rest₁ in
      let (u₃, t₃, volume, rest₃) =
        next_after (check F (F.open_volume t₂).0 (return tt)) _ (F.open_volume t₂).1 t tt rest₂ in
      (t₃, check_passed _ _ _ t rest₃ (λ w. w))

  -- Whatever the firmware answers: when the loader has jumped, the firmware had opened the kernel file without
  -- an error, a header that begins as one of ELF files and the program headers had been read, the pages of
  -- each segment to be loaded had been allocated and all of its bytes had been read to them without an error,
  -- and the jump was to the entry point of the header.
  pub efi_main_entered :
      (s s' : F.State) (a : ℕ)
      → efi_main F s ≡ stop (entered a) s'
      → (e : Ehdr) × (phdrs : List ℕ) × (s₁ : F.State) × (s₂ : F.State) × (s₃ : F.State)
        × (F.is_error (F.open_file (codes "\\KERNEL.ELF") s₁).0 ≡ false)
        × (read_header F s₂ ≡ next e s₃)
        × (e.is_elf ≡ true)
        × (t : F.State) × (read_phdrs F e s₃ ≡ next phdrs t)
        × ((i : ℕ) → i < e.e_phnum → (phdr_at phdrs i).p_type ≡ 1 → IsLoaded (phdr_at phdrs i))
        × (a ≡ e.e_entry)
  efi_main_entered s s' a jumped =
      let (e, phdrs, s₁, s₂, s₃, s₄, opened, header, table, loaded, elf, address) =
        entered_parts F s s' a jumped in
      let (s₀, file) = open_kernel_opened s s₁ opened in
      (
        e,
        phdrs,
        s₀,
        s₁,
        s₂,
        file,
        header,
        elf,
        s₃,
        table,
        λ i h load.
            load_from-IsLoaded e.e_phnum 0 i phdrs s₃ s₄ loaded (omega arith) (omega (arith, h))
              load,
        address,
      )
