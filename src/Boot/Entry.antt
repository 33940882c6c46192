-- ===== src/Boot/Entry.antt =====
-- When the boot loader enters the kernel, whatever the firmware answers.
use os_kernel_and_bootloader.Base.{
  ℕ, zero, suc, ◌+◌, ◌≡◌, refl, ap, sym, ◌∙◌, List, Bool, true, false, not, ◌||◌, ◌==◌,
  if◌then◌else◌, length,
}
use mathlib.Core.Path.{subst}
use os_kernel_and_bootloader.Base.Run.{Run, stop, next, after, ◌>>=◌, ◌>>◌, return, call, act}
use os_kernel_and_bootloader.Boot.{
  Firmware, jump, returned, entered, Boot, leave, Ehdr, ehdr_of, Phdr, phdr_at, check, check_read,
  clear_rest, load_segment, load_from, open_kernel, read_header, read_phdrs, enter_kernel, efi_main,
  Outcome,
}

-- If the loader jumps, then to an address with a property.
abbrev EntersAt : (ℕ → Type 0) → {S A : Type 0} → Run Outcome S A → Type 0
EntersAt P (stop (returned status) s) = Unit {0}
EntersAt P (stop (entered address) s) = P address
EntersAt P (next a s) = Unit {0}

module _ (P : ℕ → Type 0) (S : Type 0) where
  unfoldable Only : {A : Type 0} → Boot S A → Type 0
  Only m = (s : S) → EntersAt P (m s)

  call-Only : {A : Type 0} (service : S → A × S) → Only (call service)
  unfolding Only
  call-Only service s = tt

  act-Only : (service : S → S) → Only (act service)
  unfolding Only
  act-Only service s = tt

  return-Only : {A : Type 0} (a : A) → Only (return a)
  unfolding Only
  return-Only a s = tt

  leave-Only : (A : Type 0) (status : ℕ) → Only (leave {A = A} status)
  unfolding Only
  leave-Only A status s = tt

  bind-Only :
      {A B : Type 0} (m : Boot S A) (f : A → Boot S B)
      → Only m
      → ((a : A) → Only (f a))
      → Only (m >>= f)
  unfolding Only
  bind-Only {A} {B} m f hm hf s = go (m s) (hm s)
    where
      go : (r : Run Outcome S A) → EntersAt P r → EntersAt P (after r f)
      go (stop (returned status) t) h = h
      go (stop (entered address) t) h = h
      go (next a t) h = hf a t

  seq-Only : {B : Type 0} (m : Boot S (Unit {0})) (k : Boot S B) → Only m → Only k → Only (m >> k)
  seq-Only m k hm hk = bind-Only m (λ _. k) hm (λ _. hk)

  if-Only : {A : Type 0} (b : Bool) (m k : Boot S A) → Only m → Only k → Only (if b then m else k)
  if-Only true m k hm hk = hm
  if-Only false m k hm hk = hk

abbrev Jumped : {S A : Type 0} → Run Outcome S A → Type 0
Jumped (stop (returned status) s) = ⊥
Jumped (stop (entered address) s) = Unit {0}
Jumped (next a s) = ⊥

abbrev Never : {S A : Type 0} → Boot S A → Type 0
Never {S} m = Only (λ a. ⊥) S m

-- If a sequence has jumped and its first part never jumps, the first part has gone on.
entered_after :
    {S A B : Type 0} (m : Boot S A) (f : A → Boot S B) (s s' : S) (a : ℕ)
    → Never m
    → (m >>= f) s ≡ stop (entered a) s'
    → (x : A) × (t : S) × (m s ≡ next x t) × (f x t ≡ stop (entered a) s')
unfolding Only
entered_after {S} {A} {B} m f s s' a never e = go (m s) (never s) refl e
  where
    go :
        (r : Run Outcome S A)
        → EntersAt (λ a. ⊥) r
        → m s ≡ r
        → after r f ≡ stop (entered a) s'
        → (x : A) × (t : S) × (m s ≡ next x t) × (f x t ≡ stop (entered a) s')
    go (stop (returned status) t) h same jumped = absurd (subst (λ r. Jumped r) (sym jumped) tt)
    go (stop (entered b) t) h same jumped = absurd h
    go (next x t) h same jumped = (x, t, same, jumped)

module _ (F : Firmware) (P : ℕ → Type 0) where
  check-Only :
      (status : ℕ) (cleanup : Boot F.State (Unit {0}))
      → Only P F.State cleanup
      → Only P F.State (check F status cleanup)
  unfolding check
  check-Only status cleanup h =
      if-Only P F.State (F.is_error status) _ _
        (seq-Only P F.State cleanup (leave status) h (leave-Only P F.State (Unit {0}) status))
        (return-Only P F.State tt)

  check_read-Only :
      (status : ℕ) (complete : Bool) (cleanup : Boot F.State (Unit {0}))
      → Only P F.State cleanup
      → Only P F.State (check_read F status complete cleanup)
  unfolding check_read
  check_read-Only status complete cleanup h =
      if-Only P F.State (F.is_error status || not complete) _ _
        (seq-Only P F.State cleanup (leave F.load_error) h
          (leave-Only P F.State (Unit {0}) F.load_error))
        (return-Only P F.State tt)

  clear_rest-Only : (ph : Phdr) → Only P F.State (clear_rest F ph)
  unfolding clear_rest
  clear_rest-Only ph = search (if-Only P F.State, act-Only P F.State, return-Only P F.State)

  -- A part made of such parts never jumps elsewhere.
  ruleset staying = (
    bind-Only, seq-Only, if-Only, call-Only, act-Only, return-Only, leave-Only, check-Only,
    check_read-Only, clear_rest-Only,
  )

  load_segment-Only : (ph : Phdr) → Only P F.State (load_segment F ph)
  unfolding load_segment
  load_segment-Only ph = search staying depth 24

  load_from-Only : (n i : ℕ) (phdrs : List ℕ) → Only P F.State (load_from F n i phdrs)
  unfolding load_from
  load_from-Only zero i phdrs = return-Only P F.State tt
  load_from-Only (suc n) i phdrs =
      seq-Only P F.State _ _ (load_segment-Only (phdr_at phdrs i)) (load_from-Only n (i + 1) phdrs)

  open_kernel-Only : Only P F.State (open_kernel F)
  unfolding open_kernel
  open_kernel-Only = search staying depth 24

  read_header-Only : Only P F.State (read_header F)
  unfolding read_header
  read_header-Only = search staying depth 24

  read_phdrs-Only : (e : Ehdr) → Only P F.State (read_phdrs F e)
  unfolding read_phdrs
  read_phdrs-Only e = search staying depth 24

  jump-Only : (e : Ehdr) → P e.e_entry → Only P F.State (jump e.e_entry)
  unfolding Only
  jump-Only e here s = here

  enter_kernel-Only : (e : Ehdr) → P e.e_entry → Only P F.State (enter_kernel F e)
  unfolding enter_kernel
  enter_kernel-Only e here = search (staying, jump-Only e here) depth 24

abbrev pub Went : {S A : Type 0} → Run Outcome S A → Type 0
Went (stop o s) = ⊥
Went (next a s) = Unit {0}

-- If a sequence has gone on, both parts have.
pub next_after :
    {S A B : Type 0} (m : Boot S A) (f : A → Boot S B) (s s' : S) (b : B)
    → (m >>= f) s ≡ next b s'
    → (x : A) × (t : S) × (m s ≡ next x t) × (f x t ≡ next b s')
next_after {S} {A} {B} m f s s' b e = go (m s) refl e
  where
    go :
        (r : Run Outcome S A)
        → m s ≡ r
        → after r f ≡ next b s'
        → (x : A) × (t : S) × (m s ≡ next x t) × (f x t ≡ next b s')
    go (stop o t) same went = absurd (subst (λ r. Went r) (sym went) tt)
    go (next x t) same went = (x, t, same, went)

passed :
    {S : Type 0} (b : Bool) (k : Boot S (Unit {0})) (s t : S)
    → (if b then return tt else k) s ≡ next tt t
    → (Went (k s) → ⊥)
    → b ≡ true
passed true k s t e h = refl
passed false k s t e h = absurd (h (subst (λ r. Went r) (sym e) tt))

-- The value with which a part has gone on.
value_or : {S A : Type 0} → A → Run Outcome S A → A
value_or d (stop o s) = d
value_or d (next a s) = a

module _ (F : Firmware) where
  -- The header that has been read is that of an ELF file.
  header_is_elf : (s t : F.State) (e : Ehdr) → read_header F s ≡ next e t → e.is_elf ≡ true
  unfolding read_header
  header_is_elf s t e h =
      let reply = (F.read 64 s).0 in
      let t₀ = (F.read 64 s).1 in
      let elf = (ehdr_of reply.1).is_elf in
      let (u, t₁, checked, rest) =
        next_after (check_read F reply.0 (length reply.1 == 64) _) _ t₀ t e h in
      let (v, t₂, tested, last) = next_after (if elf then return tt else _) _ t₁ t e rest in
      let same : ehdr_of reply.1 ≡ e = unfold value_or in ap (value_or e) last in
      ap (λ h. h.is_elf) (sym same) ∙ passed elf _ t₁ t₂ tested (λ w. w)

  -- When the loader has jumped, each of its parts had gone on.
  pub entered_parts :
      (s s' : F.State) (a : ℕ)
      → efi_main F s ≡ stop (entered a) s'
      → (e : Ehdr) × (phdrs : List ℕ) × (s₁ : F.State) × (s₂ : F.State) × (s₃ : F.State)
        × (s₄ : F.State) × (open_kernel F s ≡ next tt s₁)
        × (read_header F s₁ ≡ next e s₂)
        × (read_phdrs F e s₂ ≡ next phdrs s₃)
        × (load_from F e.e_phnum 0 phdrs s₃ ≡ next tt s₄)
        × (e.is_elf ≡ true)
        × (a ≡ e.e_entry)
  unfolding efi_main Only
  entered_parts s s' a jumped =
      let (u, s₁, opened, rest₁) =
        entered_after (open_kernel F) _ s s' a (open_kernel-Only F (λ b. ⊥)) jumped in
      let (e, s₂, header, rest₂) =
        entered_after (read_header F) _ s₁ s' a (read_header-Only F (λ b. ⊥)) rest₁ in
      let (phdrs, s₃, table, rest₃) =
        entered_after (read_phdrs F e) _ s₂ s' a (read_phdrs-Only F (λ b. ⊥) e) rest₂ in
      let (v, s₄, loaded, rest₄) =
        entered_after (load_from F e.e_phnum 0 phdrs) _ s₃ s' a
          (load_from-Only F (λ b. ⊥) e.e_phnum 0 phdrs) rest₃ in
      (
        e,
        phdrs,
        s₁,
        s₂,
        s₃,
        s₄,
        opened,
        header,
        table,
        loaded,
        header_is_elf s₁ s₂ e header,
        subst (EntersAt (λ b. b ≡ e.e_entry)) rest₄
            (enter_kernel-Only F (λ b. b ≡ e.e_entry) e refl s₄),
      )
