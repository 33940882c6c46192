-- ===== src/Pci/Search.antt =====
-- The nested loops as one search through the functions, numbered by bus, device and function.
use os_kernel_and_bootloader.Base.{
  ℕ, zero, suc, ◌+◌, ◌*◌, ◌<◌, ◌≡◌, refl, ap, ap₂, sym, ◌∙◌, List, Option, none, some, Bool, arith,
  append-nil,
}
use os_kernel_and_bootloader.Base.Io.{Io, ◌>>=◌, return}
use os_kernel_and_bootloader.Base.First.{first_from, or_later, first_from_add}
use os_kernel_and_bootloader.Pci.{next_round, for_range, for_functions}

-- What a search does when it ends: a value and a text for the function found.
module _ {A : Type 0} (value : ℕ → A) (text : ℕ → List ℕ) where
  abbrev pub report : Option ℕ → Io (Option A)
  report none = return none
  report (some k) = (some (some (value k)), text k)

  round_lem :
      (first later : Option ℕ)
      → report first >>= next_round (report later) ≡ report (or_later first later)
  unfolding next_round
  round_lem none later = refl
  round_lem (some k) later = ap (λ t. (some (some (value k)), t)) (append-nil (text k))

  -- Where each round searches the next `m` numbers, the loop searches all of them in order.
  pub for_range-report :
      (test : ℕ → Bool) (m n i start total : ℕ) (body : ℕ → Io (Option A))
      → total ≡ m * n
      → ((j k s : ℕ)
          → j < n
          → k ≡ i + j
          → s ≡ start + m * j
          → body k ≡ report (first_from m s test))
      → for_range n i body ≡ report (first_from total start test)
  unfolding for_range first_from
  for_range-report test m zero i start total body e h =
      let none_left : 0 ≡ total = omega arith in
      ap (λ r. report (first_from r start test)) none_left
  for_range-report test m (suc n) i start total body e h =
      let sum_eq : m + m * n ≡ total = omega arith in
      let this = h 0 i start (omega arith) (omega arith) (omega arith) in
      let rest =
        for_range-report test m n (i + 1) (start + m) (m * n) body refl
          (λ j k s p q r. h (suc j) k s (omega arith) (omega arith) (omega arith)) in
      ap₂ (λ r s. r >>= next_round s) this rest
      ∙ round_lem (first_from m start test) (first_from (m * n) (start + m) test)
      ∙ ap report (sym (first_from_add m (m * n) start (start + m) test refl))
      ∙ ap (λ k. report (first_from k start test)) sum_eq

  -- The three loops search all 65536 functions in order, where the body looks at one.
  pub for_functions-report :
      (test : ℕ → Bool) (body : ℕ → ℕ → ℕ → Io (Option A))
      → ((bus dev func : ℕ)
          → bus < 256
          → dev < 32
          → func < 8
          → body bus dev func ≡ report (first_from 1 (bus * 256 + dev * 8 + func) test))
      → for_functions body ≡ report (first_from 65536 0 test)
  unfolding for_functions
  for_functions-report test body h =
      for_range-report test 256 256 0 0 65536 _ (omega arith) λ b bus s₀ pb eb q₀.
        for_range-report test 8 32 0 s₀ 256 _ (omega arith) λ d dev s₁ pd ed q₁.
          for_range-report test 1 8 0 s₁ 8 _ (omega arith) λ f func s₂ pf ef q₂.
            let place : bus * 256 + dev * 8 + func ≡ s₂ = omega arith in
            h bus dev func (omega arith) (omega arith) (omega arith)
            ∙ ap (λ s. report (first_from 1 s test)) place
