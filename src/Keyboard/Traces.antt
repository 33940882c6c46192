-- ===== src/Keyboard/Traces.antt =====
-- Interrupts and reads in any order.
use os_kernel_and_bootloader.Base.{
  ℕ, suc, ◌+◌, ◌≡◌, refl, List, [], ◌∷◌, Bool, true, false, ◌==◌, Bool-cases, inl, inr, some, none,
  arith, length, if◌then◌else◌,
}
use mathlib.Core.Option.{Option}
use mathlib.Core.Path.{subst}
use os_kernel_and_bootloader.Keyboard.{
  Keyboard, init, on_irq, wait_line, Reply, take_line, readline,
}
use os_kernel_and_bootloader.Keyboard.Bounds.{IsValid, init-IsValid, on_irq-IsValid, eois-on_irq}

-- What happens to the driver, with the number of interrupts that it takes: an interrupt with a scan code, or
-- a read that returns, during which interrupts arrive.
pub data Step : ℕ → Keyboard → Keyboard → Type 0 where
  interrupt : (k : Keyboard) (sc : ℕ) → Step 1 k (on_irq k sc)
  reads :
      (k : Keyboard) (max_len n : ℕ) (scs : List ℕ) (r : Reply)
      → readline k max_len scs ≡ some r
      → n + length r.pending ≡ length scs
      → Step n k r.keyboard

pub data Reach (k : Keyboard) : ℕ → Keyboard → Type 0 where
  here : Reach k 0 k
  later : {k' k'' : Keyboard} {m n : ℕ} → Reach k m k' → Step n k' k'' → Reach k (m + n) k''

-- A wait that ends leaves a valid driver, which has taken the interrupts that are not pending.
abbrev Waited : Keyboard → ℕ → Option (Keyboard × List ℕ) → Type 0
Waited k n none = Unit {0}
Waited k n (some (k', rest)) = IsValid k' × (k'.eois + length rest ≡ k.eois + n)

one_more :
    (k : Keyboard) (sc n : ℕ) (w : Option (Keyboard × List ℕ))
    → Waited (on_irq k sc) n w
    → Waited k (suc n) w
one_more k sc n none h = tt
one_more k sc n (some (k', rest)) (v, count) = (v, omega (arith, count, eois-on_irq k sc))

if-Waited :
    (k : Keyboard) (n : ℕ) (b : Bool) (w w' : Option (Keyboard × List ℕ))
    → Waited k n w
    → Waited k n w'
    → Waited k n (if b then w else w')
if-Waited k n true w w' h h' = h
if-Waited k n false w w' h h' = h'

wait_line-Waited :
    (scs : List ℕ) (k : Keyboard) → IsValid k → Waited k (length scs) (wait_line k scs)
unfolding wait_line
wait_line-Waited [] k v = if-Waited k 0 k.line_ready (some (k, [])) none (v, refl) tt
wait_line-Waited (sc ∷ scs) k v =
    if-Waited k (length (sc ∷ scs)) k.line_ready (some (k, sc ∷ scs)) _ (v, refl)
      (one_more k sc (length scs) _ (wait_line-Waited scs (on_irq k sc) (on_irq-IsValid sc v)))

-- The line taken leaves an empty one.
take_line-IsValid :
    (k : Keyboard) (max_len : ℕ) (rest : List ℕ)
    → IsValid k
    → IsValid (take_line k max_len rest).keyboard
unfolding take_line
take_line-IsValid k max_len rest v = ground arith

abbrev Replied : Keyboard → ℕ → Option Reply → Type 0
Replied k n none = Unit {0}
Replied k n (some r) = IsValid r.keyboard × (r.keyboard.eois + length r.pending ≡ k.eois + n)

readline-Replied :
    (k : Keyboard) (max_len : ℕ) (scs : List ℕ)
    → IsValid k
    → Replied k (length scs) (readline k max_len scs)
unfolding readline take_line
readline-Replied k max_len scs v = go (wait_line k scs) (wait_line-Waited scs k v)
  where
    go :
        (w : Option (Keyboard × List ℕ))
        → Waited k (length scs) w
        → Replied k (length scs) (elim w [
          | none ↦ none
          | some (k', pending) ↦ if max_len == 0 then none else some (take_line k' max_len pending)
        ])
    go none h = tt
    go (some (k', rest)) (v', count) = elim (Bool-cases (max_len == 0)) [
      | inl nowhere ↦ rw nowhere tt
      | inr somewhere ↦ rw somewhere (take_line-IsValid k' max_len rest v', count)
    ]

Step-IsValid :
    {n : ℕ} {k k' : Keyboard} → Step n k k' → IsValid k → IsValid k' × (k'.eois ≡ k.eois + n)
Step-IsValid (interrupt k sc) v = (on_irq-IsValid sc v, eois-on_irq k sc)
Step-IsValid (reads k max_len n scs r e count) v =
    let (v', taken) = subst (Replied k (length scs)) e (readline-Replied k max_len scs v) in
    (v', omega (arith, taken, count))

-- From a driver that has been initialised, whatever interrupts and reads follow in whatever order, the buffer,
-- the line that is ready in it and the screen stay valid, and the local APIC has been told of the end of every
-- interrupt exactly once.
pub Reach-IsValid :
    {k : Keyboard} {n : ℕ} {k' : Keyboard}
    → IsValid k
    → Reach (init k) n k'
    → IsValid k' × (k'.eois ≡ k.eois + n)
unfolding init
Reach-IsValid v here = (init-IsValid v, omega arith)
Reach-IsValid v (later {m} {n} before step) =
    let (v₁, first) = Reach-IsValid v before in
    let (v₂, second) = Step-IsValid step v₁ in (v₂, omega (arith, first, second))
