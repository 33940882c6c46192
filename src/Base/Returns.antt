-- ===== src/Base/Returns.antt =====
-- Calls that return, whatever their result.
use os_kernel_and_bootloader.Base.Io.{Io, ◌>>=◌, ◌>>◌, return, print, print_hex}
use os_kernel_and_bootloader.Base.Tests.{if◌then◌else◌}
use Prim.Native.Nat.{ℕ}
use mathlib.Core.Bool.{Bool, true, false}
use mathlib.Core.List.{List}
use mathlib.Core.Option.{Option, none, some}
use mathlib.Core.Path.{◌≡◌, refl}

-- The call returns a value that meets a condition.
abbrev IsGiven : {A : Type 0} → (A → Type 0) → Option A → Type 0
IsGiven P none = ⊥
IsGiven P (some a) = P a

unfoldable pub Gives : {A : Type 0} → (A → Type 0) → Io A → Type 0
Gives P m = IsGiven P m.0

unfoldable pub Returns : {A : Type 0} → Io A → Type 0
Returns m = IsGiven (λ _. Unit {0}) m.0

pub return-Returns : {A : Type 0} (a : A) → Returns (return a)
unfolding Returns
return-Returns a = tt

pub print-Returns : (text : List ℕ) → Returns (print text)
unfolding Returns
print-Returns text = tt

pub print_hex-Returns : (value : ℕ) → Returns (print_hex value)
unfolding Returns
print_hex-Returns value = tt

pub bind-Returns :
    {A B : Type 0} (m : Io A) (f : A → Io B)
    → Returns m
    → ((a : A) → Returns (f a))
    → Returns (m >>= f)
unfolding Returns
bind-Returns (none, t) f h k = absurd h
bind-Returns (some a, t) f h k = k a

pub seq-Returns :
    {B : Type 0} (m : Io (Unit {0})) (k : Io B) → Returns m → Returns k → Returns (m >> k)
seq-Returns m k hm hk = bind-Returns m (λ _. k) hm (λ _. hk)

-- A result after a text.
pub said-Returns : {A : Type 0} (text : List ℕ) (a : A) → Returns (print text >> return a)
unfolding Returns
said-Returns text a = tt

pub if-Returns :
    {A : Type 0} (b : Bool) (m k : Io A) → Returns m → Returns k → Returns (if b then m else k)
if-Returns true m k hm hk = hm
if-Returns false m k hm hk = hk

-- A call returns if its result is known.
pub some-Returns : {A : Type 0} (m : Io A) (a : A) → m.0 ≡ some a → Returns m
unfolding Returns
some-Returns m a e = rw e tt

-- The value of a call that returns.
pub returned : {A : Type 0} (m : Io A) → Returns m → (a : A) × (m.0 ≡ some a)
unfolding Returns
returned (none, t) h = absurd h
returned (some a, t) h = (a, refl)

pub return-Gives : {A : Type 0} (P : A → Type 0) (a : A) → P a → Gives P (return a)
unfolding Gives
return-Gives P a h = h

pub bind-Gives :
    {A B : Type 0} (Q : B → Type 0) (m : Io A) (f : A → Io B)
    → Returns m
    → ((a : A) → Gives Q (f a))
    → Gives Q (m >>= f)
unfolding Gives Returns
bind-Gives Q (none, t) f h k = absurd h
bind-Gives Q (some a, t) f h k = k a

-- A sequence whose first part is known.
pub known-Gives :
    {A B : Type 0} (Q : B → Type 0) (m : Io A) (f : A → Io B) (a : A)
    → m.0 ≡ some a
    → Gives Q (f a)
    → Gives Q (m >>= f)
unfolding Gives
known-Gives Q m f a e h = rw e h

pub if-Gives :
    {A : Type 0} (Q : A → Type 0) (b : Bool) (m k : Io A)
    → Gives Q m
    → Gives Q k
    → Gives Q (if b then m else k)
if-Gives Q true m k hm hk = hm
if-Gives Q false m k hm hk = hk

-- A result after a text.
pub said-Gives :
    {A : Type 0} (Q : A → Type 0) (text : List ℕ) (a : A) → Q a → Gives Q (print text >> return a)
unfolding Gives
said-Gives Q text a h = h

pub given : {A : Type 0} (P : A → Type 0) (m : Io A) → Gives P m → (a : A) × (m.0 ≡ some a) × P a
unfolding Gives
given P (none, t) h = absurd h
given P (some a, t) h = (a, refl, h)
