-- ===== src/Base/Io.antt =====
-- What a kernel function does on the console, beside its result: the text of its `vga_print` and
-- `vga_print_hex` calls, in order. `none` means that the call does not return: a CPU fault
-- such as a division by zero, or a wait that the device never ends. `Vga.Text` relates the text
-- to the screen.
use os_kernel_and_bootloader.Base.Words.{◌>>>◌}
use os_kernel_and_bootloader.Base.Lists.{get_or}
use os_kernel_and_bootloader.Base.Text.{codes}
use Prim.Native.Nat.{ℕ, zero, suc, ◌*◌, bit_and}
use mathlib.Core.List.{List, [], ◌∷◌, ◌++◌}
use mathlib.Core.Option.{Option, none, some, some-injective, none-ne-some}
use mathlib.Core.Path.{◌≡◌, ap}

abbrev pub Io {ℓ} : Type ℓ → Type ℓ
Io A = Option A × List ℕ

infixl 5 ◌>>=◌ ◌>>◌
abbrev pub ◌>>=◌ {ℓ κ} : {A : Type ℓ} {B : Type κ} → Io A → (A → Io B) → Io B
(none, t) >>= f = (none, t)
(some a, t) >>= f = ((f a).0, t ++ (f a).1)

abbrev pub ◌>>◌ {ℓ} : {B : Type ℓ} → Io (Unit {0}) → Io B → Io B
m >> k = m >>= λ _. k

abbrev pub return {ℓ} : {A : Type ℓ} → A → Io A
return a = (some a, [])

-- The result of a sequence, when the first part returns.
pub bind-some {ℓ κ} :
    {A : Type ℓ} {B : Type κ} (m : Io A) (f : A → Io B) (a : A)
    → m.0 ≡ some a
    → (m >>= f).0 ≡ (f a).0
bind-some (none, t) f a e = absurd (none-ne-some a e)
bind-some (some x, t) f a e = ap (λ y. (f y).0) (some-injective _ _ e)

abbrev pub halt {ℓ} : {A : Type ℓ} → Io A
halt = (none, [])

abbrev pub print : List ℕ → Io (Unit {0})
print text = (some tt, text)

abbrev hex_digits : List ℕ
hex_digits = codes "0123456789ABCDEF"

-- The character of the hexadecimal digit at bit `i`.
abbrev pub hex_char : ℕ → ℕ → ℕ
hex_char value i = get_or hex_digits (bit_and (value >>> i) 0xF) 0

-- The `n` low hexadecimal digits of a value, the highest first.
unfoldable pub hex_tail : ℕ → ℕ → List ℕ
hex_tail zero value = []
hex_tail (suc n) value = hex_char value (4 * n) ∷ hex_tail n value

-- What `vga_print_hex` prints.
unfoldable pub hex_text : ℕ → List ℕ
unfolding hex_tail
hex_text value = codes "0x" ++ hex_tail 16 value

abbrev pub print_hex : ℕ → Io (Unit {0})
print_hex value = (some tt, hex_text value)
