-- ===== src/Kernel/Runs.antt =====
-- How the parts of `kernel_main` follow each other when they return.
use os_kernel_and_bootloader.Base.{ℕ, ◌≡◌, ap, List, ◌++◌, none, some}
use mathlib.Core.Option.{some-injective, none-ne-some}
use os_kernel_and_bootloader.Base.Io.{Io}
use os_kernel_and_bootloader.Base.Run.{stop, next, after, ◌>>=◌}
use os_kernel_and_bootloader.Kernel.{Machine, End, Kernel, say, from_io}

-- The machine with another text on the console.
abbrev pub with_console : List ℕ → Machine → Machine
with_console text m = record m { console = text }

pub continues :
    {A B : Type 0} (m : Kernel A) (f : A → Kernel B) (s t : Machine) (a : A)
    → m s ≡ next a t
    → (m >>= f) s ≡ f a t
continues m f s t a e = ap (λ r. after r f) e

pub stops :
    {A B : Type 0} (m : Kernel A) (f : A → Kernel B) (s t : Machine) (e : End)
    → m s ≡ stop e t
    → (m >>= f) s ≡ stop e t
stops m f s t e same = ap (λ r. after r f) same

-- A call that returns.
pub from_io_lem :
    {A : Type 0} (m : Io A) (a : A) (s : Machine)
    → m.0 ≡ some a
    → from_io m s ≡ next a (with_console (s.console ++ m.1) s)
unfolding from_io say
from_io_lem (none, t) a s e = absurd (none-ne-some a e)
from_io_lem (some x, t) a s e =
    ap (λ y. next y (with_console (s.console ++ t) s)) (some-injective _ _ e)
