-- ===== src/Keyboard/Modifiers.antt =====
-- Which character a key gives, under each setting of Shift and Caps Lock.
use os_kernel_and_bootloader.Base.{
  ℕ, ◌+◌, ◌-◌, ◌<◌, ◌≡◌, refl, Bool, true, false, ◌&&◌, ◌==◌, ==_iff, leb, if◌then◌else◌, get_or,
  every, every_holds,
}
use os_kernel_and_bootloader.Keyboard.{scancode_normal, scancode_shift, translate_scancode}

abbrev pub is_letter : ℕ → Bool
is_letter c = leb b'a' c && leb c b'z'

-- Caps Lock alone chooses the case of a letter; Shift chooses the table for every other key.
abbrev pub key_char : Bool → Bool → ℕ → ℕ
key_char shift caps sc =
    let c = get_or scancode_normal sc 0 in
    if is_letter c
    then (if caps then c - b'a' + b'A' else c)
    else if shift
    then get_or scancode_shift sc 0
    else c

agrees : Bool → Bool → ℕ → Bool
agrees shift caps sc = translate_scancode shift caps sc == key_char shift caps sc

agrees_table : (shift caps : Bool) → every 128 (agrees shift caps) ≡ true
unfolding every agrees translate_scancode
agrees_table true true = refl
agrees_table true false = refl
agrees_table false true = refl
agrees_table false false = refl

-- For each of the 128 make codes and each setting of the modifiers, the character is that of the
-- layout tables, where the case of a letter depends on Caps Lock alone and not on Shift.
pub translate_scancode_lem :
    (shift caps : Bool) (sc : ℕ)
    → sc < 128
    → translate_scancode shift caps sc ≡ key_char shift caps sc
unfolding agrees
translate_scancode_lem shift caps sc h =
    (==_iff _ _).0 (every_holds 128 (agrees shift caps) (agrees_table shift caps) sc h)
