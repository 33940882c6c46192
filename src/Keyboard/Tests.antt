-- ===== src/Keyboard/Tests.antt =====
-- Runs of the keyboard driver, and each theorem about it at an input.
use os_kernel_and_bootloader.Base.{
  ℕ, ◌+◌, ◌-◌, ◌≡◌, refl, List, [], ◌∷◌, ◌++◌, true, false, arith, some, length, take, min, map,
  replicate, length-replicate,
}
use os_kernel_and_bootloader.Keyboard.{
  Keyboard, translate_scancode, on_char, on_irq, Reply, readline, init, on_press, on_text, on_enter,
  wait_line, take_line,
}
use os_kernel_and_bootloader.Keyboard.Modifiers.{key_char, translate_scancode_lem}
use os_kernel_and_bootloader.Keyboard.Bounds.{IsValid}
use os_kernel_and_bootloader.Keyboard.Traces.{here, later, interrupt, reads, Reach-IsValid}
use os_kernel_and_bootloader.Keyboard.Line.{edit, view, view-on_char}
use os_kernel_and_bootloader.Keyboard.Session.{ArePlain, enter_key, readline_typed}

abbrev idle : Keyboard
idle = record {
  buffer = replicate 256 0;
  buf_len = 0;
  line_ready = false;
  shift_pressed = false;
  ctrl_pressed = false;
  alt_pressed = false;
  caps_lock = false;
  screen = record { cells = replicate 2000 0; cursor_x = 0; cursor_y = 0 };
  eois = 0;
}

idle-IsValid : IsValid idle
idle-IsValid = record {
  sized = length-replicate {A = ℕ} 256 0;
  in_buffer = omega arith;
  ready_has_text = λ h. cc;
  ready_ends = λ h. refl;
  on_screen = record {
    sized = length-replicate {A = ℕ} 2000 0;
    in_row = omega arith;
    in_column = omega arith;
  };
}

-- The keys `l` and `s`.
abbrev typed_keys : List ℕ
typed_keys = 0x26 ∷ 0x1F ∷ []

typed_keys-ArePlain : ArePlain false false typed_keys
unfolding translate_scancode
typed_keys-ArePlain = omega arith

-- Shift and the `a` key give a small letter; Shift and the `1` key give an exclamation mark.
shifted_keys :
    (translate_scancode true false 0x1E ≡ b'a') × (translate_scancode true false 2 ≡ b'!')
unfolding translate_scancode
shifted_keys = (refl, refl)

translate_scancode_lem_example : translate_scancode true false 0x1E ≡ key_char true false 0x1E
translate_scancode_lem_example = translate_scancode_lem true false 0x1E (omega arith)

-- A key and Enter, and a read of the line.
abbrev line_typed : Keyboard
line_typed = on_irq (on_irq (init idle) 0x26) enter_key

line_read : (r : Reply) × (readline line_typed 80 [] ≡ some r) × (0 + length r.pending ≡ 0)
unfolding init on_irq on_press on_char on_text on_enter translate_scancode readline wait_line
    take_line
line_read = (take_line line_typed 80 [], refl, refl)

Reach-IsValid_example :
    IsValid line_read.0.keyboard × (line_read.0.keyboard.eois ≡ 0 + (0 + 1 + 1 + 0))
Reach-IsValid_example = Reach-IsValid idle-IsValid (
    later
      (later (later here (interrupt (init idle) 0x26))
        (interrupt (on_irq (init idle) 0x26) enter_key))
      (reads line_typed 80 0 [] line_read.0 line_read.1 line_read.2))

view-on_char_example : view (on_char idle b'x') ≡ edit (view idle) b'x'
view-on_char_example = view-on_char b'x' idle-IsValid

readline_typed_example :
    (r : Reply) × (readline idle 80 (typed_keys ++ enter_key ∷ 0x9C ∷ []) ≡ some r)
    × (r.count ≡ min (80 - 1) (length typed_keys + 1))
    × (r.out
        ≡ take (80 - 1) (map (translate_scancode false false) typed_keys ++ b'\n' ∷ []) ++ 0 ∷ [])
    × (r.pending ≡ 0x9C ∷ [])
    × (view r.keyboard ≡ record { text = []; closed = false })
readline_typed_example =
    readline_typed false false typed_keys (0x9C ∷ []) 80 idle (omega arith) (omega arith)
      typed_keys-ArePlain idle-IsValid refl refl refl refl
