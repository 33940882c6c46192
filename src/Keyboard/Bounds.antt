-- ===== src/Keyboard/Bounds.antt =====
-- The driver never writes outside its 256 characters, and ends each interrupt once.
use os_kernel_and_bootloader.Base.{
  ℕ, ◌+◌, ◌<◌, ◌≡◌, true, arith, length, get_or, set, length-set, get_or-set_self, bit_and,
}
use os_kernel_and_bootloader.Vga
use os_kernel_and_bootloader.Vga.{putc}
use os_kernel_and_bootloader.Vga.Bounds.{putc-IsValid}
use os_kernel_and_bootloader.Keyboard.{
  Keyboard, buffer_size, init, vga_backspace, translate_scancode, on_release, on_backspace,
  on_enter, on_text, on_char, on_press, on_irq,
}

pub record IsValid (k : Keyboard) : Type 0 where
  pub sized : length k.buffer ≡ buffer_size
  pub in_buffer : k.buf_len < buffer_size
  pub ready_has_text : k.line_ready ≡ true → 0 < k.buf_len
  pub ready_ends : k.line_ready ≡ true → get_or k.buffer k.buf_len 0 ≡ 0
  pub on_screen : Vga.Bounds.IsValid k.screen

vga_backspace-IsValid :
    (s : Vga.Screen) → Vga.Bounds.IsValid s → Vga.Bounds.IsValid (vga_backspace s)
unfolding vga_backspace
vga_backspace-IsValid s v = putc-IsValid _ (putc-IsValid _ (putc-IsValid _ v))

pub init-IsValid : {k : Keyboard} → IsValid k → IsValid (init k)
unfolding init
init-IsValid v = ground arith

on_release-IsValid : (make : ℕ) {k : Keyboard} → IsValid k → IsValid (on_release k make)
unfolding on_release
on_release-IsValid make v = ground arith

on_backspace-IsValid : {k : Keyboard} → IsValid k → IsValid (on_backspace k)
unfolding on_backspace
on_backspace-IsValid {k} v = ground (arith, vga_backspace-IsValid k.screen v.on_screen)

on_text-IsValid : (c : ℕ) {k : Keyboard} → IsValid k → IsValid (on_text k c)
unfolding on_text
on_text-IsValid c {k} v =
    ground (arith, length-set k.buffer k.buf_len c, putc-IsValid c v.on_screen)

on_enter-IsValid : {k : Keyboard} → IsValid k → IsValid (on_enter k)
unfolding on_enter
on_enter-IsValid {k} v =
    let stored = set k.buffer k.buf_len b'\n' in
    ground (
      arith,
      length-set k.buffer k.buf_len b'\n',
      length-set k.buffer k.buf_len 0,
      length-set stored (k.buf_len + 1) 0,
      get_or-set_self k.buffer k.buf_len 0 0,
      get_or-set_self stored (k.buf_len + 1) 0 0,
      putc-IsValid b'\n' v.on_screen,
    )

pub on_char-IsValid : (c : ℕ) {k : Keyboard} → IsValid k → IsValid (on_char k c)
unfolding on_char
on_char-IsValid c {k} v =
    ground (arith, on_backspace-IsValid v, on_enter-IsValid v, on_text-IsValid c v)

on_press-IsValid : (sc : ℕ) {k : Keyboard} → IsValid k → IsValid (on_press k sc)
unfolding on_press
on_press-IsValid sc {k} v =
    ground (arith, on_char-IsValid (translate_scancode k.shift_pressed k.caps_lock sc) v)

-- A keyboard interrupt keeps the buffer, the line that is ready in it and the screen valid.
pub on_irq-IsValid : (sc : ℕ) {k : Keyboard} → IsValid k → IsValid (on_irq k sc)
unfolding on_irq
on_irq-IsValid sc {k} v =
    ground (arith, on_press-IsValid sc v, on_release-IsValid (bit_and sc 0x7F) v)

eois-on_char : (k : Keyboard) (c : ℕ) → (on_char k c).eois ≡ k.eois
unfolding on_char on_backspace on_enter on_text
eois-on_char k c = ground arith

eois-on_press : (k : Keyboard) (sc : ℕ) → (on_press k sc).eois ≡ k.eois
unfolding on_press
eois-on_press k sc =
    ground (arith, eois-on_char k (translate_scancode k.shift_pressed k.caps_lock sc))

eois-on_release : (k : Keyboard) (make : ℕ) → (on_release k make).eois ≡ k.eois
unfolding on_release
eois-on_release k make = ground arith

-- Every path through the handler signals the end of the interrupt exactly once.
pub eois-on_irq : (k : Keyboard) (sc : ℕ) → (on_irq k sc).eois ≡ k.eois + 1
unfolding on_irq
eois-on_irq k sc = ground (arith, eois-on_press k sc, eois-on_release k (bit_and sc 0x7F))
