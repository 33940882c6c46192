-- ===== src/Keyboard.antt =====
-- kernel/keyboard.c: the PS/2 keyboard driver. A handler takes the state of the driver and of the
-- screen, and returns both. `sc` is the byte that `inb(0x60)` reads; `lapic_eoi` is counted.
pub mod Bounds
pub mod Line
pub mod Session
pub mod Traces
pub mod Modifiers
mod Tests
use os_kernel_and_bootloader.Base.{
  ℕ, zero, suc, ◌+◌, ◌-◌, ◌<◌, List, [], ◌∷◌, ◌++◌, Bool, true, false, ◌&&◌, ◌||◌, not, bit_and,
  ltb, leb, ◌==◌, if◌then◌else◌, get_or, set, take, Option, none, some, codes, min,
}
use os_kernel_and_bootloader.Vga.{Screen, putc}

abbrev pub buffer_size : ℕ
buffer_size = 256

pub record Keyboard : Type 0 where
  pub buffer : List ℕ
  pub buf_len : ℕ
  pub line_ready : Bool
  pub shift_pressed : Bool
  pub ctrl_pressed : Bool
  pub alt_pressed : Bool
  pub caps_lock : Bool
  pub screen : Screen
  pub eois : ℕ  -- calls of `lapic_eoi`

-- The tables end in zeros, which `get_or` supplies.
abbrev pub scancode_normal : List ℕ
scancode_normal =
    0 ∷ 27 ∷ codes "1234567890-="
    ++ (8 ∷ 9 ∷ codes "qwertyuiop[]"
        ++ (b'\n' ∷ 0 ∷ codes "asdfghjkl;'`"
            ++ (0 ∷ 92 ∷ codes "zxcvbnm,./" ++ (0 ∷ 0 ∷ 0 ∷ 32 ∷ []))))

abbrev pub scancode_shift : List ℕ
scancode_shift =
    0 ∷ 27 ∷ codes "!@#$%^&*()_+"
    ++ (8 ∷ 9 ∷ codes "QWERTYUIOP{}"
        ++ (b'\n' ∷ 0 ∷ codes "ASDFGHJKL:"
            ++ (34 ∷ 126 ∷ 0 ∷ 124 ∷ codes "ZXCVBNM<>?" ++ (0 ∷ 0 ∷ 0 ∷ 32 ∷ []))))

pub init : Keyboard → Keyboard
init k = record k {
  buf_len = 0;
  line_ready = false;
  shift_pressed = false;
  ctrl_pressed = false;
  alt_pressed = false;
  caps_lock = false;
}

pub vga_backspace : Screen → Screen
vga_backspace s = putc (putc (putc s 8) b' ') 8

-- `^` of two flags that are 0 or 1.
abbrev pub differ : Bool → Bool → Bool
differ true b = not b
differ false b = b

pub translate_scancode : Bool → Bool → ℕ → ℕ
translate_scancode shift caps sc =
    let c = if shift then get_or scancode_shift sc 0 else get_or scancode_normal sc 0 in
    if leb b'a' c && leb c b'z'
    then (if differ caps shift then c - b'a' + b'A' else c)
    else if leb b'A' c && leb c b'Z'
    then (if differ caps shift then c - b'A' + b'a' else c)
    else c

abbrev eoi : Keyboard → Keyboard
eoi k = record k { eois = k.eois + 1 }

-- A key is released: the switch over `sc & 0x7F`.
pub on_release : Keyboard → ℕ → Keyboard
on_release k make =
    if make == 0x2A || make == 0x36
    then record k { shift_pressed = false }
    else if make == 0x1D
    then record k { ctrl_pressed = false }
    else if make == 0x38
    then record k { alt_pressed = false }
    else k

on_backspace : Keyboard → Keyboard
on_backspace k =
    if ltb 0 k.buf_len && not k.line_ready
    then record k { buf_len = k.buf_len - 1; screen = vga_backspace k.screen }
    else k

-- The newline is stored where there is room, and then the zero that ends the line.
on_enter : Keyboard → Keyboard
on_enter k =
    if k.line_ready
    then k
    else (let room = ltb k.buf_len (buffer_size - 1) in
        let n = if room then k.buf_len + 1 else k.buf_len in
        record k {
          buffer = set (if room then set k.buffer k.buf_len b'\n' else k.buffer) n 0;
          buf_len = n;
          line_ready = true;
          screen = putc k.screen b'\n';
        })

on_text : Keyboard → ℕ → Keyboard
on_text k c =
    if not k.line_ready && ltb k.buf_len (buffer_size - 1)
    then record k {
      buffer = set k.buffer k.buf_len c;
      buf_len = k.buf_len + 1;
      screen = putc k.screen c;
    }
    else k

-- What the handler does with a translated character.
pub on_char : Keyboard → ℕ → Keyboard
on_char k c =
    if c == 8
    then on_backspace k
    else if c == b'\n'
    then on_enter k
    else if c == 0
    then k
    else on_text k c

-- A key is pressed: the switch over the modifier keys, then the character.
pub on_press : Keyboard → ℕ → Keyboard
on_press k sc =
    if sc == 0x2A || sc == 0x36
    then record k { shift_pressed = true }
    else if sc == 0x1D
    then record k { ctrl_pressed = true }
    else if sc == 0x38
    then record k { alt_pressed = true }
    else if sc == 0x3A
    then record k { caps_lock = not k.caps_lock }
    else if leb 128 sc
    then k
    else on_char k (translate_scancode k.shift_pressed k.caps_lock sc)

-- Each `return` of the handler has its `lapic_eoi` before it.
pub on_irq : Keyboard → ℕ → Keyboard
on_irq k sc =
    if bit_and sc 0x80 == 0 then eoi (on_press k sc) else eoi (on_release k (bit_and sc 0x7F))

-- The wait of `keyboard_readline`: an interrupt ends each `hlt`. The list holds the scan codes
-- of the interrupts that come; with none left, the call does not return.
pub wait_line : Keyboard → List ℕ → Option (Keyboard × List ℕ)
wait_line k [] = if k.line_ready then some (k, []) else none
wait_line k (sc ∷ scs) =
    let rest = wait_line (on_irq k sc) scs in if k.line_ready then some (k, sc ∷ scs) else rest

-- What `keyboard_readline` returns: its count and the characters stored in `out`, with the zero.
pub record Reply : Type 0 where
  pub count : ℕ
  pub out : List ℕ
  pub keyboard : Keyboard
  pub pending : List ℕ

pub take_line : Keyboard → ℕ → List ℕ → Reply
take_line k max_len pending =
    let n = if ltb k.buf_len (max_len - 1) then k.buf_len else max_len - 1 in
    record {
      count = n;
      out = take n k.buffer ++ (0 ∷ []);
      keyboard = record k { buf_len = 0; line_ready = false };
      pending = pending;
    }

-- `none` also for a `max_len` of 0, where `out[n] = 0` stores before the array.
pub readline : Keyboard → ℕ → List ℕ → Option Reply
unfolding wait_line take_line
readline k max_len scs = elim (wait_line k scs) [
  | none ↦ none
  | some (k', pending) ↦ if max_len == 0 then none else some (take_line k' max_len pending)
]
