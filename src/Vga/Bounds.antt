-- ===== src/Vga/Bounds.antt =====
-- The cursor stays on the screen, so no cell outside the 2000 is written.
use os_kernel_and_bootloader.Base.{
  ℕ, zero, suc, ◌+◌, ◌-◌, ◌*◌, ◌%◌, ◌<◌, ◌≡◌, ◌∙◌, List, [], ◌∷◌, arith, length, set, length-set,
  codes,
}
use os_kernel_and_bootloader.Base.Io.{hex_char}
use os_kernel_and_bootloader.Vga.{
  Screen, width, height, entry, scroll, clear, new_line, putc, print, print_digits, print_hex,
  write,
}
use os_kernel_and_bootloader.Vga.Scroll.{length-copy_rows, length-blank_row, length-blank_rows}

pub record IsValid (s : Screen) : Type 0 where
  pub sized : length s.cells ≡ height * width
  pub in_row : s.cursor_x < width
  pub in_column : s.cursor_y < height

-- The cell under the cursor of a valid screen exists.
pub cursor_in_bounds : {s : Screen} → IsValid s → s.cursor_y * width + s.cursor_x < length s.cells
cursor_in_bounds v = omega arith

length-scroll : (s : Screen) → length (scroll s).cells ≡ length s.cells
unfolding scroll
length-scroll s = length-blank_row width (height - 1) 0 _ ∙ length-copy_rows (height - 1) 1 s.cells

scroll-IsValid :
    (s : Screen) → length s.cells ≡ height * width → s.cursor_x < width → IsValid (scroll s)
unfolding scroll
scroll-IsValid s e x = record { sized = length-scroll s ∙ e; in_row = x; in_column = omega arith }

new_line-IsValid :
    (s : Screen) → length s.cells ≡ height * width → s.cursor_y < height → IsValid (new_line s)
unfolding new_line
new_line-IsValid s e y =
    ground (arith, scroll-IsValid (record s { cursor_x = 0; cursor_y = (s.cursor_y + 1) % 256 }) e)

pub putc-IsValid : (c : ℕ) {s : Screen} → IsValid s → IsValid (putc s c)
unfolding putc
putc-IsValid c {s} v =
    let written = set s.cells (s.cursor_y * width + s.cursor_x) (entry c 0x0F) in
    let kept : length written ≡ length s.cells = length-set s.cells _ _ in
    let t : Screen = record s { cells = written; cursor_x = (s.cursor_x + 1) % 256 } in
    ground (
      arith,
      kept,
      new_line-IsValid s v.sized v.in_column,
      new_line-IsValid t (kept ∙ v.sized) v.in_column,
    )

clear-IsValid : (s : Screen) → length s.cells ≡ height * width → IsValid (clear s)
unfolding clear
clear-IsValid s e = record {
  sized = length-blank_rows height 0 s.cells ∙ e;
  in_row = omega arith;
  in_column = omega arith;
}

print-IsValid : (text : List ℕ) {s : Screen} → IsValid s → IsValid (print s text)
unfolding print
print-IsValid [] v = v
print-IsValid (c ∷ text) v = ground (arith, print-IsValid text (putc-IsValid c v))

write-IsValid : (text : List ℕ) (len : ℕ) {s : Screen} → IsValid s → IsValid (write s text len)
unfolding write
write-IsValid text zero v = v
write-IsValid [] (suc len) v = v
write-IsValid (c ∷ text) (suc len) v = write-IsValid text len (putc-IsValid c v)

print_digits-IsValid : (n value : ℕ) {s : Screen} → IsValid s → IsValid (print_digits n value s)
unfolding print_digits
print_digits-IsValid zero value v = v
print_digits-IsValid (suc n) value v =
    print_digits-IsValid n value (putc-IsValid (hex_char value (4 * n)) v)

print_hex-IsValid : (value : ℕ) {s : Screen} → IsValid s → IsValid (print_hex s value)
unfolding print_hex
print_hex-IsValid value v = print_digits-IsValid 16 value (print-IsValid (codes "0x") v)

-- Clearing a valid screen and printing on it, in any of the five ways, leaves it valid: the cursor
-- is on the screen, so every store is to one of its 2000 cells.
pub output-IsValid :
    (c value len : ℕ) (text : List ℕ) {s : Screen}
    → IsValid s
    → IsValid (clear s)
      × IsValid (putc s c)
      × IsValid (print s text)
      × IsValid (print_hex s value)
      × IsValid (write s text len)
output-IsValid c value len text {s} v = (
  clear-IsValid s v.sized,
  putc-IsValid c v,
  print-IsValid text v,
  print_hex-IsValid value v,
  write-IsValid text len v,
)
