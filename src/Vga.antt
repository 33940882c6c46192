-- ===== src/Vga.antt =====
-- kernel/vga.c: the 80 x 25 text screen. The cells at 0xB8000 are a list of 2000 16-bit words; a
-- `char` is its byte. Each function returns the new screen.
pub mod Bounds
pub mod Scroll
pub mod Teletype
pub mod Hex
pub mod Text
mod Tests
use os_kernel_and_bootloader.Base.{
  ℕ, zero, suc, ◌+◌, ◌-◌, ◌*◌, ◌≤◌, List, [], ◌∷◌, ltb, leb, ◌==◌, if◌then◌else◌, u8, ◌<<<◌, ◌>>>◌,
  bit_and, bit_or, get_or, set, codes,
}
use os_kernel_and_bootloader.Base.Io.{hex_char}

abbrev pub width : ℕ
width = 80

abbrev pub height : ℕ
height = 25

pub record Screen : Type 0 where
  pub cells : List ℕ
  pub cursor_x : ℕ
  pub cursor_y : ℕ

-- `char` is signed, so `(uint16_t)c` extends the sign of a byte from 128 on.
abbrev pub char_to_u16 : ℕ → ℕ
char_to_u16 c = if ltb c 128 then c else c + 0xFF00

unfoldable pub entry : ℕ → ℕ → ℕ
entry c color = bit_or (char_to_u16 c) (color <<< 8)

-- One row of the copying loop of `vga_scroll`, with the rounds left first.
pub copy_row : ℕ → ℕ → ℕ → List ℕ → List ℕ
copy_row zero y x cells = cells
copy_row (suc n) y x cells =
    copy_row n y (x + 1) (set cells ((y - 1) * width + x) (get_or cells (y * width + x) 0))

pub copy_rows : ℕ → ℕ → List ℕ → List ℕ
copy_rows zero y cells = cells
copy_rows (suc n) y cells = copy_rows n (y + 1) (copy_row width y 0 cells)

-- The loops that blank a row, in `vga_scroll` and `vga_clear`.
pub blank_row : ℕ → ℕ → ℕ → List ℕ → List ℕ
blank_row zero y x cells = cells
blank_row (suc n) y x cells = blank_row n y (x + 1) (set cells (y * width + x) (entry b' ' 0x07))

pub blank_rows : ℕ → ℕ → List ℕ → List ℕ
blank_rows zero y cells = cells
blank_rows (suc n) y cells = blank_rows n (y + 1) (blank_row width y 0 cells)

unfoldable pub scroll : Screen → Screen
scroll s = record s {
  cells = blank_row width (height - 1) 0 (copy_rows (height - 1) 1 s.cells);
  cursor_y = height - 1;
}

unfoldable pub clear : Screen → Screen
clear s = record { cells = blank_rows height 0 s.cells; cursor_x = 0; cursor_y = 0 }

-- `cursor_x = 0; cursor_y++`, and the scroll if that leaves the screen.
new_line : Screen → Screen
new_line s =
    let t = record s { cursor_x = 0; cursor_y = u8 (s.cursor_y + 1) } in
    if leb height t.cursor_y then scroll t else t

-- The rest of `vga_putc`, for a character that is shown.
put_glyph : Screen → ℕ → Screen
put_glyph s c =
    let t = record s {
      cells = set s.cells (s.cursor_y * width + s.cursor_x) (entry c 0x0F);
      cursor_x = u8 (s.cursor_x + 1);
    } in
    if leb width t.cursor_x then new_line t else t

unfoldable pub putc : Screen → ℕ → Screen
unfolding new_line put_glyph
putc s c =
    if c == b'\n'
    then new_line s
    else if c == b'\r'
    then record s { cursor_x = 0 }
    else put_glyph s c

-- The list holds the characters of the C string; a zero byte ends it.
unfoldable pub print : Screen → List ℕ → Screen
print s [] = s
print s (c ∷ cs) = if c == 0 then s else print (putc s c) cs

-- The loop of `vga_print_hex`, from bit `4 * n - 4` down.
print_digits : ℕ → ℕ → Screen → Screen
print_digits zero value s = s
print_digits (suc n) value s = print_digits n value (putc s (hex_char value (4 * n)))

unfoldable pub print_hex : Screen → ℕ → Screen
unfolding print_digits
print_hex s value = print_digits 16 value (print s (codes "0x"))

-- `str[0 .. len)`.
unfoldable pub write : Screen → List ℕ → ℕ → Screen
write s str zero = s
write s [] (suc len) = s
write s (c ∷ cs) (suc len) = write (putc s c) cs len
