-- ===== src/Vga/Teletype.antt =====
-- An abstract teletype: 2000 cells and one position among them. The screen with its row and
-- column is an implementation of it.
use os_kernel_and_bootloader.Base.{
  ℕ, ◌+◌, ◌-◌, ◌*◌, ◌/◌, ◌%◌, ◌<◌, ◌≡◌, refl, ◌∙◌, List, [], ◌∷◌, arith, length, set, length-set,
  ltb, ◌==◌, if◌then◌else◌,
}
use os_kernel_and_bootloader.Vga.{Screen, width, height, entry, new_line, put_glyph, putc, print}
use os_kernel_and_bootloader.Vga.Scroll.{scroll_up, scroll_lem}
use os_kernel_and_bootloader.Vga.Bounds.{IsValid, putc-IsValid}

pub record Teletype : Type 0 where
  pub cells : List ℕ
  pub position : ℕ

-- A position past the last cell moves all rows up by one.
unfoldable pub advance : List ℕ → ℕ → Teletype
advance cells position =
    if ltb position (height * width)
    then record { cells = cells; position = position }
    else record { cells = scroll_up cells; position = (height - 1) * width }

unfoldable pub type : Teletype → ℕ → Teletype
type t c =
    if c == b'\n'
    then advance t.cells ((t.position / width + 1) * width)
    else if c == b'\r'
    then record t { position = t.position / width * width }
    else advance (set t.cells t.position (entry c 0x0F)) (t.position + 1)

unfoldable pub type_all : Teletype → List ℕ → Teletype
type_all t [] = t
type_all t (c ∷ cs) = if c == 0 then t else type_all (type t c) cs

abbrev pub view : Screen → Teletype
view s = record { cells = s.cells; position = s.cursor_y * width + s.cursor_x }

view-new_line :
    (s : Screen)
    → length s.cells ≡ height * width
    → s.cursor_y < height
    → view (new_line s) ≡ advance s.cells ((s.cursor_y + 1) * width)
unfolding new_line advance
view-new_line s e y =
    ground (arith, scroll_lem (record s { cursor_x = 0; cursor_y = (s.cursor_y + 1) % 256 }) e)

view-put_glyph :
    (c : ℕ) (s : Screen)
    → IsValid s
    → view (put_glyph s c)
      ≡ advance (set s.cells (view s).position (entry c 0x0F)) ((view s).position + 1)
unfolding put_glyph advance
view-put_glyph c s v =
    let written = set s.cells (s.cursor_y * width + s.cursor_x) (entry c 0x0F) in
    let kept : length written ≡ length s.cells = length-set s.cells _ _ in
    let t : Screen = record s { cells = written; cursor_x = (s.cursor_x + 1) % 256 } in
    ground (arith, view-new_line t (kept ∙ v.sized) v.in_column)

return_position : (x y : ℕ) → x < width → (y * width + x) / width ≡ y
return_position x y h = omega arith

-- `vga_putc` on a valid screen does what the teletype does.
pub view-putc : (c : ℕ) {s : Screen} → IsValid s → view (putc s c) ≡ type (view s) c
unfolding putc type
view-putc c {s} v = ground (
  arith,
  return_position s.cursor_x s.cursor_y v.in_row,
  view-put_glyph c s v,
  view-new_line s v.sized v.in_column,
)

-- `vga_print` on a valid screen types the characters before the first zero byte, in order.
pub view-print :
    (text : List ℕ) {s : Screen} → IsValid s → view (print s text) ≡ type_all (view s) text
unfolding print type_all
view-print [] v = refl
view-print (c ∷ text) {s} v = ground (arith, view-print text (putc-IsValid c v), view-putc c v)
