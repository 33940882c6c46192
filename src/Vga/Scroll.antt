-- ===== src/Vga/Scroll.antt =====
-- What `vga_scroll` and `vga_clear` leave on the screen.
use os_kernel_and_bootloader.Base.{
  ℕ, zero, suc, ◌+◌, ◌-◌, ◌*◌, ◌≤◌, ◌<◌, ◌≡◌, refl, ap, sym, ◌∙◌, List, ◌++◌, ltb, leb, ◌&&◌,
  if◌then◌else◌, arith, length, get_or, set, drop, replicate, length-set, length-drop,
  length-append, length-replicate, get_or-set, get_or-drop, get_or-append_left, get_or-append_right,
  get_or-replicate, get_or_ext,
}
use os_kernel_and_bootloader.Vga.{
  Screen, width, height, entry, copy_row, copy_rows, blank_row, blank_rows, scroll, clear,
}

abbrev pub blank : ℕ
blank = entry b' ' 0x07

-- All rows but the first, and a blank row below them.
unfoldable pub scroll_up : List ℕ → List ℕ
scroll_up cells = drop width cells ++ replicate width blank

pub length-copy_row : (n y x : ℕ) (cells : List ℕ) → length (copy_row n y x cells) ≡ length cells
unfolding copy_row
length-copy_row zero y x cells = refl
length-copy_row (suc n) y x cells = length-copy_row n y (x + 1) _ ∙ length-set cells _ _

pub length-copy_rows : (n y : ℕ) (cells : List ℕ) → length (copy_rows n y cells) ≡ length cells
unfolding copy_rows
length-copy_rows zero y cells = refl
length-copy_rows (suc n) y cells = length-copy_rows n (y + 1) _ ∙ length-copy_row width y 0 cells

pub length-blank_row : (n y x : ℕ) (cells : List ℕ) → length (blank_row n y x cells) ≡ length cells
unfolding blank_row
length-blank_row zero y x cells = refl
length-blank_row (suc n) y x cells = length-blank_row n y (x + 1) _ ∙ length-set cells _ _

pub length-blank_rows : (n y : ℕ) (cells : List ℕ) → length (blank_rows n y cells) ≡ length cells
unfolding blank_rows
length-blank_rows zero y cells = refl
length-blank_rows (suc n) y cells = length-blank_rows n (y + 1) _ ∙ length-blank_row width y 0 cells

-- The cells `lo .. hi) are overwritten by those one row below.
abbrev shifted : List ℕ → ℕ → ℕ → ℕ → ℕ
shifted cells lo hi i =
    if leb lo i && ltb i hi then get_or cells (i + width) 0 else get_or cells i 0

copy_row_lem :
    (n y x i : ℕ) (cells : List ℕ)
    → (y * width + x) + n ≤ length cells
    → get_or (copy_row n (suc y) x cells) i 0 ≡ shifted cells (y * width + x) (y * width + x + n) i
unfolding copy_row
copy_row_lem zero y x i cells h = ground arith
copy_row_lem (suc n) y x i cells h =
    let dst : ℕ = (suc y - 1) * width + x in
    let v : ℕ = get_or cells (suc y * width + x) 0 in
    ground (
      arith,
      copy_row_lem n y (x + 1) i (set cells dst v),
      length-set cells dst v,
      get_or-set cells dst i v 0,
      get_or-set cells dst (i + width) v 0,
    )

copy_rows_lem :
    (n y i : ℕ) (cells : List ℕ)
    → (y + n) * width ≤ length cells
    → get_or (copy_rows n (suc y) cells) i 0 ≡ shifted cells (y * width) ((y + n) * width) i
unfolding copy_rows
copy_rows_lem zero y i cells h = ground arith
copy_rows_lem (suc n) y i cells h = ground (
  arith,
  copy_rows_lem n (suc y) i (copy_row width (suc y) 0 cells),
  length-copy_row width (suc y) 0 cells,
  copy_row_lem width y 0 i cells,
  copy_row_lem width y 0 (i + width) cells,
)

blank_row_lem :
    (n y x i : ℕ) (cells : List ℕ)
    → y * width + x + n ≤ length cells
    → get_or (blank_row n y x cells) i 0
      ≡ (if leb (y * width + x) i && ltb i (y * width + x + n) then blank else get_or cells i 0)
unfolding blank_row
blank_row_lem zero y x i cells h = ground arith
blank_row_lem (suc n) y x i cells h =
    let dst : ℕ = y * width + x in
    ground (
      arith,
      blank_row_lem n y (x + 1) i (set cells dst blank),
      length-set cells dst blank,
      get_or-set cells dst i blank 0,
    )

blank_rows_lem :
    (n y i : ℕ) (cells : List ℕ)
    → (y + n) * width ≤ length cells
    → get_or (blank_rows n y cells) i 0
      ≡ (if leb (y * width) i && ltb i ((y + n) * width) then blank else get_or cells i 0)
unfolding blank_rows
blank_rows_lem zero y i cells h = ground arith
blank_rows_lem (suc n) y i cells h = ground (
  arith,
  blank_rows_lem n (suc y) i (blank_row width y 0 cells),
  length-blank_row width y 0 cells,
  blank_row_lem width y 0 i cells,
)

get_or-pad :
    (xs : List ℕ) (n a i : ℕ)
    → i < length xs + n
    → get_or (xs ++ replicate n a) i 0 ≡ (if ltb i (length xs) then get_or xs i 0 else a)
get_or-pad xs n a i h = ground (
  arith,
  get_or-append_left xs (replicate n a) i 0,
  get_or-append_right xs (replicate n a) i 0,
  get_or-replicate n a (i - length xs) 0,
)

-- The rows that stay after a scroll, on a screen of any height.
module _ (rows : ℕ) (cells : List ℕ) (size : length cells ≡ suc rows * width) where
  by_loops :
      (i : ℕ)
      → i < suc rows * width
      → get_or (blank_row width rows 0 (copy_rows rows 1 cells)) i 0
        ≡ (if ltb i (rows * width) then get_or cells (width + i) 0 else blank)
  by_loops i p =
      let e : i + width ≡ width + i = omega arith in
      ground (
        arith,
        ap (λ (k : ℕ). get_or cells k 0) e,
        length-copy_rows rows 1 cells,
        blank_row_lem width rows 0 i (copy_rows rows 1 cells),
        copy_rows_lem rows 0 i cells,
      )

  by_lists :
      (i : ℕ)
      → i < suc rows * width
      → get_or (drop width cells ++ replicate width blank) i 0
        ≡ (if ltb i (rows * width) then get_or cells (width + i) 0 else blank)
  by_lists i p =
      let kept : length (drop width cells) ≡ rows * width =
        omega (arith, length-drop width cells) in
      get_or-pad (drop width cells) width blank i (omega (arith, kept))
      ∙ rw (kept, get_or-drop width cells i 0)

  scrolled_cells :
      blank_row width rows 0 (copy_rows rows 1 cells) ≡ drop width cells ++ replicate width blank
  scrolled_cells =
      let kept : length (blank_row width rows 0 (copy_rows rows 1 cells)) ≡ suc rows * width =
        length-blank_row width rows 0 _ ∙ length-copy_rows rows 1 cells ∙ size in
      get_or_ext 0 _ _
        (omega (
          arith,
          kept,
          length-append (drop width cells) (replicate width blank),
          length-drop width cells,
          length-replicate width blank,
        ))
        (λ i p. by_loops i (omega (arith, kept)) ∙ sym (by_lists i (omega (arith, kept))))

cleared_cells :
    (rows : ℕ) (cells : List ℕ)
    → length cells ≡ rows * width
    → blank_rows rows 0 cells ≡ replicate (rows * width) blank
cleared_cells rows cells h =
    let kept : length (blank_rows rows 0 cells) ≡ rows * width =
      length-blank_rows rows 0 cells ∙ h in
    get_or_ext 0 _ _ (omega (arith, kept, length-replicate (rows * width) blank)) λ i p.
      ground (arith, kept, blank_rows_lem rows 0 i cells, get_or-replicate (rows * width) blank i 0)

-- The in-place loops of `vga_scroll` drop the first row, keep the others in order and add a blank
-- row at the bottom, with the cursor on it.
pub scroll_lem :
    (s : Screen)
    → length s.cells ≡ height * width
    → scroll s ≡ record { cells = scroll_up s.cells; cursor_x = s.cursor_x; cursor_y = height - 1 }
unfolding scroll scroll_up
scroll_lem s h =
    ap (λ c. record { cells = c; cursor_x = s.cursor_x; cursor_y = height - 1 })
      (scrolled_cells 24 s.cells h)

-- `vga_clear` blanks every cell and puts the cursor at the top left.
pub clear_lem :
    (s : Screen)
    → length s.cells ≡ height * width
    → clear s ≡ record { cells = replicate (height * width) blank; cursor_x = 0; cursor_y = 0 }
unfolding clear
clear_lem s h =
    ap (λ c. record { cells = c; cursor_x = 0; cursor_y = 0 }) (cleared_cells 25 s.cells h)
