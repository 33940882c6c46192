-- ===== src/Vga/Text.antt =====
-- The text that a kernel function prints (`Base.Io`) determines what it does to the screen.
use os_kernel_and_bootloader.Base.{
  ℕ, zero, suc, ◌*◌, ◌/◌, ◌≡◌, ◌≢◌, refl, List, [], ◌∷◌, ◌++◌, ltb, ltb→lt, every, every_holds,
  get_or, true, ◌%◌, ◌^◌, arith, codes,
}
use os_kernel_and_bootloader.Base.Bits.{and_low}
use os_kernel_and_bootloader.Base.Io.{hex_char, hex_tail, hex_text}
use os_kernel_and_bootloader.Vga.{Screen, putc, print, print_digits, print_hex}

-- No character of the text is the zero byte that ends a C string.
abbrev pub NoZero : List ℕ → Type 0
NoZero [] = Unit
NoZero (c ∷ cs) = (c ≢ 0) × NoZero cs

pub print-append :
    (text more : List ℕ) (s : Screen)
    → NoZero text
    → print s (text ++ more) ≡ print (print s text) more
unfolding print
print-append [] more s h = refl
print-append (c ∷ text) more s h = ground (arith, print-append text more (putc s c))

nonzero_table : every 16 (λ d. ltb 0 (get_or (codes "0123456789ABCDEF") d 0)) ≡ true
unfolding every
nonzero_table = refl

hex_char-ne_zero : (v i : ℕ) → hex_char v i ≢ 0
hex_char-ne_zero v i =
    let positive = ltb→lt 0 _ (every_holds 16 _ nonzero_table (v / 2 ^ i % 16) (omega arith)) in
    rw (and_low 4 (v / 2 ^ i)) (omega (arith, positive))

print_digits-eq-print : (n v : ℕ) (s : Screen) → print_digits n v s ≡ print s (hex_tail n v)
unfolding print_digits print hex_tail
print_digits-eq-print zero v s = refl
print_digits-eq-print (suc n) v s =
    ground
      (arith, hex_char-ne_zero v (4 * n), print_digits-eq-print n v (putc s (hex_char v (4 * n))))

-- `vga_print_hex` puts on the screen what `vga_print` would for the text of the value.
pub print_hex-eq-print : (s : Screen) (v : ℕ) → print_hex s v ≡ print s (hex_text v)
unfolding print_hex hex_text print
print_hex-eq-print s v = print_digits-eq-print 16 v (print s (codes "0x"))

hex_tail-NoZero : (n v : ℕ) → NoZero (hex_tail n v)
unfolding hex_tail
hex_tail-NoZero zero v = tt
hex_tail-NoZero (suc n) v = (hex_char-ne_zero v (4 * n), hex_tail-NoZero n v)

pub hex_text-NoZero : (v : ℕ) → NoZero (hex_text v)
unfolding hex_text
hex_text-NoZero v = (omega arith, (omega arith, hex_tail-NoZero 16 v))

-- `vga_print`, `vga_print_hex` and `vga_print` again, as one text.
pub print_around_hex :
    (s : Screen) (v : ℕ) (before after : List ℕ)
    → NoZero before
    → print (print_hex (print s before) v) after ≡ print s (before ++ (hex_text v ++ after))
print_around_hex s v before after h = rw (
  print_hex-eq-print (print s before) v,
  print-append before (hex_text v ++ after) s h,
  print-append (hex_text v) after (print s before) (hex_text-NoZero v),
)
