-- ===== src/Vga/Tests.antt =====
-- Runs of the screen functions, and each theorem about them at an input.
use os_kernel_and_bootloader.Base.{
  ℕ, ◌≡◌, refl, arith, some, length, replicate, length-replicate, codes,
}
use os_kernel_and_bootloader.Base.Io.{hex_text}
use os_kernel_and_bootloader.Vga.{Screen, entry, clear, putc, print, print_hex, write}
use os_kernel_and_bootloader.Vga.Scroll.{blank, clear_lem}
use os_kernel_and_bootloader.Vga.Bounds.{IsValid, output-IsValid}
use os_kernel_and_bootloader.Vga.Teletype.{view, type_all, view-print}
use os_kernel_and_bootloader.Vga.Hex.{read_hex, read_hex-hex_text}

-- The cursor is two cells before the end of the last row.
abbrev nearly_full : Screen
nearly_full = record { cells = replicate 2000 0; cursor_x = 78; cursor_y = 24 }

nearly_full-sized : length nearly_full.cells ≡ 2000
nearly_full-sized = length-replicate {A = ℕ} 2000 0

nearly_full-IsValid : IsValid nearly_full
nearly_full-IsValid = record {
  sized = nearly_full-sized;
  in_row = omega arith;
  in_column = omega arith;
}

letter_entry : entry b'A' 0x0F ≡ 0x0F41
unfolding entry
letter_entry = refl

-- The colour of a byte from 128 on is lost to the sign of `char`.
high_entry : entry 0xE9 0x0F ≡ 0xFFE9
unfolding entry
high_entry = refl

hex_text-test : hex_text 0xB8000 ≡ codes "0x00000000000B8000"
unfolding hex_text
hex_text-test = refl

output-IsValid_example :
    IsValid (clear nearly_full)
    × IsValid (putc nearly_full b'A')
    × IsValid (print nearly_full (codes "OK"))
    × IsValid (print_hex nearly_full 7)
    × IsValid (write nearly_full (codes "OK") 2)
output-IsValid_example = output-IsValid b'A' 7 2 (codes "OK") nearly_full-IsValid

clear_lem_example :
    clear nearly_full ≡ record { cells = replicate 2000 blank; cursor_x = 0; cursor_y = 0 }
clear_lem_example = clear_lem nearly_full nearly_full-sized

view-print_example :
    view (print nearly_full (codes "IRQ OK")) ≡ type_all (view nearly_full) (codes "IRQ OK")
view-print_example = view-print (codes "IRQ OK") nearly_full-IsValid

read_hex-hex_text_example : read_hex (hex_text 0xB8000) ≡ some 0xB8000
read_hex-hex_text_example = read_hex-hex_text 0xB8000 (omega arith)
