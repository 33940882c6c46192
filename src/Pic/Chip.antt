-- ===== src/Pic/Chip.antt =====
-- The 8259 interrupt controller, as its data sheet describes it: what it makes of the bytes written to
-- its command and data ports.
use os_kernel_and_bootloader.Base.{
  ℕ, ◌+◌, ◌*◌, ◌/◌, ◌%◌, List, [], ◌∷◌, Bool, true, false, ◌==◌, if◌then◌else◌,
}
use os_kernel_and_bootloader.Pic.{Write, pic1_command, pic1_data, pic2_command, pic2_data}

-- Where the chip is in its initialisation: the word that it expects at the data port.
pub data Phase : Type 0 where
  ready : Phase
  icw2 icw3 icw4 : (single with_icw4 : Bool) → Phase

pub record Chip : Type 0 where
  pub phase : Phase
  pub offset : ℕ  -- the vector of line 0
  pub mask : ℕ
  pub eois : ℕ  -- end-of-interrupt commands taken

abbrev pub after_icw3 : Bool → Bool → Phase
after_icw3 single true = icw4 single true
after_icw3 single false = ready

abbrev pub after_icw2 : Bool → Bool → Phase
after_icw2 true with_icw4 = after_icw3 true with_icw4
after_icw2 false with_icw4 = icw3 false with_icw4

-- Bit 4 starts the initialisation and clears the mask. Otherwise bit 5, with bits 3 and 4 clear, ends an
-- interrupt.
abbrev pub command : Chip → ℕ → Chip
command c v =
    if v / 16 % 2 == 1
    then record c { phase = icw2 (v / 2 % 2 == 1) (v % 2 == 1); mask = 0 }
    else if v / 8 % 2 == 0
    then (if v / 32 % 2 == 1 then record c { eois = c.eois + 1 } else c)
    else c

abbrev pub take_data : Phase → Chip → ℕ → Chip
take_data ready c v = record c { mask = v }
take_data (icw2 s f) c v = record c { phase = after_icw2 s f; offset = v / 8 * 8 }
take_data (icw3 s f) c v = record c { phase = after_icw3 s f }
take_data (icw4 s f) c v = record c { phase = ready }

pub record Pics : Type 0 where
  pub first : Chip
  pub second : Chip

abbrev pub write : Pics → Write → Pics
write p (port, v) =
    if port == pic1_command
    then record p { first = command p.first v }
    else if port == pic1_data
    then record p { first = take_data p.first.phase p.first v }
    else if port == pic2_command
    then record p { second = command p.second v }
    else if port == pic2_data
    then record p { second = take_data p.second.phase p.second v }
    else p

unfoldable pub run : Pics → List Write → Pics
run p [] = p
run p (w ∷ ws) = run (write p w) ws
