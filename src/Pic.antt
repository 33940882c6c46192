-- ===== src/Pic.antt =====
-- kernel/pic.c: the two legacy interrupt controllers. A function is the list of its port writes, in
-- order; what it reads from a port is an argument.
pub mod Chip
pub mod Remap
mod Tests
use os_kernel_and_bootloader.Base.{
  ℕ, ◌+◌, ◌-◌, List, [], ◌∷◌, ◌++◌, Bool, ltb, leb, if◌then◌else◌, u8, ◌^◌, ◌<<<◌, bit_and,
}

-- A port and the value written to it.
abbrev pub Write : Type 0
Write = ℕ × ℕ

abbrev pub pic1_command : ℕ
pic1_command = 0x20

abbrev pub pic1_data : ℕ
pic1_data = 0x21

abbrev pub pic2_command : ℕ
pic2_command = 0xA0

abbrev pub pic2_data : ℕ
pic2_data = 0xA1

abbrev pub io_wait : Write
io_wait = (0x80, 0)

-- `a1` and `a2` are the masks that it reads first.
unfoldable pub pic_remap : ℕ → ℕ → ℕ → ℕ → List Write
pic_remap a1 a2 offset1 offset2 =
    (pic1_command, 0x11)
    ∷ io_wait
    ∷ (pic2_command, 0x11)
    ∷ io_wait
    ∷ (pic1_data, u8 offset1)
    ∷ io_wait
    ∷ (pic2_data, u8 offset2)
    ∷ io_wait
    ∷ (pic1_data, 4)
    ∷ io_wait
    ∷ (pic2_data, 2)
    ∷ io_wait
    ∷ (pic1_data, 0x01)
    ∷ io_wait
    ∷ (pic2_data, 0x01)
    ∷ io_wait
    ∷ (pic1_data, a1)
    ∷ io_wait
    ∷ (pic2_data, a2)
    ∷ io_wait
    ∷ []

unfoldable pub pic_mask_all : List Write
pic_mask_all = (pic1_data, 0xFF) ∷ (pic2_data, 0xFF) ∷ []

unfoldable pub pic_disable : List Write
pic_disable = pic_mask_all ++ (pic1_command, 0xA0) ∷ (pic2_command, 0xA0) ∷ []

unfoldable pub pic_send_eoi : ℕ → List Write
pic_send_eoi irq =
    (if leb 8 irq then (pic2_command, 0x20) ∷ [] else []) ++ (pic1_command, 0x20) ∷ []

-- The port that `pic_unmask_irq` reads and writes, and the interrupt's number at that chip.
abbrev pub data_port : ℕ → ℕ
data_port irq = if ltb irq 8 then pic1_data else pic2_data

abbrev pub line : ℕ → ℕ
line irq = if ltb irq 8 then irq else irq - 8

-- `value` is read from `data_port irq`; the complement of a single bit is cut off to 8 bits.
unfoldable pub pic_unmask_irq : ℕ → ℕ → List Write
pic_unmask_irq value irq = (data_port irq, bit_and value (u8 (2 ^ 32 - 1 - (1 <<< line irq)))) ∷ []

unfoldable pub pic_init : ℕ → ℕ → List Write
pic_init a1 a2 = pic_remap a1 a2 0x20 0x28 ++ pic_mask_all
