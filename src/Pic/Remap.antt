-- ===== src/Pic/Remap.antt =====
-- What the functions of kernel/pic.c do to the two chips.
use os_kernel_and_bootloader.Base.{ℕ, ◌+◌, ◌*◌, ◌/◌, ◌<◌, ◌≡◌, refl, leb, if◌then◌else◌, arith, u8}
use os_kernel_and_bootloader.Pic.{pic_remap, pic_send_eoi}
use os_kernel_and_bootloader.Pic.Chip.{ready, Pics, run}

-- Whatever the chips were doing, `pic_remap` initialises them with the vectors given, and with the masks
-- that it read from them before.
pub pic_remap_lem :
    (p : Pics) (a1 a2 offset1 offset2 : ℕ)
    → offset1 < 32
    → offset2 < 32
    → run p (pic_remap a1 a2 (8 * offset1) (8 * offset2)) ≡ record {
      first = record { phase = ready; offset = 8 * offset1; mask = a1; eois = p.first.eois };
      second = record { phase = ready; offset = 8 * offset2; mask = a2; eois = p.second.eois };
    }
unfolding pic_remap run
pic_remap_lem p a1 a2 offset1 offset2 h k =
    let first : u8 (8 * offset1) / 8 * 8 ≡ 8 * offset1 = omega arith in
    let second : u8 (8 * offset2) / 8 * 8 ≡ 8 * offset2 = omega arith in rw (first, second) refl

-- `pic_send_eoi` ends an interrupt at the first chip, and before that at the second one for its lines 8 to 15.
pub pic_send_eoi_lem :
    (p : Pics) (irq : ℕ)
    → run p (pic_send_eoi irq) ≡ record {
      first = record p.first { eois = p.first.eois + 1 };
      second = record p.second { eois = p.second.eois + (if leb 8 irq then 1 else 0) };
    }
unfolding pic_send_eoi run
pic_send_eoi_lem p irq = ground arith
