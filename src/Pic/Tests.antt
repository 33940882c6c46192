-- ===== src/Pic/Tests.antt =====
-- Each theorem about the legacy controllers at an input.
use os_kernel_and_bootloader.Base.{◌*◌, ◌≡◌, true, false, arith}
use os_kernel_and_bootloader.Pic.{pic_remap}
use os_kernel_and_bootloader.Pic.Chip.{ready, icw3, Pics, run}
use os_kernel_and_bootloader.Pic.Remap.{pic_remap_lem}

-- The first chip in the middle of an initialisation.
abbrev unfinished : Pics
unfinished = record {
  first = record { phase = icw3 false true; offset = 8; mask = 0; eois = 3 };
  second = record { phase = ready; offset = 0x70; mask = 0xFF; eois = 1 };
}

pic_remap_lem_example : run unfinished (pic_remap 0xB8 0x8F (8 * 4) (8 * 5)) ≡ record {
  first = record { phase = ready; offset = 8 * 4; mask = 0xB8; eois = 3 };
  second = record { phase = ready; offset = 8 * 5; mask = 0x8F; eois = 1 };
}
pic_remap_lem_example = pic_remap_lem unfinished 0xB8 0x8F 4 5 (omega arith) (omega arith)
