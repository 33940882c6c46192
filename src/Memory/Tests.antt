-- ===== src/Memory/Tests.antt =====
-- Runs of the memory functions, and each theorem about them at an input.
use os_kernel_and_bootloader.Base.{ℕ, zero, suc, ◌<◌, ◌≡◌, ◌≢◌, refl, arith, codes, get_or}
use os_kernel_and_bootloader.Memory.{negsuc, memcmp}

memcmp_test : memcmp (codes "EFI PART") (codes "EFI PASS") 8 ≡ negsuc 0
unfolding memcmp
memcmp_test = refl

letters : (i : ℕ) → i < 2 → get_or (codes "os") i 0 ≢ 0
letters zero h = omega arith
letters (suc zero) h = omega arith
letters (suc (suc i)) h = absurd (omega arith)
