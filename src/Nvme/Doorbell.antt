-- ===== src/Nvme/Doorbell.antt =====
-- Where the doorbell registers lie.
use os_kernel_and_bootloader.Base.{ℕ, ◌+◌, ◌*◌, ◌≤◌, ◌<◌, ◌≡◌, ◌^◌, ◌%◌, arith}
use native.Mathlib.Nat.{one-le-pow, pow-le-pow_right, mul-le-mul_left, mul-le-mul_right}
use os_kernel_and_bootloader.Nvme.{sq_doorbell, cq_doorbell}

-- The offset of a doorbell register is not cut off to 32 bits.
offset_fits :
    (dstrd k : ℕ) → dstrd < 16 → k < 0x8000 → k * (4 * 2 ^ dstrd) % 2 ^ 32 ≡ k * (4 * 2 ^ dstrd)
offset_fits dstrd k h small =
    let power : 2 ^ dstrd ≤ 2 ^ 15 = pow-le-pow_right (omega arith) {j = 15} (omega arith) in
    let stride : 4 * 2 ^ dstrd ≤ 4 * 2 ^ 15 = omega arith in
    let most : k * (4 * 2 ^ dstrd) ≤ k * (4 * 2 ^ 15) = mul-le-mul_left k stride in omega arith

-- With any stride that the controller can report, the four bytes of a queue's submission
-- doorbell end before its completion doorbell, and those end before the submission doorbell of
-- every later queue below 0x4000. All lie from 0x1000 on, above the other registers.
pub doorbells_in_order :
    (dstrd a b : ℕ)
    → dstrd < 16
    → a < b
    → b < 0x4000
    → (0x1000 ≤ sq_doorbell dstrd a)
      × (sq_doorbell dstrd a + 4 ≤ cq_doorbell dstrd a)
      × (cq_doorbell dstrd a + 4 ≤ sq_doorbell dstrd b)
unfolding sq_doorbell cq_doorbell
doorbells_in_order dstrd a b h less last =
    let stride : 4 ≤ 4 * 2 ^ dstrd = omega (arith, one-le-pow dstrd 2) in
    let later : (2 * a + 2) * (4 * 2 ^ dstrd) ≤ 2 * b * (4 * 2 ^ dstrd) =
      mul-le-mul_right (4 * 2 ^ dstrd) (omega arith) in
    let first = offset_fits dstrd (2 * a) h (omega arith) in
    let second = offset_fits dstrd (2 * a + 1) h (omega arith) in
    let third = offset_fits dstrd (2 * b) h (omega arith) in
    (omega arith, omega (arith, first, second), omega (arith, second, third))
