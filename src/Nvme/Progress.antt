-- ===== src/Nvme/Progress.antt =====
-- The head, tail and phase of a queue pair count the commands that went through it.
use os_kernel_and_bootloader.Base.{
  ℕ, zero, suc, ◌+◌, ◌-◌, ◌*◌, ◌/◌, ◌%◌, ◌<◌, ◌≡◌, refl, ap, sym, ◌∙◌, arith, length, length-set,
  bit_xor, ◌==◌, if◌then◌else◌,
}
use native.Mathlib.Nat.{
  suc-mod, mod-lt, mod-eq_of_lt, mod-add-div, mul-add-div, div-eq_of_lt, div_self, mod_self,
}
use native.Mathlib.Decide.{dec_lt}
use os_kernel_and_bootloader.Nvme.{Cmd, Queue, submit_sq, advance_cq}

-- After `sent` submissions and `taken` completions on a pair of `depth` entries. The phase tag
-- starts at 1 and is inverted each time the head passes the end.
pub record HasProgress (depth sent taken : ℕ) (q : Queue) : Type 0 where
  pub tail : q.sq_tail ≡ sent % depth
  pub head : q.cq_head ≡ taken % depth
  pub phase : q.cq_phase ≡ (1 + taken / depth) % 2
  pub room : length q.sq ≡ depth

flip : (b : ℕ) → b < 2 → bit_xor b 1 ≡ 1 - b
flip zero h = refl
flip (suc zero) h = refl
flip (suc (suc b)) h = absurd (omega arith)

next_mod : (n d : ℕ) → 0 < d → (n % d + 1) % d ≡ suc n % d
next_mod n d h =
    let e : n % d + 1 ≡ suc (n % d) = omega arith in ap (λ k. k % d) e ∙ sym (suc-mod n d)

next_div : (n d : ℕ) → 0 < d → suc n / d ≡ (if suc n % d == 0 then n / d + 1 else n / d)
next_div n d h =
    let r = n % d in
    let whole : suc n ≡ d * (n / d) + suc r = omega (arith, mod-add-div n d) in
    let quotient : suc n / d ≡ n / d + suc r / d =
      ap (λ k. k / d) whole ∙ mul-add-div h (n / d) (suc r) in
    let remainder : suc n % d ≡ suc r % d = suc-mod n d in
    elim (dec_lt (suc r) d) [
      | yes p ↦ ground (arith, quotient, remainder, div-eq_of_lt p, mod-eq_of_lt p)
      | no p ↦ ground (
        arith,
        quotient,
        remainder,
        mod-lt n h,
        ap (λ (k : ℕ). k % d) (exact r p (mod-lt n h)),
        ap (λ (k : ℕ). k / d) (exact r p (mod-lt n h)),
        div_self h,
        mod_self d,
      )
    ]
  where
    exact : (r : ℕ) → ¬ (suc r < d) → r < d → suc r ≡ d
    exact r p q = omega arith

-- A submission writes inside the queue and moves the tail on, round the end.
pub submit_sq-HasProgress :
    (depth sent taken : ℕ) (cmd : Cmd) {q : Queue}
    → 0 < depth
    → depth < 0x1_0000
    → HasProgress depth sent taken q
    → HasProgress depth (suc sent) taken (submit_sq q depth cmd)
unfolding submit_sq
submit_sq-HasProgress depth sent taken cmd {q} pos small h =
    ground (arith, length-set q.sq q.sq_tail cmd, next_mod sent depth pos, mod-lt (suc sent) pos)

-- A completion moves the head on, and inverts the phase exactly when the head passes the end.
pub advance_cq-HasProgress :
    (depth sent taken : ℕ) {q : Queue}
    → 0 < depth
    → depth < 0x1_0000
    → HasProgress depth sent taken q
    → HasProgress depth sent (suc taken) (advance_cq q depth)
unfolding advance_cq
advance_cq-HasProgress depth sent taken {q} pos small h = ground (
  arith,
  next_mod taken depth pos,
  next_div taken depth pos,
  mod-lt (suc taken) pos,
  flip q.cq_phase,
)
