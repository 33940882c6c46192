-- ===== src/Nvme/Wait.antt =====
-- The wait for a completion, and what follows it.
use os_kernel_and_bootloader.Base.{
  ℕ, zero, suc, ◌+◌, ◌<◌, ◌≡◌, refl, ap, ◌∙◌, [], some, arith, bit_and, ◌==◌, Bool-cases, inl, inr,
  append-nil,
}
use os_kernel_and_bootloader.Nvme.{
  Queue, wait_phase, status_code, status_text, finish_poll, poll_cq, advance_cq,
}

-- The wait ends with a status that was seen, if one in time has the phase tag.
pub wait_phase-some :
    (n phase t k : ℕ) (seen : ℕ → ℕ)
    → k < n
    → bit_and (seen (t + k)) 1 ≡ phase
    → (j : ℕ) × (wait_phase n phase seen t ≡ some (seen j))
unfolding wait_phase
wait_phase-some zero phase t k seen h e = absurd (omega arith)
wait_phase-some (suc n) phase t zero seen h e =
    let t_eq : t + 0 ≡ t = omega arith in
    (t, ground (arith, ap (λ (u : ℕ). bit_and (seen u) 1) t_eq))
wait_phase-some (suc n) phase t (suc k) seen h e =
    let shift : t + 1 + k ≡ t + suc k = omega arith in
    let (j, later) =
      wait_phase-some n phase (t + 1) k seen (omega arith)
        (ap (λ u. bit_and (seen u) 1) shift ∙ e) in
    elim (Bool-cases (bit_and (seen t) 1 == phase)) [
      | inl now ↦ (t, rw now)
      | inr wait ↦ (j, rw wait later)
    ]

pub status_text-quiet : (s : ℕ) → status_code s ≡ 0 → (status_text s).1 ≡ []
unfolding status_text
status_text-quiet s e = rw e

pub status_text-returns : (s : ℕ) → status_text s ≡ (some tt, (status_text s).1)
unfolding status_text
status_text-returns s = elim (Bool-cases (status_code s == 0)) [
  | inl e ↦ rw e refl
  | inr e ↦ rw e refl
]

pub poll_cq_found :
    (patience depth s : ℕ) (seen : ℕ → ℕ) (q : Queue)
    → wait_phase patience q.cq_phase seen 0 ≡ some s
    → poll_cq patience seen q depth ≡ (some (advance_cq q depth, s), (status_text s).1)
unfolding poll_cq finish_poll
poll_cq_found patience depth s seen q e =
    rw (e, finish_poll, status_text-returns s)
      (ap (λ t. (some (advance_cq q depth, s), t)) (append-nil _))
