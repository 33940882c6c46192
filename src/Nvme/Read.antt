-- ===== src/Nvme/Read.antt =====
-- `nvme_read_blocks` with a controller that answers.
use os_kernel_and_bootloader.Base.{
  ℕ, suc, ◌+◌, ◌*◌, ◌/◌, ◌^◌, ◌≤◌, ◌<◌, ◌≡◌, refl, ap, sym, ◌∙◌, List, none, some, arith, take,
  stretch, bit_and, Bool-cases, inl, inr, ltb, lt→ltb, le→ltb, ◌⊎◌, append-nil, u32, sub32,
}
use native.Mathlib.Nat.{zero-add}
use mathlib.Core.Option
use mathlib.Core.Option.{some-injective}
use mathlib.Core.Path.{subst}
use native.Mathlib.Decide.{dec_lt}
use os_kernel_and_bootloader.Nvme.{
  Cmd, Driver, Controller, io_q_depth, status_code, status_text, submit_sq, advance_cq, read_cmd,
  submit_io, complete_io, read_blocks,
}
use os_kernel_and_bootloader.Nvme.Wait.{wait_phase-some, status_text-quiet, poll_cq_found}
use os_kernel_and_bootloader.Nvme.Api.{IsDisk, ReadBlocks}
use os_kernel_and_bootloader.Nvme.Progress.{
  HasProgress, submit_sq-HasProgress, advance_cq-HasProgress,
}

-- A controller that completes every command: within the driver's patience it posts an entry with
-- the phase tag that the driver waits for.
pub record Answers (hw : Controller) : Type 0 where
  pub when : Driver → Cmd → ℕ
  pub in_time : (d : Driver) (cmd : Cmd) → when d cmd < hw.patience
  pub tagged :
      (d : Driver) (cmd : Cmd)
      → d.io.cq_phase < 2
      → bit_and (hw.status d cmd (when d cmd)) 1 ≡ d.io.cq_phase

-- A namespace that it reads without errors.
pub record Reads (hw : Controller) (nsid block_size : ℕ) (content : ℕ → ℕ) : Type 0 where
  pub answers : Answers hw
  pub succeeds : (d : Driver) (cmd : Cmd) (t : ℕ) → status_code (hw.status d cmd t) ≡ 0
  pub transfers :
      (d : Driver) (cmd : Cmd) (bytes : ℕ)
      → cmd.opcode ≡ 0x02
      → cmd.nsid ≡ nsid
      → bytes ≡ (cmd.cdw12 + 1) * block_size
      → bytes ≤ 4096
      → take bytes (hw.transfer d cmd)
        ≡ stretch content ((cmd.cdw10 + cmd.cdw11 * 2 ^ 32) * block_size) bytes

submit_io-phase : (d : Driver) (cmd : Cmd) → d.io.cq_phase < 2 → (submit_io d cmd).io.cq_phase < 2
unfolding submit_io submit_sq
submit_io-phase d cmd h = h

-- Whatever the status code of the completion says, a call that fits the page and the caller's
-- buffer returns 1 with the bytes that the controller left in the page. It prints at most the
-- status code.
pub read_blocks_done :
    (hw : Controller) (d : Driver) (nsid lba count buffer_size : ℕ)
    → Answers hw
    → d.io.cq_phase < 2
    → count * d.block_size ≤ 4096
    → count * d.block_size ≤ buffer_size
    → let cmd = read_cmd d nsid lba count in
      let d' = submit_io d cmd in
      (j : ℕ) × (read_blocks hw d nsid lba count buffer_size ≡ (
        some (
          complete_io hw d' cmd (advance_cq d'.io io_q_depth),
          some (take (count * d.block_size) (hw.transfer d' cmd)),
        ),
        (status_text (hw.status d' cmd j)).1,
      ))
unfolding read_blocks complete_io
read_blocks_done hw d nsid lba count buffer_size answers tag page room =
    let cmd = read_cmd d nsid lba count in
    let d' = submit_io d cmd in
    let (j, found) =
      wait_phase-some hw.patience d'.io.cq_phase 0 (answers.when d' cmd) (hw.status d' cmd)
        (answers.in_time d' cmd)
        (ap (λ t. bit_and (hw.status d' cmd t) 1) (zero-add (answers.when d' cmd))
          ∙ answers.tagged d' cmd (submit_io-phase d cmd tag)) in
    (
      j,
      rw
          (
            le→ltb 4096 (count * d.block_size) page,
            le→ltb buffer_size (count * d.block_size) room,
            poll_cq_found hw.patience io_q_depth _ (hw.status d' cmd) d'.io found,
          )
          (ap
            (λ t. (
              some (
                complete_io hw d' cmd (advance_cq d'.io io_q_depth),
                some (take (count * d.block_size) (hw.transfer d' cmd)),
              ),
              t,
            ))
            (append-nil _)),
    )

-- A call that does not fit the page or the caller's buffer returns 0, and the driver is as before.
pub read_blocks_refused :
    (hw : Controller) (d : Driver) (nsid lba count buffer_size : ℕ)
    → (4096 < count * d.block_size) ⊎ (buffer_size < count * d.block_size)
    → (read_blocks hw d nsid lba count buffer_size).0 ≡ some (d, none)
unfolding read_blocks
read_blocks_refused hw d nsid lba count buffer_size (inl h) =
    rw (lt→ltb 4096 (count * d.block_size) h)
read_blocks_refused hw d nsid lba count buffer_size (inr h) =
    elim (Bool-cases (ltb 4096 (count * d.block_size))) [
      | inl e ↦ rw e refl
      | inr e ↦ rw (e, lt→ltb buffer_size (count * d.block_size) h) refl
    ]

through_queues :
    (hw : Controller) (d : Driver) (cmd : Cmd) (sent taken : ℕ)
    → HasProgress io_q_depth sent taken d.io
    → let d' = submit_io d cmd in
      let x = complete_io hw d' cmd (advance_cq d'.io io_q_depth) in
      HasProgress io_q_depth (suc sent) (suc taken) x.io × (x.block_size ≡ d.block_size)
unfolding submit_io complete_io
through_queues hw d cmd sent taken p = (
  advance_cq-HasProgress io_q_depth (suc sent) taken (omega arith) (omega arith)
      (submit_sq-HasProgress io_q_depth sent taken cmd (omega arith) (omega arith) p),
  refl,
)

-- A completed call has sent one command and taken one completion on the I/O queue pair, and keeps
-- the block size.
pub read_blocks-HasProgress :
    (hw : Controller) (d d'' : Driver) (nsid lba count buffer_size sent taken : ℕ) (bytes : List ℕ)
    → Answers hw
    → HasProgress io_q_depth sent taken d.io
    → (read_blocks hw d nsid lba count buffer_size).0 ≡ some (d'', some bytes)
    → HasProgress io_q_depth (suc sent) (suc taken) d''.io × (d''.block_size ≡ d.block_size)
read_blocks-HasProgress hw d d'' nsid lba count buffer_size sent taken bytes answers p e =
    let total = count * d.block_size in
    let refused = λ (h : (4096 < total) ⊎ (buffer_size < total)).
      sym (read_blocks_refused hw d nsid lba count buffer_size h) ∙ e in
    elim (dec_lt 4096 total) [
      | yes h ↦ absurd (cc (refused (inl h)))
      | no page ↦ elim (dec_lt buffer_size total) [
        | yes h ↦ absurd (cc (refused (inr h)))
        | no room ↦
            let cmd = read_cmd d nsid lba count in
            let (j, done) =
              read_blocks_done hw d nsid lba count buffer_size answers (omega (arith, p.phase))
                (omega arith) (omega arith) in
            let same = ap (λ r. r.0) (some-injective _ _ (sym (ap (λ m. m.0) done) ∙ e)) in
            subst
              (λ x.
                HasProgress io_q_depth (suc sent) (suc taken) x.io × (x.block_size ≡ d.block_size))
              same (through_queues hw d cmd sent taken p)
      ]
    ]

-- What a client sees of a call: the driver's new state left out.
abbrev pub seen_by_client : Controller → Driver → ReadBlocks
seen_by_client hw d nsid lba count buffer_size =
    let m = read_blocks hw d nsid lba count buffer_size in (Option.map (λ r. r.1) m.0, m.1)

lba_words : (lba : ℕ) → lba < 2 ^ 64 → u32 lba + u32 (lba / 2 ^ 32) * 2 ^ 32 ≡ lba
lba_words lba h = omega arith

count_word : (count : ℕ) → 0 < count → count ≤ 4096 → sub32 count 1 + 1 ≡ count
count_word count h k = omega arith

-- With a controller that answers and reads a namespace without errors, the driver serves that
-- namespace as a disk, in every state with the right block size.
pub read_blocks-IsDisk :
    (hw : Controller) (d : Driver) (nsid : ℕ) (content : ℕ → ℕ)
    → 0 < d.block_size
    → d.io.cq_phase < 2
    → Reads hw nsid d.block_size content
    → IsDisk (seen_by_client hw d) nsid d.block_size content
unfolding read_cmd
read_blocks-IsDisk hw d nsid content pos tag reads = record {
  serves = λ lba count size some_blocks range page room.
      let cmd = read_cmd d nsid lba count in
      let d' = submit_io d cmd in
      let few : count ≤ 4096 = grind arith in
      let total : count * d.block_size ≡ (sub32 count 1 + 1) * d.block_size =
        ap (λ c. c * d.block_size) (sym (count_word count some_blocks few)) in
      let (j, done) = read_blocks_done hw d nsid lba count size reads.answers tag page room in
      let bytes =
        reads.transfers d' cmd (count * d.block_size) refl refl total page
        ∙ ap (λ l. stretch content (l * d.block_size) (count * d.block_size))
            (lba_words lba range) in
      let quiet = status_text-quiet _ (reads.succeeds d' cmd j) in
      ap (λ m. (Option.map (λ r. r.1) m.0, m.1)) done ∙ λ i. (some (some (bytes i)), quiet i);
  refuses_large = λ lba count size h.
      ap (Option.map (λ r. r.1)) (read_blocks_refused hw d nsid lba count size (inl h));
  refuses_small_buffer = λ lba count size h.
      ap (Option.map (λ r. r.1)) (read_blocks_refused hw d nsid lba count size (inr h));
}
