-- ===== src/Nvme/Tests.antt =====
-- Runs of the NVMe driver, and each theorem about it at an input.
use os_kernel_and_bootloader.Base.{
  ℕ, ◌*◌, ◌%◌, ◌≡◌, refl, ap, [], arith, ltb, ◌==◌, if◌then◌else◌, some, replicate, take,
  length-replicate,
}
use os_kernel_and_bootloader.Nvme.{
  zero_cmd, Queue, Driver, io_q_depth, status_text, read_cmd, submit_io, complete_io, advance_cq,
  read_blocks,
}
use os_kernel_and_bootloader.Base.First.{first_from}
use os_kernel_and_bootloader.Pci.Search.{report}
use os_kernel_and_bootloader.Nvme.Find.{
  is_nvme, device_at, nvme_find, numbered, found_text, nvme_find_lem,
}
use os_kernel_and_bootloader.Nvme.Api.{IsDisk}
use os_kernel_and_bootloader.Nvme.Example.{controller, controller-Answers, controller-Reads}
use os_kernel_and_bootloader.Nvme.Progress.{HasProgress}
use os_kernel_and_bootloader.Nvme.Read.{
  read_blocks_done, read_blocks-HasProgress, seen_by_client, read_blocks-IsDisk,
}

abbrev fresh : ℕ → Queue
fresh depth = record { sq = replicate depth zero_cmd; sq_tail = 0; cq_head = 0; cq_phase = 1 }

abbrev driver : Driver
driver = record {
  admin = fresh 32;
  io = fresh 64;
  block_size = 512;
  dstrd = 0;
  io_buf = replicate 4096 0;
  io_buf_address = 0x20_0000;
  stores = [];
}

-- A disk whose byte at an address is the address modulo 251.
abbrev content : ℕ → ℕ
content i = i % 251

driver-HasProgress : HasProgress io_q_depth 0 0 driver.io
driver-HasProgress = record {
  tail = refl;
  head = refl;
  phase = refl;
  room = length-replicate 64 zero_cmd;
}

read_blocks_done_example :
    let cmd = read_cmd driver 1 7 2 in
    let d = submit_io driver cmd in
    (j : ℕ) × (read_blocks (controller content) driver 1 7 2 1024 ≡ (
      some (
        complete_io (controller content) d cmd (advance_cq d.io io_q_depth),
        some (take (2 * 512) ((controller content).transfer d cmd)),
      ),
      (status_text ((controller content).status d cmd j)).1,
    ))
read_blocks_done_example =
    read_blocks_done (controller content) driver 1 7 2 1024 (controller-Answers content)
      (omega arith) (omega arith) (omega arith)

read_blocks-IsDisk_example : IsDisk (seen_by_client (controller content) driver) 1 512 content
read_blocks-IsDisk_example =
    read_blocks-IsDisk (controller content) driver 1 content (omega arith) (omega arith)
      (controller-Reads content 1)

read_blocks-HasProgress_example :
    let cmd = read_cmd driver 1 7 2 in
    let d =
      complete_io
        (controller content)
        (submit_io driver cmd)
        cmd
        (advance_cq (submit_io driver cmd).io io_q_depth) in
    HasProgress io_q_depth 1 1 d.io × (d.block_size ≡ 512)
read_blocks-HasProgress_example =
    read_blocks-HasProgress (controller content) driver _ 1 7 2 1024 0 0 _
      (controller-Answers content) driver-HasProgress (ap (λ m. m.0) read_blocks_done_example.1)

-- The configuration space of a bus whose devices before number 3 do not exist, and whose others are
-- NVMe controllers.
abbrev devices : ℕ → ℕ
devices a =
    if ltb a 0x1_8000
    then 0xFF
    else if a % 4096 == 0x0B
    then 0x01
    else if a % 4096 == 0x0A
    then 0x08
    else if a % 4096 == 0x09
    then 0x02
    else 0x10

nvme_find_lem_example :
    nvme_find devices 0
    ≡ report
        (numbered devices 0 (device_at devices 0))
        (found_text devices 0)
        (first_from 65536 0 (numbered devices 0 (is_nvme devices 0)))
nvme_find_lem_example = nvme_find_lem devices 0
