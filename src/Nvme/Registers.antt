-- ===== src/Nvme/Registers.antt =====
-- What `nvme_init` stores in the controller's registers, read as the NVMe specification lays them out.
use os_kernel_and_bootloader.Base.{ℕ, ◌+◌, ◌*◌, ◌/◌, ◌%◌, ◌^◌}
use os_kernel_and_bootloader.Nvme.Init.{Startup}

-- The bits below 16 that `configured` keeps.
abbrev kept : ℕ → ℕ
kept v = v % 2 ^ 16 / 2 ^ 11 * 2 ^ 11 + v % 2 ^ 7
