-- ===== src/Loader/Outcome.antt =====
-- What `loader_run_raw` comes to.
use os_kernel_and_bootloader.Base.{Option}
use os_kernel_and_bootloader.Fat32.Volume.{Volume}
