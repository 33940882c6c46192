-- ===== src/Fat32.antt =====
-- kernel/fat32.c and kernel/fat32.h: mounting a FAT32 partition, its root directory and its files.
-- The driver reads through `Nvme.Api`; the definitions stand in `Volume`, `Name`, `Directory` and
-- `File`, and the other children prove what they do.
pub mod Volume
pub mod Name
pub mod Directory
pub mod File
pub mod Sectors
pub mod Chain
pub mod Lookup
pub mod Total
pub mod Mounts
pub mod Mounting
mod Tests
