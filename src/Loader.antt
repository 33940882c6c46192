-- ===== src/Loader.antt =====
-- kernel/loader.c: running a raw program from the file system.
pub mod Outcome
mod Tests
use os_kernel_and_bootloader.Base.{ℕ, List, Bool, if◌then◌else◌, Option, none, some, codes}
use os_kernel_and_bootloader.Base.Io.{Io, ◌>>=◌, ◌>>◌, return, print, print_hex}
use os_kernel_and_bootloader.Nvme.Api.{ReadBlocks}
use os_kernel_and_bootloader.Kheap.{Heap, kmalloc}
use os_kernel_and_bootloader.Fat32.Volume.{Volume}
use os_kernel_and_bootloader.Fat32.Directory.{DirEntry}
use os_kernel_and_bootloader.Fat32.File.{FileRead, open_file, read_all}

-- A jump to code that has been loaded: its address and bytes.
pub record Program : Type 0 where
  pub address : ℕ
  pub code : List ℕ

module _ (read : ReadBlocks) (v : Volume) where
  -- When the file has been read: the result 0 is `none`, and else the jump.
  unfoldable pub start : Heap → ℕ → FileRead → Io (Heap × Option Program)
  start h buf r =
      if r.result
      then (do
        print (codes "Loader: jumping to raw code at ")
        print_hex buf
        print (codes "\n")
        return (h, some (record { address = buf; code = r.bytes })))
      else (print (codes "Loader: read failed\n") >> return (h, none))

  unfoldable pub load : ℕ → Heap × Option ℕ → Io (Heap × Option Program)
  load size (h, none) = print (codes "Loader: kmalloc failed\n") >> return (h, none)
  load size (h, some buf) = read_all read v size >>= start h buf

  unfoldable pub allocate : Heap → Option DirEntry → Io (Heap × Option Program)
  allocate h none = print (codes "Loader: file not found\n") >> return (h, none)
  allocate h (some f) = kmalloc h f.file_size >>= load f.file_size

  -- `loader_run_raw`, up to the jump.
  unfoldable pub loader_run_raw : Heap → List ℕ → Io (Heap × Option Program)
  loader_run_raw h path = open_file read v path >>= allocate h
