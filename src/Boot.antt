-- ===== src/Boot.antt =====
-- kernel/bootloader.c: the loader that the firmware starts. The firmware and its library (efi.h and
-- efilib.h) are a parameter, `Firmware`, with a state of its own.
pub mod Segments
pub mod Loading
pub mod Entry
pub mod Loaded
mod Tests
use os_kernel_and_bootloader.Base.{
  ℕ, zero, suc, ◌+◌, ◌-◌, ◌*◌, ◌/◌, ◌^◌, List, [], ◌∷◌, Bool, true, false, not, ◌||◌, ltb, ◌==◌,
  if◌then◌else◌, codes, length, u64, le8, le16, le32, le64,
}
use os_kernel_and_bootloader.Base.Run.{Run, stop, next, Code, ◌>>=◌, ◌>>◌, return, call, act, end}

pub record MapReply : Type 0 where
  pub status : ℕ
  pub map_size : ℕ
  pub map_key : ℕ
  pub desc_size : ℕ

-- The services that the loader calls. `is_error` is EFI_ERROR; `print` takes a format and its arguments;
-- `read` gives the bytes read to a buffer of the loader, and `read_to` the number of those read to an
-- address; the handles and protocols that the services pass are part of the state.
pub record Firmware : Type 1 where
  pub State : Type 0
  pub is_error : ℕ → Bool
  pub load_error : ℕ
  pub out_of_resources : ℕ
  pub initialize_lib : State → State
  pub print : List ℕ → List ℕ → State → State
  pub loaded_image : State → ℕ × State
  pub file_system : State → ℕ × State
  pub open_volume : State → ℕ × State
  pub open_file : List ℕ → State → ℕ × State
  pub read : ℕ → State → (ℕ × List ℕ) × State
  pub read_to : ℕ → ℕ → State → (ℕ × ℕ) × State
  pub set_position : ℕ → State → ℕ × State
  pub close : State → State
  pub allocate_pool : ℕ → State → Bool × State
  pub free_pool : State → State
  pub allocate_pages : ℕ → ℕ → State → ℕ × State
  pub set_mem : ℕ → ℕ → ℕ → State → State
  pub get_memory_map : ℕ → State → MapReply × State
  pub allocate_map : ℕ → State → ℕ × State
  pub exit_boot_services : ℕ → State → ℕ × State

-- How the loader ends: with a status, or with the jump to the kernel.
pub data Outcome : Type 0 where
  returned : (status : ℕ) → Outcome
  entered : (address : ℕ) → Outcome

abbrev pub Boot : Type 0 → Type 0 → Type 0
Boot S A = Code Outcome S A

module _ {S : Type 0} where
  abbrev pub leave : {A : Type 0} → ℕ → Boot S A
  leave status = end (returned status)

  abbrev pub jump : ℕ → Boot S (Unit {0})
  jump address = end (entered address)

-- `Elf64_Ehdr` and `Elf64_Phdr`, as far as the loader reads them.
pub record Ehdr : Type 0 where
  pub is_elf : Bool
  pub e_entry : ℕ
  pub e_phoff : ℕ
  pub e_phentsize : ℕ
  pub e_phnum : ℕ

unfoldable pub ehdr_of : List ℕ → Ehdr
ehdr_of b = record {
  is_elf = not (
      not (le8 b 0 == 0x7F)
      || not (le8 b 1 == b'E')
      || not (le8 b 2 == b'L')
      || not (le8 b 3 == b'F'));
  e_entry = le64 b 24;
  e_phoff = le64 b 32;
  e_phentsize = le16 b 54;
  e_phnum = le16 b 56;
}

pub record Phdr : Type 0 where
  pub p_type : ℕ
  pub p_offset : ℕ
  pub p_vaddr : ℕ
  pub p_paddr : ℕ
  pub p_filesz : ℕ
  pub p_memsz : ℕ

-- `phdrs[i]`, whatever the size of an entry is in the file.
unfoldable pub phdr_at : List ℕ → ℕ → Phdr
phdr_at b i = record {
  p_type = le32 b (56 * i);
  p_offset = le64 b (56 * i + 8);
  p_vaddr = le64 b (56 * i + 16);
  p_paddr = le64 b (56 * i + 24);
  p_filesz = le64 b (56 * i + 32);
  p_memsz = le64 b (56 * i + 40);
}

unfoldable pub seg_pages : Phdr → ℕ
seg_pages ph = u64 (ph.p_memsz + 0xFFF) / 0x1000

unfoldable pub seg_addr : Phdr → ℕ
seg_addr ph = if ph.p_paddr == 0 then ph.p_vaddr else ph.p_paddr

-- The product of two `UINT16`s is an `int`, converted to 64 bits.
unfoldable pub ph_size : Ehdr → ℕ
ph_size e = let n = e.e_phentsize * e.e_phnum in if ltb n (2 ^ 31) then n else n + (2 ^ 64 - 2 ^ 32)

module _ (F : Firmware) where
  -- What an early return frees.
  abbrev pub close_file : Boot F.State (Unit {0})
  close_file = act F.close

  abbrev pub close_and_free : Boot F.State (Unit {0})
  close_and_free = close_file >> act F.free_pool

  -- `if (EFI_ERROR(status))`, with what is done before the return.
  unfoldable pub check : ℕ → Boot F.State (Unit {0}) → Boot F.State (Unit {0})
  check status cleanup = if F.is_error status then (cleanup >> leave status) else return tt

  -- The same for a read, which must be complete too.
  unfoldable pub check_read : ℕ → Bool → Boot F.State (Unit {0}) → Boot F.State (Unit {0})
  check_read status complete cleanup =
      if F.is_error status || not complete then (cleanup >> leave F.load_error) else return tt

  unfoldable pub clear_rest : Phdr → Boot F.State (Unit {0})
  clear_rest ph =
      if ltb ph.p_filesz ph.p_memsz
      then act (F.set_mem (u64 (seg_addr ph + ph.p_filesz)) (ph.p_memsz - ph.p_filesz) 0)
      else return tt

  -- The body of the loop over the program headers.
  unfoldable pub load_segment : Phdr → Boot F.State (Unit {0})
  load_segment ph = if not (ph.p_type == 1) then return tt else (do
    status ← call (F.allocate_pages (seg_pages ph) (seg_addr ph))
    check status (
        act (F.print (codes "Blad: AllocatePages dla segmentu: %r\n") (status ∷ []))
        >> close_and_free)
    status' ← call (F.set_position ph.p_offset)
    check status' close_and_free
    reply ← call (F.read_to ph.p_filesz (seg_addr ph))
    check_read reply.0 (reply.1 == ph.p_filesz) close_and_free
    clear_rest ph)

  unfoldable pub load_from : ℕ → ℕ → List ℕ → Boot F.State (Unit {0})
  load_from zero i phdrs = return tt
  load_from (suc n) i phdrs = load_segment (phdr_at phdrs i) >> load_from n (i + 1) phdrs

  unfoldable pub open_kernel : Boot F.State (Unit {0})
  open_kernel = do
    act F.initialize_lib
    act (F.print (codes "KonradOS ELF UEFI loader startuje...\n") [])
    s₁ ← call F.loaded_image
    check s₁ (return tt)
    s₂ ← call F.file_system
    check s₂ (return tt)
    s₃ ← call F.open_volume
    check s₃ (return tt)
    s₄ ← call (F.open_file (codes "\\KERNEL.ELF"))
    check s₄ (act (F.print (codes "Blad: nie moge otworzyc \\KERNEL.ELF: %r\n") (s₄ ∷ [])))

  unfoldable pub read_header : Boot F.State Ehdr
  read_header = do
    reply ← call (F.read 64)
    check_read reply.0 (length reply.1 == 64)
        (act (F.print (codes "Blad: nie moge odczytac naglowka ELF\n") []) >> close_file)
    (if (ehdr_of reply.1).is_elf
        then return tt
        else (act (F.print (codes "Blad: to nie jest ELF\n") [])
            >> close_file
            >> leave F.load_error))
    return (ehdr_of reply.1)

  unfoldable pub read_phdrs : Ehdr → Boot F.State (List ℕ)
  read_phdrs e = do
    room ← call (F.allocate_pool (ph_size e))
    (if room then return tt else (close_file >> leave F.out_of_resources))
    status ← call (F.set_position e.e_phoff)
    check status close_and_free
    reply ← call (F.read (ph_size e))
    check_read reply.0 (length reply.1 == ph_size e) close_and_free
    return reply.1

  unfoldable pub enter_kernel : Ehdr → Boot F.State (Unit {0})
  enter_kernel e = do
    close_and_free
    act (F.print (codes "ELF zaladowany, e_entry = 0x%lx\n") (e.e_entry ∷ []))
    reply ← call (F.get_memory_map 0)
    status ← call (F.allocate_map (u64 (reply.map_size + reply.desc_size * 4)))
    check status (return tt)
    reply' ← call (F.get_memory_map (u64 (reply.map_size + reply.desc_size * 4)))
    check reply'.status (return tt)
    status' ← call (F.exit_boot_services reply'.map_key)
    check status' (return tt)
    jump e.e_entry

  -- A kernel that returned would make it return success.
  unfoldable pub efi_main : Boot F.State (Unit {0})
  efi_main = do
    open_kernel
    e ← read_header
    phdrs ← read_phdrs e
    load_from e.e_phnum 0 phdrs
    enter_kernel e
