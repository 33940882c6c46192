-- ===== src/Boot/Tests.antt =====
-- The loading of segments, and a whole run of the loader, at an input.
use os_kernel_and_bootloader.Base.{
  get_or, ℕ, zero, suc, ◌+◌, ◌/◌, ◌%◌, ◌^◌, ◌≤◌, ◌<◌, ◌≡◌, ◌≢◌, inl, inr, refl, arith, codes, false,
  ◌<◌, List, ◌∷◌, ◌++◌, true, ltb, replicate, stretch,
}
use os_kernel_and_bootloader.Base.{get_or}
use os_kernel_and_bootloader.Base.Run.{Run, stop, next}
use os_kernel_and_bootloader.Boot.{
  entered, Ehdr, ehdr_of, ph_size, efi_main, open_kernel, read_header, read_phdrs, load_segment,
  clear_rest, enter_kernel, check, check_read, Outcome,
}
use os_kernel_and_bootloader.Boot.{Firmware, next, phdr_at, seg_pages, seg_addr, load_from}
use os_kernel_and_bootloader.Boot.Segments.{Outside, Behaves, IsSegment, IsLoad, with_bytes}
use os_kernel_and_bootloader.Boot.Loaded.{IsLoaded, efi_main_entered}
use os_kernel_and_bootloader.Boot.Loading.{AreSegments}

-- A firmware with memory and a file, whose services all succeed.
pub record Machine : Type 0 where
  pub memory : ℕ → ℕ
  pub position : ℕ

abbrev long : ℕ → List ℕ
long n = n % 256 ∷ n / 256 % 256 ∷ n / 2 ^ 16 % 256 ∷ n / 2 ^ 24 % 256 ∷ replicate 4 0

abbrev header : ℕ → ℕ → ℕ → ℕ → ℕ → List ℕ
header type offset address filesz memsz =
    long type
    ++ (long offset
        ++ (long address ++ (long address ++ (long filesz ++ (long memsz ++ long 4096)))))

-- Code of 5000 bytes, a note, and data of which 100 bytes are in the file.
abbrev headers : List ℕ
headers =
    header 1 0x1000 0x10_0000 5000 5000 ++ (header 4 0 0 64 64 ++ header 1 0x100 0x20_0000 100 9000)

-- The header of the file: the entry point, and three program headers behind it.
abbrev elf : List ℕ
elf =
    0x7F ∷ b'E' ∷ b'L' ∷ b'F' ∷ replicate 20 0
    ++ (long 0x10_0010 ++ (long 64 ++ (replicate 14 0 ++ (56 ∷ 0 ∷ 3 ∷ 0 ∷ replicate 6 0))))

abbrev file : ℕ → ℕ
file k = get_or (elf ++ headers) k (k % 251)

abbrev firmware : Firmware
firmware = record {
  State = Machine;
  is_error = λ status. ltb (2 ^ 63) status;
  load_error = 2 ^ 63 + 1;
  out_of_resources = 2 ^ 63 + 9;
  initialize_lib = λ s. s;
  print = λ format arguments s. s;
  loaded_image = λ s. (0, s);
  file_system = λ s. (0, s);
  open_volume = λ s. (0, s);
  open_file = λ name s. (0, record s { position = 0 });
  read = λ n s. ((0, stretch file s.position n), record s { position = s.position + n });
  read_to = λ n a s. (
    (0, n),
    record {
      memory = with_bytes s.memory a n (λ k. file (s.position + k));
      position = s.position + n;
    },
  );
  set_position = λ p s. (0, record s { position = p });
  close = λ s. s;
  allocate_pool = λ n s. (true, s);
  free_pool = λ s. s;
  allocate_pages = λ n a s. (0, s);
  set_mem = λ a n v s. record s { memory = with_bytes s.memory a n (λ k. v) };
  get_memory_map = λ n s. (record { status = 0; map_size = 96; map_key = 7; desc_size = 48 }, s);
  allocate_map = λ n s. (0, s);
  exit_boot_services = λ key s. (0, s);
}

firmware-Behaves : Behaves firmware file 16384
firmware-Behaves = record {
  memory = λ s. s.memory;
  position = λ s. s.position;
  allocate_pages_ok = λ n a s. (refl, λ b outside. refl);
  set_position_ok = λ p s. (refl, refl, λ b. refl);
  read_to_ok = λ n a s fits. (refl, refl, λ b. refl);
  set_mem_ok = λ a n v b s. refl;
}

headers-AreSegments : AreSegments firmware file 16384 firmware-Behaves headers 3 0
unfolding phdr_at seg_addr seg_pages
headers-AreSegments = record { segments = segments; apart = apart }
  where
    segments :
        (j : ℕ)
        → 0 ≤ j
        → j < 0 + 3
        → IsLoad (phdr_at headers j)
        → IsSegment 16384 (phdr_at headers j)
    segments zero p q load = record {
      file_fits = omega arith;
      memory_fits = omega arith;
      space_fits = omega arith;
    }
    segments (suc zero) p q load = absurd (omega (arith, load))
    segments (suc (suc zero)) p q load = record {
      file_fits = omega arith;
      memory_fits = omega arith;
      space_fits = omega arith;
    }
    segments (suc (suc (suc j))) p q load = absurd (omega arith)

    apart :
        (j k b : ℕ)
        → 0 ≤ j
        → j < 0 + 3
        → 0 ≤ k
        → k < 0 + 3
        → j ≢ k
        → IsLoad (phdr_at headers j)
        → IsLoad (phdr_at headers k)
        → b < (phdr_at headers j).p_memsz
        → Outside (phdr_at headers k) (seg_addr (phdr_at headers j) + b)
    apart zero zero b p q r t ne load load' below = absurd (ne refl)
    apart zero (suc zero) b p q r t ne load load' below = absurd (omega (arith, load'))
    apart zero (suc (suc zero)) b p q r t ne load load' below = inl (omega (arith, below))
    apart zero (suc (suc (suc k))) b p q r t ne load load' below = absurd (omega arith)
    apart (suc zero) k b p q r t ne load load' below = absurd (omega (arith, load))
    apart (suc (suc zero)) zero b p q r t ne load load' below = inr (omega arith)
    apart (suc (suc zero)) (suc zero) b p q r t ne load load' below = absurd (omega (arith, load'))
    apart (suc (suc zero)) (suc (suc zero)) b p q r t ne load load' below = absurd (ne refl)
    apart (suc (suc zero)) (suc (suc (suc k))) b p q r t ne load load' below = absurd (omega arith)
    apart (suc (suc (suc j))) k b p q r t ne load load' below = absurd (omega arith)

abbrev started : Machine
started = record { memory = λ a. 0xCC; position = 0 }

abbrev state_of : {S A : Type 0} → Run Outcome S A → S → S
state_of (stop o s) d = s
state_of (next a s) d = d

abbrev final : Machine
final = state_of (efi_main firmware started) started

starts : efi_main firmware started ≡ stop (entered 0x10_0010) final
unfolding efi_main open_kernel read_header read_phdrs load_from load_segment clear_rest enter_kernel
    check check_read ehdr_of ph_size phdr_at seg_addr seg_pages stretch
starts = refl

efi_main_entered_example :
    (e : Ehdr) × (phdrs : List ℕ) × (s₁ : Machine) × (s₂ : Machine) × (s₃ : Machine)
    × (firmware.is_error (firmware.open_file (codes "\\KERNEL.ELF") s₁).0 ≡ false)
    × (read_header firmware s₂ ≡ next e s₃)
    × (e.is_elf ≡ true)
    × (t : Machine) × (read_phdrs firmware e s₃ ≡ next phdrs t)
    × ((i : ℕ) → i < e.e_phnum → (phdr_at phdrs i).p_type ≡ 1 → IsLoaded firmware (phdr_at phdrs i))
    × (0x10_0010 ≡ e.e_entry)
efi_main_entered_example = efi_main_entered firmware started final 0x10_0010 starts
