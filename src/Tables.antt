-- ===== src/Tables.antt =====
-- kernel/gdt.c, kernel/tss.c and kernel/idt.c with their headers: the processor's tables. The
-- instructions that load them are left out; the addresses that the linker gives are arguments.
pub mod Segments
pub mod Gates
mod Tests
use os_kernel_and_bootloader.Base.{
  ℕ, zero, suc, ◌+◌, List, [], ◌∷◌, ◌==◌, if◌then◌else◌, set, replicate, u32, u64, ◌>>>◌, bit_and,
  bit_or,
}

pub record GdtEntry : Type 0 where
  pub limit_low : ℕ
  pub base_low : ℕ
  pub base_mid : ℕ
  pub access : ℕ
  pub granularity : ℕ
  pub base_high : ℕ

-- `gdt_set_entry`: the entry it stores.
unfoldable pub gdt_entry : ℕ → ℕ → ℕ → ℕ → GdtEntry
gdt_entry base limit access gran = record {
  limit_low = bit_and limit 0xFFFF;
  base_low = bit_and base 0xFFFF;
  base_mid = bit_and (base >>> 16) 0xFF;
  access = access;
  granularity = bit_or (bit_and (limit >>> 16) 0x0F) (bit_and gran 0xF0);
  base_high = bit_and (base >>> 24) 0xFF;
}

-- The fields of `struct tss_entry` that are not zero.
pub record Tss : Type 0 where
  pub rsp0 : ℕ
  pub ist1 : ℕ
  pub iomap_base : ℕ

abbrev pub tss_size : ℕ
tss_size = 104

-- `tss_init`, with the addresses of its two stacks.
unfoldable pub tss_init : ℕ → ℕ → Tss
tss_init f_dstack kernel_stack = record {
  ist1 = u64 (f_dstack + 4096);
  rsp0 = u64 (kernel_stack + 8192);
  iomap_base = tss_size;
}

-- The first entry of `write_tss`.
unfoldable pub tss_low : ℕ → GdtEntry
tss_low tss_addr = record {
  limit_low = bit_and tss_size 0xFFFF;
  base_low = bit_and tss_addr 0xFFFF;
  base_mid = bit_and (tss_addr >>> 16) 0xFF;
  access = 0x89;
  granularity = bit_and (tss_size >>> 16) 0x0F;
  base_high = bit_and (tss_addr >>> 24) 0xFF;
}

-- The second: `memcpy` stores the upper half of the address over the entry's first four bytes.
unfoldable pub tss_high : ℕ → GdtEntry → GdtEntry
tss_high tss_addr e =
    let base_hi = u32 (tss_addr >>> 32) in
    record e { limit_low = bit_and base_hi 0xFFFF; base_low = base_hi >>> 16 }

abbrev pub zero_entry : GdtEntry
zero_entry = record {
  limit_low = 0;
  base_low = 0;
  base_mid = 0;
  access = 0;
  granularity = 0;
  base_high = 0;
}

-- The seven entries that `gdt_init` leaves, where they were zero.
unfoldable pub gdt_init : ℕ → List GdtEntry
gdt_init tss_addr =
    gdt_entry 0 0 0 0
    ∷ gdt_entry 0 0 0x9A 0x20
    ∷ gdt_entry 0 0 0x92 0x00
    ∷ gdt_entry 0 0 0xFA 0x20
    ∷ gdt_entry 0 0 0xF2 0x00
    ∷ tss_low tss_addr
    ∷ tss_high tss_addr zero_entry
    ∷ []

pub record IdtEntry : Type 0 where
  pub offset_low : ℕ
  pub selector : ℕ
  pub ist : ℕ
  pub type_attr : ℕ
  pub offset_mid : ℕ
  pub offset_high : ℕ
  pub zeros : ℕ

-- `idt_set_gate`: the gate that it stores.
unfoldable pub gate : ℕ → ℕ → IdtEntry
gate handler ist = record {
  offset_low = bit_and handler 0xFFFF;
  selector = 0x08;
  ist = ist;
  type_attr = 0x8E;
  offset_mid = bit_and (handler >>> 16) 0xFFFF;
  offset_high = bit_and (handler >>> 32) 0xFFFF_FFFF;
  zeros = 0;
}

abbrev pub no_gate : IdtEntry
no_gate = record {
  offset_low = 0;
  selector = 0;
  ist = 0;
  type_attr = 0;
  offset_mid = 0;
  offset_high = 0;
  zeros = 0;
}

-- The addresses of the assembly entry points.
pub record Handlers : Type 0 where
  pub isr : ℕ → ℕ
  pub irq0 : ℕ
  pub irq1 : ℕ
  pub apic_timer : ℕ

-- The stack of an exception: `isr8` has one of its own.
abbrev pub ist_of : ℕ → ℕ
ist_of n = if n == 8 then 1 else 0

-- The calls for `isr0` to `isr31`, the first `n` of them.
unfoldable pub set_exceptions : ℕ → Handlers → List IdtEntry → List IdtEntry
set_exceptions zero h idt = idt
set_exceptions (suc n) h idt = set (set_exceptions n h idt) n (gate (h.isr n) (ist_of n))

unfoldable pub idt_init : Handlers → List IdtEntry
idt_init h =
    let exceptions = set_exceptions 32 h (replicate 256 no_gate) in
    set (set (set exceptions 32 (gate h.irq0 0)) 33 (gate h.irq1 0)) 0x40 (gate h.apic_timer 0)
