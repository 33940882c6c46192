-- ===== src/Lib.antt =====
-- A verification library for the kernel in kernel/ and its boot loader: the console, keyboard, heap,
-- memory functions, firmware tables, interrupt controllers, exceptions, PCI, NVMe, partitions, file
-- system, program loader, descriptor tables and kernel_main.
--
-- The parts and how they interact. The boot loader (kernel/bootloader.c) takes the kernel from the
-- firmware's file system to memory and jumps to it. The screen (kernel/vga.c) is where every part
-- prints. irq_init (kernel/irq.c) finds the firmware's tables (kernel/acpi.c), disables the legacy
-- controllers (kernel/pic.c), starts the local APIC with its timer (kernel/lapic.c) and routes the
-- interrupts in the I/O APIC (kernel/ioapic.c). The interrupts enter through the descriptor tables
-- (kernel/idt.c) and the handler (kernel/isr.c), which ends those of the devices. The keyboard driver
-- (kernel/keyboard.c) has a function for its interrupt, which no code of the kernel calls yet, and
-- echoes to the screen. The NVMe driver (kernel/nvme.c) finds its controller on the PCI bus
-- (kernel/pci.c), starts it and reads blocks; the partition table (kernel/gpt.c) and the file system
-- (kernel/fat32.c) read through it, and the loader (kernel/loader.c) takes a file from the file
-- system and memory from the heap (kernel/kheap.c). kernel/string.c has the memory functions.
-- kernel_main (kernel/kernel.c) calls the parts in turn and stops for ever where one fails.
--
-- Which module models what:
--   Base      C integers of a fixed width, byte buffers, bits, console output as text, and programs
--             that may end before their last line
--   Memory    kernel/string.c: memcpy, memset, strlen, memcmp
--   Vga       kernel/vga.c: the 80x25 cells and the cursor as a record; vga_scroll, vga_clear,
--             vga_putc, vga_print, vga_print_hex, vga_write as functions on it
--   Keyboard  kernel/keyboard.c: the line buffer, the modifier keys and the screen as a record;
--             keyboard_on_irq takes the scan code that the port gives, and keyboard_readline the
--             scan codes of the interrupts that arrive while it waits
--   Kheap     kernel/kheap.c: kheap_init, kmalloc, kfree
--   Pci       kernel/pci.c: the addresses and reads of the configuration space, pci_enumerate
--   Acpi      kernel/acpi.c: acpi_find_rsdp, acpi_get_xsdt, acpi_find_table, acpi_parse_mcfg, and in
--             Acpi.Madt acpi_parse_madt. Acpi.Entries has the structures of a MADT as the ACPI
--             specification describes them
--   Pic       kernel/pic.c: each function as its port writes. Pic.Chip is the 8259 after its data sheet
--   Lapic     kernel/lapic.c, kernel/apic.c: lapic_init with the calibration of the timer, lapic_eoi,
--             apic_eoi
--   Nvme      kernel/nvme.c: the queue pairs with tail, head and phase, the doorbells, and
--             nvme_read_blocks. The controller is hardware, and a parameter. Nvme.Api is the
--             interface for the driver's clients, Nvme.Read fills it. Nvme.Find has nvme_find, and
--             Nvme.Init nvme_init with the registers of kernel/nvme_regs.h and the admin commands
--   Gpt       kernel/gpt.c: gpt_read_header, gpt_read_entries, gpt_find_partition
--   Fat32     kernel/fat32.c: fat32_mount, fat32_list_root, fat32_read_file_from_root, fat32_open,
--             fat32_read_all. Fat32.Volume has the state and the sector reads, Fat32.Name the 8.3
--             names, Fat32.Directory the entries, Fat32.File the reads of files
--   Loader    kernel/loader.c: loader_run_raw, up to the jump to the loaded code
--   Tables    kernel/gdt.c, kernel/tss.c, kernel/idt.c: the entries that gdt_set_entry, write_tss and
--             idt_set_gate store, tss_init, gdt_init and idt_init
--   Ioapic    kernel/ioapic.c: ioapic_init, ioapic_set_gsi, ioapic_mask, ioapic_unmask on a device
--             of 256 registers that hold what is written to them
--   Irq       kernel/irq.c: irq_init, madt_resolve_gsi, irq_mask, irq_unmask
--   Isr       kernel/isr.c: isr_handler_c on the stacks that the entry points of kernel/isr.asm push
--   Boot      kernel/bootloader.c: efi_main, with the firmware and its library as a parameter
--   Kernel    kernel/kernel.c: kernel_main as stages on a record of what the parts keep; End has the
--             ways in which it ends
-- In each, the children with other names prove what the definitions do, and Tests has runs of them
-- at concrete inputs, some of which are in Example.
--
-- Conventions. State is passed explicitly: a function that changes the driver's globals takes and
-- returns a record. A function that prints returns its result with the text (Base.Io); none as the
-- result means that the call does not return, as in a wait that a device never ends or a CPU fault, or
-- that it stores behind a static buffer of the file system or looks behind the array of partitions: what
-- the code does then is not known.
-- efi_main and kernel_main, which also end before their last line, are programs of Base.Run. While
-- kernel_main uses the disk, each read finds the driver as nvme_init has left it: Nvme.Read shows that
-- reads only move the places in the queues, and that the disk is served in all of those states.
-- Pointers to caller's buffers are lists of the bytes stored. Physical memory that the kernel only
-- reads, the firmware's tables and the configuration space of PCI, is a function from addresses to
-- bytes. A device's registers hold what is written to them, and what a device shows by itself is a
-- parameter: a count at the first, second, ... look. Numbers are unbounded, and the
-- wrap-around of the C types is written out with u8, u16, u32 and u64.
--
-- Fuel. The loop of fat32_read_sectors has one round more than sectors, and each round reads at
-- least one; the loop over the clusters of a file has one more than the file's bytes, and each
-- round copies at least one, so both loops end in their own rounds. The wait of nvme_poll_cq looks
-- a number of times that the controller's model gives, and does not return when that runs out, and so
-- do nvme_wait_ready and pit_wait_10ms. The loop of acpi_parse_madt advances by two bytes or more, and
-- its fuel is the table's length and one. The other loops are structural. Base.Returns is the condition
-- that a call returns, which Fat32.Total and Irq.Total show of the functions of their parts.
--
-- Not modelled: interrupts that arrive while kernel_main runs, and the instructions of the assembly
-- files, of which kernel/isr.asm is followed as far as the order of its pushes. The contents of memory
-- outside the buffers named is not modelled either: apart from the cases above, an access out of a
-- list's bounds reads zero or stores nothing. The controller of the theorems about nvme_init answers its
-- commands wherever the queues are, though the driver stores their addresses in the wrong registers.
pub mod Base
pub mod Memory
pub mod Vga
pub mod Keyboard
pub mod Kheap
pub mod Pci
pub mod Acpi
pub mod Pic
pub mod Lapic
pub mod Nvme
pub mod Gpt
pub mod Fat32
pub mod Loader
pub mod Tables
pub mod Ioapic
pub mod Irq
pub mod Isr
pub mod Boot
pub mod Kernel
