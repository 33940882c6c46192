-- ===== src/Kernel/Keeps.antt =====
-- Rules for what the parts of `kernel_main` leave as it is.
use os_kernel_and_bootloader.Base.{ℕ, List, Bool, true, false, Option, none, some, if◌then◌else◌}
use os_kernel_and_bootloader.Base.Io.{Io}
use os_kernel_and_bootloader.Base.Run.{Run, stop, next, after, ◌>>=◌, ◌>>◌, return, act, end}
use os_kernel_and_bootloader.Acpi.Madt.{MadtInfo}
use os_kernel_and_bootloader.Nvme.Api.{ReadBlocks}
use os_kernel_and_bootloader.Kernel.{
  Machine, End, stopped, hung, Kernel, Environment, get, say, from_io, found, get_header,
  get_entries, get_partition, mount_volume, file_report, read_kernel_bin, use_disk, find_tables,
  start_apics, start_storage,
}
use os_kernel_and_bootloader.Gpt.{GptHeader}
use os_kernel_and_bootloader.Fat32.File.{FileRead}
use os_kernel_and_bootloader.Kernel.Ready.{Condition, Safe, Meets}

-- Where a part ends early, the machine is safe; where it goes on, it meets a condition.
abbrev pub Arrives : Environment → Condition → {A : Type 0} → Run End Machine A → Type 0
Arrives E R (stop e m) = Meets (Safe E) m
Arrives E R (next a m) = Meets R m

module _ (E : Environment) where
  unfoldable pub Leads : Condition → Condition → {A : Type 0} → Kernel A → Type 0
  Leads R Q m = (s : Machine) → Meets R s → Arrives E Q (m s)

  pub bind-Leads :
      (R Q T : Condition) {A B : Type 0} (m : Kernel A) (f : A → Kernel B)
      → Leads R Q m
      → ((a : A) → Leads Q T (f a))
      → Leads R T (m >>= f)
  unfolding Leads
  bind-Leads R Q T {A} {B} m f hm hf s before = go (m s) (hm s before)
    where
      go : (r : Run End Machine A) → Arrives E Q r → Arrives E T (after r f)
      go (stop e t) h = h
      go (next a t) h = hf a t h

  pub act-Leads :
      (R Q : Condition) (f : Machine → Machine)
      → ((s : Machine) → Meets R s → Meets Q (f s))
      → Leads R Q (act f)
  unfolding Leads
  act-Leads R Q f h = h

  -- The parts that do not touch what a condition is about.
  module _ (R : Condition) (safe : (s : Machine) → Meets R s → Meets (Safe E) s) where
    Keeps : {A : Type 0} → Kernel A → Type 0
    Keeps m = Leads R R m

    bind-Keeps :
        {A B : Type 0} (m : Kernel A) (f : A → Kernel B)
        → Leads R R m
        → ((a : A) → Leads R R (f a))
        → Leads R R (m >>= f)
    bind-Keeps m f hm hf = bind-Leads R R R m f hm hf

    seq-Keeps :
        {B : Type 0} (m : Kernel (Unit {0})) (k : Kernel B)
        → Leads R R m
        → Leads R R k
        → Leads R R (m >> k)
    seq-Keeps m k hm hk = bind-Keeps m (λ _. k) hm (λ _. hk)

    pub get-Keeps : Leads R R get
    unfolding Leads
    get-Keeps s h = h

    pub say-Keeps : (text : List ℕ) → Leads R R (say text)
    unfolding Leads say
    say-Keeps text s h = h

    return-Keeps : {A : Type 0} (a : A) → Leads R R (return a)
    unfolding Leads
    return-Keeps a s h = h

    end-Keeps : (A : Type 0) (e : End) → Leads R R (end {A = A} e)
    unfolding Leads
    end-Keeps A e s h = safe s h

    from_io-Keeps : {A : Type 0} (m : Io A) → Leads R R (from_io m)
    unfolding from_io
    from_io-Keeps (none, text) = seq-Keeps _ _ (say-Keeps text) (end-Keeps _ hung)
    from_io-Keeps (some a, text) = seq-Keeps _ _ (say-Keeps text) (return-Keeps a)

    found-Keeps : {A : Type 0} (text : List ℕ) (a : Option A) → Leads R R (found text a)
    unfolding found
    found-Keeps text none = seq-Keeps _ _ (say-Keeps text) (end-Keeps _ stopped)
    found-Keeps text (some a) = return-Keeps a

    if-Keeps :
        {A : Type 0} (b : Bool) (m k : Kernel A)
        → Leads R R m
        → Leads R R k
        → Leads R R (if b then m else k)
    if-Keeps true m k hm hk = hm
    if-Keeps false m k hm hk = hk

    act-Keeps :
        (f : Machine → Machine) → ((s : Machine) → Meets R s → Meets R (f s)) → Leads R R (act f)
    act-Keeps f h = act-Leads R R f h

    -- A part made of such parts does not touch them.
    ruleset keeping = (
      bind-Keeps, seq-Keeps, get-Keeps, say-Keeps, return-Keeps, end-Keeps, from_io-Keeps,
      found-Keeps, if-Keeps,
    )

    pub find_tables-Keeps : Leads R R (find_tables E)
    unfolding find_tables
    find_tables-Keeps = search (keeping, act-Keeps) depth 60 fits 9000

    pub start_apics-Keeps : (madt : MadtInfo) → Leads R R (start_apics E madt)
    unfolding start_apics
    start_apics-Keeps madt = search (keeping, act-Keeps) depth 60

    pub start_storage-Keeps : (xsdt : ℕ) → Leads R R (start_storage E xsdt)
    unfolding start_storage
    start_storage-Keeps xsdt = search (keeping, act-Keeps) depth 60

    get_header-Keeps : (read : ReadBlocks) (block_size : ℕ) → Leads R R (get_header read block_size)
    unfolding get_header
    get_header-Keeps read block_size = search (keeping, act-Keeps) depth 60

    get_entries-Keeps :
        (read : ReadBlocks) (block_size : ℕ) (entries : List ℕ) (hdr : GptHeader)
        → Leads R R (get_entries read block_size entries hdr)
    unfolding get_entries
    get_entries-Keeps read block_size entries hdr = search (keeping, act-Keeps) depth 60

    get_partition-Keeps :
        (read : ReadBlocks) (block_size : ℕ) (hdr : GptHeader) (entries : List ℕ)
        → Leads R R (get_partition read block_size hdr entries)
    unfolding get_partition
    get_partition-Keeps read block_size hdr entries = search (keeping, act-Keeps) depth 60

    mount_volume-Keeps :
        (read : ReadBlocks) (block_size part_start : ℕ)
        → Leads R R (mount_volume read block_size part_start)
    unfolding mount_volume
    mount_volume-Keeps read block_size part_start = search (keeping, act-Keeps) depth 60

    file_report-Keeps :
        (read : ReadBlocks) (block_size : ℕ) (r : FileRead)
        → Leads R R (file_report read block_size r)
    unfolding file_report
    file_report-Keeps read block_size r = search (keeping, act-Keeps) depth 60

    read_kernel_bin-Keeps :
        (read : ReadBlocks) (block_size : ℕ) → Leads R R (read_kernel_bin read block_size)
    unfolding read_kernel_bin
    read_kernel_bin-Keeps read block_size = search (keeping, act-Keeps, file_report-Keeps) depth 60

    pub use_disk-Keeps :
        (read : ReadBlocks) (block_size : ℕ) (entries : List ℕ)
        → Leads R R (use_disk read block_size entries)
    unfolding use_disk
    use_disk-Keeps read block_size entries =
        search
          (
            keeping, get_header-Keeps, get_entries-Keeps, get_partition-Keeps, mount_volume-Keeps,
            read_kernel_bin-Keeps,
          )
          depth 60
