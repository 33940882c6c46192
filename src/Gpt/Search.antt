-- ===== src/Gpt/Search.antt =====
-- The search of `gpt_find_partition`.
use os_kernel_and_bootloader.Base.{
  ℕ, zero, suc, ◌≡◌, refl, List, [], ◌∷◌, not, ◌&&◌, ◌==◌, if◌then◌else◌, Option, none, some, arith,
  drop, le64, codes, length, length-drop, le→ltb, ◌≤◌, ◌*◌,
}
use os_kernel_and_bootloader.Base.{Bool, true, false}
use os_kernel_and_bootloader.Base.Io.{Io, ◌>>◌, print, return}
use os_kernel_and_bootloader.Gpt.{GptHeader, is_usable, find_loop, find_partition}

-- The table as a list of entries, each with the bytes from its place on.
unfoldable pub table : ℕ → List ℕ → List (List ℕ)
table zero bytes = []
table (suc n) bytes = bytes ∷ table n (drop 128 bytes)

-- The first partition that is in use and has a type that the kernel can use.
unfoldable pub first_usable : List (List ℕ) → Option (ℕ × ℕ)
first_usable [] = none
first_usable (e ∷ es) =
    if not (le64 e 32 == 0) && is_usable e then some (le64 e 32, le64 e 40) else first_usable es

abbrev pub search_text : Option (ℕ × ℕ) → List ℕ
search_text none = codes "GPT: no usable partition found\n"
search_text (some range) = codes "GPT: partition found\n"

-- A round of the search, whose entry is unused, usable or neither.
search_step :
    (unused usable : Bool) (range : ℕ × ℕ) (rest : Io (Option (ℕ × ℕ))) (later : Option (ℕ × ℕ))
    → rest ≡ (some later, search_text later)
    → let found = if not unused && usable then some range else later in
      (if unused
        then rest
        else if usable
        then (print (codes "GPT: partition found\n") >> return (some range))
        else rest)
      ≡ (some found, search_text found)
search_step true usable range rest later e = e
search_step false true range rest later e = refl
search_step false false range rest later e = e

find_loop_lem :
    (n : ℕ) (bytes : List ℕ)
    → n * 128 ≤ length bytes
    → find_loop n bytes
      ≡ (some (first_usable (table n bytes)), search_text (first_usable (table n bytes)))
unfolding find_loop first_usable table
find_loop_lem zero bytes h = refl
find_loop_lem (suc n) bytes h =
    let rest = find_loop_lem n (drop 128 bytes) (omega (arith, length-drop 128 bytes)) in
    let room = le→ltb (length bytes) 128 (omega (arith, h)) in
    rw room
      (search_step (le64 bytes 32 == 0) (is_usable bytes) (le64 bytes 32, le64 bytes 40) _ _ rest)

-- Where the caller's array has room for the entries, `gpt_find_partition` returns the blocks of the first entry in the table that is in use and of a
-- known type, and says whether there is one.
pub find_partition_lem :
    (hdr : GptHeader) (entries : List ℕ)
    → hdr.num_part_entries * 128 ≤ length entries
    → let found = first_usable (table hdr.num_part_entries entries) in
      find_partition hdr entries ≡ (some found, search_text found)
unfolding find_partition
find_partition_lem hdr entries h = find_loop_lem hdr.num_part_entries entries h
