-- ===== src/Fs/Tmpfs.antt =====
-- kernel/fs/tmpfs/tmpfs.c: the file system in memory.
-- A name is the list of its characters up to the terminating 0; the caller's buffer of `len` bytes is
-- a list of that length, and what a function stores through its pointers is part of its result.
pub mod Contents
pub mod Change
pub mod Update
pub mod LongName
use minic_os.Base.{
  ℕ, ◌-◌, Bool, true, false, ◌&&◌, List, [], Option, none, some, leb, ltb, if◌then◌else◌, length,
  get_elem?, get_or, modify, take, tabulate, replicate,
}
use minic_os.Base.Int.{ℤ, pos, negsuc, index_below}
use minic_os.Base.Copy.{copy_loop}
use minic_os.Base.Slots.{position}
use minic_os.Strings.{streq}

abbrev pub tmpfs_slots : ℕ
tmpfs_slots = 8

abbrev pub tmpfs_max_size : ℕ
tmpfs_max_size = 4096

pub record TmpfsEntry : Type 0 where
  pub used : Bool
  pub name : List ℕ
  pub buffer : List ℕ
  pub size : ℕ

-- `g_tmpfs_entries`
abbrev pub Tmpfs : Type 0
Tmpfs = List TmpfsEntry

-- The test of the loop of `find_entry`.
abbrev pub named : List ℕ → TmpfsEntry → Bool
named name e = e.used && streq e.name name

unfoldable pub find_entry : List ℕ → Tmpfs → Option ℕ
unfolding position streq
find_entry name s = position (named name) s

abbrev pub copy_name : List ℕ → List ℕ
copy_name src = take 19 src

-- `&g_tmpfs_entries[slot]` where the search has found a slot.
abbrev pub entry_of : Tmpfs → Option ℕ → Option TmpfsEntry
entry_of s none = none
entry_of s (some slot) = get_elem? s slot

-- What `tmpfs_read` answers, and the bytes that it stores at `buf`.
abbrev pub read_entry : ℕ → Option TmpfsEntry → ℤ × List ℕ
read_entry max_len none = (negsuc 0, [])
read_entry max_len (some e) =
    if ltb max_len e.size
    then (negsuc 1, [])
    else (pos e.size, tabulate e.size (λ i. get_or e.buffer i 0))

unfoldable pub tmpfs_read : List ℕ → ℕ → Tmpfs → ℤ × List ℕ
unfolding find_entry
tmpfs_read name max_len s = read_entry max_len (entry_of s (find_entry name s))

-- The last loop of `tmpfs_write`, and the size.
abbrev pub store : List ℕ → TmpfsEntry → TmpfsEntry
store bytes e = record e {
  buffer = copy_loop (λ i. get_or bytes i 0) 0 (length bytes) e.buffer;
  size = length bytes;
}

unfoldable pub tmpfs_write : List ℕ → List ℕ → Tmpfs → Bool × Tmpfs
unfolding find_entry position copy_loop
tmpfs_write name bytes s =
    if ltb tmpfs_max_size (length bytes) then (false, s) else elim (find_entry name s) [
      | some slot ↦ (true, modify s slot (store bytes))
      | none ↦ elim (position (λ e. if e.used then false else true) s) [
        | none ↦ (false, s)
        | some slot ↦ (
          true,
          modify s slot (λ e. store bytes (record e { name = copy_name name; used = true })),
        )
      ]
    ]

unfoldable pub tmpfs_delete : List ℕ → Tmpfs → Bool × Tmpfs
unfolding find_entry
tmpfs_delete name s = elim (find_entry name s) [
  | none ↦ (false, s)
  | some slot ↦ (true, modify s slot (λ e. record e { used = false }))
]

-- What `tmpfs_list_entry` stores: the name, the size and whether it is a directory.
abbrev pub listed : Option TmpfsEntry → Option (List ℕ × ℕ × Bool)
listed none = none
listed (some e) = if e.used then some (copy_name e.name, e.size, false) else none

unfoldable pub tmpfs_list_entry : ℤ → Tmpfs → Option (List ℕ × ℕ × Bool)
tmpfs_list_entry index s = elim (index_below tmpfs_slots index) [
  | none ↦ none
  | some i ↦ listed (get_elem? s i)
]

-- What `tmpfs_stat` stores: the size and whether it is a directory.
abbrev pub stat_entry : Option TmpfsEntry → Option (ℕ × Bool)
stat_entry none = none
stat_entry (some e) = some (e.size, false)

unfoldable pub tmpfs_stat : List ℕ → Tmpfs → Option (ℕ × Bool)
unfolding find_entry
tmpfs_stat name s = stat_entry (entry_of s (find_entry name s))
