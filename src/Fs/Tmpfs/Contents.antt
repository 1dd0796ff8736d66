-- ===== src/Fs/Tmpfs/Contents.antt =====
-- The files of a table, and what a search finds in a valid one.
use minic_os.Base.{
  ℕ, ◌≤◌, ◌≡◌, ◌≢◌, refl, ap, ◌∙◌, Bool, true, false, List, [], Option, none, some, ltb,
  if◌then◌else◌, length, get_elem?, get_or, tabulate, length-tabulate, inl, inr, Bool-cases, arith,
}
use minic_os.Base.Int.{ℤ, pos, negsuc}
use minic_os.Base.Slots.{position}
use minic_os.Strings.Compare.{IsText, streq_iff}
use minic_os.Fs.Tmpfs.{
  tmpfs_slots, tmpfs_max_size, TmpfsEntry, Tmpfs, named, entry_of, read_entry, stat_entry,
  tmpfs_read, tmpfs_stat,
}

-- A buffer of the full size, a size within it, and a name that fits.
pub record IsEntry (e : TmpfsEntry) : Type 0 where
  pub buffer_size : length e.buffer ≡ tmpfs_max_size
  pub fits : e.size ≤ tmpfs_max_size
  pub text : IsText e.name
  pub short : length e.name ≤ 19

abbrev pub EntryAt : Tmpfs → ℕ → TmpfsEntry → Type 0
EntryAt s i e = get_elem? s i ≡ some e

-- No two used entries have one name.
abbrev pub IsUnique : Tmpfs → Type 0
IsUnique s =
    (i j : ℕ) (a b : TmpfsEntry)
    → EntryAt s i a
    → EntryAt s j b
    → a.used ≡ true
    → b.used ≡ true
    → a.name ≡ b.name
    → i ≡ j

pub record IsValid (s : Tmpfs) : Type 0 where
  pub slots : length s ≡ tmpfs_slots
  pub entries : (i : ℕ) (e : TmpfsEntry) → EntryAt s i e → IsEntry e
  pub unique : IsUnique s

-- The bytes of an entry's file.
abbrev pub stored : TmpfsEntry → List ℕ
stored e = tabulate e.size (λ i. get_or e.buffer i 0)

abbrev pub file_of : Option TmpfsEntry → Option (List ℕ)
file_of none = none
file_of (some e) = some (stored e)

-- The file of this name.
abbrev pub contents : List ℕ → Tmpfs → Option (List ℕ)
contents name s = file_of (entry_of s (position (named name) s))

pub contents-none :
    (name : List ℕ) (s : Tmpfs) → position (named name) s ≡ none → contents name s ≡ none
contents-none name s h = ap (λ o. file_of (entry_of s o)) h

pub contents-some :
    (name : List ℕ) (s : Tmpfs) (i : ℕ) (e : TmpfsEntry)
    → position (named name) s ≡ some i
    → EntryAt s i e
    → contents name s ≡ some (stored e)
contents-some name s i e h at = ap (λ o. file_of (entry_of s o)) h ∙ ap file_of at

-- An entry that passes the test is used and has the name, and the other way round.
pub named_iff :
    (name : List ℕ) (e : TmpfsEntry)
    → IsText name
    → IsText e.name
    → (named name e ≡ true → (e.used ≡ true) × (e.name ≡ name))
      × (e.used ≡ true → e.name ≡ name → named name e ≡ true)
named_iff name e v w = (
  λ h. (ground arith, (streq_iff e.name name w v).0 (ground arith)),
  λ used same. ground (arith, (streq_iff e.name name w v).1 same),
)

pub named-false :
    (name : List ℕ) (e : TmpfsEntry)
    → IsText name
    → IsText e.name
    → e.name ≢ name
    → named name e ≡ false
named-false name e v w ne = elim (Bool-cases (named name e)) [
  | inl h ↦ absurd (ne ((named_iff name e v w).0 h).1)
  | inr h ↦ h
]

-- The number of bytes in the answer -1, -2 or the size.
abbrev pub read_of : ℕ → Option (List ℕ) → ℤ × List ℕ
read_of max_len none = (negsuc 0, [])
read_of max_len (some bytes) =
    if ltb max_len (length bytes) then (negsuc 1, []) else (pos (length bytes), bytes)

read_entry_lem :
    (max_len : ℕ) (o : Option TmpfsEntry) → read_entry max_len o ≡ read_of max_len (file_of o)
read_entry_lem max_len none = refl
read_entry_lem max_len (some e) = rw (length-tabulate e.size (λ i. get_or e.buffer i 0)) refl

-- A read hands over the file's bytes if the buffer holds them.
pub tmpfs_read-contents :
    (name : List ℕ) (max_len : ℕ) (s : Tmpfs)
    → tmpfs_read name max_len s ≡ read_of max_len (contents name s)
unfolding tmpfs_read
tmpfs_read-contents name max_len s = read_entry_lem max_len (entry_of s (position (named name) s))

abbrev pub stat_of : Option (List ℕ) → Option (ℕ × Bool)
stat_of none = none
stat_of (some bytes) = some (length bytes, false)

stat_entry_lem : (o : Option TmpfsEntry) → stat_entry o ≡ stat_of (file_of o)
stat_entry_lem none = refl
stat_entry_lem (some e) = rw (length-tabulate e.size (λ i. get_or e.buffer i 0)) refl

pub tmpfs_stat-contents :
    (name : List ℕ) (s : Tmpfs) → tmpfs_stat name s ≡ stat_of (contents name s)
unfolding tmpfs_stat
tmpfs_stat-contents name s = stat_entry_lem (entry_of s (position (named name) s))
