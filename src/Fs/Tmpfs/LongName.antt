-- ===== src/Fs/Tmpfs/LongName.antt =====
-- Names of more than 19 characters, which are cut when they are stored.
use minic_os.Base.{
  ℕ, zero, suc, ◌<◌, ◌≤◌, ◌≡◌, refl, ap, ◌∙◌, true, false, List, [], ◌∷◌, none, ltb, if◌then◌else◌,
  length, modify, take, each_modify, Bool-cases, inl, inr, arith,
}
use minic_os.Base.Int.{negsuc}
use minic_os.Base.Slots.{position, position-cases, Missing}
use minic_os.Base.Position.{position-Missing}
use minic_os.Strings.Compare.{IsText, take-IsText}
use minic_os.Fs.Tmpfs.{
  tmpfs_max_size, TmpfsEntry, Tmpfs, named, copy_name, store, tmpfs_read, tmpfs_write,
}
use minic_os.Fs.Tmpfs.Contents.{
  EntryAt, IsValid, contents-none, named_iff, read_of, tmpfs_read-contents,
}

length-take_le : (n : ℕ) (s : List ℕ) → length (take n s) ≤ n
length-take_le zero s = omega arith
length-take_le (suc n) [] = omega arith
length-take_le (suc n) (x ∷ s) = omega (arith, length-take_le n s)

-- A name that can be stored.
abbrev Stored : TmpfsEntry → Type 0
Stored e = IsText e.name × (length e.name ≤ 19)

no_long_name :
    (name : List ℕ) (s : Tmpfs)
    → IsText name
    → 19 < length name
    → ((i : ℕ) (e : TmpfsEntry) → EntryAt s i e → Stored e)
    → Missing (named name) s
no_long_name name s w long all i e at = elim (Bool-cases (named name e)) [
  | inr apart ↦ apart
  | inl hit ↦
      let (text, short) = all i e at in
      let same : e.name ≡ name = ((named_iff name e w text).0 hit).1 in
      absurd (omega (arith, ap length same))
]

-- For a name of more than 19 characters, a valid table with an unused entry and bytes that a buffer
-- holds, tmpfs_write answers true, and tmpfs_read answers -1 for the same name afterwards.
pub tmpfs_read-write_long :
    (name bytes : List ℕ) (max_len : ℕ) (s : Tmpfs) (free : ℕ) (a : TmpfsEntry)
    → IsValid s
    → IsText name
    → 19 < length name
    → length bytes ≤ tmpfs_max_size
    → EntryAt s free a
    → a.used ≡ false
    → ((tmpfs_write name bytes s).0 ≡ true)
      × (tmpfs_read name max_len (tmpfs_write name bytes s).1 ≡ (negsuc 0, []))
unfolding tmpfs_write
tmpfs_read-write_long name bytes max_len s free a v w long le at unused =
    let fits : ltb tmpfs_max_size (length bytes) ≡ false = ground arith in
    let all : (i : ℕ) (e : TmpfsEntry) → EntryAt s i e → Stored e =
      λ i e h. let x = v.entries i e h in (x.text, x.short) in
    let missing : position (named name) s ≡ none =
      position-Missing (named name) s (no_long_name name s w long all) in
    elim (position-cases (λ (e : TmpfsEntry). if e.used then false else true) s) [
      | inl (full, none_free) ↦ absurd (ground (arith, none_free free a at))
      | inr (i, b, found, f) ↦
          let all' : (j : ℕ) (e : TmpfsEntry) → EntryAt (modify s i fill) j e → Stored e =
            each_modify Stored s i fill all
              (λ e h. (take-IsText 19 name w, length-take_le 19 name)) in
          rw (fits, missing, found)
            (
              refl,
              tmpfs_read-contents name max_len (modify s i fill)
                  ∙ ap (read_of max_len) (
                      contents-none name (modify s i fill) (
                        position-Missing (named name) (modify s i fill)
                          (no_long_name name (modify s i fill) w long all'))),
            )
    ]
  where
    fill : TmpfsEntry → TmpfsEntry
    fill e = store bytes (record e { name = copy_name name; used = true })
