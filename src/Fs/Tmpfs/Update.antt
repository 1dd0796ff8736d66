-- ===== src/Fs/Tmpfs/Update.antt =====
-- What a write and a deletion do to the files.
use native.Mathlib.Decide.{ℕ_discrete}
use minic_os.Base.{
  ℕ, ◌<◌, ◌≤◌, ◌≡◌, ◌≢◌, refl, sym, ap, ◌∙◌, Bool, true, false, List, Option, none, some, ltb,
  if◌then◌else◌, length, modify, get_elem?-modify_self, get_elem?-modify_ne, Bool-cases, inl, inr,
  arith,
}
use minic_os.Base.Slots.{position, position-cases, Found, Missing}
use minic_os.Base.Position.{position-modify_same, position-modify_first, position-Missing}
use minic_os.Strings.Compare.{IsText, take_all}
use minic_os.Fs.Tmpfs.{
  tmpfs_max_size, TmpfsEntry, Tmpfs, named, copy_name, store, tmpfs_write, tmpfs_delete,
}
use minic_os.Fs.Tmpfs.Contents.{
  IsEntry, EntryAt, IsValid, contents, contents-none, contents-some, named_iff, named-false,
}
use minic_os.Fs.Tmpfs.Change.{
  stored-store, store-IsEntry, changed, contents-modify_ne, modify-IsValid,
}

-- The files of `s'` are those of `s` but for one.
pub record Replaced (name : List ℕ) (file : Option (List ℕ)) (s s' : Tmpfs) : Type 0 where
  pub valid : IsValid s'
  pub own : contents name s' ≡ file
  pub others : (n : List ℕ) → IsText n → n ≢ name → contents n s' ≡ contents n s

-- A file is overwritten.
overwrite-Replaced :
    (name bytes : List ℕ) (s : Tmpfs) (i : ℕ) (a : TmpfsEntry)
    → IsValid s
    → IsText name
    → length bytes ≤ tmpfs_max_size
    → position (named name) s ≡ some i
    → Found (named name) s i a
    → Replaced name (some bytes) s (modify s i (store bytes))
overwrite-Replaced name bytes s i a v w le found f =
    let e = v.entries i a f.here in
    let (is_used, is_named) = (named_iff name a w e.text).0 f.passes in
    record {
      valid =
          modify-IsValid s i (store bytes) a v f.here (store-IsEntry bytes a e le)
            (λ j b ne at ub uc same. ne (v.unique i j a b f.here at is_used ub (sym same)));
      own =
          contents-some name (modify s i (store bytes)) i (store bytes a)
            (position-modify_same (named name) s i (store bytes) a f.here refl ∙ found)
            (get_elem?-modify_self s i (store bytes) a f.here)
          ∙ ap some (stored-store bytes a e.buffer_size le);
      others = λ n u ne.
          let other : named n a ≡ false =
            named-false n a u e.text (λ same. ne (sym same ∙ is_named)) in
          contents-modify_ne n s i (store bytes) a f.here other other;
    }

abbrev created : List ℕ → List ℕ → TmpfsEntry → TmpfsEntry
created name bytes e = store bytes (record e { name = copy_name name; used = true })

-- A file is created in an unused entry.
create-Replaced :
    (name bytes : List ℕ) (s : Tmpfs) (i : ℕ) (a : TmpfsEntry)
    → IsValid s
    → IsText name
    → length name ≤ 19
    → length bytes ≤ tmpfs_max_size
    → Missing (named name) s
    → EntryAt s i a
    → a.used ≡ false
    → Replaced name (some bytes) s (modify s i (created name bytes))
create-Replaced name bytes s i a v w short le missing at unused =
    let e = v.entries i a at in
    let whole : copy_name name ≡ name = take_all 19 name short in
    let ok : IsEntry (created name bytes a) =
      store-IsEntry bytes (record a { name = copy_name name; used = true })
        (record {
          buffer_size = e.buffer_size;
          fits = e.fits;
          text = rw whole w;
          short = rw whole short;
        })
        le in
    let passes : named name (created name bytes a) ≡ true =
      (named_iff name (created name bytes a) w ok.text).1 refl whole in
    record {
      valid = modify-IsValid s i (created name bytes) a v at ok (λ j b ne h ub uc same.
          let hit : named name b ≡ true =
            (named_iff name b w (v.entries j b h).text).1 ub (same ∙ whole) in
          absurd (ground (arith, hit, missing j b h)));
      own =
          contents-some name (modify s i (created name bytes)) i (created name bytes a)
            (position-modify_first (named name) s i (created name bytes) a at missing passes)
            (get_elem?-modify_self s i (created name bytes) a at)
          ∙ ap some (
              stored-store bytes (record a { name = copy_name name; used = true }) e.buffer_size
                le);
      others = λ n u ne.
          let before : named n a ≡ false = rw unused refl in
          let after : named n (created name bytes a) ≡ false =
            named-false n (created name bytes a) u ok.text (λ same. ne (sym same ∙ whole)) in
          contents-modify_ne n s i (created name bytes) a at before after;
    }

-- What tmpfs_write returns.
pub data Written (name bytes : List ℕ) (s : Tmpfs) : Bool × Tmpfs → Type 0 where
  stored_whole :
      (s' : Tmpfs)
      → length bytes ≤ tmpfs_max_size
      → Replaced name (some bytes) s s'
      → Written name bytes s (true, s')
  too_large : tmpfs_max_size < length bytes → Written name bytes s (false, s)
  no_room :
      contents name s ≡ none
      → ((i : ℕ) (e : TmpfsEntry) → EntryAt s i e → e.used ≡ true)
      → Written name bytes s (false, s)

-- For a name of at most 19 characters, tmpfs_write keeps a valid table valid, and either the answer is
-- true, the file has the bytes, and the other files are what they were; or the answer is false, the
-- table is as it was, and the bytes are more than a buffer holds or a new file finds no unused entry.
pub tmpfs_write_lem :
    (name bytes : List ℕ) (s : Tmpfs)
    → IsValid s
    → IsText name
    → length name ≤ 19
    → Written name bytes s (tmpfs_write name bytes s)
unfolding tmpfs_write
tmpfs_write_lem name bytes s v w short = elim (Bool-cases (ltb tmpfs_max_size (length bytes))) [
  | inl large ↦ rw large (too_large (ground arith))
  | inr fits ↦
      let le : length bytes ≤ tmpfs_max_size = ground arith in
      elim (position-cases (named name) s) [
        | inr (i, a, found, f) ↦
            rw (fits, found)
              (stored_whole (modify s i (store bytes)) le
                (overwrite-Replaced name bytes s i a v w le found f))
        | inl (none_found, missing) ↦
            elim (position-cases (λ (e : TmpfsEntry). if e.used then false else true) s) [
              | inl (full, all) ↦
                  rw (fits, none_found, full)
                    (no_room (contents-none name s none_found)
                      (λ i e at. ground (arith, all i e at)))
              | inr (i, a, free, f) ↦
                  rw (fits, none_found, free)
                    (stored_whole (modify s i (created name bytes)) le (
                      create-Replaced name bytes s i a v w short le missing f.here
                        (ground (arith, f.passes))))
            ]
      ]
]

-- What tmpfs_delete returns.
pub data Deleted (name : List ℕ) (s : Tmpfs) : Bool × Tmpfs → Type 0 where
  removed :
      (s' : Tmpfs) → contents name s ≢ none → Replaced name none s s' → Deleted name s (true, s')
  absent : contents name s ≡ none → Deleted name s (false, s)

-- tmpfs_delete keeps a valid table valid, and either the answer is true, there was a file of this name,
-- there is none now, and the other files are what they were; or there is none, the answer is false and
-- the table is as it was.
pub tmpfs_delete_lem :
    (name : List ℕ) (s : Tmpfs) → IsValid s → IsText name → Deleted name s (tmpfs_delete name s)
unfolding tmpfs_delete
tmpfs_delete_lem name s v w = elim (position-cases (named name) s) [
  | inl (none_found, missing) ↦
      rw (none_found, tmpfs_delete) (absent (contents-none name s none_found))
  | inr (i, a, found, f) ↦
      rw (found, tmpfs_delete)
        (removed (modify s i clear)
          (λ none_there. absurd (cc (contents-some name s i a found f.here))) (cleared i a f))
]
  where
    clear : TmpfsEntry → TmpfsEntry
    clear e = record e { used = false }

    gone :
        (i : ℕ) (a : TmpfsEntry)
        → Found (named name) s i a
        → Missing (named name) (modify s i clear)
    gone i a f j b h = elim (ℕ_discrete i j) [
      | yes same ↦ let e : clear a ≡ b = changed s i j clear a b f.here same h in rw (← e) refl
      | no ne ↦ elim (Bool-cases (named name b)) [
        | inr apart ↦ apart
        | inl hit ↦
            let at : EntryAt s j b = sym (get_elem?-modify_ne s i j clear ne) ∙ h in
            let (ub, nb) = (named_iff name b w (v.entries j b at).text).0 hit in
            let (ua, na) = (named_iff name a w (v.entries i a f.here).text).0 f.passes in
            absurd (ne (v.unique i j a b f.here at ua ub (na ∙ sym nb)))
      ]
    ]

    cleared :
        (i : ℕ) (a : TmpfsEntry)
        → Found (named name) s i a
        → Replaced name none s (modify s i clear)
    cleared i a f =
        let e = v.entries i a f.here in
        let (is_used, is_named) = (named_iff name a w e.text).0 f.passes in
        record {
          valid =
              modify-IsValid s i clear a v f.here
                (record {
                  buffer_size = e.buffer_size;
                  fits = e.fits;
                  text = e.text;
                  short = e.short;
                })
                (λ j b ne at ub uc same. absurd (ground (arith, uc)));
          own =
              contents-none name (modify s i clear)
                (position-Missing (named name) (modify s i clear) (gone i a f));
          others = λ n u ne.
              let before : named n a ≡ false =
                named-false n a u e.text (λ same. ne (sym same ∙ is_named)) in
              contents-modify_ne n s i clear a f.here before refl;
        }
