-- ===== src/Fs/Tmpfs/Change.antt =====
-- A change of one entry.
use mathlib.Core.Option.{some-injective}
use native.Mathlib.Decide.{ℕ_discrete}
use minic_os.Base.{
  ℕ, ◌≤◌, ◌≡◌, ◌≢◌, refl, sym, ap, ◌∙◌, true, false, List, [], ◌∷◌, length, get_elem?, get_or,
  modify, tabulate, get_elem?-modify_self, get_elem?-modify_ne, length-modify, each_modify, inl,
  inr, arith,
}
use minic_os.Base.Slots.{position, position-cases}
use minic_os.Base.Position.{position-modify_same}
use minic_os.Base.Copy.{length-copy_loop, tabulate-copy_loop}
use minic_os.Fs.Tmpfs.{tmpfs_max_size, TmpfsEntry, Tmpfs, named, store}
use minic_os.Fs.Tmpfs.Contents.{
  IsEntry, EntryAt, IsUnique, IsValid, stored, contents, contents-none, contents-some,
}

tabulate-get_or : (xs : List ℕ) → tabulate (length xs) (λ i. get_or xs i 0) ≡ xs
tabulate-get_or [] = refl
tabulate-get_or (x ∷ xs) = ap (λ ys. x ∷ ys) (tabulate-get_or xs)

pub stored-store :
    (bytes : List ℕ) (e : TmpfsEntry)
    → length e.buffer ≡ tmpfs_max_size
    → length bytes ≤ tmpfs_max_size
    → stored (store bytes e) ≡ bytes
stored-store bytes e full fits =
    tabulate-copy_loop (λ i. get_or bytes i 0) (length bytes) e.buffer 0 (omega arith)
    ∙ tabulate-get_or bytes

pub store-IsEntry :
    (bytes : List ℕ) (e : TmpfsEntry)
    → IsEntry e
    → length bytes ≤ tmpfs_max_size
    → IsEntry (store bytes e)
store-IsEntry bytes e v le = record {
  buffer_size = length-copy_loop (λ i. get_or bytes i 0) 0 (length bytes) e.buffer ∙ v.buffer_size;
  fits = le;
  text = v.text;
  short = v.short;
}

-- An entry that has another name before and after does not matter for this name.
pub contents-modify_ne :
    (name : List ℕ) (s : Tmpfs) (i : ℕ) (f : TmpfsEntry → TmpfsEntry) (a : TmpfsEntry)
    → EntryAt s i a
    → named name a ≡ false
    → named name (f a) ≡ false
    → contents name (modify s i f) ≡ contents name s
contents-modify_ne name s i f a at before after =
    let same : position (named name) (modify s i f) ≡ position (named name) s =
      position-modify_same (named name) s i f a at (after ∙ sym before) in
    elim (position-cases (named name) s) [
      | inl (none_found, m) ↦
          contents-none name (modify s i f) (same ∙ none_found)
          ∙ sym (contents-none name s none_found)
      | inr (j, b, found, w) ↦
          let other : i ≢ j =
            λ e. absurd (ground (arith, w.here, w.passes, e, ap (get_elem? s) e)) in
          contents-some name (modify s i f) j b (same ∙ found)
            (get_elem?-modify_ne s i j f other ∙ w.here)
          ∙ sym (contents-some name s j b found w.here)
    ]

pub changed :
    (s : Tmpfs) (i j : ℕ) (f : TmpfsEntry → TmpfsEntry) (a b : TmpfsEntry)
    → EntryAt s i a
    → i ≡ j
    → EntryAt (modify s i f) j b
    → f a ≡ b
changed s i j f a b at e h =
    some-injective _ _
      (sym (get_elem?-modify_self s i f a at) ∙ ap (get_elem? (modify s i f)) e ∙ h)

-- The changed entry's name is none of the others'.
IsUnique-modify :
    (s : Tmpfs) (i : ℕ) (f : TmpfsEntry → TmpfsEntry) (a : TmpfsEntry)
    → IsUnique s
    → EntryAt s i a
    → ((j : ℕ) (b : TmpfsEntry)
        → i ≢ j
        → EntryAt s j b
        → b.used ≡ true
        → (f a).used ≡ true
        → b.name ≢ (f a).name)
    → IsUnique (modify s i f)
IsUnique-modify s i f a u at new j k b c hb hc ub uc e = elim (ℕ_discrete i j) [
  | yes p ↦ elim (ℕ_discrete i k) [
    | yes q ↦ sym p ∙ q
    | no q ↦
        let same : f a ≡ b = changed s i j f a b at p hb in
        let hc' : EntryAt s k c = sym (get_elem?-modify_ne s i k f q) ∙ hc in
        absurd (new k c q hc' uc (ap (λ x. x.used) same ∙ ub) (sym e ∙ ap (λ x. x.name) (sym same)))
  ]
  | no p ↦ elim (ℕ_discrete i k) [
    | yes q ↦
        let same : f a ≡ c = changed s i k f a c at q hc in
        let hb' : EntryAt s j b = sym (get_elem?-modify_ne s i j f p) ∙ hb in
        absurd (new j b p hb' ub (ap (λ x. x.used) same ∙ uc) (e ∙ ap (λ x. x.name) (sym same)))
    | no q ↦
        u j k b c (sym (get_elem?-modify_ne s i j f p) ∙ hb)
          (sym (get_elem?-modify_ne s i k f q) ∙ hc) ub uc e
  ]
]

pub modify-IsValid :
    (s : Tmpfs) (i : ℕ) (f : TmpfsEntry → TmpfsEntry) (a : TmpfsEntry)
    → IsValid s
    → EntryAt s i a
    → IsEntry (f a)
    → ((j : ℕ) (b : TmpfsEntry)
        → i ≢ j
        → EntryAt s j b
        → b.used ≡ true
        → (f a).used ≡ true
        → b.name ≢ (f a).name)
    → IsValid (modify s i f)
modify-IsValid s i f a v at ok new = record {
  slots = length-modify s i f ∙ v.slots;
  entries =
      each_modify IsEntry s i f v.entries
        (λ b h. let same : a ≡ b = some-injective _ _ (sym at ∙ h) in rw (← same) ok);
  unique = IsUnique-modify s i f a v.unique at new;
}
