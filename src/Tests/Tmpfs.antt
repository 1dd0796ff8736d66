-- ===== src/Tests/Tmpfs.antt =====
-- An empty table of files.
use minic_os.Base.{ℕ, ◌≡◌, refl, ap, true, false, [], ◌∷◌, length-replicate, replicate, arith}
use minic_os.Base.Int.{negsuc}
use minic_os.Strings.Compare.{IsText}
use minic_os.Fs.Tmpfs.{TmpfsEntry, Tmpfs, tmpfs_read, tmpfs_write, tmpfs_delete}
use minic_os.Fs.Tmpfs.Contents.{IsEntry, IsValid}
use minic_os.Fs.Tmpfs.Update.{Written, Deleted, tmpfs_write_lem, tmpfs_delete_lem}
use minic_os.Fs.Tmpfs.LongName.{tmpfs_read-write_long}
use minic_os.Tests.Fixtures.{same_entry}

abbrev no_file : TmpfsEntry
no_file = record { used = false; name = []; buffer = replicate 4096 0; size = 0 }

abbrev empty : Tmpfs
empty = replicate 8 no_file

no_file-IsEntry : IsEntry no_file
no_file-IsEntry = record {
  buffer_size = length-replicate {A = ℕ} 4096 0;
  fits = omega arith;
  text = λ i c at. absurd (cc);
  short = omega arith;
}

empty-IsValid : IsValid empty
empty-IsValid = record {
  slots = refl;
  entries = λ i e at. rw (← same_entry 8 no_file e i at) no_file-IsEntry;
  unique = λ i j a b ha hb ua ub same.
      let idle : no_file ≡ a = same_entry 8 no_file a i ha in
      absurd (ground (arith, ua, ap (λ (e : TmpfsEntry). e.used) idle));
}

-- A name of letters "a".
letters-IsText : (n : ℕ) → IsText (replicate n 97)
letters-IsText n i c at = λ e. let same : 97 ≡ c = same_entry n 97 c i at in absurd (omega arith)

tmpfs_write_lem_example :
    Written (replicate 2 97) (1 ∷ 2 ∷ []) empty (tmpfs_write (replicate 2 97) (1 ∷ 2 ∷ []) empty)
tmpfs_write_lem_example =
    tmpfs_write_lem (replicate 2 97) (1 ∷ 2 ∷ []) empty empty-IsValid (letters-IsText 2)
      (omega arith)

tmpfs_delete_lem_example : Deleted (replicate 2 97) empty (tmpfs_delete (replicate 2 97) empty)
tmpfs_delete_lem_example = tmpfs_delete_lem (replicate 2 97) empty empty-IsValid (letters-IsText 2)

tmpfs_read-write_long_example :
    ((tmpfs_write (replicate 20 97) (1 ∷ []) empty).0 ≡ true)
    × (tmpfs_read (replicate 20 97) 100 (tmpfs_write (replicate 20 97) (1 ∷ []) empty).1
        ≡ (negsuc 0, []))
tmpfs_read-write_long_example =
    tmpfs_read-write_long (replicate 20 97) (1 ∷ []) 100 empty 0 no_file empty-IsValid
      (letters-IsText 20) (omega arith) (omega arith) refl refl
