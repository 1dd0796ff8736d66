-- ===== src/Services/Table.antt =====
-- Valid tables of services, and registration.
use minic_os.Base.{
  ℕ, ◌<◌, ◌≡◌, ◌≢◌, ◌∙◌, Bool, true, false, List, none, some, length, get_elem?, modify,
  length-modify, each_modify,
}
use minic_os.Base.Int.{ℤ, pos, negsuc}
use minic_os.Strings.Compare.{IsText}
use minic_os.Services.{
  service_slots, ServiceEntry, ProcessTable, Services, find_service, registered,
}

-- What the manager relies on: the process table has a fixed size, and a new process is in it.
pub record ProcessLaws (env : ProcessTable) (count : ℕ) : Type 0 where
  pub size : (st : env.State) → length (env.processes_used st) ≡ count
  pub spawned :
      (start end vaddr stack : ℕ) (suspended : Bool) (st : env.State) (i : ℕ)
      → (env.spawn_process start end vaddr stack suspended st).0 ≡ pos i
      → i < count

abbrev pub IsIndex : ℕ → ℤ → Type 0
IsIndex count (pos i) = i < count
IsIndex count (negsuc n) = ⊥

-- The name is a string, and a running service has a process index.
pub record IsEntry (count : ℕ) (e : ServiceEntry) : Type 0 where
  pub text : IsText e.name
  pub process : e.running ≡ true → IsIndex count e.process_index

pub record IsValid (count : ℕ) (s : Services) : Type 0 where
  pub slots : length s ≡ service_slots
  pub entries : (i : ℕ) (e : ServiceEntry) → get_elem? s i ≡ some e → IsEntry count e

pub modify-IsValid :
    (count : ℕ) (s : Services) (i : ℕ) (f : ServiceEntry → ServiceEntry)
    → IsValid count s
    → ((e : ServiceEntry) → get_elem? s i ≡ some e → IsEntry count (f e))
    → IsValid count (modify s i f)
modify-IsValid count s i f v new = record {
  slots = length-modify s i f ∙ v.slots;
  entries = each_modify (IsEntry count) s i f v.entries new;
}

-- What service_register returns.
pub data Registered (count : ℕ) (name : List ℕ) (image_start image_end : ℕ) (auto_restart : Bool)
    (s : Services) : ℤ × Services → Type 0 where
  known :
      (i : ℕ)
      → find_service name s ≡ some i
      → Registered count name image_start image_end auto_restart s (pos i, s)
  fresh :
      (i : ℕ) (s' : Services) (e : ServiceEntry)
      → find_service name s ≡ none
      → get_elem? s i ≡ some e
      → e.used ≡ false
      → ((j : ℕ) (b : ServiceEntry) → j < i → get_elem? s j ≡ some b → b.used ≡ true)
      → ((j : ℕ) → j ≢ i → get_elem? s' j ≡ get_elem? s j)
      → IsValid count s'
      → get_elem? s' i ≡ some (registered name image_start image_end auto_restart e)
      → find_service name s' ≡ some i
      → ((n : List ℕ) → IsText n → n ≢ name → find_service n s' ≡ find_service n s)
      → Registered count name image_start image_end auto_restart s (pos i, s')
  full :
      find_service name s ≡ none
      → ((i : ℕ) (e : ServiceEntry) → get_elem? s i ≡ some e → e.used ≡ true)
      → Registered count name image_start image_end auto_restart s (negsuc 0, s)
