-- ===== src/Ipc/Object/Inv.antt =====
-- The shape of the tables, which every operation keeps, and that no operation leaves an array.
use minic_os.Base.{
  ℕ, ◌<◌, ◌≡◌, true, false, Option, none, some, List, inl, inr, length, get_elem?, modify,
  length-modify, get_elem?-some, each_modify, ◌∙◌, arith,
}
use minic_os.Base.Int.{ℤ}
use minic_os.Base.Slots.{position-cases}
use minic_os.Base.Exec.{done}
use minic_os.Ipc.Object.{
  KernelObject, Handle, Objects, object_slots, handles_per_process, max_processes, object_is_free,
  handle_is_free, alloc_object, free_object, freed, alloc_handle, free_handle,
}

-- Every used handle names a slot of the object table.
abbrev pub NamesObject : Handle → Type 0
NamesObject h = h.used ≡ true → h.object_index < object_slots

pub record IsTable (hs : List Handle) : Type 0 where
  pub size : length hs ≡ handles_per_process
  pub names : (i : ℕ) (h : Handle) → get_elem? hs i ≡ some h → NamesObject h

pub record IsValid (t : Objects) : Type 0 where
  pub object_room : length t.objects ≡ object_slots
  pub table_room : length t.handle_tables ≡ max_processes
  pub tables : (p : ℕ) (hs : List Handle) → get_elem? t.handle_tables p ≡ some hs → IsTable hs

-- `alloc_object` keeps the shape of the tables: 32 objects, 8 tables of 8 handles, and every used
-- handle on one of the 32.
pub alloc_object-IsValid :
    (t : Objects) (kind : ℕ) (x : ℤ) → IsValid t → IsValid (alloc_object t kind x).1
unfolding alloc_object
alloc_object-IsValid t kind x v = elim (position-cases object_is_free t.objects) [
  | inl (e, m) ↦ rw (e, alloc_object) v
  | inr (i, o, e, f) ↦
      rw (e, alloc_object)
        (record {
          object_room = length-modify t.objects i _ ∙ v.object_room;
          table_room = v.table_room;
          tables = v.tables;
        })
]

grant : ℕ → ℕ → ℕ → List Handle → List Handle
grant o rights i hs = modify hs i (λ h. record { used = true; object_index = o; rights = rights })

grant-IsTable :
    (o rights i : ℕ) (hs : List Handle)
    → o < object_slots
    → IsTable hs
    → IsTable (grant o rights i hs)
unfolding grant
grant-IsTable o rights i hs ho v = record {
  size = length-modify hs i _ ∙ v.size;
  names = each_modify NamesObject hs i _ v.names (λ h e u. ho);
}

-- A state with one handle table changed for another of the right shape.
change_table-IsValid :
    (t : Objects) (p : ℕ) (f : List Handle → List Handle)
    → IsValid t
    → ((hs : List Handle) → IsTable hs → IsTable (f hs))
    → IsValid (record t { handle_tables = modify t.handle_tables p f })
change_table-IsValid t p f v keep = record {
  object_room = v.object_room;
  table_room = length-modify t.handle_tables p f ∙ v.table_room;
  tables = each_modify IsTable t.handle_tables p f v.tables (λ hs e. keep hs (v.tables p hs e));
}

-- `alloc_handle` stays inside the tables of a valid state and keeps the invariant, if the process
-- index and the object index are in range.
pub alloc_handle-IsValid :
    (t : Objects) (p o rights : ℕ)
    → IsValid t
    → p < max_processes
    → o < object_slots
    → (r : Option ℕ × Objects) × (alloc_handle t p o rights ≡ done r) × IsValid r.1
unfolding alloc_handle grant
alloc_handle-IsValid t p o rights v hp ho =
    go (get_elem?-some t.handle_tables p (omega (arith, v.table_room)))
  where
    go :
        (hs : List Handle) × (get_elem? t.handle_tables p ≡ some hs)
        → (r : Option ℕ × Objects) × (alloc_handle t p o rights ≡ done r) × IsValid r.1
    go (hs, e) = elim (position-cases handle_is_free hs) [
      | inl (miss, _) ↦ ((none, t), rw (e, miss, alloc_handle), v)
      | inr (i, h, found, _) ↦ (
        (some i, record t { handle_tables = modify t.handle_tables p (grant o rights i) }),
        rw (e, found, alloc_handle),
        change_table-IsValid t p (grant o rights i) v (λ hs. grant-IsTable o rights i hs ho),
      )
    ]

-- `free_object` does not fault at an index in range, and keeps the invariant.
pub free_object-IsValid :
    (t : Objects) (i : ℕ)
    → IsValid t
    → i < object_slots
    → (u : Objects) × (free_object t i ≡ done u) × IsValid u
unfolding free_object
free_object-IsValid t i v h = go (get_elem?-some t.objects i (omega (arith, v.object_room)))
  where
    go :
        (o : KernelObject) × (get_elem? t.objects i ≡ some o)
        → (u : Objects) × (free_object t i ≡ done u) × IsValid u
    go (o, e) = (
      freed t i,
      rw (e, free_object),
      record {
        object_room = length-modify t.objects i _ ∙ v.object_room;
        table_room = v.table_room;
        tables = v.tables;
      },
    )

drop_handle : ℕ → List Handle → List Handle
drop_handle i hs = modify hs i (λ h. record h { used = false })

drop_handle-IsTable : (i : ℕ) (hs : List Handle) → IsTable hs → IsTable (drop_handle i hs)
unfolding drop_handle
drop_handle-IsTable i hs v = record {
  size = length-modify hs i _ ∙ v.size;
  names = each_modify NamesObject hs i _ v.names (λ h e u. absurd (cc));
}

-- `free_handle` does not fault at indices in range, and keeps the invariant.
pub free_handle-IsValid :
    (t : Objects) (p i : ℕ)
    → IsValid t
    → p < max_processes
    → i < handles_per_process
    → (u : Objects) × (free_handle t p i ≡ done u) × IsValid u
unfolding free_handle drop_handle
free_handle-IsValid t p i v hp hi =
    go (get_elem?-some t.handle_tables p (omega (arith, v.table_room)))
  where
    inner :
        (hs : List Handle)
        → get_elem? t.handle_tables p ≡ some hs
        → (h : Handle) × (get_elem? hs i ≡ some h)
        → (u : Objects) × (free_handle t p i ≡ done u) × IsValid u
    inner hs e (h, e') = (
      record t { handle_tables = modify t.handle_tables p (drop_handle i) },
      rw (e, e', free_handle),
      change_table-IsValid t p (drop_handle i) v (drop_handle-IsTable i),
    )

    go :
        (hs : List Handle) × (get_elem? t.handle_tables p ≡ some hs)
        → (u : Objects) × (free_handle t p i ≡ done u) × IsValid u
    go (hs, e) = inner hs e (get_elem?-some hs i (omega (arith, (v.tables p hs e).size)))
