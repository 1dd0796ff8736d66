-- ===== src/Ipc/Object.antt =====
-- proc/ipc/object/object.c: the kernel object table and the per-process handle tables.
-- Each function of the source runs with interrupts off from its first to its last access of the
-- tables, so it is one step here. An `int` that is returned as -1 on failure is an `Option`.
pub mod Inv
pub mod Count
pub mod Grant
pub mod Run
use minic_os.Base.{
  ℕ, suc, ◌≡◌, Bool, true, false, not, Option, none, some, List, ◌∷◌, [], get_elem?, modify,
}
use minic_os.Base.Int.{ℤ, pos, ◌+ℤ◌, ◌-ℤ◌}
use minic_os.Base.Slots.{position}
use minic_os.Base.Exec.{Exec, done, fault, ◌>>=◌, at_index}

-- `kernel_object`; `kind` is the field `type`.
pub record KernelObject : Type 0 where
  pub used : Bool
  pub kind : ℕ
  pub data_index : ℤ

-- `handle`
pub record Handle : Type 0 where
  pub used : Bool
  pub object_index : ℕ
  pub rights : ℕ

-- `g_objects`, `g_object_count` and `g_handle_tables`
pub record Objects : Type 0 where
  pub objects : List KernelObject
  pub object_count : ℤ
  pub handle_tables : List (List Handle)

abbrev pub object_slots : ℕ
object_slots = 32

abbrev pub handles_per_process : ℕ
handles_per_process = 8

abbrev pub max_processes : ℕ
max_processes = 8

-- The tests `!g_objects[i].used` and `!g_handle_tables[p][i].used` of the searches.
abbrev pub object_is_free : KernelObject → Bool
object_is_free o = not o.used

abbrev pub handle_is_free : Handle → Bool
handle_is_free h = not h.used

-- The three writes to a slot by `alloc_object`.
abbrev pub filled : ℕ → ℤ → KernelObject → KernelObject
filled kind data_index o = record o { used = true; kind = kind; data_index = data_index }

-- The two writes of `free_object`.
abbrev pub freed : Objects → ℕ → Objects
freed t i = record t {
  objects = modify t.objects i (λ o. record o { used = false });
  object_count = t.object_count -ℤ pos 1;
}

unfoldable pub alloc_object : Objects → ℕ → ℤ → Option ℕ × Objects
alloc_object t kind data_index = elim (position object_is_free t.objects) [
  | none ↦ (none, t)
  | some i ↦ (
    some i,
    record t {
      objects = modify t.objects i (filled kind data_index);
      object_count = t.object_count +ℤ pos 1;
    },
  )
]

unfoldable pub free_object : Objects → ℕ → Exec Objects
free_object t i = do o ← at_index (get_elem? t.objects i); done (freed t i)

unfoldable pub alloc_handle : Objects → ℕ → ℕ → ℕ → Exec (Option ℕ × Objects)
alloc_handle t process_index object_index rights = do
  table ← at_index (get_elem? t.handle_tables process_index)
  done (elim (position handle_is_free table) [
    | none ↦ (none, t)
    | some i ↦ (
      some i,
      record t {
        handle_tables = modify t.handle_tables process_index (λ hs.
            modify hs i
              (λ h. record { used = true; object_index = object_index; rights = rights }));
      },
    )
  ])

unfoldable pub free_handle : Objects → ℕ → ℕ → Exec Objects
free_handle t process_index handle_index = do
  table ← at_index (get_elem? t.handle_tables process_index)
  h ← at_index (get_elem? table handle_index)
  done (record t {
    handle_tables =
        modify t.handle_tables process_index
          (λ hs. modify hs handle_index (λ h. record h { used = false }));
  })

-- `&g_handle_tables[p][h]`
unfoldable pub handle_at : Objects → ℕ → ℕ → Exec Handle
handle_at t process_index handle_index = do
  table ← at_index (get_elem? t.handle_tables process_index)
  at_index (get_elem? table handle_index)

-- `&g_objects[i]`
unfoldable pub object_at : Objects → ℕ → Exec KernelObject
object_at t i = at_index (get_elem? t.objects i)
