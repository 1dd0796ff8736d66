-- ===== src/Services.antt =====
-- kernel/services/service_manager.c: the table of services, and the task that starts them again.
-- A name is the list of its characters up to the terminating 0. The process table, which
-- kernel/proc/process.c keeps, and the random load address of kernel/lib/rand.c are a parameter.
pub mod Table
pub mod Worker
pub mod Stopped
use minic_os.Base.{
  ℕ, zero, suc, ◌+◌, ◌*◌, ◌-◌, ◌%◌, ◌^◌, Bool, true, false, ◌&&◌, List, [], ◌∷◌, Option, none, some,
  if◌then◌else◌, get_elem?, modify, take, replicate,
}
use minic_os.Base.Int.{ℤ, pos, negsuc, index_below}
use minic_os.Base.Exec.{Exec, done, fault, ◌>>=◌, at_index}
use minic_os.Base.Slots.{position}
use minic_os.Strings.{streq}

abbrev pub service_slots : ℕ
service_slots = 8

abbrev pub service_load_base : ℕ
service_load_base = 0x80000000

pub record ServiceEntry : Type 0 where
  pub used : Bool
  pub name : List ℕ
  pub image_start : ℕ
  pub image_end : ℕ
  pub auto_restart : Bool
  pub running : Bool
  pub process_index : ℤ
  pub restart_count : ℕ

-- What the manager uses of the processes: their `used` flags, and starting one.
pub record ProcessTable : Type 1 where
  pub State : Type 0
  pub processes_used : State → List Bool
  pub randomize_load_vaddr : ℕ → State → ℕ × State
  pub spawn_process : ℕ → ℕ → ℕ → ℕ → Bool → State → ℤ × State

-- `g_services`
abbrev pub Services : Type 0
Services = List ServiceEntry

abbrev pub copy_bounded : List ℕ → ℕ → List ℕ
copy_bounded src cap = take (cap - 1) src

-- The test of the loop of `find_service`.
abbrev pub is_service : List ℕ → ServiceEntry → Bool
is_service name e = e.used && streq e.name name

unfoldable pub find_service : List ℕ → Services → Option ℕ
unfolding position streq
find_service name s = position (is_service name) s

-- The entry that `service_register` fills in.
abbrev pub registered : List ℕ → ℕ → ℕ → Bool → ServiceEntry → ServiceEntry
registered name image_start image_end auto_restart e = record e {
  name = copy_bounded name 32;
  image_start = image_start;
  image_end = image_end;
  auto_restart = auto_restart;
  running = false;
  process_index = negsuc 0;
  restart_count = 0;
  used = true;
}

unfoldable pub service_register : List ℕ → ℕ → ℕ → Bool → Services → ℤ × Services
unfolding find_service position
service_register name image_start image_end auto_restart s = elim (find_service name s) [
  | some existing ↦ (pos existing, s)
  | none ↦ elim (position (λ e. if e.used then false else true) s) [
    | some i ↦ (pos i, modify s i (registered name image_start image_end auto_restart))
    | none ↦ (negsuc 0, s)
  ]
]

-- `g_services[slot]` where the search has found a slot.
abbrev pub entry_of : Services → Option ℕ → Option ServiceEntry
entry_of s none = none
entry_of s (some slot) = get_elem? s slot

-- `g_processes[index].used`
abbrev pub used_flag : List Bool → ℤ → Exec Bool
used_flag flags (pos i) = at_index (get_elem? flags i)
used_flag flags (negsuc i) = fault

-- `a && b`, where `b` is evaluated only if `a` holds.
abbrev pub and_then : Bool → Exec Bool → Exec Bool
and_then true b = b
and_then false b = done false

module _ (env : ProcessTable) where
  open env use {State, processes_used, randomize_load_vaddr, spawn_process}

  -- A process for the image of a service, at a random address.
  unfoldable pub spawn_service : ServiceEntry → State → ℤ × State
  spawn_service e st =
      let (load_vaddr, st') = randomize_load_vaddr service_load_base st in
      spawn_process e.image_start e.image_end load_vaddr ((load_vaddr + 0x20000) % 2 ^ 64) false st'

  -- What `service_start` does with its process index.
  abbrev pub started : ℕ → ℤ × State → Services → Bool × Services × State
  started slot (negsuc n, st) s = (false, s, st)
  started slot (pos proc_index, st) s =
      (true, modify s slot (λ e. record e { process_index = pos proc_index; running = true }), st)

  -- `service_start` for the entry at `slot`.
  abbrev pub start_entry : ℕ → ServiceEntry → Services → State → Bool × Services × State
  start_entry slot e s st = if e.running then (true, s, st) else started slot (spawn_service e st) s

  unfoldable pub service_start : List ℕ → Services → State → Bool × Services × State
  unfolding find_service spawn_service
  service_start name s st = elim (find_service name s) [
    | none ↦ (false, s, st)
    | some slot ↦ elim (get_elem? s slot) [
      | none ↦ (false, s, st)
      | some e ↦ start_entry slot e s st
    ]
  ]

  unfoldable pub service_restart : List ℕ → Services → State → Bool × Services × State
  unfolding find_service service_start
  service_restart name s st = elim (find_service name s) [
    | none ↦ (false, s, st)
    | some slot ↦ service_start name (modify s slot (λ e. record e { auto_restart = true })) st
  ]

  -- What `service_get_status` stores: whether the service runs, how often it was restarted, and its
  -- process.
  abbrev pub status : ServiceEntry → State → Exec (Bool × ℕ × ℤ)
  status e st = do
    actually_alive ← and_then e.running (used_flag (processes_used st) e.process_index)
    done (actually_alive, e.restart_count, if actually_alive then e.process_index else negsuc 0)

  -- `none` is the answer false.
  unfoldable pub service_get_status : List ℕ → Services → State → Option (Exec (Bool × ℕ × ℤ))
  unfolding find_service
  service_get_status name s st = elim (entry_of s (find_service name s)) [
    | none ↦ none
    | some e ↦ some (status e st)
  ]

  -- The bits are distinct, so `|` is a sum.
  abbrev pub flags_of : Bool → Bool → ℕ
  flags_of actually_alive auto_restart =
      1 + (if actually_alive then 2 else 0) + (if auto_restart then 4 else 0)

  -- What `service_list_entry` stores: the name, the flags and the restarts.
  abbrev pub listed : ServiceEntry → State → Exec (List ℕ × ℕ × ℕ)
  listed e st = do
    actually_alive ← and_then e.running (used_flag (processes_used st) e.process_index)
    done (copy_bounded e.name 32, flags_of actually_alive e.auto_restart, e.restart_count)

  unfoldable pub service_list_entry : ℤ → Services → State → Option (Exec (List ℕ × ℕ × ℕ))
  service_list_entry index s st = elim (index_below service_slots index) [
    | none ↦ none
    | some i ↦ elim (get_elem? s i) [
      | none ↦ none
      | some e ↦ if e.used then some (listed e st) else none
    ]
  ]

  -- What the worker does with the process index of a service that it started again.
  abbrev pub respawned : ServiceEntry → ℤ × State → ServiceEntry × State
  respawned e (pos proc_index, st) = (
    record e { process_index = pos proc_index; restart_count = (e.restart_count + 1) % 2 ^ 32 },
    st,
  )
  respawned e (negsuc n, st) = (record e { running = false }, st)

  -- What the worker does with a service that it looks after.
  abbrev pub unless_alive : Bool → ServiceEntry → State → ServiceEntry × State
  unless_alive true e st = (e, st)
  unless_alive false e st = respawned e (spawn_service e st)

  -- A round of the inner loop of `service_manager_worker_entry`, for the entry `e`.
  unfoldable pub worker_round : ServiceEntry → State → Exec (ServiceEntry × State)
  unfolding spawn_service
  worker_round e st =
      let check : Exec (ServiceEntry × State) =
        used_flag (processes_used st) e.process_index >>= λ alive. done (unless_alive alive e st) in
      if e.used && e.running && e.auto_restart then check else done (e, st)

  -- The inner loop: a pass over the table between two calls of `yield`.
  unfoldable pub worker_pass : Services → State → Exec (Services × State)
  unfolding worker_round
  worker_pass [] st = done ([], st)
  worker_pass (e ∷ s) st = do
    round ← worker_round e st
    rest ← worker_pass s round.1
    done (round.0 ∷ rest.0, rest.1)

unfoldable pub service_stop : List ℕ → Services → Bool × Services
unfolding find_service
service_stop name s = elim (find_service name s) [
  | none ↦ (false, s)
  | some slot ↦ (true, modify s slot (λ e. record e { auto_restart = false }))
]
