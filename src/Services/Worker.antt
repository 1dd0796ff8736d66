-- ===== src/Services/Worker.antt =====
-- A pass of the worker over the table.
use minic_os.Base.{
  ℕ, zero, suc, ◌+◌, ◌%◌, ◌^◌, ◌<◌, ◌≡◌, refl, ap, ◌∙◌, Bool, true, false, ◌&&◌, [], ◌∷◌, some,
  length, get_elem?, get_elem?-some, Bool-cases, inl, inr, arith,
}
use mathlib.Core.Option.{some-injective}
use minic_os.Base.Int.{ℤ, pos, negsuc}
use minic_os.Base.Exec.{done, at_index}
use minic_os.Services.{
  ServiceEntry, ProcessTable, Services, used_flag, spawn_service, respawned, unless_alive,
  worker_round, worker_pass,
}
use minic_os.Services.Table.{ProcessLaws, IsIndex, IsEntry, IsValid}

-- The worker looks after this service.
abbrev pub supervised : ServiceEntry → Bool
supervised e = e.used && e.running && e.auto_restart

-- What the worker does with the entry `e` when it finds the processes in the state `st`.
pub data Round (env : ProcessTable) (count : ℕ) (e : ServiceEntry) (st : env.State)
    : ServiceEntry → env.State → Type 0 where
  left_alone : supervised e ≡ false → Round env count e st e st
  alive :
      supervised e ≡ true
      → used_flag (env.processes_used st) e.process_index ≡ done true
      → Round env count e st e st
  restarted :
      (i : ℕ) (st' : env.State)
      → supervised e ≡ true
      → used_flag (env.processes_used st) e.process_index ≡ done false
      → spawn_service env e st ≡ (pos i, st')
      → i < count
      → Round env count e st
          (record e { process_index = pos i; restart_count = (e.restart_count + 1) % 2 ^ 32 })
          st'
  gave_up :
      (n : ℕ) (st' : env.State)
      → supervised e ≡ true
      → used_flag (env.processes_used st) e.process_index ≡ done false
      → spawn_service env e st ≡ (negsuc n, st')
      → Round env count e st (record e { running = false }) st'

-- The entries in turn, each with the processes as the one before has left them.
pub data Rounds (env : ProcessTable) (count : ℕ)
    : Services → env.State → Services → env.State → Type 0 where
  no_entry : {st : env.State} → Rounds env count [] st [] st
  one_entry :
      {e e' : ServiceEntry} {s s' : Services} {st st1 st' : env.State}
      → Round env count e st e' st1
      → Rounds env count s st1 s' st'
      → Rounds env count (e ∷ s) st (e' ∷ s') st'

-- A service that the worker does not look after is kept as it is.
pub Round-kept :
    {env : ProcessTable} {count : ℕ} {e e' : ServiceEntry} {st st' : env.State}
    → Round env count e st e' st'
    → supervised e ≡ false
    → e' ≡ e
Round-kept (left_alone off) h = refl
Round-kept (alive sup flag) h = refl
Round-kept (restarted i st' sup flag run lt) h = absurd (ground arith)
Round-kept (gave_up n st' sup flag run) h = absurd (ground arith)

pub Rounds-at :
    {env : ProcessTable} {count : ℕ} {s s' : Services} {st st' : env.State} (i : ℕ)
    (e : ServiceEntry)
    → Rounds env count s st s' st'
    → get_elem? s i ≡ some e
    → supervised e ≡ false
    → get_elem? s' i ≡ some e
Rounds-at i e no_entry at off = at
Rounds-at zero e (one_entry h r) at off =
    let same = some-injective _ _ at in ap some (Round-kept h (rw same off) ∙ same)
Rounds-at (suc i) e (one_entry h r) at off = Rounds-at i e r at off

Round-IsEntry :
    {env : ProcessTable} {count : ℕ} {e e' : ServiceEntry} {st st' : env.State}
    → Round env count e st e' st'
    → IsEntry count e
    → IsEntry count e'
Round-IsEntry (left_alone off) v = v
Round-IsEntry (alive sup flag) v = v
Round-IsEntry (restarted i st' sup flag run lt) v = record { text = v.text; process = λ h. lt }
Round-IsEntry (gave_up n st' sup flag run) v = record { text = v.text; process = λ h. absurd (cc) }

Rounds-length :
    {env : ProcessTable} {count : ℕ} {s s' : Services} {st st' : env.State}
    → Rounds env count s st s' st'
    → length s' ≡ length s
Rounds-length no_entry = refl
Rounds-length (one_entry h r) = ap suc (Rounds-length r)

abbrev Entries : ℕ → Services → Type 0
Entries count s = (i : ℕ) (e : ServiceEntry) → get_elem? s i ≡ some e → IsEntry count e

Rounds-Entries :
    {env : ProcessTable} {count : ℕ} {s s' : Services} {st st' : env.State}
    → Rounds env count s st s' st'
    → Entries count s
    → Entries count s'
Rounds-Entries no_entry v i e at = v i e at
Rounds-Entries (one_entry {e = x} h r) v zero e at =
    rw (← some-injective _ _ at) (Round-IsEntry h (v 0 x refl))
Rounds-Entries (one_entry h r) v (suc i) e at = Rounds-Entries r (λ j. v (suc j)) i e at

module _ (env : ProcessTable) (count : ℕ) (laws : ProcessLaws env count) where
  spawn_index :
      (e : ServiceEntry) (st : env.State) (i : ℕ) → (spawn_service env e st).0 ≡ pos i → i < count
  unfolding spawn_service
  spawn_index e st i h = laws.spawned _ _ _ _ _ _ i h

  spawned-Round :
      (e : ServiceEntry) (st : env.State) (r : ℤ × env.State)
      → spawn_service env e st ≡ r
      → supervised e ≡ true
      → used_flag (env.processes_used st) e.process_index ≡ done false
      → Round env count e st (respawned env e r).0 (respawned env e r).1
  spawned-Round e st (pos i, st') run sup flag =
      restarted i st' sup flag run (spawn_index e st i (ap (λ (x : ℤ × env.State). x.0) run))
  spawned-Round e st (negsuc n, st') run sup flag = gave_up n st' sup flag run

  unless_alive-Round :
      (b : Bool) (e : ServiceEntry) (st : env.State)
      → supervised e ≡ true
      → used_flag (env.processes_used st) e.process_index ≡ done b
      → Round env count e st (unless_alive env b e st).0 (unless_alive env b e st).1
  unless_alive-Round true e st sup flag = alive sup flag
  unless_alive-Round false e st sup flag = spawned-Round e st (spawn_service env e st) refl sup flag

  flag_at :
      (z : ℤ) (st : env.State)
      → IsIndex count z
      → (b : Bool) × (used_flag (env.processes_used st) z ≡ done b)
  flag_at (pos i) st lt =
      let (b, at) = get_elem?-some (env.processes_used st) i (omega (arith, laws.size st)) in
      (b, ap at_index at)
  flag_at (negsuc n) st h = absurd h

  worker_round_lem :
      (e : ServiceEntry) (st : env.State)
      → IsEntry count e
      → (e' : ServiceEntry) × (st' : env.State) × (worker_round env e st ≡ done (e', st'))
        × Round env count e st e' st'
  unfolding worker_round
  worker_round_lem e st v = elim (Bool-cases (supervised e)) [
    | inr off ↦ (e, st, rw off refl, left_alone off)
    | inl on ↦
        let (b, flag) = flag_at e.process_index st (v.process (ground arith)) in
        let r = unless_alive env b e st in
        (r.0, r.1, rw (on, flag) refl, unless_alive-Round b e st on flag)
  ]

  passes :
      (s : Services) (st : env.State)
      → Entries count s
      → (s' : Services) × (st' : env.State) × (worker_pass env s st ≡ done (s', st'))
        × Rounds env count s st s' st'
  unfolding worker_pass
  passes [] st v = ([], st, refl, no_entry)
  passes (e ∷ s) st v =
      let (e', st', run, r) = worker_round_lem e st (v 0 e refl) in
      let (s', st'', rest, rs) = passes s st' (λ i. v (suc i)) in
      (e' ∷ s', st'', rw (run, rest) refl, one_entry r rs)

  -- If the process table has its size and a new process is in it, a pass over a valid table reads no
  -- process outside the process table and leaves a valid table. It goes over the entries in turn, each
  -- with the processes as the one before has left them: an entry that the worker does not look after,
  -- or whose process is alive, is kept and starts no process; for one whose process is not alive a
  -- process is started, and it gets that process and one more restart, or no process could be had and
  -- it no longer runs.
  pub worker_pass_lem :
      (s : Services) (st : env.State)
      → IsValid count s
      → (s' : Services) × (st' : env.State) × (worker_pass env s st ≡ done (s', st'))
        × IsValid count s'
        × Rounds env count s st s' st'
  worker_pass_lem s st v =
      let (s', st', run, r) = passes s st v.entries in
      (
        s',
        st',
        run,
        record { slots = Rounds-length r ∙ v.slots; entries = Rounds-Entries r v.entries },
        r,
      )
