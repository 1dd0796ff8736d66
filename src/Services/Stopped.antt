-- ===== src/Services/Stopped.antt =====
-- Services that were stopped, over any number of passes of the worker.
use minic_os.Base.{
  ℕ, ◌≡◌, refl, sym, ap, ◌∙◌, true, false, List, some, get_elem?, get_elem?-modify_self, arith,
}
use minic_os.Base.Exec.{done, done-injective}
use minic_os.Base.Position.{position-modify_same}
use minic_os.Services.{
  ServiceEntry, ProcessTable, Services, is_service, find_service, service_start, service_stop,
  worker_pass,
}
use minic_os.Services.Table.{ProcessLaws, IsValid, modify-IsValid}
use minic_os.Services.Worker.{
  Round, Rounds, left_alone, alive, restarted, gave_up, no_entry, one_entry, Rounds-at,
  worker_pass_lem,
}

-- Passes of the worker; between two of them the processes change in any way.
pub data Later (env : ProcessTable) (s : Services) : Services → Type 0 where
  now : Later env s s
  pass :
      {t u : Services} (st st' : env.State)
      → Later env s t
      → worker_pass env t st ≡ done (u, st')
      → Later env s u

Round-is_service :
    {env : ProcessTable} {count : ℕ} {e e' : ServiceEntry} {st st' : env.State} (name : List ℕ)
    → Round env count e st e' st'
    → is_service name e' ≡ is_service name e
Round-is_service name (left_alone off) = refl
Round-is_service name (alive sup flag) = refl
Round-is_service name (restarted i st' sup flag run lt) = refl
Round-is_service name (gave_up n st' sup flag run) = refl

Rounds-find_service :
    {env : ProcessTable} {count : ℕ} {s s' : Services} {st st' : env.State} (name : List ℕ)
    → Rounds env count s st s' st'
    → find_service name s' ≡ find_service name s
unfolding find_service
Rounds-find_service name no_entry = refl
Rounds-find_service name (one_entry h r) =
    rw (Round-is_service name h, Rounds-find_service name r) refl

-- What stays of a stopped service.
record Kept (count : ℕ) (name : List ℕ) (slot : ℕ) (e : ServiceEntry) (s : Services) : Type 0 where
  valid : IsValid count s
  found : find_service name s ≡ some slot
  entry : get_elem? s slot ≡ some e

module _ (env : ProcessTable) (count : ℕ) (laws : ProcessLaws env count) where
  Later-Kept :
      (name : List ℕ) (slot : ℕ) (e : ServiceEntry) {s t : Services}
      → e.auto_restart ≡ false
      → Kept count name slot e s
      → Later env s t
      → Kept count name slot e t
  Later-Kept name slot e off k now = k
  Later-Kept name slot e {s} {t} off k (pass st st' l run) =
      let k' = Later-Kept name slot e off k l in
      let (u, st'', run', v, r) = worker_pass_lem env count laws _ st k'.valid in
      let same : u ≡ t = ap (λ (x : Services × env.State). x.0) (done-injective (sym run' ∙ run)) in
      rw (← same) (record {
        valid = v;
        found = Rounds-find_service name r ∙ k'.found;
        entry = Rounds-at slot e r k'.entry (ground arith);
      })

  stop-Kept :
      (name : List ℕ) (slot : ℕ) (e : ServiceEntry) (s : Services)
      → IsValid count s
      → find_service name s ≡ some slot
      → get_elem? s slot ≡ some e
      → Kept count name slot (record e { auto_restart = false }) (service_stop name s).1
  unfolding find_service service_stop
  stop-Kept name slot e s v found at =
      rw (found, service_stop)
        (record {
          valid =
              modify-IsValid count s slot off v (λ a h.
                let w = v.entries slot a h in record { text = w.text; process = w.process });
          found = position-modify_same (is_service name) s slot off e at refl ∙ found;
          entry = get_elem?-modify_self s slot off e at;
        })
    where
      off : ServiceEntry → ServiceEntry
      off a = record a { auto_restart = false }

  -- In a valid table, if the process table has its size and new processes are in it, a service that
  -- was stopped keeps its entry, without automatic restart, over every number of passes of the worker,
  -- whatever becomes of the processes.
  pub worker_pass-service_stop :
      (name : List ℕ) (slot : ℕ) (e : ServiceEntry) (s t : Services)
      → IsValid count s
      → find_service name s ≡ some slot
      → get_elem? s slot ≡ some e
      → Later env (service_stop name s).1 t
      → get_elem? t slot ≡ some (record e { auto_restart = false })
  worker_pass-service_stop name slot e s t v found at l =
      (Later-Kept name slot (record e { auto_restart = false }) refl
        (stop-Kept name slot e s v found at) l).entry

  -- In a valid table, if the process table has its size and new processes are in it, a service that
  -- was stopped while its entry said that it runs is not started by service_start: after every number of
  -- passes of the worker the answer is true and nothing is changed, whatever became of its process.
  pub service_start-service_stop :
      (name : List ℕ) (slot : ℕ) (e : ServiceEntry) (s t : Services) (st : env.State)
      → IsValid count s
      → find_service name s ≡ some slot
      → get_elem? s slot ≡ some e
      → e.running ≡ true
      → Later env (service_stop name s).1 t
      → service_start env name t st ≡ (true, t, st)
  unfolding service_start
  service_start-service_stop name slot e s t st v found at runs l =
      let k =
        Later-Kept name slot (record e { auto_restart = false }) refl
          (stop-Kept name slot e s v found at) l in
      rw (service_start, k.found, k.entry, runs) refl
