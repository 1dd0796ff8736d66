-- ===== src/Tests/Services.antt =====
-- A table with one service.
use minic_os.Base.{
  ℕ, zero, suc, ◌≡◌, refl, Bool, true, false, List, [], ◌∷◌, some, get_elem?, replicate, arith,
}
use minic_os.Base.Int.{pos}
use minic_os.Base.Exec.{done}
use minic_os.Strings.Compare.{IsText}
use minic_os.Services.{
  ServiceEntry, ProcessTable, Services, service_start, service_stop, find_service, worker_pass,
}
use minic_os.Services.Table.{ProcessLaws, IsEntry, IsValid}
use minic_os.Services.Worker.{Rounds, worker_pass_lem}
use minic_os.Services.Stopped.{
  Later, now, pass, worker_pass-service_stop, service_start-service_stop,
}
use minic_os.Tests.Fixtures.{same_entry}

-- Eight processes, of which only the first is ever used.
abbrev one_process : ProcessTable
one_process = record {
  State = Bool;
  processes_used = λ first. first ∷ replicate 7 false;
  randomize_load_vaddr = λ base st. (base, st);
  spawn_process = λ start end vaddr stack suspended st. (pos 0, true);
}

one_process-Laws : ProcessLaws one_process 8
one_process-Laws = record {
  size = λ st. refl;
  spawned =
      λ start end vaddr stack suspended st i e. let same : 0 ≡ i = ground arith in omega arith;
}

abbrev no_service : ServiceEntry
no_service = record {
  used = false;
  name = [];
  image_start = 0;
  image_end = 0;
  auto_restart = false;
  running = false;
  process_index = pos 0;
  restart_count = 0;
}

abbrev ls : List ℕ
ls = 108 ∷ 115 ∷ []

ls-IsText : IsText ls
ls-IsText zero c at = λ e. absurd (ground arith)
ls-IsText (suc zero) c at = λ e. absurd (ground arith)
ls-IsText (suc (suc i)) c at = absurd (cc)

abbrev started : ServiceEntry
started = record {
  used = true;
  name = ls;
  image_start = 4096;
  image_end = 8192;
  auto_restart = true;
  running = true;
  process_index = pos 0;
  restart_count = 0;
}

abbrev table : Services
table = started ∷ replicate 7 no_service

no_service-IsEntry : IsEntry 8 no_service
no_service-IsEntry = record { text = λ i c at. absurd (cc); process = λ h. absurd (cc) }

table-entries : (i : ℕ) (e : ServiceEntry) → get_elem? table i ≡ some e → IsEntry 8 e
table-entries zero e at =
    let same : started ≡ e = same_entry 1 started e 0 at in
    rw (← same) (record { text = ls-IsText; process = λ h. omega arith })
table-entries (suc i) e at = rw (← same_entry 7 no_service e i at) no_service-IsEntry

table-IsValid : IsValid 8 table
table-IsValid = record { slots = refl; entries = table-entries }

worker_pass_lem_example :
    (s' : Services) × (st' : Bool) × (worker_pass one_process table false ≡ done (s', st'))
    × IsValid 8 s'
    × Rounds one_process 8 table false s' st'
worker_pass_lem_example = worker_pass_lem one_process 8 one_process-Laws table false table-IsValid

-- What `service_stop` leaves.
abbrev stopped : Services
stopped = record started { auto_restart = false } ∷ replicate 7 no_service

-- The process has exited, and the worker has passed.
after_pass : Later one_process (service_stop ls table).1 stopped
unfolding worker_pass service_stop
after_pass = pass false false now refl

worker_pass-service_stop_example :
    get_elem? stopped 0 ≡ some (record started { auto_restart = false })
unfolding find_service
worker_pass-service_stop_example =
    worker_pass-service_stop one_process 8 one_process-Laws ls 0 started table stopped table-IsValid
      refl refl after_pass

service_start-service_stop_example :
    service_start one_process ls stopped false ≡ (true, stopped, false)
unfolding find_service
service_start-service_stop_example =
    service_start-service_stop one_process 8 one_process-Laws ls 0 started table stopped false
      table-IsValid refl refl refl after_pass
