-- ===== src/Tests/Sync.antt =====
-- A mutex that task 3 has locked, and that task 4 has tried to lock.
use minic_os.Base.{◌≡◌, refl, true, false, arith}
use minic_os.Base.Int.{pos, negsuc}
use minic_os.Ipc.Sync.{Mutex, mutex_try_lock}
use minic_os.Ipc.Sync.Exclusion.{
  Guarded, mark, Reachable, start, step, enters, retries, mutex_lock-exclusive,
}

abbrev unlocked : Mutex
unlocked = record { used = true; locked = false; owner_task = negsuc 0 }

abbrev locked_by_3 : Mutex
locked_by_3 = record { used = true; locked = true; owner_task = pos 3 }

abbrev before : Guarded
before = record { mutex = unlocked; inside = λ t. false }

abbrev after : Guarded
after = record { mutex = locked_by_3; inside = mark (λ t. false) 3 true }

after-Reachable : Reachable after
unfolding mutex_try_lock
after-Reachable =
    step after after (step before after (start unlocked refl) (enters 3 locked_by_3 refl))
      (retries 4 locked_by_3 refl)

mutex_lock-exclusive_example : after.inside 4 ≡ false
mutex_lock-exclusive_example =
    mutex_lock-exclusive after 3 4 after-Reachable refl (λ e. omega arith)
