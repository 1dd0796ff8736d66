-- ===== src/Ipc/Sync/Exclusion.antt =====
-- Tasks that lock and unlock one mutex in any order of their steps.
use native.Mathlib.Decide.{ℕ_discrete}
use minic_os.Base.{
  ℕ, ◌≡◌, ◌≢◌, sym, ap, ◌∙◌, Bool, true, false, ◌==◌, if◌then◌else◌, Bool-cases, inl, inr, arith,
}
use minic_os.Base.Int.{pos, pos_part}
use minic_os.Ipc.Sync.{Mutex, mutex_try_lock, mutex_unlock}

-- A mutex, and the tasks between the return of `mutex_lock` and their `mutex_unlock`.
pub record Guarded : Type 0 where
  pub mutex : Mutex
  pub inside : ℕ → Bool

abbrev pub mark : (ℕ → Bool) → ℕ → Bool → ℕ → Bool
mark inside t now u = if u == t then now else inside u

-- The tasks keep to the protocol: only a task that is inside unlocks.
pub data Step (s : Guarded) : Guarded → Type 0 where
  enters :
      (t : ℕ) (m : Mutex)
      → mutex_try_lock s.mutex t ≡ (true, m)
      → Step s (record { mutex = m; inside = mark s.inside t true })
  retries :
      (t : ℕ) (m : Mutex) → mutex_try_lock s.mutex t ≡ (false, m) → Step s (record s { mutex = m })
  leaves :
      (t : ℕ)
      → s.inside t ≡ true
      → Step s (record { mutex = mutex_unlock s.mutex; inside = mark s.inside t false })

-- What can be reached from an unlocked mutex.
pub data Reachable : Guarded → Type 0 where
  start : (m : Mutex) → m.locked ≡ false → Reachable (record { mutex = m; inside = λ t. false })
  step : (s u : Guarded) → Reachable s → Step s u → Reachable u

-- A task inside owns the locked mutex.
pub OwnedInside : Guarded → Type 0
OwnedInside s = (t : ℕ) → s.inside t ≡ true → (s.mutex.locked ≡ true) × (s.mutex.owner_task ≡ pos t)

pos_injective : (m n : ℕ) → pos m ≡ pos n → m ≡ n
pos_injective m n e = ap pos_part e

try_lock_cases :
    (m n : Mutex) (t : ℕ) (b : Bool)
    → mutex_try_lock m t ≡ (b, n)
    → if b
      then ((m.locked ≡ false) × (n.locked ≡ true) × (n.owner_task ≡ pos t))
      else ((m.locked ≡ true) × (n ≡ m))
unfolding mutex_try_lock
try_lock_cases m n t b e = elim (Bool-cases m.locked) [
  | inl held ↦
      let both : (false, m) ≡ (b, n) = simp held at e in
      rw (← ap (λ (x : Bool × Mutex). x.0) both) (held, sym (ap (λ (x : Bool × Mutex). x.1) both))
  | inr free ↦
      let both : (true, record m { locked = true; owner_task = pos t }) ≡ (b, n) = simp free at e in
      rw (← ap (λ (x : Bool × Mutex). x.0) both) (
        free,
        ap (λ (x : Bool × Mutex). x.1.locked) (sym both),
        ap (λ (x : Bool × Mutex). x.1.owner_task) (sym both),
      )
]

Step-OwnedInside : (s u : Guarded) → OwnedInside s → Step s u → OwnedInside u
unfolding OwnedInside mutex_unlock
Step-OwnedInside s u v (enters t m run) w h = elim (ℕ_discrete w t) [
  | yes e ↦ let (free, held, owner) = try_lock_cases s.mutex m t true run in (held, rw e owner)
  | no ne ↦
      let (free, held, owner) = try_lock_cases s.mutex m t true run in
      let other : (w == t) ≡ false = ground arith in
      let (locked, _) = v w (rw other at h) in absurd (ground (arith, free, locked))
]
Step-OwnedInside s u v (retries t m run) w h =
    let (held, same) = try_lock_cases s.mutex m t false run in rw same (v w h)
Step-OwnedInside s u v (leaves t here) w h = elim (ℕ_discrete w t) [
  | yes e ↦ let self : (w == t) ≡ true = ground arith in absurd (ground (arith, rw self at h))
  | no ne ↦
      let other : (w == t) ≡ false = ground arith in
      let (_, mine) = v w (rw other at h) in
      let (_, theirs) = v t here in absurd (ne (pos_injective w t (sym mine ∙ theirs)))
]

Reachable-OwnedInside : (s : Guarded) → Reachable s → OwnedInside s
unfolding OwnedInside
Reachable-OwnedInside s (start m free) t h = absurd (cc)
Reachable-OwnedInside s (step r u before move) t h =
    Step-OwnedInside r u (Reachable-OwnedInside r before) move t h

-- Where every task keeps to the protocol, that is, unlocks the mutex only while it is inside: whatever
-- the order of the steps from an unlocked mutex, while one task is inside, no other is.
pub mutex_lock-exclusive :
    (s : Guarded) (t u : ℕ) → Reachable s → s.inside t ≡ true → u ≢ t → s.inside u ≡ false
unfolding OwnedInside
mutex_lock-exclusive s t u r here ne = elim (Bool-cases (s.inside u)) [
  | inr out ↦ out
  | inl both ↦
      let (_, mine) = Reachable-OwnedInside s r t here in
      let (_, theirs) = Reachable-OwnedInside s r u both in
      absurd (ne (pos_injective u t (sym theirs ∙ mine)))
]
