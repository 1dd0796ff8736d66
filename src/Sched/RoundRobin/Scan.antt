-- ===== src/Sched/RoundRobin/Scan.antt =====
-- Where the scan of `yield` stops.
use minic_os.Base.{
  ℕ, zero, suc, ◌+◌, ◌%◌, ◌≤◌, ◌<◌, ◌≡◌, refl, sym, ap, ◌∙◌, subst, inl, inr, Bool, true, false,
  some, List, length, get_elem?, modify, get_elem?-some, modify_same, arith, Bool-cases,
}
use mathlib.Core.Option.{some-injective}
use native.Mathlib.Nat.{mod-lt, mod-eq_of_lt, mod-add-mod}
use minic_os.Base.Exec.{done}
use minic_os.Sched.Yield.{Flag, Task, wakes, poll, scan}
use minic_os.Sched.RoundRobin.{ready, NoneReady}

-- One round further on.
step_on : (c next k : ℕ) → 0 < c → ((next + 1) % c + suc k) % c ≡ (next + suc (suc k)) % c
step_on c next k h = rw mod-add-mod (ap (λ x. x % c) (omega arith))

module _ (flags : Flag → Bool) (tick_count : ℕ) where
  pub data Scanned (c next left : ℕ) (ts : List Task) : List Task × ℕ → Type 0 where
    idle :
        (n : ℕ)
        → NoneReady flags tick_count ts c next left
        → n ≡ (next + left) % c
        → Scanned c next left ts (ts, n)
    stops :
        (d n : ℕ) (t : Task)
        → d < left
        → n ≡ (next + suc d) % c
        → get_elem? ts n ≡ some t
        → ready flags tick_count t ≡ true
        → NoneReady flags tick_count ts c next d
        → Scanned c next left ts (modify ts n (poll flags tick_count), n)

  NoneReady-on :
      (ts : List Task) (c next n : ℕ) (t : Task)
      → 0 < c
      → get_elem? ts ((next + 1) % c) ≡ some t
      → ready flags tick_count t ≡ false
      → NoneReady flags tick_count ts c ((next + 1) % c) n
      → NoneReady flags tick_count ts c next (suc n)
  NoneReady-on ts c next n t h e r rest zero lt u f =
      let same : t ≡ u = some-injective _ _ (sym e ∙ f) in
      subst (λ x. ready flags tick_count x ≡ false) same r
  NoneReady-on ts c next n t h e r rest (suc k) lt u f =
      rest k (omega arith) u (rw (step_on c next k h) f)

  Scanned-on :
      (c next left : ℕ) (ts : List Task) (t : Task) (r : List Task × ℕ)
      → 0 < c
      → get_elem? ts ((next + 1) % c) ≡ some t
      → ready flags tick_count t ≡ false
      → Scanned c ((next + 1) % c) left ts r
      → Scanned c next (suc left) ts r
  Scanned-on c next left ts t r h e nr (idle n all at) =
      idle n (NoneReady-on ts c next left t h e nr all)
        (at ∙ mod-add-mod _ c left ∙ ap (λ x. x % c) (omega arith))
  Scanned-on c next left ts t r h e nr (stops d n u lt at f can all) =
      stops (suc d) n u (omega arith) (at ∙ step_on c next d h) f can
        (NoneReady-on ts c next d t h e nr all)

  -- A used task that stays blocked is left as it is.
  poll_not_ready :
      (t : Task)
      → t.used ≡ true
      → (poll flags tick_count t).blocked ≡ true
      → (poll flags tick_count t ≡ t) × (ready flags tick_count t ≡ false)
  unfolding poll
  poll_not_ready t u b = elim (Bool-cases t.blocked) [
    | inr free ↦ absurd (ground arith)
    | inl held ↦ elim (Bool-cases (wakes flags tick_count t)) [
      | inl w ↦ absurd (ground arith)
      | inr w ↦ simp (held, w) (refl, ground arith)
    ]
  ]

  poll-ready :
      (t : Task)
      → t.used ≡ true
      → (poll flags tick_count t).blocked ≡ false
      → ready flags tick_count t ≡ true
  unfolding poll
  poll-ready t u b = ground arith

  unused_not_ready : (t : Task) → t.used ≡ false → ready flags tick_count t ≡ false
  unused_not_ready t u = ground arith

  pub scan-Scanned :
      (c left next : ℕ) (ts : List Task)
      → 0 < c
      → c ≤ length ts
      → (r : List Task × ℕ) × (scan flags tick_count c left next ts ≡ done r)
        × (next < c → Scanned c next left ts r)
  unfolding scan
  scan-Scanned c zero next ts h le = (
    (ts, next),
    refl,
    λ lt.
        idle next (λ k l. absurd (omega arith))
          (let z : next + 0 ≡ next = omega arith in rw z (sym (mod-eq_of_lt lt))),
  )
  scan-Scanned c (suc left) next ts h le =
      go (get_elem?-some ts ((next + 1) % c) (omega (arith, mod-lt (next + 1) h)))
        (scan-Scanned c left ((next + 1) % c) ts h le)
    where
      n : ℕ
      n = (next + 1) % c

      Goal : Type 0
      Goal =
          (r : List Task × ℕ) × (scan flags tick_count c (suc left) next ts ≡ done r)
          × (next < c → Scanned c next (suc left) ts r)

      go :
          (t : Task) × (get_elem? ts n ≡ some t)
          → (r : List Task × ℕ) × (scan flags tick_count c left n ts ≡ done r)
            × (n < c → Scanned c n left ts r)
          → Goal
      go (t, e) (r, run, inner) = elim (Bool-cases t.used) [
        | inr unused ↦ (
          r,
          rw (e, scan) (simp unused run),
          λ lt.
              Scanned-on c next left ts t r h e (unused_not_ready t unused)
                (inner (mod-lt (next + 1) h)),
        )
        | inl used ↦ elim (Bool-cases (poll flags tick_count t).blocked) [
          | inl held ↦
              let (same, nr) = poll_not_ready t used held in
              (
                r,
                rw (e, scan)
                    (simp (used, held, modify_same ts n (poll flags tick_count) t e same) run),
                λ lt. Scanned-on c next left ts t r h e nr (inner (mod-lt (next + 1) h)),
              )
          | inr free ↦ (
            (modify ts n (poll flags tick_count), n),
            rw (e, scan) (simp (used, free)),
            λ lt.
                stops 0 n t (omega arith) refl e (poll-ready t used free)
                  (λ k l. absurd (omega arith)),
          )
        ]
      ]
