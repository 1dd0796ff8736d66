-- ===== src/Security/Sandbox/Denial.antt =====
-- When `sandbox_denies` answers true.
use minic_os.Base.{
  ℕ, zero, suc, ◌<◌, ◌≡◌, refl, inl, inr, sym, ap, subst, ◌∙◌, ◌↔◌, lt→ltb, Bool, true, false, some,
  List, [], ◌∷◌, ◌==◌, ltb, if◌then◌else◌, get_elem?, arith, Bool-cases,
}
use mathlib.Core.Option.{some-injective}
use minic_os.Base.Int.{pos}
use minic_os.Base.Exec.{done, >>=-eq-done, done-injective}
use minic_os.Ipc.Object.{KernelObject, Handle, Objects, max_processes, object_at}
use minic_os.Security.Sandbox.{
  SandboxPolicy, obj_sandbox, policy_at, policy_denies, handle_denies, denies_loop, sandbox_denies,
}

-- A policy marks no syscall from 128 on.
marked_below : (p : SandboxPolicy) (num : ℕ) → policy_denies p num ≡ true → ltb num 128 ≡ true
unfolding policy_denies
marked_below p num e = elim (Bool-cases (ltb num 128)) [
  | inl small ↦ small
  | inr large ↦
      let past : ltb num 64 ≡ false = ground arith in
      let unmarked : false ≡ true = simp (past, large) at e in absurd (cc)
]

module _ (t : Objects) (policies : List SandboxPolicy) (num : ℕ) where
  -- A used handle on a sandbox object whose policy marks the syscall.
  pub record Restricts (h : Handle) : Type 0 where
    pub object : KernelObject
    pub policy : SandboxPolicy
    pub held : h.used ≡ true
    pub names : object_at t h.object_index ≡ done object
    pub is_sandbox : object.kind ≡ obj_sandbox
    pub policy_found : policy_at policies object.data_index ≡ done policy
    pub marked : policy_denies policy num ≡ true

  handle_denies-Restricts : (h : Handle) → handle_denies t policies num h ≡ done true → Restricts h
  unfolding handle_denies
  handle_denies-Restricts h e = elim (Bool-cases h.used) [
    | inr idle ↦ absurd (ground arith)
    | inl u ↦
        let (o, eo, e2) = >>=-eq-done (object_at t h.object_index) _ (simp u at e) in
        elim (Bool-cases (o.kind == obj_sandbox)) [
          | inr other ↦ absurd (ground arith)
          | inl k ↦ elim (Bool-cases (ltb num 128)) [
            | inr large ↦
                let no_answer : false ≡ true = done-injective (simp (k, large) at e2) in absurd (cc)
            | inl small ↦
                let (p, ep, e3) =
                  >>=-eq-done (policy_at policies o.data_index) _ (simp (k, small) at e2) in
                record {
                  object = o;
                  policy = p;
                  held = u;
                  names = eo;
                  is_sandbox = ground arith;
                  policy_found = ep;
                  marked = done-injective e3;
                }
          ]
        ]
  ]

  Restricts-handle_denies : (h : Handle) → Restricts h → handle_denies t policies num h ≡ done true
  unfolding handle_denies
  Restricts-handle_denies h r =
      let k : (r.object.kind == obj_sandbox) ≡ true = ground (arith, r.is_sandbox) in
      simp (r.held, r.names, k, marked_below r.policy num r.marked, r.policy_found, r.marked)

  -- An entry of the table restricts.
  abbrev pub Restricted : List Handle → Type 0
  Restricted hs = (i : ℕ) × (h : Handle) × (get_elem? hs i ≡ some h) × Restricts h

  denies_loop-Restricted :
      (hs : List Handle) → denies_loop t policies num hs ≡ done true → Restricted hs
  unfolding denies_loop
  denies_loop-Restricted [] e = absurd (ground arith)
  denies_loop-Restricted (h ∷ hs) e =
      go (denies_loop-Restricted hs) (>>=-eq-done (handle_denies t policies num h) _ e)
    where
      go :
          (denies_loop t policies num hs ≡ done true → Restricted hs)
          → (b : Bool) × (handle_denies t policies num h ≡ done b)
            × ((if b then done true else denies_loop t policies num hs) ≡ done true)
          → Restricted (h ∷ hs)
      go ih (true, eb, rest) = (0, h, refl, handle_denies-Restricts h eb)
      go ih (false, eb, rest) = let (i, h', at, r) = ih rest in (suc i, h', at, r)

  Restricted-denies_loop :
      (hs : List Handle) (b : Bool)
      → Restricted hs
      → denies_loop t policies num hs ≡ done b
      → b ≡ true
  unfolding denies_loop
  Restricted-denies_loop [] b (i, h, at, r) e = absurd (cc)
  Restricted-denies_loop (h ∷ hs) b (zero, h', at, r) e =
      let same : h' ≡ h = sym (some-injective _ _ at) in
      let denied : handle_denies t policies num h ≡ done true =
        Restricts-handle_denies h (subst Restricts same r) in
      sym (done-injective (rw (denied, denies_loop) at e))
  Restricted-denies_loop (h ∷ hs) b (suc i, h', at, r) e =
      go (λ f. Restricted-denies_loop hs b (i, h', at, r) f)
        (>>=-eq-done (handle_denies t policies num h) _ e)
    where
      go :
          (denies_loop t policies num hs ≡ done b → b ≡ true)
          → (c : Bool) × (handle_denies t policies num h ≡ done c)
            × ((if c then done true else denies_loop t policies num hs) ≡ done b)
          → b ≡ true
      go ih (true, ec, rest) = sym (done-injective rest)
      go ih (false, ec, rest) = ih rest

  -- For a process with the handle table `hs`, an answer of `sandbox_denies` is true exactly when
  -- a used handle of the table names a sandbox object whose policy marks the syscall.
  pub sandbox_denies_iff :
      (p : ℕ) (hs : List Handle) (b : Bool)
      → p < max_processes
      → get_elem? t.handle_tables p ≡ some hs
      → sandbox_denies t policies (pos p) num ≡ done b
      → (b ≡ true) ↔ Restricted hs
  unfolding sandbox_denies
  sandbox_denies_iff p hs b lt at e =
      let run : denies_loop t policies num hs ≡ done b =
        simp (lt→ltb p max_processes lt, at) at e in
      (
        λ yes'. denies_loop-Restricted hs (run ∙ ap done yes'),
        λ r. Restricted-denies_loop hs b r run,
      )
