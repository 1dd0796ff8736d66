-- ===== src/Syscall/Escape.antt =====
-- Syscall 13 and the sandbox: a process can close the handle that restricts it.
use minic_os.Base.{
  ℕ, suc, ◌<◌, ◌≡◌, ◌≢◌, refl, sym, ap, subst, ◌∙◌, ◌==◌, Bool-cases, inl, inr, true, false, some,
  List, [], ◌∷◌, get_elem?, modify, get_elem?-modify_self, get_elem?-modify_ne, lt→ltb, arith,
}
use mathlib.Core.Option.{some-injective}
use native.Mathlib.Decide.{ℕ_discrete}
use minic_os.Base.Int.{pos, int_of, index_below}
use minic_os.Base.Exec.{Exec, done}
use minic_os.Ipc.Object.{
  KernelObject, Handle, Objects, handles_per_process, max_processes, handle_at, object_at,
  free_object, freed, free_handle,
}
use minic_os.Ipc.Object.Grant.{change_handle}
use minic_os.Security.Sandbox.{
  SandboxPolicy, obj_sandbox, policy_denies, handle_denies, denies_loop, sandbox_denies,
}
use minic_os.Security.Sandbox.DefaultPolicy.{default_policy, default_policy_lem}
use minic_os.Syscall.State.{Kernel, Outcome, returns, caller_process}
use minic_os.Syscall.Handles.{handle_close, syscall_core}
use minic_os.Syscall.Dispatch.{Handler, first_claim, syscall_dispatch}
use minic_os.Syscall.Rights.{Holds, Holds-caller_handle}

-- No entry that is looked at restricts.
denies_loop_none :
    (t : Objects) (policies : List SandboxPolicy) (num : ℕ) (hs : List Handle)
    → ((j : ℕ) (g : Handle) → get_elem? hs j ≡ some g → handle_denies t policies num g ≡ done false)
    → denies_loop t policies num hs ≡ done false
unfolding denies_loop
denies_loop_none t policies num [] passed = refl
denies_loop_none t policies num (h ∷ hs) passed =
    let rest : denies_loop t policies num hs ≡ done false =
      denies_loop_none t policies num hs (λ j g e. passed (suc j) g e) in
    rw (passed 0 h refl, rest)

-- An entry that, if it is used, is on an object that is no sandbox.
abbrev pub NoSandbox : Objects → Handle → Type 0
NoSandbox t g =
    g.used ≡ true
    → (b : KernelObject) × (get_elem? t.objects g.object_index ≡ some b) × (b.kind ≢ obj_sandbox)

other_denies :
    (t : Objects) (policies : List SandboxPolicy) (num : ℕ) (g : Handle)
    → NoSandbox t g
    → handle_denies t policies num g ≡ done false
unfolding handle_denies object_at
other_denies t policies num g other = elim (Bool-cases g.used) [
  | inr off ↦ simp off
  | inl on ↦
      let (b, at, kind) = other on in
      let no : (b.kind == obj_sandbox) ≡ false = ground arith in simp (on, at, no)
]

-- The process `p` runs, entry `i` of its handle table is on a sandbox object with the default policy,
-- and its other handles, such as the one that it has on itself, are on objects of other kinds.
pub record Confined (k : Kernel) (p i o s : ℕ) (h : Handle) (hs : List Handle) : Type 0 where
  pub calls : caller_process k ≡ done (pos p)
  pub in_table : p < max_processes
  pub table : get_elem? k.tables.handle_tables p ≡ some hs
  pub slot : i < handles_per_process
  pub entry : get_elem? hs i ≡ some h
  pub held : h.used ≡ true
  pub others : (j : ℕ) (g : Handle) → j ≢ i → get_elem? hs j ≡ some g → NoSandbox k.tables g
  pub names : h.object_index ≡ o
  pub object :
      get_elem? k.tables.objects o
      ≡ some (record { used = true; kind = obj_sandbox; data_index = pos s })
  pub policy : get_elem? k.policies s ≡ some default_policy

module _ (k : Kernel) (p i o s : ℕ) (h : Handle) (hs : List Handle)
    (v : Confined k p i o s h hs) where
  after_close : Kernel
  after_close = record k {
    tables = change_handle (freed k.tables o) p i (λ h. record h { used = false });
  }

  allowed : handle_denies k.tables k.policies 13 h ≡ done false
  unfolding handle_denies object_at
  allowed =
      let ok : policy_denies default_policy 13 ≡ false = default_policy_lem 13 in
      simp (v.held, v.names, v.object, v.policy, ok)

  check_13 : sandbox_denies k.tables k.policies (pos p) 13 ≡ done false
  unfolding sandbox_denies
  check_13 =
      simp (lt→ltb p max_processes v.in_table, v.table)
        (denies_loop_none k.tables k.policies 13 hs entry_ok)
    where
      entry_ok :
          (j : ℕ) (g : Handle)
          → get_elem? hs j ≡ some g
          → handle_denies k.tables k.policies 13 g ≡ done false
      entry_ok j g e = elim (ℕ_discrete j i) [
        | yes same ↦
            let eq : h ≡ g = some-injective _ _ (sym v.entry ∙ rw (← same) e) in rw (← eq) allowed
        | no ne ↦ other_denies k.tables k.policies 13 g (v.others j g ne e)
      ]

  holds : Holds k i p i h
  unfolding handle_at
  holds = record { calls = v.calls; index = small; found = rw (v.table, v.entry); used = v.held }
    where
      bound : i < handles_per_process
      bound = v.slot

      small : index_below handles_per_process (int_of i) ≡ some i
      small = ground arith

  closes : handle_close k i ≡ done (returns 0 after_close)
  unfolding handle_close free_object free_handle after_close
  closes = simp (Holds-caller_handle k i p i h holds, v.names, v.object, v.table, v.entry)

  free_after :
      (num : ℕ) → sandbox_denies after_close.tables after_close.policies (pos p) num ≡ done false
  unfolding sandbox_denies after_close
  free_after num =
      simp
        (
          lt→ltb p max_processes v.in_table,
          get_elem?-modify_self k.tables.handle_tables p
              (λ hs. modify hs i (λ h. record h { used = false })) hs v.table,
        )
        (denies_loop_none _ _ num _ (λ j g e. other_denies _ _ num g (no_sandbox j g e)))
    where
      no_sandbox :
          (j : ℕ) (g : Handle)
          → get_elem? (modify hs i (λ h. record h { used = false })) j ≡ some g
          → NoSandbox after_close.tables g
      no_sandbox j g e = elim (ℕ_discrete j i) [
        | yes same ↦
            let now : get_elem? (modify hs i (λ h. record h { used = false })) i
                ≡ some (record h { used = false }) =
              get_elem?-modify_self hs i (λ h. record h { used = false }) h v.entry in
            let eq : record h { used = false } ≡ g = some-injective _ _ (
              sym now
              ∙ subst (λ m. get_elem? (modify hs i (λ h. record h { used = false })) m ≡ some g)
                  same e) in
            λ on. absurd (ground (arith, on, ap (λ (h : Handle). h.used) eq))
        | no ne ↦ λ on.
            let (b, at, kind) =
              v.others j g ne
                (sym (get_elem?-modify_ne hs i j (λ h. record h { used = false }) (λ q. ne (sym q)))
                  ∙ e)
                on in
            let apart : o ≢ g.object_index = λ same'.
              let sandbox = some-injective _ _ (
                sym v.object ∙ subst (λ m. get_elem? k.tables.objects m ≡ some b) (sym same') at) in
              kind (ap (λ (x : KernelObject). x.kind) (sym sandbox)) in
            (
              b,
              get_elem?-modify_ne k.tables.objects o g.object_index (λ x. record x { used = false })
                    apart
                  ∙ at,
              kind,
            )
      ]

-- A process that one handle confines, on a sandbox object with the default policy, and that calls
-- syscall 13 on the number of that handle is not refused, and in the state after the call no syscall at
-- all is denied to it. It may hold any handles on objects that are no sandbox.
pub syscall_dispatch-escape :
    (print : Kernel → ℕ → ℕ → Exec Outcome) (handlers : List Handler) (k : Kernel) (p i o s : ℕ)
    (h : Handle) (hs : List Handle)
    → Confined k p i o s h hs
    → (u : Kernel) × (syscall_dispatch (syscall_core print ∷ handlers) k 13 i 0 0
        ≡ done (returns 0 u))
      × ((num : ℕ) → sandbox_denies u.tables u.policies (pos p) num ≡ done false)
unfolding syscall_dispatch first_claim syscall_core
syscall_dispatch-escape print handlers k p i o s h hs v = (
  after_close k p i o s h hs v,
  simp (v.calls, check_13 k p i o s h hs v, closes k p i o s h hs v),
  free_after k p i o s h hs v,
)
