-- ===== src/Security/Sandbox.antt =====
-- kernel/security/sandbox/sandbox.c: syscall deny-bitmaps. A process is restricted by the
-- OBJ_SANDBOX handles that it holds.
pub mod Denial
pub mod DefaultPolicy
use Prim.Native.Nat.{bit_and, bit_or}
use minic_os.Base.{
  ℕ, ◌-◌, ◌^◌, Bool, true, false, not, Option, none, some, List, [], ◌∷◌, ◌==◌, ltb, if◌then◌else◌,
  get_elem?,
}
use minic_os.Base.Int.{ℤ, pos, negsuc}
use minic_os.Base.Slots.{claim}
use minic_os.Base.Exec.{Exec, done, fault, ◌>>=◌, at_index}
use minic_os.Ipc.Object.{Objects, Handle, max_processes, object_at}

abbrev pub obj_sandbox : ℕ
obj_sandbox = 17

-- `sandbox_policy`
pub record SandboxPolicy : Type 0 where
  pub used : Bool
  pub denied_low : ℕ
  pub denied_high : ℕ

unfoldable pub sandbox_policy_create : ℕ → ℕ → List SandboxPolicy → Option ℕ × List SandboxPolicy
unfolding claim
sandbox_policy_create denied_low denied_high =
    claim (λ p. not p.used)
      (λ p. record { used = true; denied_low = denied_low; denied_high = denied_high })

-- `&g_sandbox_policies[slot]`
abbrev pub policy_at : List SandboxPolicy → ℤ → Exec SandboxPolicy
policy_at policies (pos i) = at_index (get_elem? policies i)
policy_at policies (negsuc i) = fault

-- The two tests of a policy's bitmaps.
unfoldable pub policy_denies : SandboxPolicy → ℕ → Bool
policy_denies p syscall_num =
    if ltb syscall_num 64
    then not (bit_and p.denied_low (2 ^ syscall_num) == 0)
    else if ltb syscall_num 128
    then not (bit_and p.denied_high (2 ^ (syscall_num - 64)) == 0)
    else false

-- One handle of the loop.
unfoldable pub handle_denies : Objects → List SandboxPolicy → ℕ → Handle → Exec Bool
unfolding object_at
handle_denies t policies syscall_num h =
    if h.used
    then (object_at t h.object_index >>= λ o.
        if o.kind == obj_sandbox
        then (if ltb syscall_num 128
            then (policy_at policies o.data_index >>= λ p. done (policy_denies p syscall_num))
            else done false)
        else done false)
    else done false

-- The loop over a handle table, from a handle on.
unfoldable pub denies_loop : Objects → List SandboxPolicy → ℕ → List Handle → Exec Bool
denies_loop t policies syscall_num [] = done false
denies_loop t policies syscall_num (h ∷ hs) =
    let rest : Exec Bool = denies_loop t policies syscall_num hs in
    handle_denies t policies syscall_num h >>= λ denied. if denied then done true else rest

unfoldable pub sandbox_denies : Objects → List SandboxPolicy → ℤ → ℕ → Exec Bool
unfolding denies_loop
sandbox_denies t policies (negsuc p) syscall_num = done false
sandbox_denies t policies (pos p) syscall_num =
    if ltb p max_processes
    then (at_index (get_elem? t.handle_tables p) >>= denies_loop t policies syscall_num)
    else done false

unfoldable pub sandbox_default_denied_low : ℕ
sandbox_default_denied_low = bit_or (bit_or (bit_or (2 ^ 6) (2 ^ 11)) (2 ^ 14)) (2 ^ 49)

unfoldable pub sandbox_default_denied_high : ℕ
sandbox_default_denied_high = bit_or (2 ^ (95 - 64)) (2 ^ (99 - 64))
