-- ===== src/Security/Sandbox/DefaultPolicy.antt =====
-- Which syscalls the default policy denies.
use native.Mathlib.Decide.{dec_lt}
use minic_os.Base.{ℕ, ◌≤◌, ◌<◌, ◌≡◌, refl, Bool, true, ◌||◌, ◌==◌, arith}
use minic_os.Base.Below.{same_bool, same_bool_lem, all_below, all_below_lem}
use minic_os.Security.Sandbox.{
  SandboxPolicy, policy_denies, sandbox_default_denied_low, sandbox_default_denied_high,
}

-- The policy that a verified executable is given.
abbrev pub default_policy : SandboxPolicy
default_policy = record {
  used = true;
  denied_low = sandbox_default_denied_low;
  denied_high = sandbox_default_denied_high;
}

-- spawn from a path, spawn a builtin, register a service, setuid, fork, port I/O
abbrev pub is_denied_by_default : ℕ → Bool
is_denied_by_default n = n == 6 || n == 11 || n == 14 || n == 49 || n == 95 || n == 99

agrees : ℕ → Bool
agrees n = same_bool (policy_denies default_policy n) (is_denied_by_default n)

table : all_below 128 agrees ≡ true
unfolding agrees all_below same_bool policy_denies sandbox_default_denied_low
    sandbox_default_denied_high
table = refl

below : (n : ℕ) → n < 128 → policy_denies default_policy n ≡ is_denied_by_default n
unfolding agrees
below n h = same_bool_lem _ _ (all_below_lem 128 agrees n table h)

above : (n : ℕ) → 128 ≤ n → policy_denies default_policy n ≡ is_denied_by_default n
unfolding policy_denies
above n h = ground arith

-- The default policy denies the syscalls 6, 11, 14, 49, 95 and 99, and no other number.
pub default_policy_lem : (n : ℕ) → policy_denies default_policy n ≡ is_denied_by_default n
default_policy_lem n = elim (dec_lt n 128) [ yes h ↦ below n h | no h ↦ above n (omega arith) ]
