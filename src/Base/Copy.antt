-- ===== src/Base/Copy.antt =====
-- The kernel's byte loops `while (i < n) { dst[i] = src[i]; i++; }`.
use Prim.Native.Nat.{ℕ, zero, suc, ◌+◌, ◌≤◌, ◌<◌}
use mathlib.Core.Path.{◌≡◌, refl, ◌∙◌}
use mathlib.Core.List.{List}
use native.Mathlib.Omega.{arith}
use native.Mathlib.Decide.{ℕ_discrete}
use minic_os.Base.Lists.{
  length, get_or, set, length-set, get_or-set_self, get_or-set_ne, tabulate, tabulate-ext,
}

module _ {ℓ} {A : Type ℓ} where
  -- `left` rounds to go, from offset `i` on: `dst[i] = src[i]`.
  unfoldable pub copy_loop : (ℕ → A) → ℕ → ℕ → List A → List A
  copy_loop src i zero dst = dst
  copy_loop src i (suc left) dst = copy_loop src (i + 1) left (set dst i (src i))

  pub length-copy_loop :
      (src : ℕ → A) (i n : ℕ) (dst : List A) → length (copy_loop src i n dst) ≡ length dst
  unfolding copy_loop
  length-copy_loop src i zero dst = refl
  length-copy_loop src i (suc n) dst =
      length-copy_loop src (i + 1) n (set dst i (src i)) ∙ length-set dst i (src i)

  pub get_or-copy_loop_below :
      (src : ℕ → A) (i n : ℕ) (dst : List A) (j : ℕ) (d : A)
      → j < i
      → get_or (copy_loop src i n dst) j d ≡ get_or dst j d
  unfolding copy_loop
  get_or-copy_loop_below src i zero dst j d h = refl
  get_or-copy_loop_below src i (suc n) dst j d h =
      get_or-copy_loop_below src (i + 1) n (set dst i (src i)) j d (omega arith)
      ∙ get_or-set_ne dst i j (src i) d (omega arith)

  pub get_or-copy_loop_above :
      (src : ℕ → A) (i n : ℕ) (dst : List A) (j : ℕ) (d : A)
      → i + n ≤ j
      → get_or (copy_loop src i n dst) j d ≡ get_or dst j d
  unfolding copy_loop
  get_or-copy_loop_above src i zero dst j d h = refl
  get_or-copy_loop_above src i (suc n) dst j d h =
      get_or-copy_loop_above src (i + 1) n (set dst i (src i)) j d (omega arith)
      ∙ get_or-set_ne dst i j (src i) d (omega arith)

  pub get_or-copy_loop :
      (src : ℕ → A) (i n : ℕ) (dst : List A) (j : ℕ) (d : A)
      → i ≤ j
      → j < i + n
      → i + n ≤ length dst
      → get_or (copy_loop src i n dst) j d ≡ src j
  unfolding copy_loop
  get_or-copy_loop src i zero dst j d h k l = absurd (omega arith)
  get_or-copy_loop src i (suc n) dst j d h k l = elim (ℕ_discrete i j) [
    | yes e ↦ rw (← e) (
        get_or-copy_loop_below src (i + 1) n (set dst i (src i)) i d (omega arith)
        ∙ get_or-set_self dst i (src i) d (omega arith))
    | no ne ↦
        get_or-copy_loop src (i + 1) n (set dst i (src i)) j d (omega arith) (omega arith)
          (omega (arith, length-set dst i (src i)))
  ]

  -- The first `n` entries after a copy of `n`.
  pub tabulate-copy_loop :
      (src : ℕ → A) (n : ℕ) (dst : List A) (d : A)
      → n ≤ length dst
      → tabulate n (λ k. get_or (copy_loop src 0 n dst) k d) ≡ tabulate n src
  tabulate-copy_loop src n dst d le =
      tabulate-ext n _ src
        (λ k lt. get_or-copy_loop src 0 n dst k d (omega arith) (omega arith) (omega arith))
