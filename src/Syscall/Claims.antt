-- ===== src/Syscall/Claims.antt =====
-- The handlers of kernel/syscall/syscall.c in turn: which of them answers a call.
use minic_os.Base.{ℕ, zero, suc, ◌<◌, ◌≡◌, ◌≢◌, refl, some, List, [], ◌∷◌, get_elem?, arith}
use mathlib.Core.Option.{some-injective}
use minic_os.Base.Exec.{Exec, done, fault}
use minic_os.Syscall.State.{Kernel, Outcome, returns, waits, unclaimed, refuse}
use minic_os.Syscall.Dispatch.{Handler, first_claim}

module _ (k : Kernel) (num a1 a2 a3 : ℕ) where
  -- The handlers in front of the place `i` all leave the call to the others.
  abbrev pub PassedBefore : List Handler → ℕ → Type 0
  PassedBefore handlers i =
      (j : ℕ) (h : Handler)
      → j < i
      → get_elem? handlers j ≡ some h
      → h k num a1 a2 a3 ≡ done unclaimed

  -- What comes of a call: the outcome of the first handler that does not leave it to the others,
  -- whether it returns, waits or faults; or, if all of them leave it, a failure.
  pub data Claimed (handlers : List Handler) : Exec Outcome → Type 0 where
    by_handler :
        (i : ℕ) (h : Handler) (r : Outcome)
        → PassedBefore handlers i
        → get_elem? handlers i ≡ some h
        → h k num a1 a2 a3 ≡ done r
        → r ≢ unclaimed
        → Claimed handlers (done r)
    by_fault :
        (i : ℕ) (h : Handler)
        → PassedBefore handlers i
        → get_elem? handlers i ≡ some h
        → h k num a1 a2 a3 ≡ fault
        → Claimed handlers fault
    by_nobody :
        ((j : ℕ) (h : Handler) → get_elem? handlers j ≡ some h → h k num a1 a2 a3 ≡ done unclaimed)
        → Claimed handlers (refuse k)

  passed_suc :
      (h : Handler) (handlers : List Handler) (i : ℕ)
      → h k num a1 a2 a3 ≡ done unclaimed
      → PassedBefore handlers i
      → PassedBefore (h ∷ handlers) (suc i)
  passed_suc h handlers i left p zero g lt at = rw (← some-injective _ _ at) left
  passed_suc h handlers i left p (suc j) g lt at = p j g (omega arith) at

  Claimed-suc :
      (h : Handler) (handlers : List Handler) {r : Exec Outcome}
      → h k num a1 a2 a3 ≡ done unclaimed
      → Claimed handlers r
      → Claimed (h ∷ handlers) r
  Claimed-suc h handlers left (by_handler i g r p at run claims) =
      by_handler (suc i) g r (passed_suc h handlers i left p) at run claims
  Claimed-suc h handlers left (by_fault i g p at run) =
      by_fault (suc i) g (passed_suc h handlers i left p) at run
  Claimed-suc h handlers left (by_nobody all) = by_nobody every
    where
      every :
          (j : ℕ) (g : Handler)
          → get_elem? (h ∷ handlers) j ≡ some g
          → g k num a1 a2 a3 ≡ done unclaimed
      every zero g at = rw (← some-injective _ _ at) left
      every (suc j) g at = all j g at

  pub first_claim-Claimed :
      (handlers : List Handler) → Claimed handlers (first_claim handlers k num a1 a2 a3)
  unfolding first_claim
  first_claim-Claimed [] = by_nobody (λ j h at. absurd (cc))
  first_claim-Claimed (h ∷ handlers) = go (h k num a1 a2 a3) refl (first_claim-Claimed handlers)
    where
      go :
          (r : Exec Outcome)
          → h k num a1 a2 a3 ≡ r
          → Claimed handlers (first_claim handlers k num a1 a2 a3)
          → Claimed (h ∷ handlers) (first_claim (h ∷ handlers) k num a1 a2 a3)
      go fault e rest =
          rw (e, first_claim) (by_fault 0 h (λ j g lt at. absurd (omega arith)) refl e)
      go (done (returns v k')) e rest =
          rw (e, first_claim)
            (by_handler 0 h (returns v k') (λ j g lt at. absurd (omega arith)) refl e
              (λ q. absurd (cc)))
      go (done (waits k')) e rest =
          rw (e, first_claim)
            (by_handler 0 h (waits k') (λ j g lt at. absurd (omega arith)) refl e
              (λ q. absurd (cc)))
      go (done unclaimed) e rest = rw (e, first_claim) (Claimed-suc h handlers e rest)
