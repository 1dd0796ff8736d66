-- ===== src/Mm/Heap/Mapping.antt =====
-- The mapping loop of `heap_grow`.
use minic_os.Base.{
  ℕ, zero, suc, ◌+◌, ◌*◌, ◌≡◌, refl, ap, ◌∙◌, Bool, true, false, ◌⊎◌, inl, inr, arith,
}
use minic_os.Mm.Heap.{Pages, map_loop}

-- A number of pages from `vaddr` on that `map_frame` has mapped, one after the other.
pub data Mapped (pages : Pages) : ℕ → ℕ → pages.State → pages.State → Type 0 where
  none_yet : {vaddr : ℕ} {st : pages.State} → Mapped pages 0 vaddr st st
  one_more :
      {n vaddr : ℕ} {st st1 st' : pages.State}
      → pages.map_frame vaddr st ≡ (true, st1)
      → Mapped pages n (vaddr + 4096) st1 st'
      → Mapped pages (suc n) vaddr st st'

-- Pages that were mapped from `vaddr` on, and the next that could not be.
pub record OutOfFrames (pages : Pages) (vaddr : ℕ) (st st' : pages.State) : Type 0 where
  pub before : ℕ
  pub here : pages.State
  pub mapped : Mapped pages before vaddr st here
  pub refused : pages.map_frame (vaddr + before * 4096) here ≡ (false, st')

-- Either all the pages are mapped or one could not be.
abbrev Ended : (pages : Pages) → ℕ → ℕ → pages.State → Type 0
Ended pages n vaddr st =
    ((st' : pages.State) × (map_loop pages n vaddr st ≡ (true, st')) × Mapped pages n vaddr st st')
    ⊎ ((st' : pages.State) × (map_loop pages n vaddr st ≡ (false, st'))
        × OutOfFrames pages vaddr st st')

module _ (pages : Pages) where
  pub map_loop_lem : (n vaddr : ℕ) (st : pages.State) → Ended pages n vaddr st
  unfolding map_loop
  map_loop_lem zero vaddr st = inl (st, refl, none_yet)
  map_loop_lem (suc n) vaddr st =
      go (pages.map_frame vaddr st) refl (λ st1. map_loop_lem n (vaddr + 4096) st1)
    where
      go :
          (r : Bool × pages.State)
          → pages.map_frame vaddr st ≡ r
          → ((st1 : pages.State) → Ended pages n (vaddr + 4096) st1)
          → Ended pages (suc n) vaddr st
      go (false, st1) e ih = inr (
        st1,
        rw (e, map_loop),
        record {
          before = 0;
          here = st;
          mapped = none_yet;
          refused = ap (λ v. pages.map_frame v st) (omega arith) ∙ e;
        },
      )
      go (true, st1) e ih = elim (ih st1) [
        | inl (st', run, m) ↦ inl (st', rw (e, map_loop) run, one_more e m)
        | inr (st', run, o) ↦ inr (
          st',
          rw (e, map_loop) run,
          record {
            before = suc o.before;
            here = o.here;
            mapped = one_more e o.mapped;
            refused = ap (λ v. pages.map_frame v o.here) (omega arith) ∙ o.refused;
          },
        )
      ]
