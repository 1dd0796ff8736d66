-- ===== src/Syscall/Rights.antt =====
-- What the checks at the head of a handler establish.
use Prim.Native.Nat.{bit_and}
use mathlib.Core.Option.{some-injective}
use minic_os.Base.{
  ℕ, ◌≡◌, ap, ◌≢◌, ◌↔◌, inl, inr, true, false, Option, none, some, ◌==◌, if◌then◌else◌, Bool-cases,
  arith,
}
use minic_os.Base.Int.{ℤ, pos, negsuc, int_of, index_below}
use minic_os.Base.Exec.{done, >>=-eq-done, done-injective}
use minic_os.Ipc.Object.{Handle, KernelObject, handles_per_process, handle_at, object_at}
use minic_os.Syscall.State.{
  Kernel, caller_process, used_handle, handle_of, caller_handle, object_of_kind, object_with_right,
  resolve,
}

-- The process `p` calls, and `(int) a1` is its used handle `h`, at index `i`.
pub record Holds (k : Kernel) (a1 p i : ℕ) (h : Handle) : Type 0 where
  pub calls : caller_process k ≡ done (pos p)
  pub index : index_below handles_per_process (int_of a1) ≡ some i
  pub found : handle_at k.tables p i ≡ done h
  pub used : h.used ≡ true

pub Holds-caller_handle :
    (k : Kernel) (a1 p i : ℕ) (h : Handle)
    → Holds k a1 p i h
    → caller_handle k a1 ≡ done (some (p, i, h))
unfolding caller_handle handle_of used_handle
Holds-caller_handle k a1 p i h v = simp (v.calls, v.index, v.found, v.used)

used_handle-Holds :
    (k : Kernel) (q : ℕ) (o : Option ℕ) (p i : ℕ) (h : Handle)
    → used_handle k q o ≡ done (some (p, i, h))
    → (q ≡ p) × (o ≡ some i) × (handle_at k.tables p i ≡ done h) × (h.used ≡ true)
unfolding used_handle
used_handle-Holds k q none p i h e = absurd (ground arith)
used_handle-Holds k q (some j) p i h e = go (>>=-eq-done (handle_at k.tables q j) _ e)
  where
    go :
        (g : Handle) × (handle_at k.tables q j ≡ done g)
          × (done (if◌then◌else◌ {A = Option (ℕ × ℕ × Handle)} g.used (some (q, j, g)) none)
              ≡ done (some (p, i, h)))
        → (q ≡ p) × (some j ≡ some i) × (handle_at k.tables p i ≡ done h) × (h.used ≡ true)
    go (g, at, e') = elim (Bool-cases g.used) [
      | inr idle ↦ absurd (ground arith)
      | inl busy ↦
          let same : (q, j, g) ≡ (p, i, h) =
            some-injective _ _ (done-injective (simp busy at e')) in
          let process : q ≡ p = ap (λ (x : ℕ × ℕ × Handle). x.0) same in
          let index : j ≡ i = ap (λ (x : ℕ × ℕ × Handle). x.1) same in
          let entry : g ≡ h = ap (λ (x : ℕ × ℕ × Handle). x.2) same in
          (process, ap some index, rw (← process, ← index, ← entry) at, rw (← entry) busy)
    ]

pub caller_handle-Holds :
    (k : Kernel) (a1 p i : ℕ) (h : Handle)
    → caller_handle k a1 ≡ done (some (p, i, h))
    → Holds k a1 p i h
unfolding caller_handle handle_of
caller_handle-Holds k a1 p i h e = go (>>=-eq-done (caller_process k) _ e)
  where
    go :
        (c : ℤ) × (caller_process k ≡ done c) × (handle_of k a1 c ≡ done (some (p, i, h)))
        → Holds k a1 p i h
    go (negsuc n, calls, e') = absurd (ground arith)
    go (pos q, calls, e') =
        let (same, index, found, used) = used_handle-Holds k q _ p i h e' in
        record { calls = rw (← same) calls; index = index; found = found; used = used }

-- The call is entitled: the caller's handle `(int) a1` is used, has the right, and names an object
-- of the kind, whose index is `x`.
pub record Entitled (k : Kernel) (a1 right kind : ℕ) (x : ℤ) : Type 0 where
  pub process : ℕ
  pub slot : ℕ
  pub entry : Handle
  pub object : KernelObject
  pub holds : Holds k a1 process slot entry
  pub permitted : bit_and entry.rights right ≢ 0
  pub names : object_at k.tables entry.object_index ≡ done object
  pub of_kind : object.kind ≡ kind
  pub index : object.data_index ≡ x

-- The checks give an object's index exactly when the caller is a process whose handle `(int) a1` is
-- in range and used, has the right, and names an object of the kind with that index.
pub resolve_iff :
    (k : Kernel) (a1 right kind : ℕ) (x : ℤ)
    → (resolve k a1 right kind ≡ done (some x)) ↔ Entitled k a1 right kind x
unfolding resolve object_with_right object_of_kind
resolve_iff k a1 right kind x = (to, from)
  where
    from : Entitled k a1 right kind x → resolve k a1 right kind ≡ done (some x)
    from v =
        let right_set : (bit_and v.entry.rights right == 0) ≡ false = ground (arith, v.permitted) in
        let same : (v.object.kind == kind) ≡ true = ground (arith, v.of_kind) in
        simp (
          Holds-caller_handle k a1 v.process v.slot v.entry v.holds,
          right_set,
          v.names,
          same,
          v.index,
        )

    inner :
        (p i : ℕ) (h : Handle)
        → Holds k a1 p i h
        → object_with_right k right kind (some (p, i, h)) ≡ done (some x)
        → Entitled k a1 right kind x
    inner p i h v e = elim (Bool-cases (bit_and h.rights right == 0)) [
      | inl unset ↦ absurd (ground arith)
      | inr right_set ↦
          let (o, named, e') =
            >>=-eq-done (object_at k.tables h.object_index) _ (simp right_set at e) in
          elim (Bool-cases (o.kind == kind)) [
            | inr other ↦ absurd (ground arith)
            | inl same ↦ record {
              process = p;
              slot = i;
              entry = h;
              object = o;
              holds = v;
              permitted = ground arith;
              names = named;
              of_kind = ground arith;
              index = some-injective _ _ (done-injective (simp same at e'));
            }
          ]
    ]

    to : resolve k a1 right kind ≡ done (some x) → Entitled k a1 right kind x
    to e = go (>>=-eq-done (caller_handle k a1) _ e)
      where
        go :
            (f : Option (ℕ × ℕ × Handle)) × (caller_handle k a1 ≡ done f)
              × (object_with_right k right kind f ≡ done (some x))
            → Entitled k a1 right kind x
        go (none, e1, e2) = absurd (ground arith)
        go (some (p, i, h), e1, e2) = inner p i h (caller_handle-Holds k a1 p i h e1) e2
