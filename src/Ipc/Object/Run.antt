-- ===== src/Ipc/Object/Run.antt =====
-- Sequences of allocations and releases.
use minic_os.Base.{
  ℕ, ◌<◌, ◌≡◌, ◌≢◌, refl, sym, ap, subst, ◌∙◌, true, false, Option, List, [], ◌∷◌, get_elem?,
  get_elem?-modify_ne, arith,
}
use minic_os.Base.Int.{ℤ, pos}
use minic_os.Base.Slots.{count_if}
use minic_os.Base.Exec.{Exec, done, ◌>>=◌, at_index, >>=-eq-done, done-injective}
use minic_os.Ipc.Object.{
  KernelObject, Objects, max_processes, object_slots, handles_per_process, alloc_object,
  free_object, alloc_handle, free_handle, object_at,
}
use minic_os.Ipc.Object.Inv.{
  IsValid, alloc_object-IsValid, free_object-IsValid, alloc_handle-IsValid, free_handle-IsValid,
}
use minic_os.Ipc.Object.Grant.{Granted, alloc_handle_lem, free_handle_lem}
use minic_os.Ipc.Object.Count.{
  is_used, Allocated, full, taken, alloc_object_lem, Counted, alloc_object-Counted,
  free_object-Counted,
}

-- A call of one of the four functions.
pub data Call : Type 0 where
  new_object : ℕ → ℤ → Call
  old_object : ℕ → Call
  new_handle : ℕ → ℕ → ℕ → Call
  old_handle : ℕ → ℕ → Call

abbrev pub call : Call → Objects → Exec Objects
call (new_object kind x) t = done (alloc_object t kind x).1
call (old_object i) t = free_object t i
call (new_handle p o rights) t = alloc_handle t p o rights >>= λ r. done r.1
call (old_handle p i) t = free_handle t p i

abbrev pub calls : List Call → Objects → Exec Objects
calls [] t = done t
calls (c ∷ cs) t = call c t >>= calls cs

-- Processes, objects and entries that there are, and an object that is in use if it is released.
abbrev pub Proper : Call → Objects → Type 0
Proper (new_object kind x) t = Unit
Proper (old_object i) t =
    (i < object_slots) × (b : KernelObject) × (object_at t i ≡ done b) × (b.used ≡ true)
Proper (new_handle p o rights) t = (p < max_processes) × (o < object_slots)
Proper (old_handle p i) t = (p < max_processes) × (i < handles_per_process)

-- Each call is proper in the state that it finds.
abbrev pub AllProper : List Call → Objects → Type 0
AllProper [] t = Unit
AllProper (c ∷ cs) t = Proper c t × ((u : Objects) → call c t ≡ done u → AllProper cs u)

-- The call does not release the object `o`.
abbrev pub Spares : ℕ → Call → Type 0
Spares o (new_object kind x) = Unit
Spares o (old_object i) = o ≢ i
Spares o (new_handle p o' rights) = Unit
Spares o (old_handle p i) = Unit

abbrev pub AllSpare : ℕ → List Call → Type 0
AllSpare o [] = Unit
AllSpare o (c ∷ cs) = Spares o c × AllSpare o cs

-- An object in use is as it was.
abbrev StaysAt : Objects → Objects → ℕ → Type 0
StaysAt t u o = (b : KernelObject) → object_at t o ≡ done b → b.used ≡ true → object_at u o ≡ done b

Allocated-StaysAt :
    (t : Objects) (kind : ℕ) (x : ℤ) (o : ℕ) {r : Option ℕ × Objects}
    → Allocated t kind x r
    → StaysAt t r.1 o
Allocated-StaysAt t kind x o (full m) b at used = at
Allocated-StaysAt t kind x o (taken i b' u first at' idle new others counted up same) b at used =
    others o apart ∙ at
  where
    apart : o ≢ i
    apart e =
        let eq : b ≡ b' =
          done-injective (sym at ∙ subst (λ m. object_at t m ≡ done b') (sym e) at') in
        absurd (ground (arith, used, idle, ap (λ (x : KernelObject). x.used) eq))

free_object-StaysAt : (t u : Objects) (i o : ℕ) → free_object t i ≡ done u → o ≢ i → StaysAt t u o
unfolding free_object object_at
free_object-StaysAt t u i o run ne b at used =
    let (x, here, e) = >>=-eq-done (at_index (get_elem? t.objects i)) _ run in
    rw
      (
        ← done-injective e,
        get_elem?-modify_ne t.objects i o (λ b. record b { used = false }) (λ q. ne (sym q)),
      )
      at

-- Only the handle tables are another.
abbrev SameObjects : Objects → Objects → Type 0
SameObjects t u = (u.objects ≡ t.objects) × (u.object_count ≡ t.object_count)

alloc_handle-SameObjects :
    (t : Objects) (p o rights : ℕ) (r : Option ℕ × Objects)
    → alloc_handle t p o rights ≡ done r
    → SameObjects t r.1
alloc_handle-SameObjects t p o rights r run = go (alloc_handle_lem t p o rights r run)
  where
    go : {r : Option ℕ × Objects} → Granted t p o rights r → SameObjects t r.1
    go (Granted.full m) = (refl, refl)
    go (Granted.taken i h at idle first) = (refl, refl)

free_handle-SameObjects : (t u : Objects) (p i : ℕ) → free_handle t p i ≡ done u → SameObjects t u
free_handle-SameObjects t u p i run =
    let same = sym (free_handle_lem t p i u run) in
    (ap (λ (v : Objects). v.objects) (sym same), ap (λ (v : Objects). v.object_count) (sym same))

SameObjects-Counted : (t u : Objects) → SameObjects t u → Counted t → Counted u
SameObjects-Counted t u (objects, count) c =
    count ∙ c ∙ ap (λ xs. pos (count_if is_used xs)) (sym objects)

SameObjects-StaysAt : (t u : Objects) (o : ℕ) → SameObjects t u → StaysAt t u o
unfolding object_at
SameObjects-StaysAt t u o (objects, count) b at used = rw objects at

call_lem :
    (c : Call) (t : Objects)
    → IsValid t
    → Counted t
    → Proper c t
    → (u : Objects) × (call c t ≡ done u)
      × IsValid u
      × Counted u
      × ((o : ℕ) → Spares o c → StaysAt t u o)
call_lem (new_object kind x) t v c h = (
  (alloc_object t kind x).1,
  refl,
  alloc_object-IsValid t kind x v,
  alloc_object-Counted t kind x c,
  λ o s. Allocated-StaysAt t kind x o (alloc_object_lem t kind x),
)
call_lem (old_object i) t v c (lt, b, at, used) =
    let (u, run, w) = free_object-IsValid t i v lt in
    (u, run, w, free_object-Counted t i b u c at used run, λ o s. free_object-StaysAt t u i o run s)
call_lem (new_handle p o rights) t v c (hp, ho) =
    let (r, run, w) = alloc_handle-IsValid t p o rights v hp ho in
    let same = alloc_handle-SameObjects t p o rights r run in
    (r.1, rw run refl, w, SameObjects-Counted t r.1 same c, λ o s. SameObjects-StaysAt t r.1 o same)
call_lem (old_handle p i) t v c (hp, hi) =
    let (u, run, w) = free_handle-IsValid t p i v hp hi in
    let same = free_handle-SameObjects t u p i run in
    (u, run, w, SameObjects-Counted t u same c, λ o s. SameObjects-StaysAt t u o same)

-- From tables of the right sizes whose handles name objects in range, and with the counter equal to the
-- number of objects in use: a sequence of alloc_object, free_object, alloc_handle and free_handle, with
-- processes, objects and entries in range, that releases only objects in use, indexes nothing outside the
-- tables. It leaves such tables, the counter is the number of objects in use, and an object in use that
-- the sequence does not release is as it was.
pub calls-Counted :
    (cs : List Call) (t : Objects)
    → IsValid t
    → Counted t
    → AllProper cs t
    → (u : Objects) × (calls cs t ≡ done u)
      × IsValid u
      × Counted u
      × ((o : ℕ) (b : KernelObject)
          → AllSpare o cs
          → object_at t o ≡ done b
          → b.used ≡ true
          → object_at u o ≡ done b)
calls-Counted [] t v c h = (t, refl, v, c, λ o b s at used. at)
calls-Counted (d ∷ ds) t v c (h, hs) =
    let (u, run, w, n, stays) = call_lem d t v c h in
    let (x, rest, y, m, stay) = calls-Counted ds u w n (hs u run) in
    (x, rw run rest, y, m, λ o b s at used. stay o b (s.1) (stays o (s.0) b at used) used)
