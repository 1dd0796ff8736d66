-- ===== src/Syscall/PipeCalls.antt =====
-- What the syscalls 53 and 54 (`pipe_send` and `pipe_receive`) do to the pipes.
use minic_os.Base.{
  ℕ, ◌+◌, ◌-◌, ◌%◌, ◌^◌, ◌<◌, ◌≤◌, min, ◌≡◌, sym, ap, subst, ◌∙◌, ◌⊎◌, inl, inr, Bool-cases, ◌&&◌,
  leb, Option, none, some, List, [], ◌∷◌, ◌++◌, length, get_elem?, modify, tabulate, get_elem?-lt,
  get_elem?-beyond, arith,
}
use native.Mathlib.Decide.{ℕ_discrete}
use minic_os.Base.Int.{ℤ, pos, negsuc, pos_part}
use minic_os.Base.Exec.{Exec, done, ◌>>=◌, >>=-eq-done, at_index-eq-done, done-injective}
use minic_os.Ipc.Pipe.{PipeBuffer, pipe_buf_size, pipe_write, pipe_read}
use minic_os.Ipc.Pipe.Fifo.{contents, accepted, pipe_write_refines, pipe_read_refines}
use minic_os.Ipc.Pipe.Fifo
use minic_os.Syscall.State.{
  Kernel, Outcome, returns, failure, refuse, right_send, right_receive, resolve, cell, user_byte,
  store_bytes, store_user, user_base,
}
use minic_os.Syscall.Pipes.{obj_pipe, pipe_send, pipe_receive}
use minic_os.Syscall.Rights.{Entitled, resolve_iff}

-- Every pipe of the kernel is valid.
abbrev pub PipesValid : Kernel → Type 0
PipesValid k = (i : ℕ) (p : PipeBuffer) → get_elem? k.pipes i ≡ some p → Fifo.IsValid p

-- No handle of the caller entitles it to the call.
abbrev pub NotEntitled : Kernel → ℕ → ℕ → Type 0
NotEntitled k a1 right = (x : ℤ) → ¬ Entitled k a1 right obj_pipe x

pub data Sent (k : Kernel) (a1 a2 a3 : ℕ) : Outcome → Type 0 where
  refused : NotEntitled k a1 right_send → Sent k a1 a2 a3 (returns failure k)
  sent :
      (x n : ℕ) (p q : PipeBuffer)
      → Entitled k a1 right_send obj_pipe (pos x)
      → get_elem? k.pipes x ≡ some p
      → n ≡ accepted p (a3 % 2 ^ 32)
      → Fifo.IsValid q
      → contents q ≡ contents p ++ tabulate n (user_byte k a2)
      → Sent k a1 a2 a3 (returns n (record k { pipes = modify k.pipes x (λ _. q) }))

pub data Received (k : Kernel) (a1 a2 a3 : ℕ) : Outcome → Type 0 where
  refused : NotEntitled k a1 right_receive → Received k a1 a2 a3 (returns failure k)
  received :
      (x n : ℕ) (out : List ℕ) (p q : PipeBuffer) (memory : ℕ → ℕ)
      → Entitled k a1 right_receive obj_pipe (pos x)
      → get_elem? k.pipes x ≡ some p
      → n ≡ min (a3 % 2 ^ 32) p.count
      → length out ≡ n
      → Fifo.IsValid q
      → contents p ≡ out ++ contents q
      → (0 < n → (user_base ≤ a2) × (a2 + n ≤ 2 ^ 64))
      → ((j b : ℕ) → get_elem? out j ≡ some b → memory ((a2 + j) % 2 ^ 64) ≡ b)
      → ((a : ℕ) → (a < a2) ⊎ ((a2 + n ≤ a) × (a < 2 ^ 64)) → memory a ≡ k.memory a)
      → Received k a1 a2 a3
          (returns n (record k { pipes = modify k.pipes x (λ _. q); memory = memory }))

no_index :
    (k : Kernel) (a1 right : ℕ) → resolve k a1 right obj_pipe ≡ done none → NotEntitled k a1 right
no_index k a1 right e x v =
    let granted : resolve k a1 right obj_pipe ≡ done (some x) =
      (resolve_iff k a1 right obj_pipe x).1 v in
    let both : none ≡ some x = done-injective (sym e ∙ granted) in absurd (cc)

-- Where syscall 53 does not fault on a kernel with valid pipes, it fails and changes nothing, and no
-- handle entitles the caller to send; or the caller is entitled to send to a pipe, and that pipe takes
-- as many of the user's bytes as fit behind what it held and stays valid, and nothing else changes.
pub pipe_send_lem :
    (k : Kernel) (a1 a2 a3 : ℕ) (r : Outcome)
    → PipesValid k
    → pipe_send k a1 a2 a3 ≡ done r
    → Sent k a1 a2 a3 r
unfolding pipe_send
pipe_send_lem k a1 a2 a3 r v e = go (>>=-eq-done (resolve k a1 right_send obj_pipe) _ e)
  where
    Rest : ℤ → Exec Outcome
    Rest index = cell k.pipes index >>= λ p.
        let (n, p') = pipe_write p (user_byte k a2) (a3 % 2 ^ 32) in
        done (returns n (record k { pipes = modify k.pipes (pos_part index) (λ _. p') }))

    at_pipe :
        (x : ℕ)
        → resolve k a1 right_send obj_pipe ≡ done (some (pos x))
        → Rest (pos x) ≡ done r
        → Sent k a1 a2 a3 r
    at_pipe x resolved e' =
        let (p, at, e'') = >>=-eq-done (cell k.pipes (pos x)) _ e' in
        let here : get_elem? k.pipes x ≡ some p = at_index-eq-done _ p at in
        let (n, w, c) = pipe_write_refines p (user_byte k a2) (a3 % 2 ^ 32) (v x p here) in
        subst (Sent k a1 a2 a3) (done-injective e'')
          (sent x _ p _ ((resolve_iff k a1 right_send obj_pipe (pos x)).0 resolved) here n w c)

    go :
        (target : Option ℤ) × (resolve k a1 right_send obj_pipe ≡ done target)
          × (elim target as (λ _. Exec Outcome) [ none ↦ refuse k | some index ↦ Rest index ]
              ≡ done r)
        → Sent k a1 a2 a3 r
    go (none, resolved, e') =
        subst (Sent k a1 a2 a3) (done-injective e') (refused (no_index k a1 right_send resolved))
    go (some (pos x), resolved, e') = at_pipe x resolved e'
    go (some (negsuc x), resolved, e') = absurd (cc)

store_bytes_lem :
    (memory : ℕ → ℕ) (address : ℕ) (out : List ℕ) (j b : ℕ)
    → address < 2 ^ 64
    → length out ≤ pipe_buf_size
    → get_elem? out j ≡ some b
    → store_bytes memory address out ((address + j) % 2 ^ 64) ≡ b
store_bytes_lem memory address out j b small short at =
    let lt : j < length out = get_elem?-lt out j b at in
    let back : ((address + j) % 2 ^ 64 + 2 ^ 64 - address) % 2 ^ 64 ≡ j = omega arith in
    rw (back, store_bytes, at)

store_bytes-elsewhere :
    (memory : ℕ → ℕ) (address a : ℕ) (out : List ℕ)
    → length out ≤ (a + 2 ^ 64 - address) % 2 ^ 64
    → store_bytes memory address out a ≡ memory a
store_bytes-elsewhere memory address a out beyond =
    rw (get_elem?-beyond out ((a + 2 ^ 64 - address) % 2 ^ 64) beyond, store_bytes)

-- Bytes that are stored are in the private region.
store_user_lem :
    (k : Kernel) (address : ℕ) (out : List ℕ) (u : Kernel)
    → store_user k address out ≡ done u
    → (u ≡ record k { memory = store_bytes k.memory address out })
      × (0 < length out → (user_base ≤ address) × (address + length out ≤ 2 ^ 64))
unfolding store_user
store_user_lem k address [] u e = (sym (done-injective e), λ h. absurd (omega arith))
store_user_lem k address (b ∷ bs) u e =
    elim (Bool-cases (leb user_base address && leb (address + length (b ∷ bs)) (2 ^ 64))) [
      | inr outside ↦ absurd (cc)
      | inl inside ↦ (sym (done-injective (rw inside at e)), λ h. ground arith)
    ]

-- Where syscall 54 does not fault on a kernel with valid pipes and for a 64-bit address, it fails and
-- changes nothing, and no handle entitles the caller to receive; or the caller is entitled to receive
-- from a pipe, the oldest bytes of that pipe, as many as there are and fit, are in memory at the
-- address, the pipe holds the rest and stays valid, and no other byte and nothing else of the kernel
-- changes. A byte that is stored outside the private region of the process, from 0x80000000 on, counts
-- as a fault, so that the bytes lie in this region.
pub pipe_receive_lem :
    (k : Kernel) (a1 a2 a3 : ℕ) (r : Outcome)
    → PipesValid k
    → a2 < 2 ^ 64
    → pipe_receive k a1 a2 a3 ≡ done r
    → Received k a1 a2 a3 r
unfolding pipe_receive
pipe_receive_lem k a1 a2 a3 r v small e = go (>>=-eq-done (resolve k a1 right_receive obj_pipe) _ e)
  where
    Rest : ℤ → Exec Outcome
    Rest index = cell k.pipes index >>= λ p.
        let (n, out, p') = pipe_read p (a3 % 2 ^ 32) in
        store_user (record k { pipes = modify k.pipes (pos_part index) (λ _. p') }) a2 out >>= λ u.
        done (returns n u)

    place :
        (n : ℕ) (out : List ℕ)
        → length out ≡ n
        → (0 < length out → (user_base ≤ a2) × (a2 + length out ≤ 2 ^ 64))
        → 0 < n
        → (user_base ≤ a2) × (a2 + n ≤ 2 ^ 64)
    place n out m region lt = rw (← m) (region (omega (arith, m)))

    elsewhere :
        (n : ℕ) (out : List ℕ)
        → length out ≡ n
        → (0 < length out → (user_base ≤ a2) × (a2 + length out ≤ 2 ^ 64))
        → (a : ℕ) → (a < a2) ⊎ ((a2 + n ≤ a) × (a < 2 ^ 64))
        → store_bytes k.memory a2 out a ≡ k.memory a
    elsewhere n out m region a away =
        store_bytes-elsewhere k.memory a2 a out (elim (ℕ_discrete (length out) 0) [
          | yes nothing ↦ omega (arith, nothing)
          | no some_byte ↦
              let (_, top) = region (omega (arith, some_byte)) in
              elim away [ inl below ↦ omega (arith, m) | inr (above, word) ↦ omega (arith, m) ]
        ])

    at_pipe :
        (x : ℕ)
        → resolve k a1 right_receive obj_pipe ≡ done (some (pos x))
        → Rest (pos x) ≡ done r
        → Received k a1 a2 a3 r
    at_pipe x resolved e' =
        let (p, at, e'') = >>=-eq-done (cell k.pipes (pos x)) _ e' in
        let here : get_elem? k.pipes x ≡ some p = at_index-eq-done _ p at in
        let valid : Fifo.IsValid p = v x p here in
        let (n, m, w, c) = pipe_read_refines p (a3 % 2 ^ 32) valid in
        let short : length (pipe_read p (a3 % 2 ^ 32)).1 ≤ pipe_buf_size =
          omega (arith, m, n, valid.count_in) in
        let taken : ℕ = (pipe_read p (a3 % 2 ^ 32)).0 in
        let out : List ℕ = (pipe_read p (a3 % 2 ^ 32)).1 in
        let rest : PipeBuffer = (pipe_read p (a3 % 2 ^ 32)).2 in
        let k' : Kernel = record k { pipes = modify k.pipes x (λ _. rest) } in
        let (u, stored, e3) = >>=-eq-done (store_user k' a2 out) _ e'' in
        let (same, region) = store_user_lem k' a2 out u stored in
        subst (Received k a1 a2 a3) (ap (λ u. returns taken u) (sym same) ∙ done-injective e3) (
          received x taken out p rest (store_bytes k.memory a2 out)
            ((resolve_iff k a1 right_receive obj_pipe (pos x)).0 resolved) here n m w c
            (λ some_byte. place taken out m region some_byte)
            (λ j b got. store_bytes_lem k.memory a2 out j b small short got)
            (λ a away. elsewhere taken out m region a away))

    go :
        (target : Option ℤ) × (resolve k a1 right_receive obj_pipe ≡ done target)
          × (elim target as (λ _. Exec Outcome) [ none ↦ refuse k | some index ↦ Rest index ]
              ≡ done r)
        → Received k a1 a2 a3 r
    go (none, resolved, e') =
        subst (Received k a1 a2 a3) (done-injective e')
          (refused (no_index k a1 right_receive resolved))
    go (some (pos x), resolved, e') = at_pipe x resolved e'
    go (some (negsuc x), resolved, e') = absurd (cc)
