-- ===== src/Ipc/Pipe/Fifo.antt =====
-- A pipe is a bounded queue of bytes, oldest first.
use minic_os.Base.{
  ℕ, zero, suc, ◌+◌, ◌-◌, ◌%◌, ◌^◌, ◌≤◌, ◌<◌, min, ◌≡◌, refl, ap, ap₂, ◌∙◌, ◌≢◌, List, ◌++◌, ltb,
  if◌then◌else◌, length, get_or, set, length-set, get_or-set_self, get_or-set_ne, tabulate,
  length-tabulate, tabulate-ext, tabulate-add, arith,
}
use minic_os.Ipc.Pipe.{PipeBuffer, pipe_buf_size, write_loop, pipe_write, read_loop, pipe_read}

pub record IsValid (p : PipeBuffer) : Type 0 where
  pub room : length p.buffer ≡ pipe_buf_size
  pub read_in : p.read_pos < pipe_buf_size
  pub write_in : p.write_pos < pipe_buf_size
  pub count_in : p.count ≤ pipe_buf_size
  pub meets : p.write_pos ≡ (p.read_pos + p.count) % pipe_buf_size

-- The byte `k` places behind the oldest.
abbrev byte_at : PipeBuffer → ℕ → ℕ
byte_at p k = get_or p.buffer ((p.read_pos + k) % pipe_buf_size) 0

-- The queue that a pipe holds.
abbrev pub contents : PipeBuffer → List ℕ
contents p = tabulate p.count (byte_at p)

-- What the write loop has stored after `n` rounds from offset `i`, in the pipe `q`.
record Stored (bytes : ℕ → ℕ) (i n : ℕ) (p q : PipeBuffer) : Type 0 where
  room : length q.buffer ≡ length p.buffer
  same : (q.read_pos ≡ p.read_pos) × (q.count ≡ p.count) × (q.used ≡ p.used)
  write_pos : q.write_pos ≡ (p.write_pos + n) % pipe_buf_size
  new : (k : ℕ) → k < n → get_or q.buffer ((p.write_pos + k) % pipe_buf_size) 0 ≡ bytes (i + k)
  old :
      (j : ℕ)
      → ((k : ℕ) → k < n → j ≢ (p.write_pos + k) % pipe_buf_size)
      → get_or q.buffer j 0 ≡ get_or p.buffer j 0

-- The pipe after one round.
abbrev put_one : (ℕ → ℕ) → ℕ → PipeBuffer → PipeBuffer
put_one bytes i p = record p {
  buffer = set p.buffer p.write_pos (bytes i);
  write_pos = (p.write_pos + 1) % pipe_buf_size;
}

module _ (bytes : ℕ → ℕ) (i n : ℕ) (p q : PipeBuffer) (room : length p.buffer ≡ pipe_buf_size)
    (lt : p.write_pos < pipe_buf_size) (le : suc n ≤ pipe_buf_size)
    (ih : Stored bytes (i + 1) n (put_one bytes i p) q) where
  first_byte : get_or q.buffer p.write_pos 0 ≡ bytes i
  first_byte =
      ih.old p.write_pos (λ k h. omega arith)
      ∙ get_or-set_self p.buffer p.write_pos (bytes i) 0 (omega arith)

  Stored-new :
      (k : ℕ) → k < suc n → get_or q.buffer ((p.write_pos + k) % pipe_buf_size) 0 ≡ bytes (i + k)
  Stored-new zero h =
      let e : (p.write_pos + 0) % pipe_buf_size ≡ p.write_pos = omega arith in
      let e' : i + 0 ≡ i = omega arith in rw (e, e') first_byte
  Stored-new (suc k) h =
      let e : (p.write_pos + suc k) % pipe_buf_size
          ≡ ((p.write_pos + 1) % pipe_buf_size + k) % pipe_buf_size =
        omega arith in
      let e' : i + suc k ≡ i + 1 + k = omega arith in rw (e, e') (ih.new k (omega arith))

  Stored-old :
      (j : ℕ)
      → ((k : ℕ) → k < suc n → j ≢ (p.write_pos + k) % pipe_buf_size)
      → get_or q.buffer j 0 ≡ get_or p.buffer j 0
  Stored-old j apart =
      ih.old j (λ k h. omega (arith, apart (suc k) (omega arith)))
      ∙ get_or-set_ne p.buffer p.write_pos j (bytes i) 0 (omega (arith, apart 0 (omega arith)))

  Stored-suc : Stored bytes i (suc n) p q
  Stored-suc = record {
    room = ih.room ∙ length-set p.buffer p.write_pos (bytes i);
    same = ih.same;
    write_pos = omega (arith, ih.write_pos);
    new = Stored-new;
    old = Stored-old;
  }

write_loop-Stored :
    (bytes : ℕ → ℕ) (i n : ℕ) (p : PipeBuffer)
    → length p.buffer ≡ pipe_buf_size
    → p.write_pos < pipe_buf_size
    → n ≤ pipe_buf_size
    → Stored bytes i n p (write_loop bytes i n p)
unfolding write_loop
write_loop-Stored bytes i zero p room lt le = record {
  room = refl;
  same = (refl, refl, refl);
  write_pos = omega arith;
  new = λ k h. absurd (omega arith);
  old = λ j h. refl;
}
write_loop-Stored bytes i (suc n) p room lt le = Stored-suc bytes i n p _ room lt le (
    write_loop-Stored bytes (i + 1) n (put_one bytes i p)
      (length-set p.buffer p.write_pos (bytes i) ∙ room) (omega arith) (omega arith))

-- How many bytes a write takes.
abbrev pub accepted : PipeBuffer → ℕ → ℕ
accepted p len = min len (pipe_buf_size - p.count)

module _ (p q : PipeBuffer) (bytes : ℕ → ℕ) (n : ℕ) (v : IsValid p)
    (fits : n ≤ pipe_buf_size - p.count) (s : Stored bytes 0 n p q) (c : q.count ≡ p.count) where
  -- The pipe when the loop is done.
  closed : PipeBuffer
  closed = record q { count = (q.count + n) % 2 ^ 32 }

  closed-count : closed.count ≡ p.count + n
  unfolding closed
  closed-count = omega (arith, c, v.count_in)

  closed-IsValid : IsValid closed
  unfolding closed
  closed-IsValid = record {
    room = s.room ∙ v.room;
    read_in = omega (arith, s.same.0, v.read_in);
    write_in = omega (arith, s.write_pos);
    count_in = omega (arith, c, v.count_in);
    meets = omega (arith, s.same.0, s.write_pos, v.meets, c);
  }

  kept : (k : ℕ) → k < p.count → byte_at closed k ≡ byte_at p k
  unfolding closed
  kept k h =
      rw s.same.0
        (s.old ((p.read_pos + k) % pipe_buf_size) (λ j lt. omega (arith, v.meets, v.count_in)))

  added : (k : ℕ) → k < n → byte_at closed (p.count + k) ≡ bytes k
  unfolding closed
  added k h =
      let e : (q.read_pos + (p.count + k)) % pipe_buf_size ≡ (p.write_pos + k) % pipe_buf_size =
        omega (arith, s.same.0, v.meets) in
      rw e (s.new k h ∙ ap bytes (omega arith))

  closed-contents : contents closed ≡ contents p ++ tabulate n bytes
  closed-contents =
      ap (λ m. tabulate m (byte_at closed)) closed-count
      ∙ tabulate-add p.count n (byte_at closed)
      ∙ ap₂ ◌++◌ (tabulate-ext p.count _ _ kept) (tabulate-ext n _ _ added)

-- A write takes as many bytes as fit, and leaves the pipe valid and holding them behind what it
-- held.
pub pipe_write_refines :
    (p : PipeBuffer) (bytes : ℕ → ℕ) (len : ℕ)
    → IsValid p
    → let (n, q) = pipe_write p bytes len in
      (n ≡ accepted p len) × IsValid q × (contents q ≡ contents p ++ tabulate n bytes)
unfolding pipe_write closed
pipe_write_refines p bytes len v =
    rw taken (refl, closed-IsValid p _ bytes n v fits s c, closed-contents p _ bytes n v fits s c)
  where
    n : ℕ
    n = accepted p len

    space : ℕ
    space = (pipe_buf_size + 2 ^ 32 - p.count) % 2 ^ 32

    taken : (if ltb len space then len else space) ≡ n
    taken = ground (arith, v.count_in)

    fits : n ≤ pipe_buf_size - p.count
    fits = omega arith

    s : Stored bytes 0 n p (write_loop bytes 0 n p)
    s = write_loop-Stored bytes 0 n p v.room v.write_in (omega arith)

    c : (write_loop bytes 0 n p).count ≡ p.count
    c = s.same.1

-- What the read loop hands over, and where it leaves the pipe.
read_loop_lem :
    (n : ℕ) (p : PipeBuffer)
    → p.read_pos < pipe_buf_size
    → read_loop n p
      ≡ (tabulate n (byte_at p), record p { read_pos = (p.read_pos + n) % pipe_buf_size })
unfolding read_loop
read_loop_lem zero p h = let e : (p.read_pos + 0) % pipe_buf_size ≡ p.read_pos = omega arith in rw e
read_loop_lem (suc n) p h =
    let rest =
      read_loop_lem n (record p { read_pos = (p.read_pos + 1) % pipe_buf_size }) (omega arith) in
    let next : ((p.read_pos + 1) % pipe_buf_size + n) % pipe_buf_size
        ≡ (p.read_pos + suc n) % pipe_buf_size =
      omega arith in
    let first : (p.read_pos + 0) % pipe_buf_size ≡ p.read_pos = omega arith in
    let others : tabulate n (byte_at (record p { read_pos = (p.read_pos + 1) % pipe_buf_size }))
        ≡ tabulate n (λ k. byte_at p (suc k)) =
      tabulate-ext n _ _ (λ k lt. ap (λ j. get_or p.buffer j 0) (omega arith)) in
    rw (rest, next, first, others)

module _ (p : PipeBuffer) (n : ℕ) (v : IsValid p) (le : n ≤ p.count) where
  -- The pipe after a read of `n` bytes.
  shrunk : PipeBuffer
  shrunk = record p {
    read_pos = (p.read_pos + n) % pipe_buf_size;
    count = (p.count + 2 ^ 32 - n) % 2 ^ 32;
  }

  shrunk-IsValid : IsValid shrunk
  unfolding shrunk
  shrunk-IsValid = record {
    room = v.room;
    read_in = omega arith;
    write_in = v.write_in;
    count_in = omega (arith, v.count_in);
    meets = omega (arith, v.meets, v.count_in);
  }

  shrunk-contents : contents p ≡ tabulate n (byte_at p) ++ contents shrunk
  unfolding shrunk
  shrunk-contents =
      ap (λ m. tabulate m (byte_at p)) split
      ∙ tabulate-add n shrunk.count (byte_at p)
      ∙ ap (λ ys. tabulate n (byte_at p) ++ ys) (tabulate-ext shrunk.count _ _ moved)
    where
      split : p.count ≡ n + shrunk.count
      split = omega (arith, v.count_in)

      moved : (k : ℕ) → k < shrunk.count → byte_at p (n + k) ≡ byte_at shrunk k
      moved k lt = ap (λ j. get_or p.buffer j 0) (omega arith)

-- A read hands over as many of the oldest bytes as there are and fit, and leaves the pipe valid
-- and holding the rest.
pub pipe_read_refines :
    (p : PipeBuffer) (max_len : ℕ)
    → IsValid p
    → let (n, out, q) = pipe_read p max_len in
      (n ≡ min max_len p.count) × (length out ≡ n) × IsValid q × (contents p ≡ out ++ contents q)
unfolding pipe_read shrunk
pipe_read_refines p max_len v =
    rw (taken, read_loop_lem n p v.read_in)
      (refl, length-tabulate n (byte_at p), shrunk-IsValid p n v le, shrunk-contents p n v le)
  where
    n : ℕ
    n = min max_len p.count

    le : n ≤ p.count
    le = omega arith

    taken : (if ltb max_len p.count then max_len else p.count) ≡ n
    taken = ground arith
