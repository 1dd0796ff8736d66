-- ===== src/Ipc/Pipe.antt =====
-- proc/ipc/pipe/pipe.c: byte pipes, rings of 256 bytes.
-- A pipe is the entry `g_pipes[index]`; the caller's buffer is a function from the offset to the
-- byte, and a read returns the bytes that it stores there.
pub mod Fifo
pub mod Stream
use minic_os.Base.{
  ℕ, zero, suc, ◌+◌, ◌-◌, ◌%◌, ◌^◌, Bool, true, not, Option, none, some, List, [], ◌∷◌, ltb,
  if◌then◌else◌, get_or, set, modify,
}
use minic_os.Base.Slots.{claim}

abbrev pub pipe_buf_size : ℕ
pipe_buf_size = 256

-- `pipe_buffer`
pub record PipeBuffer : Type 0 where
  pub used : Bool
  pub buffer : List ℕ
  pub read_pos : ℕ
  pub write_pos : ℕ
  pub count : ℕ

-- `alloc_pipe`: the first unused slot, with its positions reset.
unfoldable pub alloc_pipe : List PipeBuffer → Option ℕ × List PipeBuffer
unfolding claim
alloc_pipe =
    claim (λ p. not p.used) (λ p. record p { used = true; read_pos = 0; write_pos = 0; count = 0 })

-- The loop of `pipe_write`, with `left` rounds to go at offset `i` of the caller's bytes.
unfoldable pub write_loop : (ℕ → ℕ) → ℕ → ℕ → PipeBuffer → PipeBuffer
write_loop bytes i zero p = p
write_loop bytes i (suc left) p = write_loop bytes (i + 1) left (record p {
  buffer = set p.buffer p.write_pos (bytes i);
  write_pos = (p.write_pos + 1) % pipe_buf_size;
})

unfoldable pub pipe_write : PipeBuffer → (ℕ → ℕ) → ℕ → ℕ × PipeBuffer
unfolding write_loop
pipe_write p bytes len =
    let space : ℕ = (pipe_buf_size + 2 ^ 32 - p.count) % 2 ^ 32 in
    let n : ℕ = if ltb len space then len else space in
    let p' : PipeBuffer = write_loop bytes 0 n p in
    (n, record p' { count = (p'.count + n) % 2 ^ 32 })

-- The loop of `pipe_read`, with `left` rounds to go: the bytes stored, and the pipe.
unfoldable pub read_loop : ℕ → PipeBuffer → List ℕ × PipeBuffer
read_loop zero p = ([], p)
read_loop (suc left) p =
    let (out, p') = read_loop left (record p { read_pos = (p.read_pos + 1) % pipe_buf_size }) in
    (get_or p.buffer p.read_pos 0 ∷ out, p')

unfoldable pub pipe_read : PipeBuffer → ℕ → ℕ × List ℕ × PipeBuffer
unfolding read_loop
pipe_read p max_len =
    let n : ℕ = if ltb max_len p.count then max_len else p.count in
    let (out, p') = read_loop n p in
    (n, out, record p' { count = (p'.count + 2 ^ 32 - n) % 2 ^ 32 })
