-- ===== src/Syscall/Pipes.antt =====
-- kernel/syscall/handlers/pipe.c: syscalls 52 to 54.
use minic_os.Base.{ℕ, ◌%◌, ◌^◌, none, some, ◌==◌, if◌then◌else◌, modify}
use minic_os.Base.Int.{ℤ, pos, negsuc, int_of, pos_part}
use minic_os.Base.Exec.{Exec, done, ◌>>=◌}
use minic_os.Ipc.Pipe.{pipe_write, pipe_read}
use minic_os.Syscall.NewObject.{open_object}
use minic_os.Syscall.State.{
  Kernel, Outcome, returns, unclaimed, refuse, right_send, right_receive, caller_process, resolve,
  cell, user_byte, store_user,
}

abbrev pub obj_pipe : ℕ
obj_pipe = 7

-- Syscall 52: a handle on the pipe `(int) a1`, to send if `a2` is not 0.
unfoldable pub pipe_open_for : Kernel → ℕ → ℕ → ℤ → Exec Outcome
pipe_open_for k a1 a2 (negsuc n) = refuse k
pipe_open_for k a1 a2 (pos p) =
    open_object k p obj_pipe (int_of a1) (if a2 == 0 then right_receive else right_send)

unfoldable pub pipe_open : Kernel → ℕ → ℕ → Exec Outcome
unfolding pipe_open_for open_object
pipe_open k a1 a2 = caller_process k >>= pipe_open_for k a1 a2

-- Syscall 53.
unfoldable pub pipe_send : Kernel → ℕ → ℕ → ℕ → Exec Outcome
pipe_send k a1 a2 a3 = do
  target ← resolve k a1 right_send obj_pipe
  elim target [
    | none ↦ refuse k
    | some index ↦ do
      p ← cell k.pipes index
      let (n, p') = pipe_write p (user_byte k a2) (a3 % 2 ^ 32)
      done (returns n (record k { pipes = modify k.pipes (pos_part index) (λ _. p') }))
  ]

-- Syscall 54.
unfoldable pub pipe_receive : Kernel → ℕ → ℕ → ℕ → Exec Outcome
pipe_receive k a1 a2 a3 = do
  target ← resolve k a1 right_receive obj_pipe
  elim target [
    | none ↦ refuse k
    | some index ↦ do
      p ← cell k.pipes index
      let (n, out, p') = pipe_read p (a3 % 2 ^ 32)
      u ← store_user (record k { pipes = modify k.pipes (pos_part index) (λ _. p') }) a2 out
      done (returns n u)
  ]

unfoldable pub syscall_pipe : Kernel → ℕ → ℕ → ℕ → ℕ → Exec Outcome
syscall_pipe k num a1 a2 a3 =
    if num == 52
    then pipe_open k a1 a2
    else if num == 53
    then pipe_send k a1 a2 a3
    else if num == 54
    then pipe_receive k a1 a2 a3
    else done unclaimed
