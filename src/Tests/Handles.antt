-- ===== src/Tests/Handles.antt =====
-- Two processes that share a pipe.
use minic_os.Base.{◌≡◌, refl, subst, true, [], ◌∷◌, modify, replicate, arith}
use minic_os.Base.Int.{pos}
use minic_os.Base.Exec.{done}
use minic_os.Ipc.Object.{Handle, KernelObject, handle_at, object_at}
use minic_os.Ipc.Pipe.{PipeBuffer, pipe_write, pipe_read}
use minic_os.Ipc.Pipe.Fifo
use minic_os.Syscall.State.{
  Kernel, Outcome, returns, right_send, right_receive, caller_process, handle_of, used_handle,
  caller_handle, object_with_right, object_of_kind, resolve, user_byte, store_bytes, user_base,
  store_user,
}
use minic_os.Syscall.Pipes.{obj_pipe, pipe_send, pipe_receive}
use minic_os.Syscall.PipeCalls.{PipesValid, Sent, Received, pipe_send_lem, pipe_receive_lem}
use minic_os.Syscall.Handles.{handle_close}
use minic_os.Syscall.Rights.{Holds}
use minic_os.Syscall.Stale.{Dangling, handle_close-dangles}
use minic_os.Tests.Fixtures.{
  free_slot, free_entry, empty_table, empty_pipe, empty_pipe-IsValid, same_entry, running,
}

abbrev sender : Handle
sender = record { used = true; object_index = 0; rights = right_send }

abbrev receiver : Handle
receiver = record { used = true; object_index = 0; rights = right_receive }

abbrev pipe_object : KernelObject
pipe_object = record { used = true; kind = obj_pipe; data_index = pos 2 }

-- Process 0 may send to and receive from pipe 2, and process 1 may receive from it.
abbrev shared : Kernel
shared = running (record {
  objects = pipe_object ∷ replicate 31 free_slot;
  object_count = pos 1;
  handle_tables =
      (sender ∷ receiver ∷ replicate 6 free_entry)
      ∷ (receiver ∷ replicate 7 free_entry)
      ∷ replicate 6 empty_table;
})

shared-PipesValid : PipesValid shared
shared-PipesValid i p at = subst Fifo.IsValid (same_entry 4 empty_pipe p i at) empty_pipe-IsValid

abbrev after_send : Outcome
unfolding pipe_write
after_send = returns 3 (record shared {
  pipes = modify shared.pipes 2 (λ _. (pipe_write empty_pipe (user_byte shared 4096) 3).1);
})

pipe_send_lem_example : Sent shared 0 4096 3 after_send
unfolding pipe_send resolve caller_handle caller_process handle_of used_handle object_with_right
    object_of_kind handle_at object_at pipe_write
pipe_send_lem_example = pipe_send_lem shared 0 4096 3 after_send shared-PipesValid refl

-- Every pipe holds three bytes, two of them at the end of the ring.
abbrev three_bytes : PipeBuffer
three_bytes = record {
  used = true;
  buffer = replicate 256 7;
  read_pos = 254;
  write_pos = 1;
  count = 3;
}

three_bytes-IsValid : Fifo.IsValid three_bytes
three_bytes-IsValid = record {
  room = refl;
  read_in = omega arith;
  write_in = omega arith;
  count_in = omega arith;
  meets = refl;
}

abbrev holding : Kernel
holding = record shared { pipes = replicate 4 three_bytes }

holding-PipesValid : PipesValid holding
holding-PipesValid i p at = subst Fifo.IsValid (same_entry 4 three_bytes p i at) three_bytes-IsValid

abbrev after_receive : Outcome
after_receive = returns 2 (record holding {
  pipes = modify holding.pipes 2 (λ _. record three_bytes { read_pos = 0; count = 1 });
  memory = store_bytes holding.memory user_base (7 ∷ 7 ∷ []);
})

pipe_receive_lem_example : Received holding 1 user_base 2 after_receive
unfolding pipe_receive resolve caller_handle caller_process handle_of used_handle object_with_right
    object_of_kind handle_at object_at pipe_read store_user
pipe_receive_lem_example =
    pipe_receive_lem holding 1 user_base 2 after_receive holding-PipesValid (omega arith) refl

shared-Holds : Holds shared 0 0 0 sender
unfolding caller_process handle_at
shared-Holds = record { calls = refl; index = refl; found = refl; used = refl }

handle_close-dangles_example :
    (u : Kernel) × (handle_close shared 0 ≡ done (returns 0 u)) × Dangling u.tables 1 0
unfolding handle_at object_at
handle_close-dangles_example =
    handle_close-dangles shared 0 0 0 1 0 sender receiver pipe_object shared-Holds
      (λ e. omega arith) refl refl refl refl
