-- ===== src/Tests/Fixtures.antt =====
-- The states that the examples start from.
use mathlib.Core.Option.{some-injective}
use minic_os.Base.{
  ℕ, zero, suc, ◌≡◌, refl, arith, Bool, true, false, none, some, get_elem?, List, [], ◌∷◌,
  replicate,
}
use minic_os.Base.Int.{ℤ, pos, negsuc}
use minic_os.Ipc.Object.{KernelObject, Handle, Objects}
use minic_os.Ipc.Pipe.{PipeBuffer}
use minic_os.Ipc.Pipe.Fifo
use minic_os.Ipc.Channel.{Channel}
use minic_os.Sched.Yield.{Flag, Task, Tasks}
use minic_os.Security.Sandbox.{obj_sandbox}
use minic_os.Security.Sandbox.DefaultPolicy.{default_policy}
use minic_os.Syscall.State.{Kernel}

abbrev pub free_slot : KernelObject
free_slot = record { used = false; kind = 0; data_index = pos 0 }

abbrev pub free_entry : Handle
free_entry = record { used = false; object_index = 0; rights = 0 }

abbrev pub empty_table : List Handle
empty_table = replicate 8 free_entry

-- The tables at boot.
abbrev pub boot_objects : Objects
boot_objects = record {
  objects = replicate 32 free_slot;
  object_count = pos 0;
  handle_tables = replicate 8 empty_table;
}

-- Process 0 holds a handle on the sandbox object 0, and nothing else.
abbrev pub sandbox_entry : Handle
sandbox_entry = record { used = true; object_index = 0; rights = 0 }

abbrev pub sandboxed_table : List Handle
sandboxed_table = sandbox_entry ∷ replicate 7 free_entry

abbrev pub sandboxed_objects : Objects
sandboxed_objects = record {
  objects = record { used = true; kind = obj_sandbox; data_index = pos 0 } ∷ replicate 31 free_slot;
  object_count = pos 1;
  handle_tables = sandboxed_table ∷ replicate 7 empty_table;
}

abbrev pub empty_pipe : PipeBuffer
empty_pipe = record {
  used = true;
  buffer = replicate 256 0;
  read_pos = 255;
  write_pos = 255;
  count = 0;
}

abbrev pub empty_channel : Channel
empty_channel = record { used = true; full = false; msg_len = 0; msg_data = replicate 128 0 }

abbrev pub full_channel : Channel
full_channel = record { used = true; full = true; msg_len = 2; msg_data = 7 ∷ 8 ∷ replicate 126 0 }

abbrev pub ready_task : ℤ → Task
ready_task process = record {
  used = true;
  blocked = false;
  wake_tick = 0;
  cr3 = 4096;
  ring3_entry_vaddr = 0;
  ring3_user_stack_top = 0;
  process_index = process;
  waiting_on = none;
  kernel_stack_top = 0;
}

-- A kernel task, which runs, and a task of process 0 that sleeps to tick 5.
abbrev pub sleeper : Task
sleeper = record (ready_task (pos 0)) { blocked = true; wake_tick = 5 }

abbrev pub no_task : Task
no_task = record (ready_task (negsuc 0)) { used = false }

abbrev pub two_tasks : Tasks
two_tasks = record {
  tasks = ready_task (negsuc 0) ∷ sleeper ∷ replicate 22 no_task;
  task_count = 2;
  current_task = 0;
  cr3 = 4096;
  rsp0 = 0;
}

abbrev pub no_flags : Flag → Bool
no_flags f = false

-- Process 0 runs, with the tables given.
abbrev pub running : Objects → Kernel
running t = record {
  tables = t;
  sched = record two_tasks { current_task = 1 };
  pipes = replicate 4 empty_pipe;
  channels = record { channels = replicate 4 empty_channel; channel_count = 2 };
  events = [];
  mutexes = [];
  timers = [];
  policies = replicate 8 default_policy;
  tick_count = 5;
  memory = λ a. 65;
}

pub same_entry :
    {A : Type 0} (n : ℕ) (a b : A) (i : ℕ) → get_elem? (replicate n a) i ≡ some b → a ≡ b
same_entry zero a b i e = absurd (cc)
same_entry (suc n) a b zero e = some-injective _ _ e
same_entry (suc n) a b (suc i) e = same_entry n a b i e

pub empty_pipe-IsValid : Fifo.IsValid empty_pipe
empty_pipe-IsValid = record {
  room = refl;
  read_in = omega arith;
  write_in = omega arith;
  count_in = omega arith;
  meets = refl;
}
