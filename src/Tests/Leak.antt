-- ===== src/Tests/Leak.antt =====
-- A process whose handle table is full opens a channel.
use minic_os.Base.{ℕ, ◌≡◌, refl, true, ◌∷◌, replicate}
use minic_os.Base.Int.{pos, ◌+ℤ◌}
use minic_os.Base.Slots.{position}
use minic_os.Base.Exec.{done, at_index-eq-done}
use minic_os.Ipc.Object.{Handle, alloc_object, alloc_handle, handle_at, object_at}
use minic_os.Syscall.State.{Kernel, Outcome, returns, failure, right_receive, caller_process}
use minic_os.Syscall.NewObject.{publish, publish_slot, publish_handle}
use minic_os.Syscall.Channels.{obj_channel, channel_open, channel_open_for, channel_open_at}
use minic_os.Syscall.Leak.{Leaks, channel_open-Leaks}
use minic_os.Tests.Fixtures.{free_slot, empty_table, same_entry, running}

abbrev held : Handle
held = record { used = true; object_index = 31; rights = right_receive }

abbrev crowded : Kernel
crowded = running (record {
  objects = replicate 32 free_slot;
  object_count = pos 0;
  handle_tables = replicate 8 held ∷ replicate 7 empty_table;
})

abbrev refused_call : Outcome
refused_call = returns failure (record crowded {
  tables = record crowded.tables {
    objects =
        record { used = true; kind = obj_channel; data_index = pos 1 } ∷ replicate 31 free_slot;
    object_count = pos 1;
  };
})

all_held : (j : ℕ) (h : Handle) → handle_at crowded.tables 0 j ≡ done h → h.used ≡ true
unfolding handle_at
all_held j h e = let same : held ≡ h = same_entry 8 held h j (at_index-eq-done _ h e) in rw (← same)

channel_open-Leaks_example : Leaks crowded refused_call
unfolding channel_open channel_open_for channel_open_at publish publish_slot publish_handle
    alloc_object alloc_handle position caller_process object_at ◌+ℤ◌
channel_open-Leaks_example =
    channel_open-Leaks crowded 1 0 1 0 free_slot refused_call refl refl all_held refl refl refl
