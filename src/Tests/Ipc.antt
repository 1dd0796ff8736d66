-- ===== src/Tests/Ipc.antt =====
-- The objects, pipes and channels on small states.
use minic_os.Base.{
  ℕ, ◌≡◌, refl, ◌+◌, ◌%◌, ◌<◌, ◌≤◌, min, ◌⊎◌, true, false, none, some, List, [], ◌∷◌, ◌++◌, length,
  tabulate, replicate, arith,
}
use minic_os.Base.Int.{pos}
use minic_os.Base.Slots.{count_if}
use minic_os.Base.Exec.{done}
use minic_os.Ipc.Object.{Objects, KernelObject, object_at}
use minic_os.Ipc.Object.Inv
use minic_os.Ipc.Object.Run
use minic_os.Ipc.Object.Count.{Counted}
use minic_os.Ipc.Pipe.{pipe_write, pipe_read}
use minic_os.Ipc.Pipe.Fifo
use minic_os.Ipc.Pipe.Fifo.{contents, accepted, pipe_write_refines, pipe_read_refines}
use minic_os.Ipc.Pipe.Stream.{Call, writes, reads, run, run_fifo}
use minic_os.Ipc.Channel.{channel_msg_max, channel_send, channel_send_msg, channel_receive}
use minic_os.Ipc.Channel.Mailbox
use minic_os.Ipc.Channel.Mailbox.{
  message, channel_send_msg_lem, channel_take_msg_lem, channel_receive-send,
}
use minic_os.Tests.Fixtures.{
  boot_objects, free_slot, empty_table, free_entry, empty_pipe, empty_pipe-IsValid, empty_channel,
  full_channel, same_entry,
}

boot-IsValid : Inv.IsValid boot_objects
boot-IsValid = record {
  object_room = refl;
  table_room = refl;
  tables = λ p hs e. rw (← same_entry 8 empty_table hs p e) (record {
    size = refl;
    names = λ i h e' u.
        let idle : free_entry ≡ h = same_entry 8 free_entry h i e' in absurd (ground arith);
  });
}

-- Boot with two objects.
abbrev two_objects : Objects
two_objects = record boot_objects {
  objects =
      record { used = true; kind = 7; data_index = pos 0 }
      ∷ record { used = true; kind = 1; data_index = pos 3 }
      ∷ replicate 30 free_slot;
  object_count = pos 2;
}

two_objects-IsValid : Inv.IsValid two_objects
two_objects-IsValid = record { object_room = refl; table_room = refl; tables = boot-IsValid.tables }

-- Object 0 is released, and its slot is taken for another.
abbrev reused : List Run.Call
reused =
    Run.old_object 0 ∷ Run.new_object 7 (pos 2) ∷ Run.new_handle 3 0 2 ∷ Run.old_handle 3 0 ∷ []

two_objects-Counted : Counted two_objects
unfolding count_if
two_objects-Counted = refl

reused-AllProper : Run.AllProper reused two_objects
unfolding object_at
reused-AllProper = (
  (omega arith, _, refl, refl),
  λ u run. (
    tt,
    λ u run. ((omega arith, omega arith), λ u run. ((omega arith, omega arith), λ u run. tt)),
  ),
)

calls-Counted_example :
    (u : Objects) × (Run.calls reused two_objects ≡ done u)
    × Inv.IsValid u
    × Counted u
    × ((o : ℕ) (b : KernelObject)
        → Run.AllSpare o reused
        → object_at two_objects o ≡ done b
        → b.used ≡ true
        → object_at u o ≡ done b)
calls-Counted_example =
    Run.calls-Counted reused two_objects two_objects-IsValid two_objects-Counted reused-AllProper

-- The bytes 65, 66, 67, ...
letters : ℕ → ℕ
letters k = (k + 65) % 256

pipe_write_refines_example :
    let (n, q) = pipe_write empty_pipe letters 300 in
    (n ≡ accepted empty_pipe 300)
    × Fifo.IsValid q
    × (contents q ≡ contents empty_pipe ++ tabulate n letters)
pipe_write_refines_example = pipe_write_refines empty_pipe letters 300 empty_pipe-IsValid

pipe_read_refines_example :
    let (n, out, q) = pipe_read empty_pipe 4 in
    (n ≡ min 4 empty_pipe.count)
    × (length out ≡ n)
    × Fifo.IsValid q
    × (contents empty_pipe ≡ out ++ contents q)
pipe_read_refines_example = pipe_read_refines empty_pipe 4 empty_pipe-IsValid

abbrev calls : List Call
calls = writes letters 3 ∷ reads 2 ∷ writes letters 300 ∷ reads 9 ∷ []

run_fifo_example :
    let (sent, got, q) = run empty_pipe calls in
    (contents empty_pipe ++ sent ≡ got ++ contents q) × Fifo.IsValid q
run_fifo_example = run_fifo calls empty_pipe empty_pipe-IsValid

empty_channel-IsValid : Mailbox.IsValid empty_channel
empty_channel-IsValid = record { room = refl; fits = λ e. absurd (cc) }

full_channel-IsValid : Mailbox.IsValid full_channel
full_channel-IsValid = record { room = refl; fits = λ e. omega arith }

channel_send_msg_lem_example :
    let (sent, d) = channel_send_msg empty_channel letters 5 in
    Mailbox.IsValid d
    × (((message empty_channel ≡ none)
          × (5 ≤ channel_msg_max)
          × (sent ≡ true)
          × (message d ≡ some (tabulate 5 letters)))
        ⊎ ((empty_channel.full ≡ true) ⊎ (channel_msg_max < 5))
          × (sent ≡ false)
          × (d ≡ empty_channel))
channel_send_msg_lem_example = channel_send_msg_lem empty_channel letters 5 empty_channel-IsValid

channel_receive-send_example :
    let (sent, d) = channel_send empty_channel 70000 in
    (sent ≡ true) × ((channel_receive d).0 ≡ 70000) × (message (channel_receive d).1 ≡ none)
channel_receive-send_example =
    channel_receive-send empty_channel 70000 empty_channel-IsValid refl (omega arith)
