-- ===== src/Syscall/Channels.antt =====
-- kernel/syscall/handlers/channel.c: syscalls 7 to 9, 85 and 86, with the waiting loops of
-- `channel_receive` and `channel_receive_msg` (kernel/sched/task.c).
use minic_os.Base.{ℕ, ◌%◌, ◌^◌, Option, none, some, ◌==◌, ltb, if◌then◌else◌, modify}
use minic_os.Base.Int.{ℤ, pos, negsuc, int_of, pos_part, index_below}
use minic_os.Base.Exec.{Exec, done, ◌>>=◌}
use minic_os.Ipc.Channel.{
  Channel, channel_msg_max, channel_has_message, channel_send, channel_send_msg, channel_take_msg,
  channel_receive,
}
use minic_os.Sched.Yield.{channel_full}
use minic_os.Syscall.NewObject.{publish}
use minic_os.Syscall.State.{
  Kernel, Outcome, returns, waits, unclaimed, refuse, failure, right_send, right_receive,
  caller_process, resolve, cell, user_byte, store_user, block_on,
}

abbrev pub obj_channel : ℕ
obj_channel = 2

-- `g_channels[index] = c`
abbrev pub put_channel : Kernel → ℤ → Channel → Kernel
put_channel k index c = record k {
  channels = record k.channels { channels = modify k.channels.channels (pos_part index) (λ _. c) };
}

-- Syscall 7.
unfoldable pub send_value : Kernel → ℕ → ℕ → Exec Outcome
send_value k a1 a2 = do
  target ← resolve k a1 right_send obj_channel
  elim target [
    | none ↦ refuse k
    | some index ↦ do
      c ← cell k.channels.channels index
      let (sent, c') = channel_send c a2
      done (returns (if sent then 0 else failure) (put_channel k index c'))
  ]

-- A round of the loop of `channel_receive`. A task that waits goes on with another round.
unfoldable pub receive_value_round : Kernel → ℤ → Exec Outcome
receive_value_round k index = do
  c ← cell k.channels.channels index
  let (value, c') = channel_receive c
  done (
      if channel_has_message c
      then returns value (put_channel k index c')
      else waits (block_on k (channel_full (pos_part index))))

-- Syscall 8, up to its return or its first `yield`.
unfoldable pub receive_value : Kernel → ℕ → Exec Outcome
receive_value k a1 = do
  target ← resolve k a1 right_receive obj_channel
  elim target [ none ↦ refuse k | some index ↦ receive_value_round k index ]

-- Syscall 9: a handle to receive from the channel `(int) a1`, if there is one.
unfoldable pub channel_open_at : Kernel → ℕ → Option ℕ → Exec Outcome
channel_open_at k process none = refuse k
channel_open_at k process (some index) = publish k process obj_channel (pos index) right_receive

unfoldable pub channel_open_for : Kernel → ℕ → ℤ → Exec Outcome
channel_open_for k a1 (negsuc n) = refuse k
channel_open_for k a1 (pos p) =
    channel_open_at k p (index_below k.channels.channel_count (int_of a1))

unfoldable pub channel_open : Kernel → ℕ → Exec Outcome
unfolding channel_open_for channel_open_at publish
channel_open k a1 = caller_process k >>= channel_open_for k a1

-- Syscall 85.
unfoldable pub send_message : Kernel → ℕ → ℕ → ℕ → Exec Outcome
send_message k a1 a2 a3 = do
  target ← resolve k a1 right_send obj_channel
  elim target [
    | none ↦ refuse k
    | some index ↦
        let len : ℕ = a3 % 2 ^ 32 in
        let rest : Exec Outcome = (do
          c ← cell k.channels.channels index
          let (sent, c') = channel_send_msg c (user_byte k a2) len
          done (returns (if sent then 0 else failure) (put_channel k index c'))) in
        if ltb channel_msg_max len then refuse k else rest
  ]

-- A round of the loop of `channel_receive_msg`.
unfoldable pub receive_message_round : Kernel → ℤ → ℕ → ℕ → Exec Outcome
receive_message_round k index address max_len = do
  c ← cell k.channels.channels index
  let (len, out, c') = channel_take_msg c max_len
  let k' = put_channel k index c'
  let taken : Exec Outcome = store_user k' address out >>= λ u. done (returns len u)
  let blocked : Exec Outcome = done (waits (block_on k (channel_full (pos_part index))))
  if channel_has_message c then taken else blocked

-- Syscall 86, up to its return or its first `yield`.
unfoldable pub receive_message : Kernel → ℕ → ℕ → ℕ → Exec Outcome
receive_message k a1 a2 a3 = do
  target ← resolve k a1 right_receive obj_channel
  elim target [ none ↦ refuse k | some index ↦ receive_message_round k index a2 (a3 % 2 ^ 32) ]

unfoldable pub syscall_channel : Kernel → ℕ → ℕ → ℕ → ℕ → Exec Outcome
syscall_channel k num a1 a2 a3 =
    if num == 7
    then send_value k a1 a2
    else if num == 8
    then receive_value k a1
    else if num == 9
    then channel_open k a1
    else if num == 85
    then send_message k a1 a2 a3
    else if num == 86
    then receive_message k a1 a2 a3
    else done unclaimed
