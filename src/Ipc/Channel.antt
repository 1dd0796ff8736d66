-- ===== src/Ipc/Channel.antt =====
-- proc/ipc/channel/channel.c: single-slot mailboxes of up to 128 bytes, and the part of
-- kernel/sched/task.c that takes a message once the mailbox is full.
-- A channel is the entry `g_channels[index]`. `channel_send_msg` and `channel_take_msg` run with
-- interrupts off, so each is one step.
pub mod Mailbox
use minic_os.Base.{
  ℕ, suc, ◌+◌, ◌-◌, ◌*◌, ◌/◌, ◌%◌, ◌^◌, Bool, true, false, Option, none, some, List, [], ◌∷◌, ltb,
  leb, if◌then◌else◌, get_or, modify, tabulate,
}
use minic_os.Base.Copy.{copy_loop}

abbrev pub channel_msg_max : ℕ
channel_msg_max = 128

abbrev pub channel_slots : ℕ
channel_slots = 4

-- `channel`
pub record Channel : Type 0 where
  pub used : Bool
  pub full : Bool
  pub msg_len : ℕ
  pub msg_data : List ℕ

-- `g_channels` and `g_channel_count`
pub record Channels : Type 0 where
  pub channels : List Channel
  pub channel_count : ℕ

unfoldable pub create_channel : Channels → Option ℕ × Channels
create_channel t = if leb channel_slots t.channel_count then (none, t) else (
  some t.channel_count,
  record {
    channels = modify t.channels t.channel_count (λ c. record c { used = true; full = false });
    channel_count = t.channel_count + 1;
  },
)

unfoldable pub channel_has_message : Channel → Bool
channel_has_message c = c.full

unfoldable pub channel_send_msg : Channel → (ℕ → ℕ) → ℕ → Bool × Channel
channel_send_msg c bytes len =
    if ltb channel_msg_max len then (false, c) else if c.full then (false, c) else (
      true,
      record c { msg_data = copy_loop bytes 0 len c.msg_data; msg_len = len; full = true },
    )

-- The bytes of `&value`, least significant first.
abbrev pub bytes_of : ℕ → ℕ → ℕ
bytes_of value k = value / 256 ^ k % 256

unfoldable pub channel_send : Channel → ℕ → Bool × Channel
unfolding channel_send_msg
channel_send c value = channel_send_msg c (bytes_of value) 8

-- The real length, the bytes stored in `buf`, and the emptied channel.
unfoldable pub channel_take_msg : Channel → ℕ → ℕ × List ℕ × Channel
channel_take_msg c max_len =
    let copy_len : ℕ = if ltb c.msg_len max_len then c.msg_len else max_len in
    (c.msg_len, tabulate copy_len (λ k. get_or c.msg_data k 0), record c { full = false })

-- The `u64` in memory whose first bytes are these and whose others are 0.
unfoldable pub value_of : List ℕ → ℕ
value_of [] = 0
value_of (b ∷ bs) = b + 256 * value_of bs

-- `channel_receive` from the point where the mailbox is full.
unfoldable pub channel_receive : Channel → ℕ × Channel
unfolding channel_take_msg value_of
channel_receive c = let (_, out, c') = channel_take_msg c 8 in (value_of out, c')
