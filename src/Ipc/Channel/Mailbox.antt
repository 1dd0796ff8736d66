-- ===== src/Ipc/Channel/Mailbox.antt =====
-- A channel is a mailbox that holds one message or none.
use minic_os.Base.{
  ℕ, ◌^◌, ◌≤◌, ◌<◌, min, ◌≡◌, refl, sym, ap, ◌∙◌, ◌⊎◌, inl, inr, true, false, Option, none, some,
  List, ltb, if◌then◌else◌, length, get_or, tabulate, arith, Bool-cases, ltb→lt, length-tabulate,
  take-tabulate, take,
}
use minic_os.Base.Copy.{length-copy_loop, tabulate-copy_loop}
use minic_os.Ipc.Channel.{
  Channel, channel_msg_max, channel_send_msg, channel_send, bytes_of, channel_take_msg,
  channel_receive, value_of,
}

-- A full channel's length fits its buffer.
pub record IsValid (c : Channel) : Type 0 where
  pub room : length c.msg_data ≡ channel_msg_max
  pub fits : c.full ≡ true → c.msg_len ≤ channel_msg_max

-- The message that waits in a channel.
abbrev pub message : Channel → Option (List ℕ)
message c = if c.full then some (tabulate c.msg_len (λ k. get_or c.msg_data k 0)) else none

-- A send succeeds exactly when the mailbox is empty and the message fits it, and then that message
-- waits in it; one that fails changes nothing. The channel stays valid.
pub channel_send_msg_lem :
    (c : Channel) (bytes : ℕ → ℕ) (len : ℕ)
    → IsValid c
    → let (sent, d) = channel_send_msg c bytes len in
      IsValid d
      × (((message c ≡ none)
            × (len ≤ channel_msg_max)
            × (sent ≡ true)
            × (message d ≡ some (tabulate len bytes)))
          ⊎ ((c.full ≡ true) ⊎ (channel_msg_max < len)) × (sent ≡ false) × (d ≡ c))
unfolding channel_send_msg
channel_send_msg_lem c bytes len v = elim (Bool-cases (ltb channel_msg_max len)) [
  | inl long ↦ rw long (v, inr (inr (ltb→lt _ _ long), refl, refl))
  | inr short ↦ rw short (elim (Bool-cases c.full) [
    | inl busy ↦ simp busy (v, inr (inl refl, refl, refl))
    | inr idle ↦ simp idle (
      record { room = length-copy_loop bytes 0 len c.msg_data ∙ v.room; fits = λ h. ground arith },
      inl (
        refl,
        ground arith,
        refl,
        ap some (tabulate-copy_loop bytes len c.msg_data 0 (ground (arith, v.room))),
      ),
    )
  ])
]

-- Taking the message of a full channel gives its real length and as many of its bytes as the
-- caller has room for, and empties the mailbox.
pub channel_take_msg_lem :
    (c : Channel) (max_len : ℕ) (m : List ℕ)
    → IsValid c
    → message c ≡ some m
    → let (len, out, d) = channel_take_msg c max_len in
      (len ≡ length m) × (out ≡ take max_len m) × (message d ≡ none) × IsValid d
unfolding channel_take_msg
channel_take_msg_lem c max_len m v e = elim (Bool-cases c.full) [
  | inr idle ↦ absurd (ground arith)
  | inl busy ↦
      let m' : m ≡ tabulate c.msg_len (λ k. get_or c.msg_data k 0) = ground arith in
      let n : (if ltb c.msg_len max_len then c.msg_len else max_len) ≡ min max_len c.msg_len =
        ground arith in
      rw (m', n)
        (
          sym (length-tabulate c.msg_len _),
          sym (take-tabulate max_len c.msg_len _),
          refl,
          record { room = v.room; fits = λ h. ground arith },
        )
]

value_of-bytes_of : (value : ℕ) → value < 2 ^ 64 → value_of (tabulate 8 (bytes_of value)) ≡ value
unfolding value_of
value_of-bytes_of value h = omega arith

-- What `channel_send` puts into an empty channel, `channel_receive` gets out, for every 64-bit
-- value; and the channel is empty again.
pub channel_receive-send :
    (c : Channel) (value : ℕ)
    → IsValid c
    → c.full ≡ false
    → value < 2 ^ 64
    → let (sent, d) = channel_send c value in
      (sent ≡ true) × ((channel_receive d).0 ≡ value) × (message (channel_receive d).1 ≡ none)
unfolding channel_send channel_receive
channel_receive-send c value v e h = simp e (
  refl,
  ap value_of (tabulate-copy_loop (bytes_of value) 8 c.msg_data 0 (omega (arith, v.room)))
      ∙ value_of-bytes_of value h,
  refl,
)
