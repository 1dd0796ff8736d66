-- ===== src/Strings/Address.antt =====
-- kernel/lib/strings.c: `parse_ip` and `parse_ip6`, the readers of network addresses.
-- A string is the list of its characters up to the terminating 0, and `out` is the caller's array.
pub mod Ip
pub mod Ip6
pub mod Ip6Write
use minic_os.Base.{
  ℕ, zero, suc, ◌+◌, ◌-◌, ◌*◌, ◌/◌, ◌%◌, ◌^◌, Bool, true, false, not, ◌&&◌, ◌||◌, List, [], ◌∷◌,
  Option, none, some, ◌==◌, ltb, leb, if◌then◌else◌, length, get_elem?, set, replicate,
}
use minic_os.Base.Exec.{Exec, done, fault, ◌>>=◌, at_index}

abbrev pub is_digit : ℕ → Bool
is_digit c = leb b'0' c && leb c b'9'

-- The loop of `parse_ip`: the octets so far, the value and the number of digits of the next one.
unfoldable pub ip_loop : ℕ → ℕ → ℕ → List ℕ → List ℕ → Bool × List ℕ
ip_loop octet value digits [] out =
    if digits == 0 || leb 4 octet
    then (false, out)
    else (octet + 1 == 4, set out octet (value % 2 ^ 8))
ip_loop octet value digits (c ∷ s) out =
    let value' : ℕ = value * 10 + (c - b'0') in
    let next_digit : Bool × List ℕ = ip_loop octet value' (digits + 1) s out in
    let next_octet : Bool × List ℕ = ip_loop (octet + 1) 0 0 s (set out octet (value % 2 ^ 8)) in
    if is_digit c
    then (if ltb 3 (digits + 1) || ltb 255 value' then (false, out) else next_digit)
    else if c == b'.'
    then (if digits == 0 || leb 4 octet then (false, out) else next_octet)
    else (false, out)

unfoldable pub parse_ip : List ℕ → List ℕ → Bool × List ℕ
unfolding ip_loop
parse_ip s out = ip_loop 0 0 0 s out

-- The locals of `parse_ip6`; `value`, `hex_digits` and `have_value` are those of the group being read.
pub record Ip6State : Type 0 where
  pub groups : List ℕ
  pub group_count : ℕ
  pub compress_at : Option ℕ
  pub value : ℕ
  pub hex_digits : ℕ
  pub have_value : Bool

abbrev pub is_hex : ℕ → Bool
is_hex c = is_digit c || leb b'a' c && leb c b'f' || leb b'A' c && leb c b'F'

abbrev pub hex_value : ℕ → ℕ
hex_value c =
    if is_digit c
    then c - b'0'
    else if leb b'a' c && leb c b'f'
    then c - b'a' + 10
    else c - b'A' + 10

-- `groups[group_count] = (u16) value; group_count++;` and the reset of the group being read.
abbrev pub push_group : Ip6State → Exec Ip6State
push_group st = at_index (get_elem? st.groups st.group_count) >>= λ _. done (record st {
  groups = set st.groups st.group_count (st.value % 2 ^ 16);
  group_count = st.group_count + 1;
  value = 0;
  hex_digits = 0;
  have_value = false;
})

abbrev pub push_if_any : Ip6State → Exec Ip6State
push_if_any st = if st.have_value then push_group st else done st

abbrev pub with_digit : ℕ → Ip6State → Ip6State
with_digit c st = record st {
  value = st.value * 16 + hex_value c;
  hex_digits = st.hex_digits + 1;
  have_value = true;
}

abbrev pub is_some : Option ℕ → Bool
is_some none = false
is_some (some n) = true

-- The reading loop of `parse_ip6`; `none` is the answer false.
unfoldable pub ip6_loop : List ℕ → Ip6State → Exec (Option Ip6State)
ip6_loop [] st =
    let last : Exec (Option Ip6State) =
      if leb 8 st.group_count then done none else (push_group st >>= λ st'. done (some st')) in
    if st.have_value then last else done (some st)
ip6_loop (c ∷ []) st =
    let digit : Exec (Option Ip6State) = ip6_loop [] (with_digit c st) in
    let colon : Exec (Option Ip6State) = push_group st >>= λ st'. ip6_loop [] st' in
    if is_hex c
    then (if ltb 4 (st.hex_digits + 1) || leb 8 st.group_count then done none else digit)
    else if c == b':'
    then (if st.have_value then colon else done none)
    else done none
ip6_loop (c ∷ d ∷ s) st =
    let digit : Exec (Option Ip6State) = ip6_loop (d ∷ s) (with_digit c st) in
    let colon : Exec (Option Ip6State) = push_group st >>= λ st'. ip6_loop (d ∷ s) st' in
    let double_colon : Exec (Option Ip6State) =
      push_if_any st >>= λ st'. ip6_loop s (record st' { compress_at = some st'.group_count }) in
    if is_hex c
    then (if ltb 4 (st.hex_digits + 1) || leb 8 st.group_count then done none else digit)
    else if c == b':'
    then (if d == b':'
        then (if is_some st.compress_at then done none else double_colon)
        else if st.have_value
        then colon
        else done none)
    else done none

-- The loops that write: `left` groups from `g` on, each as two bytes at `out_idx`.
unfoldable pub write_groups : ℕ → ℕ → ℕ → List ℕ → List ℕ → Exec (List ℕ)
write_groups zero g out_idx groups out = done out
write_groups (suc left) g out_idx groups out = do
  group ← at_index (get_elem? groups g)
  first ← at_index (get_elem? out (out_idx * 2))
  second ← at_index (get_elem? out (out_idx * 2 + 1))
  let out' : List ℕ = set (set out (out_idx * 2) (group / 2 ^ 8)) (out_idx * 2 + 1) (group % 2 ^ 8)
  write_groups left (g + 1) (out_idx + 1) groups out'

unfoldable pub write_zeros : ℕ → ℕ → List ℕ → Exec (List ℕ)
write_zeros zero out_idx out = done out
write_zeros (suc left) out_idx out = do
  first ← at_index (get_elem? out (out_idx * 2))
  second ← at_index (get_elem? out (out_idx * 2 + 1))
  write_zeros left (out_idx + 1) (set (set out (out_idx * 2) 0) (out_idx * 2 + 1) 0)

-- What follows the reading loop, for the position of "::".
unfoldable pub expand : Option ℕ → Ip6State → List ℕ → Exec (Bool × List ℕ)
unfolding write_groups write_zeros
expand none st out =
    let all : Exec (Bool × List ℕ) =
      write_groups 8 0 0 st.groups out >>= λ out'. done (true, out') in
    if st.group_count == 8 then all else done (false, out)
expand (some compress_at) st out =
    let zeros_needed : ℕ = 8 - st.group_count in
    let all : Exec (Bool × List ℕ) = write_groups compress_at 0 0 st.groups out >>= λ out1.
    write_zeros zeros_needed compress_at out1 >>= λ out2.
    write_groups (st.group_count - compress_at) compress_at (compress_at + zeros_needed) st.groups
      out2
    >>= λ out3. done (compress_at + zeros_needed + (st.group_count - compress_at) == 8, out3) in
    if leb 8 st.group_count then done (false, out) else all

abbrev pub expand_read : Option Ip6State → List ℕ → Exec (Bool × List ℕ)
expand_read none out = done (false, out)
expand_read (some st) out = expand st.compress_at st out

-- `groups` is what the local array holds before.
unfoldable pub parse_ip6 : List ℕ → List ℕ → List ℕ → Exec (Bool × List ℕ)
unfolding ip6_loop expand
parse_ip6 s groups out =
    ip6_loop s (record {
      groups = groups;
      group_count = 0;
      compress_at = none;
      value = 0;
      hex_digits = 0;
      have_value = false;
    })
    >>= λ read. expand_read read out
