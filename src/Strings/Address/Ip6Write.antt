-- ===== src/Strings/Address/Ip6Write.antt =====
-- What `parse_ip6` writes, and its answer.
use minic_os.Base.{
  ℕ, zero, suc, ◌+◌, ◌-◌, ◌*◌, ◌/◌, ◌%◌, ◌^◌, ◌<◌, ◌≤◌, ◌≡◌, refl, ◌∙◌, Bool, true, false, List,
  Option, none, some, ◌==◌, leb, length, set, length-set, get_elem?-some, Bool-cases, inl, inr,
  arith,
}
use minic_os.Base.Exec.{done}
use minic_os.Strings.Address.{Ip6State, write_groups, write_zeros, expand, expand_read, parse_ip6}
use minic_os.Strings.Address.Ip6.{Below, Below-set, Below-at, InPlace, IsValid, Good, ip6_loop_lem}

-- Bytes in the caller's array of 16.
record IsOut (out : List ℕ) : Type 0 where
  size : length out ≡ 16
  bytes : Below (2 ^ 8) out

set_two-IsOut :
    (out : List ℕ) (i j x y : ℕ) → IsOut out → x < 2 ^ 8 → y < 2 ^ 8 → IsOut (set (set out i x) j y)
set_two-IsOut out i j x y v lx ly = record {
  size = length-set (set out i x) j y ∙ length-set out i x ∙ v.size;
  bytes = Below-set (2 ^ 8) (set out i x) j y ly (Below-set (2 ^ 8) out i x lx v.bytes);
}

write_groups_lem :
    (left g idx : ℕ) (groups out : List ℕ)
    → IsOut out
    → Below (2 ^ 16) groups
    → g + left ≤ length groups
    → idx + left ≤ 8
    → (out' : List ℕ) × (write_groups left g idx groups out ≡ done out') × IsOut out'
unfolding write_groups
write_groups_lem zero g idx groups out v w there fits = (out, refl, v)
write_groups_lem (suc left) g idx groups out v w there fits =
    let (group, at) = get_elem?-some groups g (omega arith) in
    let (a, first) = get_elem?-some out (idx * 2) (omega (arith, v.size)) in
    let (b, second) = get_elem?-some out (idx * 2 + 1) (omega (arith, v.size)) in
    let word : group < 2 ^ 16 = Below-at (2 ^ 16) groups g group w at in
    let (out', run, v') =
      write_groups_lem left (g + 1) (idx + 1) groups
        (set (set out (idx * 2) (group / 2 ^ 8)) (idx * 2 + 1) (group % 2 ^ 8))
        (set_two-IsOut out _ _ _ _ v (omega arith) (omega arith)) w (omega arith) (omega arith) in
    (out', rw (at, first, second) run, v')

write_zeros_lem :
    (left idx : ℕ) (out : List ℕ)
    → IsOut out
    → idx + left ≤ 8
    → (out' : List ℕ) × (write_zeros left idx out ≡ done out') × IsOut out'
unfolding write_zeros
write_zeros_lem zero idx out v fits = (out, refl, v)
write_zeros_lem (suc left) idx out v fits =
    let (a, first) = get_elem?-some out (idx * 2) (omega (arith, v.size)) in
    let (b, second) = get_elem?-some out (idx * 2 + 1) (omega (arith, v.size)) in
    let (out', run, v') =
      write_zeros_lem left (idx + 1) (set (set out (idx * 2) 0) (idx * 2 + 1) 0)
        (set_two-IsOut out _ _ _ _ v (omega arith) (omega arith)) (omega arith) in
    (out', rw (first, second) run, v')

expand_lem :
    (at : Option ℕ) (st : Ip6State) (out : List ℕ)
    → IsValid st
    → InPlace st.group_count at
    → IsOut out
    → (ok : Bool) × (out' : List ℕ) × (expand at st out ≡ done (ok, out')) × IsOut out'
unfolding expand
expand_lem none st out v e w = elim (Bool-cases (st.group_count == 8)) [
  | inl whole ↦
      let (out', run, w') =
        write_groups_lem 8 0 0 st.groups out w v.words (omega (arith, v.size)) (omega arith) in
      (true, out', rw (whole, run) refl, w')
  | inr short ↦ (false, out, rw short refl, w)
]
expand_lem (some at) st out v before w = elim (Bool-cases (leb 8 st.group_count)) [
  | inl full ↦ (false, out, rw full refl, w)
  | inr room ↦
      let (out1, run1, w1) =
        write_groups_lem at 0 0 st.groups out w v.words (omega (arith, v.size, v.within))
          (omega (arith, v.within)) in
      let (out2, run2, w2) =
        write_zeros_lem (8 - st.group_count) at out1 w1 (omega (arith, v.within)) in
      let (out3, run3, w3) =
        write_groups_lem (st.group_count - at) at (at + (8 - st.group_count)) st.groups out2 w2
          v.words (omega (arith, v.size, v.within)) (omega (arith, v.within)) in
      (
        at + (8 - st.group_count) + (st.group_count - at) == 8,
        out3,
        rw (room, run1, run2, run3) refl,
        w3,
      )
]

expand_read_lem :
    (o : Option Ip6State) (out : List ℕ)
    → Good o
    → IsOut out
    → (ok : Bool) × (out' : List ℕ) × (expand_read o out ≡ done (ok, out')) × IsOut out'
expand_read_lem none out g w = (false, out, refl, w)
expand_read_lem (some st) out g w = expand_lem st.compress_at st out g g.split w

-- For every string, an array of 8 groups of 16 bits and a caller's array of 16 bytes, parse_ip6
-- returns, and it reads and writes nothing outside the two arrays; the caller's array still holds 16
-- bytes.
pub parse_ip6_bounds :
    (s groups out : List ℕ)
    → length groups ≡ 8
    → Below (2 ^ 16) groups
    → length out ≡ 16
    → Below (2 ^ 8) out
    → (ok : Bool) × (out' : List ℕ) × (parse_ip6 s groups out ≡ done (ok, out'))
      × (length out' ≡ 16)
      × Below (2 ^ 8) out'
unfolding parse_ip6
parse_ip6_bounds s groups out size words out_size bytes =
    let start : Ip6State = record {
      groups = groups;
      group_count = 0;
      compress_at = none;
      value = 0;
      hex_digits = 0;
      have_value = false;
    } in
    let (o, read, g) = ip6_loop_lem s start (record {
      size = size;
      words = words;
      within = omega arith;
      room = λ h. absurd (cc);
      split = tt;
    }) in
    let (ok, out', run, w) = expand_read_lem o out g (record { size = out_size; bytes = bytes }) in
    (ok, out', rw read run, w.size, w.bytes)
