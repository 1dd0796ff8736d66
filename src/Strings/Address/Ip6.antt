-- ===== src/Strings/Address/Ip6.antt =====
-- The reading loop of `parse_ip6`, and its arrays.
use minic_os.Base.{
  ℕ, zero, suc, ◌+◌, ◌%◌, ◌^◌, ◌<◌, ◌≤◌, ◌≡◌, refl, ◌∙◌, true, false, ◌||◌, List, [], ◌∷◌, Option,
  none, some, ◌==◌, ltb, leb, length, get_elem?, set, length-set, get_elem?-some, Bool-cases, inl,
  inr, arith,
}
use minic_os.Base.Exec.{done}
use minic_os.Strings.Address.{
  Ip6State, is_hex, push_group, push_if_any, with_digit, is_some, ip6_loop,
}

-- Every entry is below a bound.
abbrev pub Below : ℕ → List ℕ → Type 0
Below n [] = Unit
Below n (x ∷ xs) = (x < n) × Below n xs

pub Below-set : (n : ℕ) (xs : List ℕ) (i v : ℕ) → v < n → Below n xs → Below n (set xs i v)
Below-set n [] i v lt b = tt
Below-set n (x ∷ xs) zero v lt (h, b) = (lt, b)
Below-set n (x ∷ xs) (suc i) v lt (h, b) = (h, Below-set n xs i v lt b)

pub Below-at : (n : ℕ) (xs : List ℕ) (i x : ℕ) → Below n xs → get_elem? xs i ≡ some x → x < n
Below-at n [] i x b at = absurd (cc)
Below-at n (y ∷ xs) zero x (h, b) at = ground arith
Below-at n (y ∷ xs) (suc i) x (h, b) at = Below-at n xs i x b at

abbrev pub InPlace : ℕ → Option ℕ → Type 0
InPlace count none = Unit
InPlace count (some at) = at ≤ count

-- The groups have their type and their array its size; a group that is being read still has a place.
pub record IsValid (st : Ip6State) : Type 0 where
  pub size : length st.groups ≡ 8
  pub words : Below (2 ^ 16) st.groups
  pub within : st.group_count ≤ 8
  pub room : st.have_value ≡ true → st.group_count < 8
  pub split : InPlace st.group_count st.compress_at

InPlace-weaken : (n m : ℕ) (o : Option ℕ) → n ≤ m → InPlace n o → InPlace m o
InPlace-weaken n m none le h = tt
InPlace-weaken n m (some at) le h = omega arith

push_group_lem :
    (st : Ip6State)
    → IsValid st
    → st.group_count < 8
    → (st' : Ip6State) × (push_group st ≡ done st') × IsValid st'
push_group_lem st v lt =
    let (x, at) = get_elem?-some st.groups st.group_count (omega (arith, v.size)) in
    (
      record st {
        groups = set st.groups st.group_count (st.value % 2 ^ 16);
        group_count = st.group_count + 1;
        value = 0;
        hex_digits = 0;
        have_value = false;
      },
      rw at refl,
      record {
        size = length-set st.groups st.group_count (st.value % 2 ^ 16) ∙ v.size;
        words =
            Below-set (2 ^ 16) st.groups st.group_count (st.value % 2 ^ 16) (omega arith) v.words;
        within = omega arith;
        room = λ h. absurd (cc);
        split =
            InPlace-weaken st.group_count (st.group_count + 1) st.compress_at (omega arith) v.split;
      },
    )

push_if_any_lem :
    (st : Ip6State) → IsValid st → (st' : Ip6State) × (push_if_any st ≡ done st') × IsValid st'
push_if_any_lem st v = elim (Bool-cases st.have_value) [
  | inl yes_value ↦
      let (st', e, v') = push_group_lem st v (v.room yes_value) in (st', rw yes_value e, v')
  | inr no_value ↦ (st, rw no_value refl, v)
]

with_digit-IsValid :
    (c : ℕ) (st : Ip6State) → IsValid st → st.group_count < 8 → IsValid (with_digit c st)
with_digit-IsValid c st v lt = record {
  size = v.size;
  words = v.words;
  within = v.within;
  room = λ h. lt;
  split = v.split;
}

abbrev pub Good : Option Ip6State → Type 0
Good none = Unit
Good (some st) = IsValid st

pub ip6_loop_lem :
    (s : List ℕ) (st : Ip6State)
    → IsValid st
    → (o : Option Ip6State) × (ip6_loop s st ≡ done o) × Good o
unfolding ip6_loop
ip6_loop_lem [] st v = elim (Bool-cases st.have_value) [
  | inr no_value ↦ (some st, rw no_value refl, v)
  | inl has_value ↦
      let (st', e, v') = push_group_lem st v (v.room has_value) in
      let fits : leb 8 st.group_count ≡ false = ground (arith, v.room has_value) in
      (some st', rw (has_value, fits, e) refl, v')
]
ip6_loop_lem (c ∷ []) st v = elim (Bool-cases (is_hex c)) [
  | inl hex ↦ elim (Bool-cases (ltb 4 (st.hex_digits + 1) || leb 8 st.group_count)) [
    | inl full ↦ (none, rw (hex, full) refl, tt)
    | inr fits ↦
        let (o, e, g) =
          ip6_loop_lem [] (with_digit c st) (with_digit-IsValid c st v (ground arith)) in
        (o, rw (hex, fits) e, g)
  ]
  | inr not_hex ↦ elim (Bool-cases (c == b':')) [
    | inr other ↦ (none, rw (not_hex, other) refl, tt)
    | inl colon ↦ elim (Bool-cases st.have_value) [
      | inr no_value ↦ (none, rw (not_hex, colon, no_value) refl, tt)
      | inl has_value ↦
          let (st', pushed, v') = push_group_lem st v (v.room has_value) in
          let (o, e, g) = ip6_loop_lem [] st' v' in (o, rw (not_hex, colon, has_value, pushed) e, g)
    ]
  ]
]
ip6_loop_lem (c ∷ d ∷ s) st v = elim (Bool-cases (is_hex c)) [
  | inl hex ↦ elim (Bool-cases (ltb 4 (st.hex_digits + 1) || leb 8 st.group_count)) [
    | inl full ↦ (none, rw (hex, full) refl, tt)
    | inr fits ↦
        let (o, e, g) =
          ip6_loop_lem (d ∷ s) (with_digit c st) (with_digit-IsValid c st v (ground arith)) in
        (o, rw (hex, fits) e, g)
  ]
  | inr not_hex ↦ elim (Bool-cases (c == b':')) [
    | inr other ↦ (none, rw (not_hex, other) refl, tt)
    | inl colon ↦ elim (Bool-cases (d == b':')) [
      | inl double ↦ elim (Bool-cases (is_some st.compress_at)) [
        | inl second ↦ (none, rw (not_hex, colon, double, second) refl, tt)
        | inr first ↦
            let (st', pushed, v') = push_if_any_lem st v in
            let marked : IsValid (record st' { compress_at = some st'.group_count }) = record {
              size = v'.size;
              words = v'.words;
              within = v'.within;
              room = v'.room;
              split = omega arith;
            } in
            let (o, e, g) =
              ip6_loop_lem s (record st' { compress_at = some st'.group_count }) marked in
            (o, rw (not_hex, colon, double, first, pushed) e, g)
      ]
      | inr single ↦ elim (Bool-cases st.have_value) [
        | inr no_value ↦ (none, rw (not_hex, colon, single, no_value) refl, tt)
        | inl has_value ↦
            let (st', pushed, v') = push_group_lem st v (v.room has_value) in
            let (o, e, g) = ip6_loop_lem (d ∷ s) st' v' in
            (o, rw (not_hex, colon, single, has_value, pushed) e, g)
      ]
    ]
  ]
]
