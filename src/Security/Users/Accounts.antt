-- ===== src/Security/Users/Accounts.antt =====
-- A lookup after a creation.
use minic_os.Base.{
  ℕ, zero, suc, ◌+◌, ◌≤◌, ◌≡◌, refl, ◌∙◌, Bool, true, ◌&&◌, List, [], ◌∷◌, Option, none, some, ◌==◌,
  leb, if◌then◌else◌, length, length-modify, modify, get_elem?, get_elem?-some, Bool-cases, inl,
  inr, arith,
}
use minic_os.Base.Int.{pos, negsuc}
use minic_os.Strings.{streq}
use minic_os.Security.Users.{
  max_users, max_groups, UserAccount, UserTables, copy_account_name, user_create, first_within,
  user_lookup_by_uid, user_lookup_by_name, group_create, group_lookup_by_gid,
}

-- The tables have their sizes, and the counts do not exceed them.
pub record IsValid (s : UserTables) : Type 0 where
  pub users_size : length s.users ≡ max_users
  pub groups_size : length s.groups ≡ max_groups
  pub users_fit : s.user_count ≤ max_users
  pub groups_fit : s.group_count ≤ max_groups

-- What is found first, or else the new entry if it passes.
abbrev pub or_new : {A : Type 0} → (A → Bool) → A → Option A → Option A
or_new test new none = if test new then some new else none
or_new test new (some x) = some x

-- The entry behind the last one is looked at last.
pub first_within-modify :
    {A : Type 0} (test : A → Bool) (n : ℕ) (xs : List A) (fill : A → A) (x new : A)
    → get_elem? xs n ≡ some x
    → fill x ≡ new
    → first_within test (suc n) (modify xs n fill) ≡ or_new test new (first_within test n xs)
unfolding first_within
first_within-modify test n [] fill x new h e = absurd (cc)
first_within-modify test zero (y ∷ xs) fill x new h e =
    let same : fill y ≡ new = ground arith in rw same refl
first_within-modify test (suc n) (y ∷ xs) fill x new h e =
    ground (arith, first_within-modify test n xs fill x new h e)

-- An account that was there before is found, or else the new one if the user id is its own.
abbrev pub or_uid : ℕ → UserAccount → Option UserAccount → Option UserAccount
or_uid u new found = or_new (λ a. a.used && a.uid == u) new found

abbrev pub or_name : List ℕ → UserAccount → Option UserAccount → Option UserAccount
or_name n new found = or_new (λ a. a.used && streq a.username n) new found

-- From valid tables user_create keeps them valid. A full table stays as it is and the answer is -1;
-- else the answer is the new slot, a lookup by user id finds what it found before, or else the new
-- account if it has that id, a lookup by name likewise for the name as far as it is stored, and a
-- lookup of a group finds what it found before.
pub user_create_lem :
    (username : List ℕ) (uid primary_gid u : ℕ) (n : List ℕ) (g : ℕ) (s : UserTables)
    → IsValid s
    → IsValid (user_create username uid primary_gid s).1
      × ((user_create username uid primary_gid s).0
          ≡ (if leb max_users s.user_count then negsuc 0 else pos s.user_count))
      × (user_lookup_by_uid u (user_create username uid primary_gid s).1 ≡ (
          if leb max_users s.user_count
          then user_lookup_by_uid u s
          else or_uid u
              (record {
                used = true;
                username = copy_account_name username;
                uid = uid;
                primary_gid = primary_gid;
              })
              (user_lookup_by_uid u s)))
      × (user_lookup_by_name n (user_create username uid primary_gid s).1 ≡ (
          if leb max_users s.user_count
          then user_lookup_by_name n s
          else or_name n
              (record {
                used = true;
                username = copy_account_name username;
                uid = uid;
                primary_gid = primary_gid;
              })
              (user_lookup_by_name n s)))
      × (group_lookup_by_gid g (user_create username uid primary_gid s).1 ≡ group_lookup_by_gid g s)
unfolding user_create user_lookup_by_uid user_lookup_by_name group_lookup_by_gid
user_create_lem username uid primary_gid u n g s v =
    elim (Bool-cases (leb max_users s.user_count)) [
      | inl full ↦ rw full (v, refl, refl, refl, refl)
      | inr room ↦
          let (x, at) = get_elem?-some s.users s.user_count (ground (arith, v.users_size)) in
          let step : s.user_count + 1 ≡ suc s.user_count = omega arith in
          rw (room, step)
            (
              record {
                users_size = length-modify _ _ _ ∙ v.users_size;
                groups_size = v.groups_size;
                users_fit = ground arith;
                groups_fit = v.groups_fit;
              },
              refl,
              first_within-modify (λ a. a.used && a.uid == u) s.user_count s.users _ x _ at refl,
              first_within-modify (λ a. a.used && streq a.username n) s.user_count s.users _ x _ at
                  refl,
              refl,
            )
    ]

-- From valid tables group_create keeps them valid. A full table stays as it is and the answer is -1;
-- else the answer is the new slot, and a lookup finds what it found before, or else the new group if
-- it has that id.
pub group_create_lem :
    (groupname : List ℕ) (gid g : ℕ) (s : UserTables)
    → IsValid s
    → IsValid (group_create groupname gid s).1
      × ((group_create groupname gid s).0
          ≡ (if leb max_groups s.group_count then negsuc 0 else pos s.group_count))
      × (group_lookup_by_gid g (group_create groupname gid s).1 ≡ (
          if leb max_groups s.group_count
          then group_lookup_by_gid g s
          else or_new
              (λ a. a.used && a.gid == g)
              (record { used = true; groupname = copy_account_name groupname; gid = gid })
              (group_lookup_by_gid g s)))
unfolding group_create group_lookup_by_gid
group_create_lem groupname gid g s v = elim (Bool-cases (leb max_groups s.group_count)) [
  | inl full ↦ rw full (v, refl, refl)
  | inr room ↦
      let (x, at) = get_elem?-some s.groups s.group_count (ground (arith, v.groups_size)) in
      let step : s.group_count + 1 ≡ suc s.group_count = omega arith in
      rw (room, step)
        (
          record {
            users_size = v.users_size;
            groups_size = length-modify _ _ _ ∙ v.groups_size;
            users_fit = v.users_fit;
            groups_fit = ground arith;
          },
          refl,
          first_within-modify (λ a. a.used && a.gid == g) s.group_count s.groups _ x _ at refl,
        )
]
