-- ===== src/Security/Users.antt =====
-- kernel/security/users/users.c: the tables of user and group accounts.
-- A name is the list of its characters up to the terminating 0, and an account that a lookup copies
-- out is its result.
pub mod Accounts
use minic_os.Base.{
  ℕ, zero, suc, ◌+◌, ◌-◌, Bool, true, false, ◌&&◌, List, [], ◌∷◌, Option, none, some, ◌==◌, ltb,
  leb, if◌then◌else◌, modify, take, replicate,
}
use minic_os.Base.Int.{ℤ, pos, negsuc}
use minic_os.Strings.{streq}

abbrev pub max_users : ℕ
max_users = 8

abbrev pub max_groups : ℕ
max_groups = 8

abbrev pub account_name_max : ℕ
account_name_max = 32

pub record UserAccount : Type 0 where
  pub used : Bool
  pub username : List ℕ
  pub uid : ℕ
  pub primary_gid : ℕ

pub record GroupAccount : Type 0 where
  pub used : Bool
  pub groupname : List ℕ
  pub gid : ℕ

-- The variables of the file.
pub record UserTables : Type 0 where
  pub users : List UserAccount
  pub user_count : ℕ
  pub groups : List GroupAccount
  pub group_count : ℕ

abbrev pub copy_account_name : List ℕ → List ℕ
copy_account_name src = take (account_name_max - 1) src

unfoldable pub user_create : List ℕ → ℕ → ℕ → UserTables → ℤ × UserTables
user_create username uid primary_gid s = if leb max_users s.user_count then (negsuc 0, s) else (
  pos s.user_count,
  record s {
    users = modify s.users s.user_count (λ u. record u {
      used = true;
      username = copy_account_name username;
      uid = uid;
      primary_gid = primary_gid;
    });
    user_count = s.user_count + 1;
  },
)

-- The loop of a lookup: the first of `count` entries that passes the test.
unfoldable pub first_within : {A : Type 0} → (A → Bool) → ℕ → List A → Option A
first_within test zero xs = none
first_within test (suc count) [] = none
first_within test (suc count) (x ∷ xs) =
    let rest = first_within test count xs in if test x then some x else rest

unfoldable pub user_lookup_by_uid : ℕ → UserTables → Option UserAccount
unfolding first_within
user_lookup_by_uid uid s = first_within (λ u. u.used && u.uid == uid) s.user_count s.users

unfoldable pub user_lookup_by_name : List ℕ → UserTables → Option UserAccount
unfolding first_within
user_lookup_by_name username s =
    first_within (λ u. u.used && streq u.username username) s.user_count s.users

unfoldable pub group_create : List ℕ → ℕ → UserTables → ℤ × UserTables
group_create groupname gid s = if leb max_groups s.group_count then (negsuc 0, s) else (
  pos s.group_count,
  record s {
    groups =
        modify s.groups s.group_count
          (λ g. record g { used = true; groupname = copy_account_name groupname; gid = gid });
    group_count = s.group_count + 1;
  },
)

unfoldable pub group_lookup_by_gid : ℕ → UserTables → Option GroupAccount
unfolding first_within
group_lookup_by_gid gid s = first_within (λ g. g.used && g.gid == gid) s.group_count s.groups

-- "root" and "guest".
abbrev pub root_name : List ℕ
root_name = b'r' ∷ b'o' ∷ b'o' ∷ b't' ∷ []

abbrev pub guest_name : List ℕ
guest_name = b'g' ∷ b'u' ∷ b'e' ∷ b's' ∷ b't' ∷ []

unfoldable pub users_init : UserTables → UserTables
unfolding user_create group_create
users_init s =
    let (root_group, s1) = group_create root_name 0 s in
    let (guest_group, s2) = group_create guest_name 100 s1 in
    let (root, s3) = user_create root_name 0 0 s2 in
    let (guest, s4) = user_create guest_name 100 100 s3 in s4
