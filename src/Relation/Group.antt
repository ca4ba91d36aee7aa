-- ===== src/Relation/Group.antt =====
-- internal/relation/group.go, mutateConvMembers of internal/relation/service.go and memberUIDsOf of
-- internal/relation/events.go. A store holds the three tables, the invalidations of the cache and the
-- events. Each statement may fail: `fails` says which do. A transaction that returns an error is rolled
-- back. Uids and conv ids are not negative; a name is its runes.
pub mod Membership
pub mod Calls
pub mod Agreement
pub mod Owner
pub mod Permissions
pub mod Info
mod Tests
use yim.Base.{
  nat_eq, pair_eq, ℕ, zero, suc, ◌+◌, Bool, true, false, not, ◌&&◌, ◌||◌, Option, none, some, List,
  [], ◌∷◌, ◌++◌, ltb, leb, ◌==◌, if◌then◌else◌, keep_if, contains, take, list_eq, ◌=?◌,
}
use yim.Base.Map.{Map, lookup, insert, insert_ignore, erase, has}
use yim.Relation.{
  code_internal, code_not_owner, code_not_member, Result, ok, err, ◌>>=◌, ◌>>◌, guard, exec,
}

-- A row of group_members.
pub record Member : Type 0 where
  pub role : ℕ
  pub join_time_ms : ℕ

-- A row of conversations, as far as this service writes it.
pub record Conv : Type 0 where
  pub member_uids : List ℕ
  pub name : List ℕ
  pub avatar : List ℕ

-- EvGroupChanged: who acts, in which conversation, and who is told.
pub record Event : Type 0 where
  pub uid : ℕ
  pub conv_id : ℕ
  pub targets : List ℕ

-- `members` is keyed by conversation and user, `user_conversations` by user and conversation.
pub record Store : Type 0 where
  pub members : Map (ℕ × ℕ) Member
  pub user_conversations : Map (ℕ × ℕ) ℕ
  pub conversations : Map ℕ Conv
  pub invalidated : List ℕ
  pub events : List Event

pub data Stmt : Type 0 where
  begin_tx count_members select_role select_one commit_tx list_members : Stmt
  insert_member insert_user_conv : ℕ → Stmt
  delete_member delete_user_conv select_conv update_conv update_info : Stmt

abbrev pub Faults : Type 0
Faults = Stmt → Bool

-- `SELECT COUNT(*) FROM group_members WHERE conv_id=?`.
unfoldable pub count_rows : ℕ → Map (ℕ × ℕ) Member → ℕ
count_rows conv [] = 0
count_rows conv (((c, u), row) ∷ m) = if c == conv then count_rows conv m + 1 else count_rows conv m

abbrev pub role_or_zero : Option Member → ℕ
role_or_zero none = 0
role_or_zero (some row) = row.role

unfoldable pub member_role : Faults → ℕ → ℕ → Store → Result ℕ
member_role fails conv uid s =
    if fails select_role
    then err code_internal
    else ok (role_or_zero (lookup (conv, uid) s.members))

-- An error counts as "not a member".
pub is_member : Faults → ℕ → ℕ → Store → Bool
is_member fails conv uid s = not (fails select_one) && has (conv, uid) s.members

-- `WHERE conv_id = ? AND uid <> ?`.
pub uids_but : ℕ → ℕ → Map (ℕ × ℕ) Member → List ℕ
uids_but conv exclude [] = []
uids_but conv exclude (((c, u), row) ∷ m) =
    let rest = uids_but conv exclude m in
    if (c == conv) && not (u == exclude) then u ∷ rest else rest

pub member_uids_of : Faults → ℕ → ℕ → Store → List ℕ
member_uids_of fails conv exclude s =
    if fails list_members
    then []
    else if ltb 0 exclude
    then uids_but conv exclude s.members ++ exclude ∷ []
    else uids_but conv exclude s.members

unfoldable pub emit : ℕ → ℕ → List ℕ → Store → Store
emit uid conv targets s = record s {
  events = record { uid = uid; conv_id = conv; targets = targets } ∷ s.events;
}

unfoldable pub invalidate_conv : ℕ → Store → Store
invalidate_conv conv s = record s { invalidated = conv ∷ s.invalidated }

unfoldable pub append_missing : List ℕ → List ℕ → List ℕ
append_missing [] members = members
append_missing (a ∷ add) members =
    append_missing add (if contains members a then members else members ++ a ∷ [])

unfoldable pub remove_uid : ℕ → List ℕ → List ℕ
remove_uid remove members =
    if ltb 0 remove then keep_if (λ m. not (m == remove)) members else members

unfoldable pub load_conv : Faults → ℕ → Store → Result Conv
load_conv fails conv s =
    if fails select_conv
    then err code_internal
    else elim (lookup conv s.conversations) [ none ↦ err code_internal | some row ↦ ok row ]

unfoldable pub mutate_conv_members : Faults → ℕ → List ℕ → ℕ → Store → Result Store
mutate_conv_members fails conv add remove s = do
  row ← load_conv fails conv s
  let members = append_missing add (remove_uid remove row.member_uids)
  exec (fails update_conv) code_internal
  ok (record s {
    conversations = insert conv (record row { member_uids = members }) s.conversations;
  })

-- `ON DUPLICATE KEY UPDATE role=GREATEST(role,VALUES(role))`.
abbrev pub upserted : ℕ → ℕ → Option Member → Member
upserted role now none = record { role = role; join_time_ms = now }
upserted role now (some row) = record row { role = if ltb row.role role then role else row.role }

unfoldable pub new_role : ℕ → ℕ → ℕ → ℕ
new_role count uid owner = if (count == 0) && (uid == owner) then 1 else 0

-- The two statements of one round of the loop.
unfoldable pub insert_one : ℕ → ℕ → ℕ → ℕ → Store → Store
insert_one now conv uid role s = record s {
  members = insert (conv, uid) (upserted role now (lookup (conv, uid) s.members)) s.members;
  user_conversations = insert_ignore (uid, conv) now s.user_conversations;
}

unfoldable pub insert_members : Faults → ℕ → ℕ → ℕ → ℕ → List ℕ → Store → Result Store
insert_members fails now conv count owner [] s = ok s
insert_members fails now conv count owner (uid ∷ uids) s = do
  exec (fails (insert_member uid)) code_internal
  exec (fails (insert_user_conv uid)) code_internal
  insert_members fails now conv count owner uids
      (insert_one now conv uid (new_role count uid owner) s)

-- The right to add to a group that has members.
unfoldable pub check_owner : Faults → ℕ → ℕ → ℕ → Store → Result (Unit {0})
check_owner fails conv count owner s =
    if count == 0
    then ok tt
    else do role ← member_role fails conv owner s; guard (role == 1) code_not_owner

unfoldable pub add_tx : Faults → ℕ → ℕ → List ℕ → ℕ → Store → Result Store
add_tx fails now conv uids owner s = do
  exec (fails begin_tx) code_internal
  exec (fails count_members) code_internal
  let count = count_rows conv s.members
  check_owner fails conv count owner s
  s1 ← insert_members fails now conv count owner uids s
  guard (not (count == 0) || contains uids owner) code_not_owner
  s2 ← mutate_conv_members fails conv uids 0 s1
  exec (fails commit_tx) code_internal
  ok (emit owner conv (owner ∷ uids) (invalidate_conv conv s2))

-- On an error the caller keeps the store that it had.
abbrev pub settle : Store → Result Store → Store × Option ℕ
settle s (ok s') = (s', none)
settle s (err code) = (s, some code)

unfoldable pub add_group_members : Faults → ℕ → ℕ → List ℕ → ℕ → Store → Store × Option ℕ
add_group_members fails now conv uids owner s = settle s (add_tx fails now conv uids owner s)

pub remove_member : Faults → ℕ → ℕ → Store → Result Store
remove_member fails conv uid s = do
  exec (fails begin_tx) code_internal
  exec (fails delete_member) code_internal
  exec (fails delete_user_conv) code_internal
  let s1 = record s {
    members = erase (conv, uid) s.members;
    user_conversations = erase (uid, conv) s.user_conversations;
  }
  s2 ← mutate_conv_members fails conv [] uid s1
  exec (fails commit_tx) code_internal
  ok (invalidate_conv conv s2)

pub remove_tx : Faults → ℕ → ℕ → ℕ → Store → Result Store
remove_tx fails op conv target s = do
  guard (not (op == target)) code_not_owner
  role ← member_role fails conv op s
  guard (role == 1) code_not_owner
  s1 ← remove_member fails conv target s
  ok (emit op conv (member_uids_of fails conv target s1) s1)

pub remove_group_member : Faults → ℕ → ℕ → ℕ → Store → Store × Option ℕ
remove_group_member fails op conv target s = settle s (remove_tx fails op conv target s)

pub quit_tx : Faults → ℕ → ℕ → Store → Result Store
quit_tx fails uid conv s = do
  role ← member_role fails conv uid s
  guard (not (role == 1)) code_not_owner
  guard (not (role == 0) || is_member fails conv uid s) code_not_member
  s1 ← remove_member fails conv uid s
  ok (emit uid conv (member_uids_of fails conv uid s1) s1)

pub quit_group : Faults → ℕ → ℕ → Store → Store × Option ℕ
quit_group fails uid conv s = settle s (quit_tx fails uid conv s)

-- unicode.IsSpace.
unfoldable pub is_space : ℕ → Bool
is_space c =
    (leb 9 c && leb c 13)
    || (c == 32)
    || (c == 0x85)
    || (c == 0xA0)
    || (c == 0x1680)
    || (leb 0x2000 c && leb c 0x200A)
    || (c == 0x2028)
    || (c == 0x2029)
    || (c == 0x202F)
    || (c == 0x205F)
    || (c == 0x3000)

unfoldable pub trim_left : List ℕ → List ℕ
trim_left [] = []
trim_left (c ∷ cs) = let rest = trim_left cs in if is_space c then rest else c ∷ cs

unfoldable pub trim_right : List ℕ → List ℕ
trim_right [] = []
trim_right (c ∷ cs) = elim (trim_right cs) [
  | [] ↦ if is_space c then [] else c ∷ []
  | d ∷ ds ↦ c ∷ d ∷ ds
]

unfoldable pub trim_space : List ℕ → List ℕ
trim_space name = trim_right (trim_left name)

-- strings.TrimSpace, and 32 runes at most.
unfoldable pub clipped : List ℕ → List ℕ
clipped name = take 32 (trim_space name)

-- The row after the UPDATE that fits: an empty text keeps the column.
pub with_info : List ℕ → List ℕ → Conv → Conv
with_info [] avatar row = record row { avatar = avatar }
with_info (c ∷ name) [] row = record row { name = c ∷ name }
with_info (c ∷ name) (a ∷ avatar) row = record row { name = c ∷ name; avatar = a ∷ avatar }

-- MySQL counts the rows that an UPDATE changes, and not those that it finds.
pub rows_affected : Option Conv → List ℕ → List ℕ → ℕ
rows_affected none name avatar = 0
rows_affected (some row) name avatar =
    let row' = with_info name avatar row in
    if (row'.name =? row.name) && (row'.avatar =? row.avatar) then 0 else 1

pub updated : ℕ → List ℕ → List ℕ → Store → Store
updated conv name avatar s = elim (lookup conv s.conversations) [
  | none ↦ s
  | some row ↦ record s { conversations = insert conv (with_info name avatar row) s.conversations }
]

abbrev pub is_empty : List ℕ → Bool
is_empty [] = true
is_empty (c ∷ cs) = false

pub update_rows : Faults → ℕ → ℕ → List ℕ → List ℕ → Store → Result Store
update_rows fails op conv name avatar s = do
  exec (fails update_info) code_internal
  guard (not (rows_affected (lookup conv s.conversations) name avatar == 0)) code_not_member
  let s1 = invalidate_conv conv (updated conv name avatar s)
  ok (emit op conv (member_uids_of fails conv 0 s1) s1)

pub update_tx : Faults → ℕ → ℕ → List ℕ → List ℕ → Store → Result Store
update_tx fails op conv name avatar s = do
  role ← member_role fails conv op s
  guard (role == 1) code_not_owner
  if is_empty (clipped name) && is_empty avatar
      then ok s
      else update_rows fails op conv (clipped name) avatar s

pub update_group_info : Faults → ℕ → ℕ → List ℕ → List ℕ → Store → Store × Option ℕ
update_group_info fails op conv name avatar s = settle s (update_tx fails op conv name avatar s)

pub data Call : Type 0 where
  adds : ℕ → List ℕ → ℕ → Call
  removes : ℕ → ℕ → ℕ → Call
  quits : ℕ → ℕ → Call
  updates : ℕ → ℕ → List ℕ → List ℕ → Call

-- One call at time `now`, with its arguments in the order of the source, and the error that it returns.
pub call : Faults → ℕ → Call → Store → Store × Option ℕ
call fails now (adds conv uids owner) s = add_group_members fails now conv uids owner s
call fails now (removes op conv target) s = remove_group_member fails op conv target s
call fails now (quits uid conv) s = quit_group fails uid conv s
call fails now (updates op conv name avatar) s = update_group_info fails op conv name avatar s
