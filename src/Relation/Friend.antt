-- ===== src/Relation/Friend.antt =====
-- internal/relation/friend.go and isFriend of internal/relation/service.go.
-- A store holds the two tables and the events sent so far. Each statement may fail: `fails` says
-- which do. A transaction that returns an error is rolled back. User ids are not negative.
pub mod Tables
pub mod Symmetry
pub mod Requests
pub mod Merging
mod Tests
use yim.Base.{
  nat_eq, pair_eq, ℕ, Bool, true, false, ◌||◌, Option, none, some, List, [], ◌∷◌, ◌==◌,
  if◌then◌else◌,
}
use yim.Base.Map.{Map, lookup, insert, insert_ignore, erase, has}
use yim.Relation.{
  code_already_friends, code_request_invalid, code_not_friends, code_request_handled, Result, ok,
  err, ◌>>=◌, ◌>>◌, guard, exec,
}

pub data Status : Type 0 where
  pending accepted rejected : Status

-- A row of friend_requests; the message is its bytes.
pub record Request : Type 0 where
  pub message : List ℕ
  pub status : Status
  pub create_time_ms : ℕ
  pub update_time_ms : ℕ

-- EvFriendRequest, EvFriendHandled and EvFriendDeleted: who acts, and who is told.
pub data Event : Type 0 where
  friend_request friend_handled friend_deleted : ℕ → ℕ → Event

pub record Store : Type 0 where
  pub friendships : Map (ℕ × ℕ) ℕ
  pub requests : Map (ℕ × ℕ) Request
  pub events : List Event

pub data Stmt : Type 0 where
  select_friend select_reverse upsert_request : Stmt
  begin_tx lock_request update_request insert_friend insert_friend_back : Stmt
  delete_friend_row delete_friend_back commit_tx : Stmt

abbrev pub Faults : Type 0
Faults = Stmt → Bool

abbrev pub is_pending : Status → Bool
is_pending pending = true
is_pending accepted = false
is_pending rejected = false

-- `status=IF(status=2,0,status)`.
abbrev pub reopen : Status → Status
reopen rejected = pending
reopen pending = pending
reopen accepted = accepted

-- Either of the two rows counts.
pub friend_rows : Store → ℕ → ℕ → Bool
friend_rows s a b = has (a, b) s.friendships || has (b, a) s.friendships

pub is_friend : Faults → Store → ℕ → ℕ → Option Bool
is_friend fails s a b = if fails select_friend then none else some (friend_rows s a b)

-- `err == nil && status == 0` of the query for the request the other way round.
pub reverse_is_pending : Faults → Store → ℕ → ℕ → Bool
reverse_is_pending fails s from to =
    if fails select_reverse
    then false
    else elim (lookup (to, from) s.requests) [ none ↦ false | some r ↦ is_pending r.status ]

-- `SELECT status ... FOR UPDATE`.
pub load_request : Faults → Store → ℕ → ℕ → Result Request
load_request fails s from to =
    if fails lock_request
    then err code_request_invalid
    else elim (lookup (from, to) s.requests) [ none ↦ err code_request_invalid | some r ↦ ok r ]

pub befriend : Faults → ℕ → ℕ → ℕ → Store → Result Store
befriend fails now op from s = do
  exec (fails insert_friend) code_request_invalid
  let one = insert_ignore (op, from) now s.friendships
  exec (fails insert_friend_back) code_request_invalid
  ok (record s { friendships = insert_ignore (from, op) now one })

abbrev pub verdict : Bool → Status
verdict true = accepted
verdict false = rejected

pub handle_tx : Faults → ℕ → ℕ → ℕ → Bool → Store → Result Store
handle_tx fails now op from accept s = do
  exec (fails begin_tx) code_request_invalid
  r ← load_request fails s from op
  guard (is_pending r.status) code_request_handled
  exec (fails update_request) code_request_invalid
  let row = record r { status = verdict accept; update_time_ms = now }
  let s1 = record s { requests = insert (from, op) row s.requests }
  s2 ← if accept then befriend fails now op from s1 else ok s1
  exec (fails commit_tx) code_request_invalid
  ok (if accept then record s2 { events = friend_handled op from ∷ s2.events } else s2)

-- On an error the caller keeps the store that it had.
abbrev pub settle : Store → Result Store → Store × Option ℕ
settle s (ok s') = (s', none)
settle s (err code) = (s, some code)

pub handle_friend_request : Faults → ℕ → ℕ → ℕ → Bool → Store → Store × Option ℕ
handle_friend_request fails now op from accept s = settle s (handle_tx fails now op from accept s)

-- `INSERT ... ON DUPLICATE KEY UPDATE`.
pub upserted : ℕ → List ℕ → Option Request → Request
upserted now message none = record {
  message = message;
  status = pending;
  create_time_ms = now;
  update_time_ms = now;
}
upserted now message (some r) = record r {
  message = message;
  status = reopen r.status;
  update_time_ms = now;
}

pub upsert : Faults → ℕ → ℕ → ℕ → List ℕ → Store → Result Store
upsert fails now from to message s = do
  exec (fails upsert_request) code_request_invalid
  let row = upserted now message (lookup (from, to) s.requests)
  ok (record s {
    requests = insert (from, to) row s.requests;
    events = friend_request from to ∷ s.events;
  })

-- The calls of HandleFriendRequest take their arguments in the order of the source.
pub send_friend_request : Faults → ℕ → ℕ → ℕ → List ℕ → Store → Store × Option ℕ
send_friend_request fails now from to message s =
    if from == to then (s, some code_request_invalid) else elim (is_friend fails s from to) [
      | none ↦ (s, some code_request_invalid)
      | some true ↦ (s, some code_already_friends)
      | some false ↦
          if reverse_is_pending fails s from to
          then handle_friend_request fails now to from true s
          else settle s (upsert fails now from to message s)
    ]

pub delete_tx : Faults → ℕ → ℕ → Store → Result Store
delete_tx fails op friend s = do
  exec (fails begin_tx) code_request_invalid
  exec (fails delete_friend_row) code_request_invalid
  let one = erase (op, friend) s.friendships
  exec (fails delete_friend_back) code_request_invalid
  let two = erase (friend, op) one
  exec (fails commit_tx) code_request_invalid
  ok (record s { friendships = two; events = friend_deleted op friend ∷ s.events })

pub delete_friend : Faults → ℕ → ℕ → Store → Store × Option ℕ
delete_friend fails op friend s = settle s (delete_tx fails op friend s)

-- An error counts as "not friends".
pub check_friendship : Faults → Store → ℕ → ℕ → Bool × Option ℕ
check_friendship fails s a b = elim (is_friend fails s a b) [
  | none ↦ (false, some code_not_friends)
  | some answer ↦ (answer, none)
]

pub data Call : Type 0 where
  sends : ℕ → ℕ → List ℕ → Call
  handles : ℕ → ℕ → Bool → Call
  deletes : ℕ → ℕ → Call

-- One call at time `now`, and the error that it returns.
pub call : Faults → ℕ → Call → Store → Store × Option ℕ
call fails now (sends from to message) s = send_friend_request fails now from to message s
call fails now (handles op from accept) s = handle_friend_request fails now op from accept s
call fails now (deletes op friend) s = delete_friend fails op friend s
