-- ===== src/Relation/Friend/Merging.antt =====
-- SendFriendRequest of internal/relation/friend.go where the other side has asked already, and after a
-- deletion.
use yim.Base.{nat_eq, pair_eq, ℕ, ◌≡◌, Bool, false, none, some, List, arith, ◌≢◌}
use yim.Base.Map.{lookup, lookup-insert}
use yim.Relation.{code_request_invalid, code_request_handled}
use yim.Relation.Friend.{
  pending, accepted, Request, Store, Faults, send_friend_request, handle_friend_request, handle_tx,
  load_request, friend_rows, is_friend, reverse_is_pending, upsert, upserted,
}

-- No statement fails.
abbrev pub no_faults : Faults
no_faults _ = false

-- Where B's request to A is pending and A has none to B, A's request to B is refused as invalid and
-- nothing changes: the two do not become friends, although no statement fails.
pub send-crossing_refused :
    (now a b : ℕ) (message : List ℕ) (s : Store) (r : Request)
    → a ≢ b
    → friend_rows s a b ≡ false
    → lookup (b, a) s.requests ≡ some r
    → r.status ≡ pending
    → lookup (a, b) s.requests ≡ none
    → send_friend_request no_faults now a b message s ≡ (s, some code_request_invalid)
unfolding send_friend_request handle_friend_request handle_tx load_request is_friend
    reverse_is_pending
send-crossing_refused now a b message s r ne stranger theirs waiting mine = ground arith

-- Where A's request to B was accepted once and the two are friends no longer, a new request from A
-- succeeds, and yet B can neither accept nor reject it: it is answered as handled already.
pub send-again_stuck :
    (now later a b : ℕ) (message : List ℕ) (accept : Bool) (s : Store) (r : Request)
    → a ≢ b
    → friend_rows s a b ≡ false
    → reverse_is_pending no_faults s a b ≡ false
    → lookup (a, b) s.requests ≡ some r
    → r.status ≡ accepted
    → let (t, answer) = send_friend_request no_faults now a b message s in
      (answer ≡ none)
      × (handle_friend_request no_faults later b a accept t ≡ (t, some code_request_handled))
unfolding send_friend_request handle_friend_request handle_tx load_request is_friend upsert upserted
send-again_stuck now later a b message accept s r ne strangers silent old done = ground (
  arith,
  lookup-insert (a, b) (a, b) (record r { message = message; update_time_ms = now }) s.requests,
)
