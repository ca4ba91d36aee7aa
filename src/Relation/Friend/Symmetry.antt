-- ===== src/Relation/Friend/Symmetry.antt =====
-- Lemmas on the rows of a friendship in internal/relation/friend.go.
use yim.Base.{nat_eq, pair_eq, ℕ, ◌≡◌, Bool, true, false, some, arith}
use yim.Base.Map.{has, insert_ignore, erase, has-insert_ignore, has-erase}
use yim.Relation.{ok}
use yim.Relation.Friend.{
  Store, Faults, Call, handle_tx, call, send_friend_request, handle_friend_request, delete_friend,
}
use yim.Relation.Friend.Tables.{call_cases, handle_tx_inv, upsert_inv, delete_tx_inv}

-- Both rows of a pair are there, or neither is.
abbrev pub IsSymmetric : Store → Type 0
IsSymmetric s = (a b : ℕ) → has (a, b) s.friendships ≡ has (b, a) s.friendships

insert_both :
    (s t : Store) (a b now : ℕ)
    → t.friendships ≡ insert_ignore (b, a) now (insert_ignore (a, b) now s.friendships)
    → IsSymmetric s
    → IsSymmetric t
insert_both s t a b now e h x y =
    rw (e, has-insert_ignore, has-insert_ignore) (grind (arith, has-insert_ignore, h))

erase_both :
    (s t : Store) (a b : ℕ)
    → t.friendships ≡ erase (b, a) (erase (a, b) s.friendships)
    → IsSymmetric s
    → IsSymmetric t
erase_both s t a b e h x y = rw (e, has-erase, has-erase) (grind (arith, has-erase, h))

handle_tx-IsSymmetric :
    (fails : Faults) (now op from : ℕ) (accept : Bool) (s t : Store)
    → handle_tx fails now op from accept s ≡ ok t
    → IsSymmetric s
    → IsSymmetric t
handle_tx-IsSymmetric fails now op from true s t done h x y =
    insert_both s t op from now (handle_tx_inv fails now op from true s done).4 h x y
handle_tx-IsSymmetric fails now op from false s t done h x y =
    rw ((handle_tx_inv fails now op from false s done).4) (h x y)

-- No call, whatever statements fail in it, leaves one row of a friendship without the other.
pub call-IsSymmetric :
    (fails : Faults) (now : ℕ) (c : Call) (s : Store)
    → IsSymmetric s
    → IsSymmetric (call fails now c s).0
call-IsSymmetric fails now c s h =
    call_cases IsSymmetric fails now s h
      (λ op from accept t done. handle_tx-IsSymmetric fails now op from accept s t done h)
      (λ from to message t _ done x y. rw ((upsert_inv fails now from to message s done).0) (h x y))
      (λ op friend t done. erase_both s t op friend (delete_tx_inv fails op friend s done).0 h) c

-- A call that returns an error leaves both tables and the events as they were.
pub call-error_unchanged :
    (fails : Faults) (now : ℕ) (c : Call) (s : Store) {code : ℕ}
    → (call fails now c s).1 ≡ some code
    → (call fails now c s).0 ≡ s
unfolding call send_friend_request handle_friend_request delete_friend
call-error_unchanged fails now c s h = ground arith
