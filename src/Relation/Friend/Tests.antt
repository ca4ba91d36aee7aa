-- ===== src/Relation/Friend/Tests.antt =====
-- Runs and instances of the friend calls (internal/relation/friend.go) at concrete stores.
use yim.Base.{
  nat_eq, pair_eq, ℕ, ◌≡◌, ◌≢◌, refl, Bool, true, false, Option, none, some, List, [], ◌∷◌, arith,
  ◌⊎◌, inl,
}
use yim.Base.Map.{lookup, has}
use yim.Relation.{code_request_invalid, code_request_handled}
use yim.Relation.Friend.{
  pending, accepted, Request, Store, Call, call, handles, deletes, friend_rows, reverse_is_pending,
  handle_friend_request, handle_tx, load_request, befriend, send_friend_request, delete_friend,
  delete_tx,
}
use yim.Relation.Friend.Merging.{no_faults, send-crossing_refused}
use yim.Relation.Friend.Symmetry.{IsSymmetric, call-IsSymmetric}
use yim.Relation.Friend.Requests.{status_of, call-friends_accepted}

abbrev asked : Request
asked = record { message = []; status = pending; create_time_ms = 1; update_time_ms = 1 }

abbrev empty : Store
empty = record { friendships = []; requests = []; events = [] }

-- User 1 has asked user 2.
abbrev waiting : Store
waiting = record { friendships = []; requests = ((1, 2), asked) ∷ []; events = [] }

-- User 1 has asked user 2, who accepted and ended it.
abbrev ended : Store
ended = record {
  friendships = [];
  requests = ((1, 2), record asked { status = accepted }) ∷ [];
  events = [];
}

abbrev accept_it : Call
accept_it = handles 2 1 true

accepts_both : has (1, 2) (call no_faults 5 accept_it waiting).0.friendships ≡ true
unfolding call handle_friend_request handle_tx load_request befriend has lookup
    yim.Base.Map.insert_ignore yim.Base.Map.insert
accepts_both = refl

deletes_both :
    (call no_faults 6 (deletes 1 2) (call no_faults 5 accept_it waiting).0).0.friendships ≡ []
unfolding call handle_friend_request handle_tx load_request befriend delete_friend delete_tx
    yim.Base.Map.erase lookup yim.Base.Map.insert_ignore yim.Base.Map.insert
deletes_both = refl

handled_twice :
    (call no_faults 6 accept_it (call no_faults 5 accept_it waiting).0).1
    ≡ some code_request_handled
unfolding call handle_friend_request handle_tx load_request befriend lookup yim.Base.Map.insert
handled_twice = refl

waiting-IsSymmetric : IsSymmetric waiting
unfolding has lookup
waiting-IsSymmetric = λ a b. refl

call-IsSymmetric_example : IsSymmetric (call no_faults 5 accept_it waiting).0
call-IsSymmetric_example = call-IsSymmetric no_faults 5 accept_it waiting waiting-IsSymmetric

handles_unasked : (call no_faults 5 (handles 2 1 true) empty).1 ≡ some code_request_invalid
unfolding call handle_friend_request handle_tx load_request lookup
handles_unasked = refl

strangers : friend_rows waiting 1 2 ≡ false
unfolding friend_rows has lookup
strangers = refl

become_friends : friend_rows (call no_faults 5 accept_it waiting).0 1 2 ≡ true
unfolding friend_rows has lookup call handle_friend_request handle_tx load_request befriend
    yim.Base.Map.insert_ignore yim.Base.Map.insert
become_friends = refl

call-friends_accepted_example :
    ((status_of waiting 1 2 ≡ some pending)
      × (status_of (call no_faults 5 accept_it waiting).0 1 2 ≡ some accepted))
    ⊎ ((status_of waiting 2 1 ≡ some pending)
        × (status_of (call no_faults 5 accept_it waiting).0 2 1 ≡ some accepted))
call-friends_accepted_example =
    call-friends_accepted no_faults 5 accept_it waiting 1 2 strangers become_friends

asked_there : lookup (1, 2) waiting.requests ≡ some asked
unfolding lookup
asked_there = refl

no_request_back : lookup (2, 1) waiting.requests ≡ none
unfolding lookup
no_request_back = refl

back_strangers : friend_rows waiting 2 1 ≡ false
unfolding friend_rows has lookup
back_strangers = refl

two-ne-one : ◌≢◌ {A = ℕ} 2 1
two-ne-one e = absurd (omega (arith, e))

one-ne-two : ◌≢◌ {A = ℕ} 1 2
one-ne-two e = absurd (omega (arith, e))

send-crossing_refused_example :
    send_friend_request no_faults 5 2 1 [] waiting ≡ (waiting, some code_request_invalid)
send-crossing_refused_example =
    send-crossing_refused 5 2 1 [] waiting asked two-ne-one back_strangers asked_there refl
      no_request_back

ended_strangers : friend_rows ended 1 2 ≡ false
unfolding friend_rows has lookup
ended_strangers = refl

ended_silent : reverse_is_pending no_faults ended 1 2 ≡ false
unfolding reverse_is_pending lookup
ended_silent = refl

ended_there : lookup (1, 2) ended.requests ≡ some (record asked { status = accepted })
unfolding lookup
ended_there = refl
