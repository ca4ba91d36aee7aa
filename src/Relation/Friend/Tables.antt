-- ===== src/Relation/Friend/Tables.antt =====
-- Lemmas on the two tables of internal/relation/friend.go.
use yim.Base.{
  nat_eq, pair_eq, ℕ, ◌≡◌, refl, Bool, true, false, some, List, arith, ◌==◌, if◌then◌else◌, inl,
  inr, Option-cases, Bool-cases,
}
use yim.Base.Map.{lookup, insert, erase, insert_ignore}
use yim.Relation.{ok, err, Result}
use yim.Relation.Friend.{
  pending, Request, Store, Faults, Call, sends, handles, deletes, call, send_friend_request,
  handle_friend_request, delete_friend, handle_tx, befriend, upsert, upserted, load_request,
  delete_tx, is_friend, reverse_is_pending, verdict, settle,
}

-- A transaction either gives a new store or leaves the old one.
pub settle_cases {ℓ} :
    (P : Store → Type ℓ) (s : Store) (m : Result Store)
    → P s
    → ((t : Store) → m ≡ ok t → P t)
    → P (settle s m).0
settle_cases P s (ok t) h k = k t refl
settle_cases P s (err code) h k = h

-- What a successful HandleFriendRequest has read and written.
pub handle_tx_inv :
    (fails : Faults) (now op from : ℕ) (accept : Bool) (s : Store) {t : Store}
    → handle_tx fails now op from accept s ≡ ok t
    → (r : Request) × (lookup (from, op) s.requests ≡ some r)
      × (r.status ≡ pending)
      × (t.requests
          ≡ insert
              (from, op)
              (record r { status = verdict accept; update_time_ms = now })
              s.requests)
      × (t.friendships ≡ (
          if accept
          then insert_ignore (from, op) now (insert_ignore (op, from) now s.friendships)
          else s.friendships))
unfolding handle_tx befriend load_request
handle_tx_inv fails now op from accept s h = ground arith

pub upsert_inv :
    (fails : Faults) (now from to : ℕ) (message : List ℕ) (s : Store) {t : Store}
    → upsert fails now from to message s ≡ ok t
    → (t.friendships ≡ s.friendships)
      × (t.requests
          ≡ insert (from, to) (upserted now message (lookup (from, to) s.requests)) s.requests)
unfolding upsert
upsert_inv fails now from to message s h = ground arith

pub delete_tx_inv :
    (fails : Faults) (op friend : ℕ) (s : Store) {t : Store}
    → delete_tx fails op friend s ≡ ok t
    → (t.friendships ≡ erase (friend, op) (erase (op, friend) s.friendships))
      × (t.requests ≡ s.requests)
unfolding delete_tx
delete_tx_inv fails op friend s h = ground arith

-- A call that succeeds is one of the three transactions; SendFriendRequest runs HandleFriendRequest
-- where it takes the request the other way round for pending.
pub call_cases {ℓ} :
    (P : Store → Type ℓ) (fails : Faults) (now : ℕ) (s : Store)
    → P s
    → ((op from : ℕ) (accept : Bool) (t : Store)
        → handle_tx fails now op from accept s ≡ ok t
        → P t)
    → ((from to : ℕ) (message : List ℕ) (t : Store)
        → is_friend fails s from to ≡ some false
        → upsert fails now from to message s ≡ ok t
        → P t)
    → ((op friend : ℕ) (t : Store) → delete_tx fails op friend s ≡ ok t → P t)
    → (c : Call) → P (call fails now c s).0
unfolding call send_friend_request handle_friend_request delete_friend
call_cases P fails now s same handled upserts deleted (handles op from accept) =
    settle_cases P s _ same (handled op from accept)
call_cases P fails now s same handled upserts deleted (deletes op friend) =
    settle_cases P s _ same (deleted op friend)
call_cases P fails now s same handled upserts deleted (sends from to message) =
    elim (Bool-cases (from == to)) [
      | inl e ↦ rw (e, send_friend_request) same
      | inr e ↦
          rw (e, send_friend_request)
            (elim (Option-cases (is_friend fails s from to)) [
              | inl f ↦ rw f same
              | inr (true, f) ↦ rw f same
              | inr (false, f) ↦ rw f (elim (Bool-cases (reverse_is_pending fails s from to)) [
                | inl g ↦ rw g (settle_cases P s _ same (handled to from true))
                | inr g ↦ rw g (settle_cases P s _ same (λ t. upserts from to message t f))
              ])
            ])
    ]
