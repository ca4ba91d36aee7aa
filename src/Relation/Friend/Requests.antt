-- ===== src/Relation/Friend/Requests.antt =====
-- The states of a friend request (the header of internal/relation/friend.go).
use yim.Base.{
  pair_beq_iff, subst, nat_eq, pair_eq, ℕ, ◌≡◌, refl, Bool, true, false, Option, none, some, List,
  ◌∷◌, arith, ◌≢◌, ◌⊎◌, inl, inr, ◌=?◌, Bool-cases, Option-cases,
}
use yim.Base.Map.{
  lookup, has, insert, erase, lookup-insert, lookup-insert_self, has-insert_ignore, insert_ignore,
  has-erase,
}
use yim.Relation.{ok}
use yim.Relation.Friend.{
  Status, pending, accepted, rejected, Request, Store, Faults, Call, call, reopen, handle_tx,
  upserted, verdict, friend_rows, handle_friend_request, load_request, befriend, friend_handled,
}
use yim.Relation.Friend.Merging.{no_faults}
use yim.Relation.Friend.Tables.{call_cases, handle_tx_inv, upsert_inv, delete_tx_inv}

abbrev pub status_at : Option Request → Option Status
status_at none = none
status_at (some r) = some r.status

-- The status of the request from `a` to `b`.
abbrev pub status_of : Store → ℕ → ℕ → Option Status
status_of s a b = status_at (lookup (a, b) s.requests)

-- The arrows of the diagram; a repeated request stays where it is, or asks anew once rejected.
pub data Edge : Option Status → Option Status → Type 0 where
  stays : {o : Option Status} → Edge o o
  asks : Edge none (some pending)
  accepts : Edge (some pending) (some accepted)
  rejects : Edge (some pending) (some rejected)
  asks_again : Edge (some rejected) (some pending)

insert-Edge :
    (s t : Store) (k : ℕ × ℕ) (row : Request)
    → t.requests ≡ insert k row s.requests
    → Edge (status_at (lookup k s.requests)) (some row.status)
    → (j : ℕ × ℕ) → Edge (status_at (lookup j s.requests)) (status_at (lookup j t.requests))
insert-Edge s t k row e edge j =
    rw (e, lookup-insert k j)
      (elim (Bool-cases (k =? j)) [
        | inl same ↦ rw same (
            subst (λ i. Edge (status_at (lookup i s.requests)) (some row.status))
              ((pair_beq_iff k j).0 same) edge)
        | inr other ↦ rw other stays
      ])

verdict-Edge : (accept : Bool) → Edge (some pending) (some (verdict accept))
verdict-Edge true = accepts
verdict-Edge false = rejects

upserted-Edge :
    (now : ℕ) (message : List ℕ) (s : Store) (a b : ℕ)
    → Edge (status_of s a b) (some (upserted now message (lookup (a, b) s.requests)).status)
unfolding upserted
upserted-Edge now message s a b = elim (Option-cases (lookup (a, b) s.requests)) [
  | inl e ↦ rw e asks
  | inr (r, e) ↦ rw e (reopen-Edge r.status)
]
  where
    reopen-Edge : (st : Status) → Edge (some st) (some (reopen st))
    reopen-Edge pending = stays
    reopen-Edge accepted = stays
    reopen-Edge rejected = asks_again

-- Every call moves each request along an edge of the diagram, or leaves it.
pub call-Edge :
    (fails : Faults) (now : ℕ) (c : Call) (s : Store) (a b : ℕ)
    → Edge (status_of s a b) (status_of (call fails now c s).0 a b)
call-Edge fails now c s a b =
    call_cases (λ t. Edge (status_of s a b) (status_of t a b)) fails now s stays
      (λ op from accept t done.
        let (r, at, waiting, e, _) = handle_tx_inv fails now op from accept s done in
        insert-Edge s t (from, op) _ e (rw (at, waiting) (verdict-Edge accept)) (a, b))
      (λ from to message t _ done.
        insert-Edge s t (from, to) _ (upsert_inv fails now from to message s done).1
          (upserted-Edge now message s from to) (a, b))
      (λ op friend t done. rw ((delete_tx_inv fails op friend s done).1) stays) c

rows_same :
    {X : Type 0} (s t : Store) (a b : ℕ)
    → friend_rows s a b ≡ false
    → t.friendships ≡ s.friendships
    → friend_rows t a b ≡ true
    → X
unfolding friend_rows
rows_same s t a b before e h = absurd (ground arith)

rows_less :
    {X : Type 0} (s t : Store) (c d a b : ℕ)
    → friend_rows s a b ≡ false
    → t.friendships ≡ erase (d, c) (erase (c, d) s.friendships)
    → friend_rows t a b ≡ true
    → X
unfolding friend_rows
rows_less s t c d a b before e h = absurd (grind (arith, has-erase))

new_friends :
    (s t : Store) (op from now a b : ℕ)
    → friend_rows s a b ≡ false
    → t.friendships ≡ insert_ignore (from, op) now (insert_ignore (op, from) now s.friendships)
    → friend_rows t a b ≡ true
    → ((a ≡ from) × (b ≡ op)) ⊎ ((a ≡ op) × (b ≡ from))
unfolding friend_rows
new_friends s t op from now a b before e h = grind (arith, has-insert_ignore)

accepted_by :
    (fails : Faults) (now op from : ℕ) (accept : Bool) (s t : Store) (a b : ℕ)
    → friend_rows s a b ≡ false
    → handle_tx fails now op from accept s ≡ ok t
    → friend_rows t a b ≡ true
    → ((status_of s a b ≡ some pending) × (status_of t a b ≡ some accepted))
      ⊎ ((status_of s b a ≡ some pending) × (status_of t b a ≡ some accepted))
accepted_by fails now op from false s t a b before done h =
    rows_same s t a b before (handle_tx_inv fails now op from false s done).4 h
accepted_by fails now op from true s t a b before done h =
    let (r, at, waiting, e, f) = handle_tx_inv fails now op from true s done in
    let was : status_of s from op ≡ some pending = rw (at, waiting) refl in
    let is : status_of t from op ≡ some accepted = rw (e, lookup-insert_self) refl in
    elim (new_friends s t op from now a b before f h) [
      | inl (p, q) ↦ inl (rw (p, q) was, rw (p, q) is)
      | inr (p, q) ↦ inr (rw (p, q) was, rw (p, q) is)
    ]

-- Two users who were no friends become friends only by the acceptance of a pending request of one
-- to the other.
pub call-friends_accepted :
    (fails : Faults) (now : ℕ) (c : Call) (s : Store) (a b : ℕ)
    → friend_rows s a b ≡ false
    → friend_rows (call fails now c s).0 a b ≡ true
    → ((status_of s a b ≡ some pending) × (status_of (call fails now c s).0 a b ≡ some accepted))
      ⊎ ((status_of s b a ≡ some pending) × (status_of (call fails now c s).0 b a ≡ some accepted))
call-friends_accepted fails now c s a b before =
    call_cases
      (λ t.
        friend_rows t a b ≡ true
        → ((status_of s a b ≡ some pending) × (status_of t a b ≡ some accepted))
          ⊎ ((status_of s b a ≡ some pending) × (status_of t b a ≡ some accepted)))
      fails now s (λ h. cc)
      (λ op from accept t done. accepted_by fails now op from accept s t a b before done)
      (λ from to message t _ done.
        rows_same s t a b before (upsert_inv fails now from to message s done).0)
      (λ op friend t done.
        rows_less s t op friend a b before (delete_tx_inv fails op friend s done).0)
      c

accepted_store : ℕ → ℕ → ℕ → Request → Store → Store
accepted_store now op from r s = record {
  friendships = insert_ignore (from, op) now (insert_ignore (op, from) now s.friendships);
  requests = insert (from, op) (record r { status = accepted; update_time_ms = now }) s.requests;
  events = friend_handled op from ∷ s.events;
}

handle-accepted_store :
    (now op from : ℕ) (s : Store) (r : Request)
    → lookup (from, op) s.requests ≡ some r
    → r.status ≡ pending
    → handle_friend_request no_faults now op from true s ≡ (accepted_store now op from r s, none)
unfolding handle_friend_request handle_tx load_request befriend accepted_store
handle-accepted_store now op from s r at waiting = ground arith

-- With no failing statement an acceptance of a pending request succeeds: both rows are there, the
-- request is accepted, every other row of the two tables is as it was, and the asker is told.
pub handle-accepts :
    (now op from : ℕ) (s : Store) (r : Request)
    → lookup (from, op) s.requests ≡ some r
    → r.status ≡ pending
    → let (t, answer) = handle_friend_request no_faults now op from true s in
      (answer ≡ none)
      × (has (op, from) t.friendships ≡ true)
      × (has (from, op) t.friendships ≡ true)
      × (status_of t from op ≡ some accepted)
      × (t.events ≡ friend_handled op from ∷ s.events)
      × ((j : ℕ × ℕ) → j ≢ (from, op) → lookup j t.requests ≡ lookup j s.requests)
      × ((j : ℕ × ℕ) → j ≢ (from, op) → j ≢ (op, from) → has j t.friendships ≡ has j s.friendships)
unfolding accepted_store
handle-accepts now op from s r at waiting = rw (handle-accepted_store now op from s r at waiting) (
  refl,
  grind (arith, has-insert_ignore),
  grind (arith, has-insert_ignore),
  rw lookup-insert_self,
  refl,
  λ j ne. ground (
    arith,
    lookup-insert (from, op) j (record r { status = accepted; update_time_ms = now }) s.requests,
    pair_beq_iff (from, op) j,
  ),
  λ j ne ne'. grind (arith, has-insert_ignore, pair_beq_iff),
)
