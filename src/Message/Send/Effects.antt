-- ===== src/Message/Send/Effects.antt =====
-- Lemmas on what SendMessage of internal/message/service.go leaves behind.
use yim.Base.{
  nat_eq, pair_eq, ℕ, ◌≡◌, refl, subst, ◌∙◌, false, not, ◌&&◌, if◌then◌else◌, Option, none, some,
  List, ◌∷◌, arith, Bool-cases, Option-cases, ◌⊎◌, inl, inr,
}
use yim.Base.Map.{Map, lookup, has, lookup-insert_self}
use yim.Message.Send.{
  PushEvent, Row, Key, Ids, State, Env, Msg, idem_del, query_duplicate, query_message, Answer, sent,
  failed, key_of, idem_delete, query_by_client_msg_id, is_duplicate, answered, stored, committed,
  push_event, with_push, persist, Prepared, done, go_on, prepare, finish, send_message,
}
use yim.Message.Send.Outcomes.{
  Persisted, dropped, left_marked, duplicate, unanswered, added, persist-Persisted, Marked,
  unmarked, marked, marked_before, row_before, Before, refused, remembered, unnumbered, known,
  ready, prepare-Before, FromMember,
}
use yim.Message.Send.Idempotent.{
  IsSound, lookup-stored_self, idem_delete-messages, query-Backed, answered_sent,
}

-- The rows hold an answer already.
abbrev pub Held : Map Key Row → Key → Ids → Type 0
Held rows k v = (r : Row) × (lookup k rows ≡ some r) × (v ≡ (r.msg_id, r.seq))

-- Nothing is pushed, and an answer is a row that was there before.
abbrev pub Quiet : Map Key Row → List PushEvent → Msg → State × Answer → Type 0
Quiet rows pushes m (s2, a) =
    (s2.pushed ≡ pushes) × ((id seq : ℕ) → a ≡ sent id seq → Held rows (key_of m) (id, seq))

-- One push where there is a pusher, for a row that is new; its local message waits for delivery.
abbrev pub Pushed : Env → Msg → Map Key Row → List PushEvent → State × Answer → Type 0
Pushed env m rows pushes (s2, a) =
    (id seq : ℕ) × (a ≡ sent id seq)
    × (lookup (key_of m) rows ≡ none)
    × (s2.pushed ≡ (if env.pusher then push_event env m id seq ∷ pushes else pushes))
    × (lookup (key_of m) s2.messages
        ≡ some (record { msg_id = id; seq = seq; from_uid = m.from_uid; content = m.content }))
    × (lookup (m.conv_id, id) s2.local_messages ≡ some false)
    × FromMember env m

failed-Quiet :
    (rows : Map Key Row) (pushes : List PushEvent) (m : Msg) (s2 : State)
    → s2.pushed ≡ pushes
    → Quiet rows pushes m (s2, failed)
failed-Quiet rows pushes m s2 same = (same, λ id seq e. absurd (ground arith))

idem_delete-pushed : (env : Env) (k : Key) (s : State) → (idem_delete env k s).pushed ≡ s.pushed
unfolding idem_delete
idem_delete-pushed env k s = elim (Bool-cases (env.cached && not (env.fails idem_del))) [
  | inl e ↦ rw e refl
  | inr e ↦ rw e refl
]

not_has-none :
    (m : Msg) (seq : ℕ) (s : State)
    → is_duplicate m seq s ≡ false
    → lookup (key_of m) s.messages ≡ none
unfolding is_duplicate has
not_has-none m seq s new = elim (Option-cases (lookup (key_of m) s.messages)) [
  | inl e ↦ e
  | inr (r, e) ↦ absurd (ground (arith, e))
]

added-Pushed :
    (env : Env) (m : Msg) (id seq : ℕ) (s : State)
    → FromMember env m
    → is_duplicate m seq s ≡ false
    → Pushed env m s.messages s.pushed (committed env m id seq (stored m id seq s), sent id seq)
unfolding committed stored with_push
added-Pushed env m id seq s member new = (
  id,
  seq,
  refl,
  not_has-none m seq s new,
  refl,
  lookup-stored_self m id seq s,
  rw lookup-insert_self refl,
  member,
)

stored-pushed : (m : Msg) (id seq : ℕ) (s : State) → (stored m id seq s).pushed ≡ s.pushed
unfolding stored
stored-pushed m id seq s = refl

duplicate-Held :
    (env : Env) (m : Msg) (s : State) (id seq : ℕ)
    → answered
        (query_by_client_msg_id env query_duplicate (key_of m) (idem_delete env (key_of m) s))
      ≡ sent id seq
    → Held s.messages (key_of m) (id, seq)
duplicate-Held env m s id seq e =
    let s2 = idem_delete env (key_of m) s in
    let o = query_by_client_msg_id env query_duplicate (key_of m) s2 in
    subst (λ rows. Held rows (key_of m) (id, seq)) (idem_delete-messages env (key_of m) s)
      (query-Backed env query_duplicate (key_of m) s2 (id, seq) (answered_sent o id seq e))

Persisted-effect :
    (env : Env) (m : Msg) (id seq : ℕ) (s : State) (r : State × Answer)
    → FromMember env m
    → Persisted env m id seq s r
    → Quiet s.messages s.pushed m r ⊎ Pushed env m s.messages s.pushed r
Persisted-effect env m id seq s _ member dropped = inl (
    failed-Quiet s.messages s.pushed m (idem_delete env (key_of m) s)
      (idem_delete-pushed env (key_of m) s))
Persisted-effect env m id seq s _ member (left_marked e) =
    inl (failed-Quiet s.messages s.pushed m s refl)
Persisted-effect env m id seq s _ member (duplicate e) =
    inl (idem_delete-pushed env (key_of m) s, duplicate-Held env m s)
Persisted-effect env m id seq s _ member (unanswered new) = inl (
    failed-Quiet s.messages s.pushed m (idem_delete env (key_of m) (stored m id seq s))
      (idem_delete-pushed env (key_of m) (stored m id seq s) ∙ stored-pushed m id seq s))
Persisted-effect env m id seq s _ member (added new fresh) =
    inr (added-Pushed env m id seq s member new)

-- What holds when the call goes on, or has its answer.
abbrev PreparedEffect : Env → Msg → State → State × Prepared → Type 0
PreparedEffect env m s (s2, done a) = Quiet s.messages s.pushed m (s2, a)
PreparedEffect env m s (s2, go_on id seq) =
    FromMember env m × (s2.messages ≡ s.messages) × (s2.pushed ≡ s.pushed)

Marked-effect :
    (env : Env) (m : Msg) (id seq : ℕ) (s : State) (r : State × Option Ids)
    → IsSound s
    → Marked env m id seq s r
    → (r.0.messages ≡ s.messages)
      × (r.0.pushed ≡ s.pushed)
      × ((v : Ids) → r.1 ≡ some v → Held s.messages (key_of m) v)
Marked-effect env m id seq s _ sound (unmarked h) = (refl, refl, λ v e. absurd (ground arith))
Marked-effect env m id seq s _ sound (marked cached e) = (refl, refl, λ v e. absurd (ground arith))
Marked-effect env m id seq s _ sound (marked_before v e) =
    (refl, refl, λ w f. sound (key_of m) w (e ∙ f))
Marked-effect env m id seq s _ sound (row_before w f) =
    (refl, refl, λ v e. query-Backed env query_message (key_of m) s v e)

Before-PreparedEffect :
    (env : Env) (m : Msg) (s : State) (r : State × Prepared)
    → IsSound s
    → Before env m s r
    → PreparedEffect env m s r
Before-PreparedEffect env m s _ sound (refused a h) = (refl, λ id seq e. absurd (ground arith))
Before-PreparedEffect env m s _ sound (remembered member v e) =
    (refl, λ id seq f. subst (Held s.messages (key_of m)) (ground arith) (sound (key_of m) v e))
Before-PreparedEffect env m s _ sound (unnumbered segs ids) =
    (refl, λ id seq e. absurd (ground arith))
Before-PreparedEffect env m s _ sound (known member segs ids id seq s2 v h) =
    let (_, pushes, found) = Marked-effect env m id seq _ _ sound h in
    (pushes, λ i q f. subst (Held s.messages (key_of m)) (ground arith) (found v refl))
Before-PreparedEffect env m s _ sound (ready member segs ids id seq s2 h) =
    let (rows, pushes, _) = Marked-effect env m id seq _ _ sound h in (member, rows, pushes)

finish-effect :
    (env : Env) (m : Msg) (s : State) (r : State × Prepared)
    → PreparedEffect env m s r
    → Quiet s.messages s.pushed m (finish env m r)
      ⊎ Pushed env m s.messages s.pushed (finish env m r)
unfolding finish
finish-effect env m s (s2, done a) quiet = inl quiet
finish-effect env m s (s2, go_on id seq) (member, rows, pushes) =
    subst
      (λ x.
        Quiet x s.pushed m (persist env m id seq s2)
        ⊎ Pushed env m x s.pushed (persist env m id seq s2))
      rows
      (subst
        (λ x.
          Quiet s2.messages x m (persist env m id seq s2)
          ⊎ Pushed env m s2.messages x (persist env m id seq s2))
        pushes (Persisted-effect env m id seq s2 _ member (persist-Persisted env m id seq s2)))

-- Where every mark is the numbers of a row, a call either pushes nothing, and an answer that it gives is
-- a row from before the call; or it answers with a row that was not there and now is with the message's
-- content, whose local message waits for delivery and whose sender is a member, and has pushed one event
-- for it, where the service has a pusher (and none where it has not).
pub send-effect :
    (env : Env) (m : Msg) (s : State)
    → IsSound s
    → Quiet s.messages s.pushed m (send_message env m s)
      ⊎ Pushed env m s.messages s.pushed (send_message env m s)
unfolding send_message
send-effect env m s sound =
    finish-effect env m s (prepare env m s)
      (Before-PreparedEffect env m s _ sound (prepare-Before env m s))
