-- ===== src/Message/Send/Inflight.antt =====
-- Marks of calls under way in SendMessage of internal/message/service.go: the answer that a second call
-- with the same key gets before the first has committed, or when the first never commits.
use yim.Base.{
  nat_eq, pair_eq, ℕ, ◌≡◌, refl, sym, ap, subst, ◌∙◌, true, false, Option, none, some, List, arith,
  if◌then◌else◌, contains,
}
use yim.Base.Map.{lookup, lookup-insert_self}
use yim.Message.Send.{
  Ids, State, Env, Msg, begin_tx, marshal, Answer, sent, failed, key_of, might_contain, idem_value,
  persist, mark, number, answer_known, check_member, going_on, idem_put, idem_get_again, idem_get,
  Prepared, done, go_on, prepare_new, prepare, finish, send_message,
}
use yim.Message.Send.Outcomes.{
  Numbered, numbered, number-Numbered, with_numbers, remembered_value, Marked, unmarked, marked,
  marked_before, row_before, Before, refused, remembered, unnumbered, known, ready, prepare-Before,
  FromMember,
}
use yim.Message.Send.Resend.{Before-messages}

-- The sender is a member and no statement on the way to the mark fails.
abbrev pub ReachesMark : Env → Msg → State → Type 0
ReachesMark env m s =
    FromMember env m
    × (env.cached ≡ true)
    × (env.fails idem_put ≡ false)
    × (env.fails idem_get_again ≡ false)
    × ((ids : Ids) × (number env m s).1 ≡ some ids)

going_on-some :
    (id seq : ℕ) (s : State) (v : Ids) → (going_on id seq (s, some v)).1 ≡ done (sent v.0 v.1)
unfolding going_on
going_on-some id seq s v = refl

check_member-in :
    (env : Env) (m : Msg) (s : State) (uids : List ℕ) {p : Prepared}
    → contains uids m.from_uid ≡ true
    → (answer_known env m s
        (if might_contain env (key_of m) s then idem_value env idem_get (key_of m) s else none)).1
      ≡ p
    → (check_member env m s (some uids)).1 ≡ p
unfolding check_member
check_member-in env m s uids member e = rw member e

mark-marked :
    (env : Env) (m : Msg) (id seq : ℕ) (s : State) (v : Ids)
    → env.cached ≡ true
    → env.fails idem_put ≡ false
    → env.fails idem_get_again ≡ false
    → lookup (key_of m) s.idem ≡ some v
    → mark env m id seq s ≡ (s, some v)
unfolding mark idem_value
mark-marked env m id seq s v cached put get at = rw (cached, put, at, get) (rw (cached, at) refl)

prepare_new-marked :
    (env : Env) (m : Msg) (s : State) (v : Ids) (r : State × Option Ids) (ids : Ids)
    → env.cached ≡ true
    → env.fails idem_put ≡ false
    → env.fails idem_get_again ≡ false
    → lookup (key_of m) s.idem ≡ some v
    → Numbered s r
    → r.1 ≡ some ids
    → (prepare_new env m r).1 ≡ done (sent v.0 v.1)
unfolding prepare_new
prepare_new-marked env m s v _ ids cached put get at (numbered segs alloc none) e =
    absurd (ground arith)
prepare_new-marked env m s v _ ids cached put get at (numbered segs alloc (some (id, seq))) e =
    ap (λ r. (going_on id seq r).1)
      (mark-marked env m id seq (with_numbers segs alloc s) v cached put get at)
    ∙ going_on-some id seq (with_numbers segs alloc s) v

answer_known-marked :
    (env : Env) (m : Msg) (s : State) (v : Ids) (o : Option Ids)
    → ReachesMark env m s
    → lookup (key_of m) s.idem ≡ some v
    → ((w : Ids) → o ≡ some w → lookup (key_of m) s.idem ≡ some w)
    → (answer_known env m s o).1 ≡ done (sent v.0 v.1)
unfolding answer_known
answer_known-marked env m s v none (member, cached, put, get, (ids, n)) at held =
    prepare_new-marked env m s v _ ids cached put get at (number-Numbered env m s) n
answer_known-marked env m s v (some w) reaches at held = ground (arith, held w refl)

-- Where the key is marked, a call of a member that reaches the mark without a failing statement answers
-- with the mark at once, whether or not a row stands behind it.
pub prepare-marked :
    (env : Env) (m : Msg) (s : State) (v : Ids)
    → ReachesMark env m s
    → lookup (key_of m) s.idem ≡ some v
    → (prepare env m s).1 ≡ done (sent v.0 v.1)
unfolding prepare
prepare-marked env m s v reaches at =
    let ((uids, e, member), _, _, _, _) = reaches in
    subst (λ o. (check_member env m s o).1 ≡ done (sent v.0 v.1)) (sym e)
      (check_member-in env m s uids member
        (answer_known-marked env m s v _ reaches at (remembered_value env (key_of m) s)))

-- The mark that the first call has set for another stays when its transaction cannot begin.
begin_failed :
    (env : Env) (m : Msg) (id seq : ℕ) (s : State)
    → env.fails marshal ≡ false
    → env.fails begin_tx ≡ true
    → persist env m id seq s ≡ (s, failed)
unfolding persist
begin_failed env m id seq s ok fail = rw (ok, fail) refl

mark_set :
    (env : Env) (m : Msg) (id seq : ℕ) (s : State) (r : State × Option Ids)
    → env.cached ≡ true
    → env.fails idem_put ≡ false
    → lookup (key_of m) s.idem ≡ none
    → Marked env m id seq s r
    → lookup (key_of m) r.0.idem ≡ some (id, seq)
mark_set env m id seq s _ cached put none_yet (unmarked h) = absurd (ground arith)
mark_set env m id seq s _ cached put none_yet (marked c f) =
    lookup-insert_self (key_of m) (id, seq) s.idem
mark_set env m id seq s _ cached put none_yet (marked_before v f) = absurd (ground arith)
mark_set env m id seq s _ cached put none_yet (row_before v f) = absurd (ground arith)

marked_for :
    (env : Env) (m : Msg) (s : State) (id seq : ℕ) (r : State × Prepared)
    → env.cached ≡ true
    → env.fails idem_put ≡ false
    → lookup (key_of m) s.idem ≡ none
    → Before env m s r
    → r.1 ≡ go_on id seq
    → lookup (key_of m) r.0.idem ≡ some (id, seq)
marked_for env m s id seq _ cached put none_yet (refused a h) e = absurd (ground arith)
marked_for env m s id seq _ cached put none_yet (remembered member v f) e = absurd (ground arith)
marked_for env m s id seq _ cached put none_yet (unnumbered segs ids) e = absurd (ground arith)
marked_for env m s id seq _ cached put none_yet (known member segs ids i q s2 v h) e =
    absurd (ground arith)
marked_for env m s id seq _ cached put none_yet (ready member segs ids i q s2 h) e =
    mark_set env m i q (with_numbers segs ids s) (s2, none) cached put none_yet h ∙ ground arith

finish_failed :
    (env : Env) (m : Msg) (id seq : ℕ) (r : State × Prepared)
    → env.fails marshal ≡ false
    → env.fails begin_tx ≡ true
    → r.1 ≡ go_on id seq
    → finish env m r ≡ (r.0, failed)
unfolding finish
finish_failed env m id seq (s, done a) ok fail e = absurd (ground arith)
finish_failed env m id seq (s, go_on i q) ok fail e = begin_failed env m i q s ok fail

finish-done :
    (env : Env) (m : Msg) (r : State × Prepared) (a : Answer)
    → r.1 ≡ done a
    → finish env m r ≡ (r.0, a)
unfolding finish
finish-done env m (s, done b) a e = ground arith
finish-done env m (s, go_on i q) a e = absurd (ground arith)

-- Where the transaction of a first call cannot begin, after the call has set the mark, that call fails
-- and the mark stays: a second call of the same message that reaches the mark is answered as sent, with
-- the numbers of the first, and still there is no row of the message.
pub send-lost :
    (env env' : Env) (m : Msg) (s : State) (id seq : ℕ)
    → env.cached ≡ true
    → env.fails idem_put ≡ false
    → env.fails marshal ≡ false
    → env.fails begin_tx ≡ true
    → lookup (key_of m) s.idem ≡ none
    → lookup (key_of m) s.messages ≡ none
    → (prepare env m s).1 ≡ go_on id seq
    → ReachesMark env' m (prepare env m s).0
    → ((send_message env m s).1 ≡ failed)
      × ((send_message env' m (send_message env m s).0).1 ≡ sent id seq)
      × (lookup (key_of m) (send_message env' m (send_message env m s).0).0.messages ≡ none)
unfolding send_message
send-lost env env' m s id seq cached put ok fail no_mark no_row going reaches =
    let s1 = (prepare env m s).0 in
    let first = finish_failed env m id seq (prepare env m s) ok fail going in
    let at =
      marked_for env m s id seq (prepare env m s) cached put no_mark (prepare-Before env m s)
        going in
    let second =
      finish-done env' m (prepare env' m s1) (sent id seq)
        (prepare-marked env' m s1 (id, seq) reaches at) in
    let rows = Before-messages env m s _ (prepare-Before env m s) in
    let rows' = Before-messages env' m s1 _ (prepare-Before env' m s1) in
    (
      ap (λ r. r.1) first,
      subst (λ r. (finish env' m (prepare env' m r.0)).1 ≡ sent id seq) (sym first)
          (ap (λ r. r.1) second),
      subst (λ r. lookup (key_of m) (finish env' m (prepare env' m r.0)).0.messages ≡ none)
          (sym first)
          (ap (λ r. lookup (key_of m) r.0.messages) second
            ∙ ap (lookup (key_of m)) (rows' ∙ rows)
            ∙ no_row),
    )
