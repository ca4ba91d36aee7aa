-- ===== src/Message/Send/Outcomes.antt =====
-- The outcomes of SendMessage, one constructor for each way through the code of
-- internal/message/service.go: from the transaction on (`Persisted`), up to it (`Numbered`, `Marked`).
use yim.Base.{
  nat_eq, pair_eq, ℕ, ◌≡◌, refl, Bool, true, false, not, ◌||◌, ◌&&◌, inl, inr, arith, Option, none,
  some, if◌then◌else◌, Bool-cases, Option-cases, List, contains, ◌⊎◌,
}
use yim.Base.Map.{lookup, insert, has}
use yim.Message.Ids.{MsgIdAlloc, ConvSegs, alloc_msg_id, alloc_conv_seq}
use yim.Message.Send.{
  Key, Ids, State, Env, Msg, idem_put, begin_tx, marshal, insert_message, insert_local, commit_tx,
  commit_unanswered, query_duplicate, Answer, sent, failed, key_of, idem_value, idem_get_again,
  query_message, idem_delete, query_by_client_msg_id, is_duplicate, answered, stored, committed,
  persist, mark, number, going_on, prepare_new, answer_known, check_member, prepare, Prepared, done,
  go_on, not_member, might_contain, idem_get,
}

pub data Persisted (env : Env) (m : Msg) (id seq : ℕ) (s : State) : State × Answer → Type 0 where
  dropped : Persisted env m id seq s (idem_delete env (key_of m) s, failed)
  left_marked : env.fails begin_tx ≡ true → Persisted env m id seq s (s, failed)
  duplicate :
      is_duplicate m seq s ≡ true
      → Persisted env m id seq s (
        idem_delete env (key_of m) s,
        answered
            (query_by_client_msg_id env query_duplicate (key_of m) (idem_delete env (key_of m) s)),
      )
  unanswered :
      is_duplicate m seq s ≡ false
      → Persisted env m id seq s (idem_delete env (key_of m) (stored m id seq s), failed)
  added :
      is_duplicate m seq s ≡ false
      → has (m.conv_id, id) s.local_messages ≡ false
      → Persisted env m id seq s (committed env m id seq (stored m id seq s), sent id seq)

by_test {ℓ ℓ2} :
    {A : Type ℓ} (P : A → Type ℓ2) (b : Bool) {x y : A}
    → (b ≡ true → P x)
    → (b ≡ false → P y)
    → P (if b then x else y)
by_test P true on_true on_false = on_true refl
by_test P false on_true on_false = on_false refl

pub persist-Persisted :
    (env : Env) (m : Msg) (id seq : ℕ) (s : State)
    → Persisted env m id seq s (persist env m id seq s)
unfolding persist
persist-Persisted env m id seq s =
    let P = Persisted env m id seq s in
    by_test P (env.fails marshal) (λ _. dropped)
      λ _. by_test P (env.fails begin_tx) left_marked λ _.
        by_test P (env.fails insert_message) (λ _. dropped)
          λ _. by_test P (is_duplicate m seq s) duplicate λ new.
            by_test P (env.fails insert_local || has (m.conv_id, id) s.local_messages)
              (λ _. dropped)
              λ fresh.
                by_test P (env.fails commit_tx) (λ _. dropped)
                  λ _.
                    by_test P (env.fails commit_unanswered) (λ _. unanswered new)
                      λ _. added new (ground arith)

pub data Marked (env : Env) (m : Msg) (id seq : ℕ) (s : State) : State × Option Ids → Type 0 where
  unmarked : (env.cached ≡ false) ⊎ (env.fails idem_put ≡ true) → Marked env m id seq s (s, none)
  marked :
      env.cached ≡ true
      → lookup (key_of m) s.idem ≡ none
      → Marked env m id seq s (record s { idem = insert (key_of m) (id, seq) s.idem }, none)
  marked_before : (v : Ids) → lookup (key_of m) s.idem ≡ some v → Marked env m id seq s (s, some v)
  row_before :
      (v : Ids)
      → lookup (key_of m) s.idem ≡ some v
      → Marked env m id seq s (s, query_by_client_msg_id env query_message (key_of m) s)

mark-Marked :
    (env : Env) (m : Msg) (id seq : ℕ) (s : State) → Marked env m id seq s (mark env m id seq s)
unfolding mark idem_value
mark-Marked env m id seq s =
    let P = Marked env m id seq s in
    by_test P (not env.cached) (λ e. unmarked (inl (ground arith)))
      λ cached.
        by_test P (env.fails idem_put) (λ e. unmarked (inr e))
          λ _. elim (Option-cases (lookup (key_of m) s.idem)) [
            | inl e ↦ rw e (marked (ground arith) e)
            | inr (v, e) ↦ rw e (elim (Bool-cases (env.cached && not (env.fails idem_get_again))) [
              | inl hit ↦ rw (hit, e) (marked_before v e)
              | inr miss ↦ rw miss (row_before v e)
            ])
          ]

-- The numbers change nothing else.
pub data Numbered (s : State) : State × Option Ids → Type 0 where
  numbered :
      (segs : ConvSegs) (ids : MsgIdAlloc) (o : Option Ids)
      → Numbered s (record s { conv_segs = segs; msg_ids = ids }, o)

pub number-Numbered : (env : Env) (m : Msg) (s : State) → Numbered s (number env m s)
unfolding number
number-Numbered env m s =
    let (segs, seq) = alloc_conv_seq env.conv_answer s.conv_segs m.conv_id in
    let (ids, id) = alloc_msg_id env.msg_answer s.msg_ids in
    elim (Option-cases seq) [
      | inl e ↦ rw (e, number) (numbered segs s.msg_ids none)
      | inr (v, e) ↦
          rw (e, number)
            (elim (Option-cases id) [
              | inl f ↦ rw f (numbered segs ids none)
              | inr (i, f) ↦ rw f (numbered segs ids (some (i, v)))
            ])
    ]

abbrev pub FromMember : Env → Msg → Type 0
FromMember env m = (uids : List ℕ) × (env.members ≡ some uids) × (contains uids m.from_uid ≡ true)

abbrev pub with_numbers : ConvSegs → MsgIdAlloc → State → State
with_numbers segs ids s = record s { conv_segs = segs; msg_ids = ids }

pub data Before (env : Env) (m : Msg) (s : State) : State × Prepared → Type 0 where
  refused : (a : Answer) → (a ≡ failed) ⊎ (a ≡ not_member) → Before env m s (s, done a)
  remembered :
      FromMember env m
      → (v : Ids) → lookup (key_of m) s.idem ≡ some v
      → Before env m s (s, done (sent v.0 v.1))
  unnumbered :
      (segs : ConvSegs) (ids : MsgIdAlloc) → Before env m s (with_numbers segs ids s, done failed)
  known :
      FromMember env m
      → (segs : ConvSegs) (ids : MsgIdAlloc) (id seq : ℕ) (s2 : State) (v : Ids)
      → Marked env m id seq (with_numbers segs ids s) (s2, some v)
      → Before env m s (s2, done (sent v.0 v.1))
  ready :
      FromMember env m
      → (segs : ConvSegs) (ids : MsgIdAlloc) (id seq : ℕ) (s2 : State)
      → Marked env m id seq (with_numbers segs ids s) (s2, none)
      → Before env m s (s2, go_on id seq)

going_on-Before :
    (env : Env) (m : Msg) (s : State) (segs : ConvSegs) (ids : MsgIdAlloc) (id seq : ℕ)
    → FromMember env m
    → (r : State × Option Ids) → Marked env m id seq (with_numbers segs ids s) r
    → Before env m s (going_on id seq r)
unfolding going_on
going_on-Before env m s segs ids id seq member (s2, none) h = ready member segs ids id seq s2 h
going_on-Before env m s segs ids id seq member (s2, some v) h = known member segs ids id seq s2 v h

prepare_new-Before :
    (env : Env) (m : Msg) (s : State)
    → FromMember env m
    → (r : State × Option Ids) → Numbered s r
    → Before env m s (prepare_new env m r)
unfolding prepare_new
prepare_new-Before env m s member _ (numbered segs ids none) = unnumbered segs ids
prepare_new-Before env m s member _ (numbered segs ids (some (id, seq))) =
    going_on-Before env m s segs ids id seq member _
      (mark-Marked env m id seq (with_numbers segs ids s))

answer_known-Before :
    (env : Env) (m : Msg) (s : State)
    → FromMember env m
    → (o : Option Ids) → ((v : Ids) → o ≡ some v → lookup (key_of m) s.idem ≡ some v)
    → Before env m s (answer_known env m s o)
unfolding answer_known
answer_known-Before env m s member none h =
    prepare_new-Before env m s member _ (number-Numbered env m s)
answer_known-Before env m s member (some v) h = remembered member v (h v refl)

pub remembered_value :
    (env : Env) (k : Key) (s : State) (v : Ids)
    → (if might_contain env k s then idem_value env idem_get k s else none) ≡ some v
    → lookup k s.idem ≡ some v
unfolding idem_value might_contain
remembered_value env k s v e = ground arith

check_member-Before :
    (env : Env) (m : Msg) (s : State) (o : Option (List ℕ))
    → env.members ≡ o
    → Before env m s (check_member env m s o)
unfolding check_member
check_member-Before env m s none e = refused failed (inl refl)
check_member-Before env m s (some uids) e =
    by_test (Before env m s) (contains uids m.from_uid)
      (λ member.
        answer_known-Before env m s (uids, e, member) _ (remembered_value env (key_of m) s))
      λ _. refused not_member (inr refl)

pub prepare-Before : (env : Env) (m : Msg) (s : State) → Before env m s (prepare env m s)
unfolding prepare
prepare-Before env m s = check_member-Before env m s env.members refl
