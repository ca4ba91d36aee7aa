-- ===== src/Message/Send.antt =====
-- SendMessage of internal/message/service.go, with the idempotency marks of internal/cache/cache.go.
-- A state holds what the call reads and writes. One shard stands for all: a conversation has one.
-- `fails` says which statements fail; an answer that is lost after a commit is `commit_unanswered`.
pub mod Inflight
pub mod Outcomes
pub mod Idempotent
pub mod Resend
pub mod Effects
mod Tests
use yim.Base.{
  nat_eq, pair_eq, ℕ, ◌+◌, Bool, true, false, not, ◌||◌, ◌&&◌, Option, none, some, List, [], ◌∷◌,
  ◌==◌, if◌then◌else◌, contains,
}
use yim.Base.Map.{Map, lookup, insert, erase, has}
use yim.Message.Ids.{MsgIdAlloc, ConvSegs, alloc_msg_id, alloc_conv_seq}

-- A row of the message table, under its unique key (conv_id, client_msg_id).
pub record Row : Type 0 where
  pub msg_id : ℕ
  pub seq : ℕ
  pub from_uid : ℕ
  pub content : List ℕ

abbrev pub Key : Type 0
Key = ℕ × ℕ

-- IdemValue: (msg_id, seq).
abbrev pub Ids : Type 0
Ids = ℕ × ℕ

pub record PushEvent : Type 0 where
  pub conv_id : ℕ
  pub max_seq : ℕ
  pub from_uid : ℕ
  pub user_sync_seq : ℕ
  pub msg_id : ℕ

-- `bloom` holds the keys added; `recent` and `last_seqs` what was handed to the two buffers.
pub record State : Type 0 where
  pub messages : Map Key Row
  pub local_messages : Map (ℕ × ℕ) Bool
  pub idem : Map Key Ids
  pub bloom : List Key
  pub conv_segs : ConvSegs
  pub msg_ids : MsgIdAlloc
  pub recent : List (ℕ × ℕ)
  pub last_seqs : List (ℕ × ℕ)
  pub pushed : List PushEvent

pub data Stmt : Type 0 where
  idem_get idem_put idem_get_again idem_del query_message marshal begin_tx : Stmt
  insert_message insert_local commit_tx commit_unanswered query_duplicate marshal_recent bump_sync :
      Stmt

-- What the call meets: the members that GetConvMeta gives, whether the filter errs on the key, the
-- answers of the seq service, and the failures. `cached` is false where the service has no Redis, and
-- `pusher` where it has no pusher.
pub record Env : Type 0 where
  pub members : Option (List ℕ)
  pub cached : Bool
  pub pusher : Bool
  pub false_positive : Bool
  pub conv_answer : Option ℕ
  pub msg_answer : Option ℕ
  pub sync_seq : ℕ
  pub fails : Stmt → Bool

pub record Msg : Type 0 where
  pub conv_id : ℕ
  pub client_msg_id : ℕ
  pub from_uid : ℕ
  pub content : List ℕ

pub data Answer : Type 0 where
  sent : ℕ → ℕ → Answer
  not_member failed : Answer

abbrev pub key_of : Msg → Key
key_of m = (m.conv_id, m.client_msg_id)

unfoldable pub might_contain : Env → Key → State → Bool
might_contain env k s = env.cached && (env.false_positive || contains s.bloom k)

unfoldable pub idem_value : Env → Stmt → Key → State → Option Ids
idem_value env stmt k s = if env.cached && not (env.fails stmt) then lookup k s.idem else none

unfoldable pub idem_delete : Env → Key → State → State
idem_delete env k s =
    if env.cached && not (env.fails idem_del) then record s { idem = erase k s.idem } else s

-- queryByClientMsgID.
unfoldable pub query_by_client_msg_id : Env → Stmt → Key → State → Option Ids
query_by_client_msg_id env stmt k s =
    if env.fails stmt
    then none
    else elim (lookup k s.messages) [ none ↦ none | some r ↦ some (r.msg_id, r.seq) ]

-- The two unique keys of the table: (conv_id, client_msg_id) and (conv_id, seq).
unfoldable pub seq_taken : ℕ → ℕ → Map Key Row → Bool
seq_taken conv seq [] = false
seq_taken conv seq (((c, _), r) ∷ rows) =
    if (c == conv) && (r.seq == seq) then true else seq_taken conv seq rows

unfoldable pub is_duplicate : Msg → ℕ → State → Bool
is_duplicate m seq s = has (key_of m) s.messages || seq_taken m.conv_id seq s.messages

abbrev pub answered : Option Ids → Answer
answered none = failed
answered (some (id, seq)) = sent id seq

unfoldable pub stored : Msg → ℕ → ℕ → State → State
stored m id seq s = record s {
  messages =
      insert (key_of m)
        (record { msg_id = id; seq = seq; from_uid = m.from_uid; content = m.content }) s.messages;
  local_messages = insert (m.conv_id, id) false s.local_messages;
}

unfoldable pub push_event : Env → Msg → ℕ → ℕ → PushEvent
push_event env m id seq = record {
  conv_id = m.conv_id;
  max_seq = seq;
  from_uid = m.from_uid;
  user_sync_seq = if env.fails bump_sync then 0 else env.sync_seq;
  msg_id = id;
}

-- `if s.pusher != nil { s.pusher.Push(...) }`.
unfoldable pub with_push : Env → Msg → ℕ → ℕ → List PushEvent → List PushEvent
with_push env m id seq pushes = if env.pusher then push_event env m id seq ∷ pushes else pushes

-- After the commit: filter, recent window, last_seq, push.
unfoldable pub committed : Env → Msg → ℕ → ℕ → State → State
committed env m id seq s = record s {
  bloom = if env.cached then key_of m ∷ s.bloom else s.bloom;
  recent =
      if env.cached && not (env.fails marshal_recent)
      then (m.conv_id, seq) ∷ s.recent
      else s.recent;
  last_seqs = (m.conv_id, seq) ∷ s.last_seqs;
  pushed = with_push env m id seq s.pushed;
}

-- From the marshalling of the content on.
unfoldable pub persist : Env → Msg → ℕ → ℕ → State → State × Answer
persist env m id seq s =
    let dropped = idem_delete env (key_of m) s in
    if env.fails marshal
    then (dropped, failed)
    else if env.fails begin_tx
    then (s, failed)
    else if env.fails insert_message
    then (dropped, failed)
    else if is_duplicate m seq s
    then (dropped, answered (query_by_client_msg_id env query_duplicate (key_of m) dropped))
    else if env.fails insert_local || has (m.conv_id, id) s.local_messages
    then (dropped, failed)
    else if env.fails commit_tx
    then (dropped, failed)
    else if env.fails commit_unanswered
    then (idem_delete env (key_of m) (stored m id seq s), failed)
    else (committed env m id seq (stored m id seq s), sent id seq)

-- The mark and, where another call has set it, what that call has got.
unfoldable pub mark : Env → Msg → ℕ → ℕ → State → State × Option Ids
mark env m id seq s =
    if not env.cached
    then (s, none)
    else if env.fails idem_put
    then (s, none)
    else elim (lookup (key_of m) s.idem) [
      | none ↦ (record s { idem = insert (key_of m) (id, seq) s.idem }, none)
      | some v ↦ elim (idem_value env idem_get_again (key_of m) s) [
        | some w ↦ (s, some w)
        | none ↦ (s, query_by_client_msg_id env query_message (key_of m) s)
      ]
    ]

-- The two numbers; a failure keeps what was fetched before it.
unfoldable pub number : Env → Msg → State → State × Option Ids
number env m s =
    let (segs, seq) = alloc_conv_seq env.conv_answer s.conv_segs m.conv_id in
    let s1 = record s { conv_segs = segs } in
    elim seq [
      | none ↦ (s1, none)
      | some v ↦
          let (ids, id) = alloc_msg_id env.msg_answer s1.msg_ids in
          let s2 = record s1 { msg_ids = ids } in
          elim id [ none ↦ (s2, none) | some i ↦ (s2, some (i, v)) ]
    ]

-- Up to the mark: an answer, or the numbers with which to go on.
pub data Prepared : Type 0 where
  done : Answer → Prepared
  go_on : ℕ → ℕ → Prepared

unfoldable pub going_on : ℕ → ℕ → State × Option Ids → State × Prepared
going_on id seq (s, none) = (s, go_on id seq)
going_on id seq (s, some (i, q)) = (s, done (sent i q))

unfoldable pub prepare_new : Env → Msg → State × Option Ids → State × Prepared
prepare_new env m (s, none) = (s, done failed)
prepare_new env m (s, some (id, seq)) = going_on id seq (mark env m id seq s)

-- With a remembered answer, or without one.
unfoldable pub answer_known : Env → Msg → State → Option Ids → State × Prepared
answer_known env m s (some (id, seq)) = (s, done (sent id seq))
answer_known env m s none = prepare_new env m (number env m s)

unfoldable pub check_member : Env → Msg → State → Option (List ℕ) → State × Prepared
check_member env m s none = (s, done failed)
check_member env m s (some uids) =
    if contains uids m.from_uid
    then answer_known env m s
        (if might_contain env (key_of m) s then idem_value env idem_get (key_of m) s else none)
    else (s, done not_member)

unfoldable pub prepare : Env → Msg → State → State × Prepared
prepare env m s = check_member env m s env.members

unfoldable pub finish : Env → Msg → State × Prepared → State × Answer
finish env m (s, done a) = (s, a)
finish env m (s, go_on id seq) = persist env m id seq s

unfoldable pub send_message : Env → Msg → State → State × Answer
send_message env m s = finish env m (prepare env m s)
