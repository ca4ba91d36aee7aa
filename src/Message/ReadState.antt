-- ===== src/Message/ReadState.antt =====
-- MarkRead and getReadSeq of internal/message/conversations.go, GetReadState of
-- internal/message/readstate.go, and the read:%d:%d keys of internal/cache/cache.go. The answer of
-- GetConvMeta is an argument of each call.
pub mod Levels
pub mod Writes
pub mod Acks
mod Tests
use yim.Base.{
  nat_eq, pair_eq, ℕ, Bool, true, false, not, ◌&&◌, ◌||◌, Option, none, some, List, [], ◌∷◌, ltb,
  ◌==◌, if◌then◌else◌, contains,
}
use yim.Base.Map.{Map, lookup, insert}
use yim.Relation.{code_internal, code_not_member, Result, ok, err}
use yim.Message.Conversations.{ConvType, unknown, single, group, ConvMeta}

-- A row of user_conv_state.
pub record ReadRow : Type 0 where
  pub read_seq : ℕ
  pub update_time_ms : ℕ

-- The READ signal.
pub record EphemeralMsg : Type 0 where
  pub conv : ℕ
  pub from : ℕ
  pub to : ℕ
  pub seq : ℕ

-- `cached` is Redis, `published` its channel. Both tables are keyed by user and conversation.
pub record Store : Type 0 where
  pub rows : Map (ℕ × ℕ) ReadRow
  pub cached : Map (ℕ × ℕ) ℕ
  pub published : List EphemeralMsg

pub data Stmt : Type 0 where
  upsert_row select_row redis_get redis_set : Stmt
  publish : ℕ → Stmt

pub record Env : Type 0 where
  pub meta : Result ConvMeta
  pub fails : Stmt → Bool
  pub now : ℕ

-- `GREATEST(read_seq, VALUES(read_seq))`.
abbrev pub upserted : ℕ → ℕ → Option ReadRow → ReadRow
upserted seq now none = record { read_seq = seq; update_time_ms = now }
upserted seq now (some row) = record {
  read_seq = if ltb row.read_seq seq then seq else row.read_seq;
  update_time_ms = now;
}

pub set_read_seq : Env → ℕ → ℕ → ℕ → Store → Store
set_read_seq env uid conv seq s =
    if env.fails redis_set then s else record s { cached = insert (uid, conv) seq s.cached }

abbrev pub is_single : ConvType → Bool
is_single unknown = false
is_single single = true
is_single group = false

pub publish_read : Env → ℕ → ℕ → ℕ → List ℕ → Store → Store
publish_read env conv uid seq [] s = s
publish_read env conv uid seq (m ∷ members) s = publish_read env conv uid seq members (
    if (m == uid) || env.fails (publish m) then s else record s {
      published = record { conv = conv; from = uid; to = m; seq = seq } ∷ s.published;
    })

abbrev pub clamp : ℕ → ℕ → ℕ
clamp last seq = if ltb last seq then last else seq

pub upsert : Env → ℕ → ℕ → ℕ → Store → Store
upsert env uid conv seq s = record s {
  rows = insert (uid, conv) (upserted seq env.now (lookup (uid, conv) s.rows)) s.rows;
}

pub mark_known : Env → ℕ → ℕ → ℕ → ConvMeta → Store → Store × Result (Unit {0})
mark_known env uid conv seq meta s =
    if env.fails upsert_row
    then (s, err code_internal)
    else let s1 = set_read_seq env uid conv seq (upsert env uid conv seq s) in
      (if is_single meta.type then publish_read env conv uid seq meta.member_uids s1 else s1, ok tt)

pub mark_found : Env → ℕ → ℕ → ℕ → Result ConvMeta → Store → Store × Result (Unit {0})
mark_found env uid conv seq (err code) s = (s, err code_internal)
mark_found env uid conv seq (ok meta) s = mark_known env uid conv (clamp meta.last_seq seq) meta s

abbrev pub mark_read : Env → ℕ → ℕ → ℕ → Store → Store × Result (Unit {0})
mark_read env uid conv seq s = mark_found env uid conv seq env.meta s

-- No row, or no answer: 0.
pub read_row : Env → ℕ → ℕ → Store → Store × ℕ
read_row env uid conv s =
    if env.fails select_row then (s, 0) else elim (lookup (uid, conv) s.rows) [
      | none ↦ (s, 0)
      | some row ↦ (set_read_seq env uid conv row.read_seq s, row.read_seq)
    ]

pub get_read_seq : Env → ℕ → ℕ → Store → Store × ℕ
get_read_seq env uid conv s =
    if env.fails redis_get
    then read_row env uid conv s
    else elim (lookup (uid, conv) s.cached) [ none ↦ read_row env uid conv s | some seq ↦ (s, seq) ]

pub states_of : Env → ℕ → List ℕ → Store → Store × List (ℕ × ℕ)
states_of env conv [] s = (s, [])
states_of env conv (m ∷ members) s =
    let (s1, seq) = get_read_seq env m conv s in
    let (s2, states) = states_of env conv members s1 in (s2, (m, seq) ∷ states)

pub states_found : Env → ℕ → ℕ → Result ConvMeta → Store → Store × Result (List (ℕ × ℕ))
states_found env op conv (err code) s = (s, err code_internal)
states_found env op conv (ok meta) s =
    if contains meta.member_uids op
    then (let r = states_of env conv meta.member_uids s in (r.0, ok r.1))
    else (s, err code_not_member)

-- The uid and the read seq of each member; to a member only.
abbrev pub get_read_state : Env → ℕ → ℕ → Store → Store × Result (List (ℕ × ℕ))
get_read_state env op conv s = states_found env op conv env.meta s
