-- ===== src/Message/Marks.antt =====
-- markBatcher of internal/message/delivery.go: the marks of delivered messages, written in batches for
-- each database. `due` counts the flushes of a database that are started or armed; `status` is the
-- column of local_message in each database. A Go map with the database's index for key is a function.
pub mod Written
mod Tests
use yim.Base.{
  nat_eq, pair_eq, ℕ, ◌+◌, ◌-◌, Bool, true, false, not, ◌&&◌, Option, none, some, List, [], ◌∷◌,
  leb, ◌==◌, ◌=?◌, if◌then◌else◌, length,
}
use yim.Base.Map.{Map, lookup, insert}
use yim.Store.Sharding.{SlotTable, MsgShard, pos, route_msg}

-- A conversation and a message.
abbrev pub Mark : Type 0
Mark = ℕ × ℕ

abbrev pub mark_flush_size : ℕ
mark_flush_size = 32

pub record State : Type 0 where
  pub buf : ℕ → List Mark
  pub arms : ℕ → Bool
  pub due : ℕ → ℕ
  pub status : ℕ → Map Mark ℕ

abbrev pub db_index_of : Option MsgShard → ℕ
db_index_of none = 0
db_index_of (some s) = s.db_index

unfoldable pub shard_of : SlotTable → Mark → ℕ
shard_of t k = db_index_of (route_msg t (pos k.0))

unfoldable pub new_mark_batcher : (ℕ → Map Mark ℕ) → State
new_mark_batcher status = record { buf = λ _. []; arms = λ _. false; due = λ _. 0; status = status }

-- A write of a map.
abbrev pub at {ℓ} : {A : Type ℓ} → ℕ → A → (ℕ → A) → ℕ → A
at i x f j = if i == j then x else f j

-- A set has each key once.
unfoldable pub include : Mark → List Mark → List Mark
include k [] = k ∷ []
include k (j ∷ ks) = if j =? k then j ∷ ks else j ∷ include k ks

unfoldable pub add_to : ℕ → Mark → State → State
add_to shard k s =
    let rows = include k (s.buf shard) in
    let full = leb mark_flush_size (length rows) in
    let need_arm = not full && not (s.arms shard) in
    record s {
      buf = at shard rows s.buf;
      arms = if need_arm then at shard true s.arms else s.arms;
      due =
          if full
          then at shard (s.due shard + 1) s.due
          else if need_arm
          then at shard (s.due shard + 1) s.due
          else s.due;
    }

unfoldable pub add : SlotTable → Mark → State → State
add t k s = add_to (shard_of t k) k s

-- UPDATE local_message SET status = 1 WHERE status = 0, for one row.
unfoldable pub mark_row : Mark → Map Mark ℕ → Map Mark ℕ
mark_row k rows = elim (lookup k rows) [
  | none ↦ rows
  | some st ↦ if st == 0 then insert k 1 rows else rows
]

unfoldable pub mark_rows : List Mark → Map Mark ℕ → Map Mark ℕ
mark_rows [] rows = rows
mark_rows (k ∷ ks) rows = mark_rows ks (mark_row k rows)

-- The batch is taken out under the lock, then written by one statement, which may fail.
unfoldable pub flush : Bool → ℕ → State → State
flush fails shard s = record s {
  buf = at shard [] s.buf;
  arms = at shard false s.arms;
  due = at shard (s.due shard - 1) s.due;
  status = if fails then s.status else at shard (mark_rows (s.buf shard) (s.status shard)) s.status;
}
