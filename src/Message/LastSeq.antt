-- ===== src/Message/LastSeq.antt =====
-- lastSeqBatcher of internal/message/service.go: the highest seq of each conversation, written in batches.
-- `flushes` counts the flushes that are due, started or armed; `invalidated` logs the calls of InvalidateConv,
-- which drops the copy of the conversation in Redis.
pub mod CaughtUp
mod Tests
use yim.Base.{
  nat_eq, ℕ, ◌+◌, ◌-◌, Bool, true, false, not, ◌&&◌, Option, none, some, List, [], ◌∷◌, ltb, leb,
  if◌then◌else◌, length,
}
use yim.Base.Map.{Map, lookup, insert}

-- The zero value of a missing key.
abbrev pub value : Option ℕ → ℕ
value none = 0
value (some v) = v

abbrev pub last_seq_flush_size : ℕ
last_seq_flush_size = 32

pub record State : Type 0 where
  pub buf : Map ℕ ℕ
  pub arm : Bool
  pub flushes : ℕ
  pub last_seq : Map ℕ ℕ
  pub invalidated : List ℕ

unfoldable pub buffered : ℕ → ℕ → Map ℕ ℕ → Map ℕ ℕ
buffered conv seq buf = if ltb (value (lookup conv buf)) seq then insert conv seq buf else buf

unfoldable pub add : ℕ → ℕ → State → State
add conv seq s =
    let buf = buffered conv seq s.buf in
    let full = leb last_seq_flush_size (length buf) in
    let need_arm = not full && not s.arm in
    let arm = if need_arm then true else s.arm in
    record s {
      buf = buf;
      arm = arm;
      flushes = if full then s.flushes + 1 else if need_arm then s.flushes + 1 else s.flushes;
    }

-- UPDATE conversations SET last_seq = ? WHERE conv_id = ? AND last_seq < ?
unfoldable pub update : ℕ → ℕ → Map ℕ ℕ → Map ℕ ℕ
update conv seq rows = elim (lookup conv rows) [
  | none ↦ rows
  | some v ↦ if ltb v seq then insert conv seq rows else rows
]

unfoldable pub update_all : (ℕ → Bool) → Map ℕ ℕ → Map ℕ ℕ → Map ℕ ℕ
update_all fails [] rows = rows
update_all fails ((conv, seq) ∷ batch) rows =
    update_all fails batch (if fails conv then rows else update conv seq rows)

-- InvalidateConv, of each conversation whose update did not fail.
unfoldable pub invalidate_all : (ℕ → Bool) → Map ℕ ℕ → List ℕ → List ℕ
invalidate_all fails [] log = log
invalidate_all fails ((conv, seq) ∷ batch) log =
    invalidate_all fails batch (if fails conv then log else conv ∷ log)

-- The batch is taken out under the lock, then written; `fails` says which updates fail.
unfoldable pub flush : (ℕ → Bool) → State → State
flush fails s = record s {
  buf = [];
  arm = false;
  flushes = s.flushes - 1;
  last_seq = update_all fails s.buf s.last_seq;
  invalidated = invalidate_all fails s.buf s.invalidated;
}
