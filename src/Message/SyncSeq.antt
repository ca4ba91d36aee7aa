-- ===== src/Message/SyncSeq.antt =====
-- RedisSyncSeqClient of internal/message/seq_client.go, with SyncSeqBump of internal/cache/cache.go. The
-- state is one process, Redis and the rows of seq_segment for `sync`; `due` counts the flushes that
-- goroutines and timers are still to run. A flush is one step.
pub mod Levels
pub mod Loss
pub mod Backing
pub mod Written
mod Tests
use yim.Base.{
  nat_eq, ℕ, zero, suc, ◌+◌, ◌-◌, Bool, true, false, not, ◌&&◌, Option, none, some, List, [], ◌∷◌,
  ltb, leb, ◌==◌, if◌then◌else◌, length,
}
use yim.Base.Map.{Map, lookup, insert}

abbrev pub seed_margin : ℕ
seed_margin = 1024

abbrev pub sync_flush_size : ℕ
sync_flush_size = 64

abbrev pub sync_backfill_rate : ℕ
sync_backfill_rate = 32

pub record State : Type 0 where
  pub redis : Map ℕ ℕ
  pub max_ids : Map ℕ ℕ
  pub floor : Map ℕ ℕ
  pub buf : Map ℕ ℕ
  pub armed : Bool
  pub due : ℕ

-- `fallback` is the answer of the wrapped client; the script runs in Redis unless `redis_down`.
pub record Env : Type 0 where
  pub has_cache : Bool
  pub redis_down : Bool
  pub query_fails : Bool
  pub fallback : Option ℕ

abbrev pub or_zero : Option ℕ → ℕ
or_zero none = 0
or_zero (some n) = n

abbrev pub larger : ℕ → ℕ → ℕ
larger a b = if ltb a b then b else a

-- The query of floorFor; a query that fails leaves 0.
abbrev pub db_max : Env → ℕ → State → ℕ
db_max env uid s = if env.query_fails then 0 else or_zero (lookup uid s.max_ids)

pub floor_for : Env → ℕ → State → State × ℕ
floor_for env uid s = elim (lookup uid s.floor) [
  | some f ↦ (s, f)
  | none ↦ let f = db_max env uid s + seed_margin in (record s { floor = insert uid f s.floor }, f)
]

-- syncSeqScript.
abbrev pub scripted : ℕ → ℕ → ℕ
scripted v floor = if ltb v floor then floor else v

abbrev pub bumped : ℕ → ℕ → Map ℕ ℕ → ℕ
bumped uid floor redis = scripted (or_zero (lookup uid redis) + 1) floor

pub sync_seq_bump : ℕ → ℕ → State → State × ℕ
sync_seq_bump uid floor s =
    let v = bumped uid floor s.redis in (record s { redis = insert uid v s.redis }, v)

pub buffered : ℕ → ℕ → State → State
buffered uid v s = record s { buf = insert uid (larger (or_zero (lookup uid s.buf)) v) s.buf }

abbrev pub is_full : State → Bool
is_full s = leb sync_flush_size (length s.buf)

pub arm : State → State
arm s =
    if is_full s
    then record s { due = s.due + 1 }
    else if s.armed
    then s
    else record s { armed = true; due = s.due + 1 }

abbrev pub backfill : ℕ → ℕ → State → State
backfill uid v s = arm (buffered uid v s)

-- The number given, and whether Redis gave it.
pub bump_redis : ℕ → State × ℕ → State × Option (ℕ × Bool)
bump_redis uid (s, floor) =
    let (s1, v) = sync_seq_bump uid floor s in (backfill uid v s1, some (v, true))

abbrev pub given_by : Option ℕ → Option (ℕ × Bool)
given_by none = none
given_by (some v) = some (v, false)

pub bump_sync_seq : Env → ℕ → State → State × Option (ℕ × Bool)
bump_sync_seq env uid s =
    if not env.has_cache
    then (s, given_by env.fallback)
    else if env.redis_down
    then ((floor_for env uid s).0, given_by env.fallback)
    else bump_redis uid (floor_for env uid s)

-- `GREATEST(max_id, VALUES(max_id))`; `fails` says for which uids the statement fails.
pub write_back : (ℕ → Bool) → ℕ → ℕ → State → State
write_back fails uid v s =
    if fails uid
    then s
    else record s { max_ids = insert uid (larger (or_zero (lookup uid s.max_ids)) v) s.max_ids }

-- The loop with n rows left to write.
pub write_rows : (ℕ → Bool) → ℕ → Map ℕ ℕ → State → State
write_rows fails n [] s = s
write_rows fails zero ((uid, v) ∷ rows) s = write_rows fails zero rows (backfill uid v s)
write_rows fails (suc n) ((uid, v) ∷ rows) s = write_rows fails n rows (write_back fails uid v s)

abbrev pub limit : Map ℕ ℕ → ℕ
limit rows = if ltb sync_backfill_rate (length rows) then sync_backfill_rate else length rows

-- The rows in the order in which `range` gives them.
pub flush : (ℕ → Bool) → (Map ℕ ℕ → Map ℕ ℕ) → State → State
flush fails order s =
    let rows = order s.buf in
    write_rows fails (limit rows) rows (record s { buf = []; armed = false })

-- A due flush runs.
pub run_flush : (ℕ → Bool) → (Map ℕ ℕ → Map ℕ ℕ) → State → State
run_flush fails order s = flush fails order (record s { due = s.due - 1 })
