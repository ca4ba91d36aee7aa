-- ===== src/Sched.antt =====
-- internal/sched/sched.go: triggers, queues and the lock of a shard's execution. Leadership is a question
-- of who calls `trigger`; several may. `executed` logs the calls of Exec.
pub mod Queues
pub mod Once
mod Tests
use yim.Base.{
  nat_eq, ℕ, ◌+◌, ◌/◌, Bool, true, false, not, ◌&&◌, Option, none, some, List, [], ◌∷◌, ◌++◌, ◌==◌,
  if◌then◌else◌, Eq, ◌↔◌, ◌≡◌, ◌=?◌, arith, contains,
}
use yim.Base.Map.{Map, lookup, insert}

-- Names and shards are numbered; `interval` is in seconds.
pub record Task : Type 0 where
  pub name : ℕ
  pub interval : ℕ
  pub shards : List ℕ

pub record ShardDesc : Type 0 where
  pub task : ℕ
  pub window : ℕ
  pub shard : ℕ

abbrev pub desc_beq : ShardDesc → ShardDesc → Bool
desc_beq a b = (a.task == b.task) && ((a.window == b.window) && (a.shard == b.shard))

pub desc_beq_iff : (a b : ShardDesc) → (desc_beq a b ≡ true) ↔ (a ≡ b)
desc_beq_iff a b = ground arith

instance abbrev pub desc_eq : Eq ShardDesc
desc_eq = record { beq = desc_beq; beq_iff = desc_beq_iff }

pub record State : Type 0 where
  pub queues : Map ℕ (List ShardDesc)
  pub locks : List ShardDesc
  pub executed : List ShardDesc

-- A missing list reads as empty.
abbrev pub queued : Option (List ShardDesc) → List ShardDesc
queued none = []
queued (some ds) = ds

unfoldable pub queue : ℕ → State → List ShardDesc
queue name s = queued (lookup name s.queues)

-- The first task of the name; an unknown one is only logged.
unfoldable pub knows : List Task → ℕ → Bool
knows [] name = false
knows (t ∷ ts) name = if t.name == name then true else knows ts name

unfoldable pub run_task : List Task → ShardDesc → State → State
run_task tasks d s = if knows tasks d.task then record s { executed = d ∷ s.executed } else s

-- What Redis does: absent, or the answer to each push and each lock.
pub record Redis : Type 0 where
  pub present : Bool
  pub push_ok : ShardDesc → Bool
  pub lock_ok : ShardDesc → Bool

unfoldable pub enqueue : ShardDesc → State → State
enqueue d s = record s { queues = insert d.task (queue d.task s ++ (d ∷ [])) s.queues }

unfoldable pub trigger_shard : Redis → List Task → ShardDesc → State → State
trigger_shard r tasks d s =
    if not r.present
    then run_task tasks d s
    else if r.push_ok d
    then enqueue d s
    else run_task tasks d s

unfoldable pub trigger_shards : Redis → List Task → ℕ → ℕ → List ℕ → State → State
trigger_shards r tasks name window [] s = s
trigger_shards r tasks name window (shard ∷ shards) s =
    trigger_shards r tasks name window shards
      (trigger_shard r tasks (record { task = name; window = window; shard = shard }) s)

unfoldable pub trigger : Redis → List Task → Task → ℕ → State → State
trigger r tasks t now s = trigger_shards r tasks t.name (now / t.interval) t.shards s

-- A lock that cannot be asked for does not stop the execution.
unfoldable pub claim : Redis → List Task → ShardDesc → State → State
claim r tasks d s =
    if not (r.lock_ok d)
    then run_task tasks d s
    else if contains s.locks d
    then s
    else run_task tasks d (record s { locks = d ∷ s.locks })

unfoldable pub pop_queue : Redis → List Task → ℕ → List ShardDesc → State → State
pop_queue r tasks name [] s = s
pop_queue r tasks name (d ∷ ds) s = claim r tasks d (record s { queues = insert name ds s.queues })

-- One round of workerLoop.
unfoldable pub worker : Redis → List Task → ℕ → State → State
worker r tasks name s = if r.present then pop_queue r tasks name (queue name s) s else s
