-- ===== src/Sched/Once.antt =====
-- Executions of internal/sched/sched.go, as long as Redis answers and no lock runs out.
use yim.Base.{
  nat_eq, ℕ, ◌+◌, ◌/◌, ◌≡◌, refl, ◌≤◌, Bool, true, false, ◌||◌, List, [], ◌∷◌, arith, ◌=?◌,
  if◌then◌else◌, contains,
}
use yim.Base.Map.{insert}
use yim.Sched.{
  Task, ShardDesc, desc_eq, desc_beq_iff, State, queue, knows, run_task, enqueue, trigger_shard,
  trigger_shards, trigger, claim, pop_queue, worker,
}
use yim.Sched.Queues.{
  all_well, pending, OwnQueues, pop-OwnQueues, trigger_shards-OwnQueues, worker-pending, reaches,
  trigger_shards-pending, at_start, none_queued, none_pending,
}

abbrev pub count : ShardDesc → List ShardDesc → ℕ
count d [] = 0
count d (x ∷ xs) = let rest = count d xs in if x =? d then rest + 1 else rest

-- For one shard of a window: locked means executed once, not locked means not executed; and what is in
-- the queue of a task is the task's.
pub record IsOnce (d : ShardDesc) (s : State) : Type 0 where
  pub once : count d s.executed ≡ (if contains s.locks d then 1 else 0)

claim-IsOnce :
    (tasks : List Task) (d e : ShardDesc) (s : State)
    → knows tasks d.task ≡ true
    → IsOnce d s
    → IsOnce d (claim all_well tasks e s)
unfolding claim run_task
claim-IsOnce tasks d e s known h = record { once = ground (arith, h.once, known, desc_beq_iff e d) }

pub data Op : Type 0 where
  triggers : Task → ℕ → Op
  works : ℕ → Op

unfoldable pub step : List Task → Op → State → State
step tasks (triggers t now) s = trigger all_well tasks t now s
step tasks (works name) s = worker all_well tasks name s

unfoldable pub run : List Task → List Op → State → State
run tasks [] s = s
run tasks (op ∷ ops) s = run tasks ops (step tasks op s)

abbrev pub triggered : ShardDesc → List Op → Bool
triggered d [] = false
triggered d (triggers t now ∷ ops) = reaches d t now || triggered d ops
triggered d (works name ∷ ops) = triggered d ops

run-pending :
    (tasks : List Task) (d : ShardDesc) (ops : List Op) (s : State)
    → OwnQueues s
    → pending d (run tasks ops s) ≡ triggered d ops || pending d s
unfolding run step trigger worker
run-pending tasks d [] s own = refl
run-pending tasks d (triggers t now ∷ ops) s own = ground (
  arith,
  run-pending tasks d ops (trigger_shards all_well tasks t.name (now / t.interval) t.shards s)
      (trigger_shards-OwnQueues tasks t.name (now / t.interval) t.shards s own),
  trigger_shards-pending tasks d t.name (now / t.interval) t.shards s,
)
run-pending tasks d (works name ∷ ops) s own = ground (
  arith,
  run-pending tasks d ops (worker all_well tasks name s)
      (pop-OwnQueues tasks name (queue name s) s refl own),
  worker-pending tasks d name s own,
)

pop-IsOnce :
    (tasks : List Task) (d : ShardDesc) (name : ℕ) (ds : List ShardDesc) (s : State)
    → knows tasks d.task ≡ true
    → IsOnce d s
    → IsOnce d (pop_queue all_well tasks name ds s)
unfolding pop_queue
pop-IsOnce tasks d name [] s known h = h
pop-IsOnce tasks d name (x ∷ ds) s known h =
    claim-IsOnce tasks d x (record s { queues = insert name ds s.queues }) known
      (record { once = h.once })

trigger_shards-IsOnce :
    (tasks : List Task) (d : ShardDesc) (name window : ℕ) (shards : List ℕ) (s : State)
    → IsOnce d s
    → IsOnce d (trigger_shards all_well tasks name window shards s)
unfolding trigger_shards trigger_shard enqueue
trigger_shards-IsOnce tasks d name window [] s h = h
trigger_shards-IsOnce tasks d name window (x ∷ shards) s h =
    trigger_shards-IsOnce tasks d name window shards
      (enqueue (record { task = name; window = window; shard = x }) s) (record { once = h.once })

run-IsOnce :
    (tasks : List Task) (d : ShardDesc) (ops : List Op) (s : State)
    → knows tasks d.task ≡ true
    → IsOnce d s
    → IsOnce d (run tasks ops s)
unfolding run step trigger worker
run-IsOnce tasks d [] s known h = h
run-IsOnce tasks d (triggers t now ∷ ops) s known h =
    run-IsOnce tasks d ops _ known
      (trigger_shards-IsOnce tasks d t.name (now / t.interval) t.shards s h)
run-IsOnce tasks d (works name ∷ ops) s known h =
    run-IsOnce tasks d ops _ known (pop-IsOnce tasks d name (queue name s) s known h)

locked : (d : ShardDesc) (s : State) → queue d.task s ≡ [] → contains s.locks d ≡ pending d s
locked d s empty = ground (arith, empty)

-- From an empty state, while Redis answers and no lock runs out, a shard of a window of a known task is
-- executed at most once, in any sequence of triggers and workers.
pub run-at_most_once :
    (tasks : List Task) (d : ShardDesc) (ops : List Op)
    → knows tasks d.task ≡ true
    → count d (run tasks ops at_start).executed ≤ 1
run-at_most_once tasks d ops known =
    let h = run-IsOnce tasks d ops at_start known (record { once = refl }) in ground (arith, h.once)

-- From an empty state, while Redis answers and no lock runs out, when the queue of a known task is empty
-- a shard of one of its windows has been executed exactly once where a trigger has reached it, and
-- never otherwise.
pub run-once :
    (tasks : List Task) (d : ShardDesc) (ops : List Op)
    → knows tasks d.task ≡ true
    → queue d.task (run tasks ops at_start) ≡ []
    → count d (run tasks ops at_start).executed ≡ (if triggered d ops then 1 else 0)
run-once tasks d ops known empty =
    let s = run tasks ops at_start in
    let h = run-IsOnce tasks d ops at_start known (record { once = refl }) in
    ground (
      arith,
      h.once,
      locked d s empty,
      run-pending tasks d ops at_start none_queued,
      none_pending d,
    )
