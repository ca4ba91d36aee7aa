-- ===== src/Sched/Tests.antt =====
-- A run and an instance of the scheduler (internal/sched/sched.go) with two leaders.
use yim.Base.{nat_eq, ◌≡◌, refl, true, List, [], ◌∷◌, if◌then◌else◌}
use yim.Base.Map.{lookup, insert}
use yim.Sched.{
  Task, ShardDesc, desc_eq, queue, knows, run_task, enqueue, trigger_shard, trigger_shards, trigger,
  claim, pop_queue, worker,
}
use yim.Sched.Queues.{at_start}
use yim.Sched.Once.{count, Op, triggers, works, step, run, triggered, run-once}

abbrev scan : Task
scan = record { name = 4; interval = 60; shards = 0 ∷ 1 ∷ [] }

-- Two leaders trigger in the same window.
abbrev ops : List Op
ops = triggers scan 600 ∷ triggers scan 630 ∷ works 4 ∷ works 4 ∷ works 4 ∷ works 4 ∷ []

abbrev shard_one : ShardDesc
shard_one = record { task = 4; window = 10; shard = 1 }

known : knows (scan ∷ []) 4 ≡ true
unfolding knows
known = refl

all_done : queue 4 (run (scan ∷ []) ops at_start) ≡ []
unfolding run step trigger trigger_shards trigger_shard enqueue queue lookup insert worker pop_queue
    claim run_task knows
all_done = refl

run-once_example :
    count shard_one (run (scan ∷ []) ops at_start).executed
    ≡ (if triggered shard_one ops then 1 else 0)
run-once_example = run-once (scan ∷ []) shard_one ops known all_done
