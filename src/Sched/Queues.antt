-- ===== src/Sched/Queues.antt =====
-- Lemmas on what internal/sched/sched.go has queued or taken, while Redis answers and no lock runs out.
use yim.Base.{
  nat_eq, ℕ, ◌/◌, ◌≡◌, refl, Bool, true, false, ◌&&◌, ◌||◌, List, [], ◌∷◌, ◌++◌, arith, ◌==◌, ◌=?◌,
  =?_refl, contains,
}
use yim.Base.Map.{lookup, insert, lookup-insert}
use yim.Sched.{
  Task, ShardDesc, desc_eq, desc_beq_iff, State, queue, run_task, Redis, enqueue, trigger_shard,
  trigger_shards, claim, pop_queue, worker,
}

abbrev pub all_well : Redis
all_well = record { present = true; push_ok = λ d. true; lock_ok = λ d. true }

-- Queued, or taken.
abbrev pub pending : ShardDesc → State → Bool
pending d s = contains (queue d.task s) d || contains s.locks d

pub contains-append :
    (d : ShardDesc) (xs ys : List ShardDesc)
    → contains (xs ++ ys) d ≡ contains xs d || contains ys d
contains-append d [] ys = refl
contains-append d (x ∷ xs) ys = ground (arith, contains-append d xs ys)

pub enqueue-pending :
    (d e : ShardDesc) (s : State) → pending d (enqueue e s) ≡ (e =? d) || pending d s
unfolding enqueue queue
enqueue-pending d e s = ground (
  arith,
  lookup-insert e.task d.task (queue e.task s ++ (e ∷ [])) s.queues,
  contains-append d (queue e.task s) (e ∷ []),
  desc_beq_iff e d,
)

pub claim-pending :
    (tasks : List Task) (d e : ShardDesc) (s : State)
    → pending d (claim all_well tasks e s) ≡ (e =? d) || pending d s
unfolding claim run_task queue
claim-pending tasks d e s = ground (arith, desc_beq_iff e d)

-- What is in the queue of a task is the task's.
abbrev pub OwnQueues : State → Type 0
OwnQueues s = (name : ℕ) (x : ShardDesc) → contains (queue name s) x ≡ true → x.task ≡ name

pub enqueue-OwnQueues : (e : ShardDesc) (s : State) → OwnQueues s → OwnQueues (enqueue e s)
unfolding enqueue queue
enqueue-OwnQueues e s own name x mem = ground (
  arith,
  mem,
  own name x,
  lookup-insert e.task name (queue e.task s ++ (e ∷ [])) s.queues,
  contains-append x (queue e.task s) (e ∷ []),
  desc_beq_iff e x,
)

pub claim-queues :
    (tasks : List Task) (e : ShardDesc) (s : State) → (claim all_well tasks e s).queues ≡ s.queues
unfolding claim run_task
claim-queues tasks e s = ground arith

pub pop-OwnQueues :
    (tasks : List Task) (name : ℕ) (ds : List ShardDesc) (s : State)
    → queue name s ≡ ds
    → OwnQueues s
    → OwnQueues (pop_queue all_well tasks name ds s)
unfolding pop_queue queue
pop-OwnQueues tasks name [] s e own = own
pop-OwnQueues tasks name (d ∷ ds) s e own = λ n x mem. ground (
  arith,
  e,
  mem,
  own n x,
  claim-queues tasks d (record s { queues = insert name ds s.queues }),
  lookup-insert name n ds s.queues,
)

pub trigger_shards-OwnQueues :
    (tasks : List Task) (name window : ℕ) (shards : List ℕ) (s : State)
    → OwnQueues s
    → OwnQueues (trigger_shards all_well tasks name window shards s)
unfolding trigger_shards trigger_shard
trigger_shards-OwnQueues tasks name window [] s own = own
trigger_shards-OwnQueues tasks name window (x ∷ shards) s own =
    let e : ShardDesc = record { task = name; window = window; shard = x } in
    trigger_shards-OwnQueues tasks name window shards (enqueue e s) (enqueue-OwnQueues e s own)

pub pop-pending :
    (tasks : List Task) (d : ShardDesc) (name : ℕ) (ds : List ShardDesc) (s : State)
    → queue name s ≡ ds
    → OwnQueues s
    → pending d (pop_queue all_well tasks name ds s) ≡ pending d s
unfolding pop_queue queue
pop-pending tasks d name [] s e own = refl
pop-pending tasks d name (x ∷ ds) s e own = ground (
  arith,
  e,
  own name x,
  =?_refl x,
  claim-pending tasks d x (record s { queues = insert name ds s.queues }),
  lookup-insert name d.task ds s.queues,
  desc_beq_iff x d,
)

pub worker-pending :
    (tasks : List Task) (d : ShardDesc) (name : ℕ) (s : State)
    → OwnQueues s
    → pending d (worker all_well tasks name s) ≡ pending d s
unfolding worker
worker-pending tasks d name s own = pop-pending tasks d name (queue name s) s refl own

-- A trigger at a time reaches the shard of a window.
abbrev pub reaches : ShardDesc → Task → ℕ → Bool
reaches d t now =
    (t.name == d.task) && (((now / t.interval) == d.window) && contains t.shards d.shard)

pub trigger_shards-pending :
    (tasks : List Task) (d : ShardDesc) (name window : ℕ) (shards : List ℕ) (s : State)
    → pending d (trigger_shards all_well tasks name window shards s)
      ≡ ((name == d.task) && ((window == d.window) && contains shards d.shard)) || pending d s
unfolding trigger_shards trigger_shard
trigger_shards-pending tasks d name window [] s = ground arith
trigger_shards-pending tasks d name window (x ∷ shards) s =
    let e : ShardDesc = record { task = name; window = window; shard = x } in
    ground (
      arith,
      trigger_shards-pending tasks d name window shards (enqueue e s),
      enqueue-pending d e s,
    )

abbrev pub at_start : State
at_start = record { queues = []; locks = []; executed = [] }

pub none_queued : OwnQueues at_start
unfolding queue lookup
none_queued name x mem = absurd (ground arith)

pub none_pending : (d : ShardDesc) → pending d at_start ≡ false
unfolding queue lookup
none_pending d = refl
