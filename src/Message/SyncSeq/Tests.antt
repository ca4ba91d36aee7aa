-- ===== src/Message/SyncSeq/Tests.antt =====
-- Runs and instances of RedisSyncSeqClient (internal/message/seq_client.go) for user 1.
use yim.Base.{nat_eq, ℕ, ◌≡◌, ◌≤◌, ◌<◌, refl, true, false, some, List, [], ◌∷◌, arith, All}
use yim.Base.Map.{lookup, insert}
use yim.Message.SyncSeq.{State, Env, or_zero, bump_sync_seq}
use yim.Message.SyncSeq.Levels.{
  Call, bumps, others, flushes, step, run, given, level, IsRising, given-IsRising, restarted,
}
use yim.Message.SyncSeq.Loss.{Works, lost, restart-recovers, loss-regresses}
use yim.Message.SyncSeq.Backing.{IsDue, none_fails}
use yim.Message.SyncSeq.Written.{own, run-levels_written}

abbrev env : Env
env = record { has_cache = true; redis_down = false; query_fails = false; fallback = some 5 }

abbrev down : Env
down = record { has_cache = true; redis_down = true; query_fails = false; fallback = some 5 }

abbrev at_start : State
at_start = record {
  redis = [];
  max_ids = (1, 40) ∷ [];
  floor = [];
  buf = [];
  armed = false;
  due = 0;
}

-- Another process still has an old floor.
abbrev calls : List Call
calls =
    bumps env 1
    ∷ others 1 1030
    ∷ bumps down 1
    ∷ bumps env 1
    ∷ flushes none_fails (λ rows. rows)
    ∷ []

levels_rise : given 1 calls at_start ≡ 1064 ∷ 1065 ∷ 1066 ∷ []
unfolding run step lookup insert bump_sync_seq yim.Message.SyncSeq.floor_for
    yim.Message.SyncSeq.sync_seq_bump yim.Message.SyncSeq.buffered yim.Message.SyncSeq.arm
    yim.Message.SyncSeq.bump_redis yim.Message.SyncSeq.write_back yim.Message.SyncSeq.write_rows
    yim.Message.SyncSeq.flush yim.Message.SyncSeq.run_flush
levels_rise = refl

calls_written : lookup 1 (run calls at_start).max_ids ≡ some 1066
unfolding run step lookup insert bump_sync_seq yim.Message.SyncSeq.floor_for
    yim.Message.SyncSeq.sync_seq_bump yim.Message.SyncSeq.buffered yim.Message.SyncSeq.arm
    yim.Message.SyncSeq.bump_redis yim.Message.SyncSeq.write_back yim.Message.SyncSeq.write_rows
    yim.Message.SyncSeq.flush yim.Message.SyncSeq.run_flush
calls_written = refl

calls_done : (run calls at_start).due ≡ 0
unfolding run step lookup insert bump_sync_seq yim.Message.SyncSeq.floor_for
    yim.Message.SyncSeq.sync_seq_bump yim.Message.SyncSeq.buffered yim.Message.SyncSeq.arm
    yim.Message.SyncSeq.bump_redis yim.Message.SyncSeq.write_back yim.Message.SyncSeq.write_rows
    yim.Message.SyncSeq.flush yim.Message.SyncSeq.run_flush
calls_done = refl

given-IsRising_example : IsRising (level 1 at_start) (given 1 calls at_start)
given-IsRising_example = given-IsRising 1 calls at_start

at_start-IsDue : IsDue at_start
at_start-IsDue = record {
  armed = λ e. absurd (ground arith);
  holds = λ e. absurd (omega (arith, e));
}

run-levels_written_example :
    All (λ v. v ≤ or_zero (lookup 1 (run calls at_start).max_ids)) (own 1 calls at_start)
run-levels_written_example =
    run-levels_written 1 calls at_start at_start-IsDue
      (tt, (tt, (tt, (tt, ((refl, λ rows u. refl), tt))))) calls_done

env-Works : Works env
env-Works = record { cached = refl; up = refl; queried = refl }

restart-recovers_example :
    (w : ℕ) × ((bump_sync_seq env 1 (lost (restarted at_start))).1 ≡ some (w, true))
    × (w ≡ 1064)
    × (1063 < w)
unfolding lookup
restart-recovers_example = restart-recovers env 1 1063 at_start env-Works (omega arith)

-- After 2000 events since the first bump, all written back.
abbrev busy : State
busy = record at_start { redis = (1, 3064) ∷ []; max_ids = (1, 3064) ∷ []; floor = (1, 1064) ∷ [] }

loss-regresses_example :
    (w : ℕ) × ((bump_sync_seq env 1 (lost busy)).1 ≡ some (w, true))
    × (w ≡ 1064)
    × (w < level 1 busy)
unfolding lookup
loss-regresses_example = loss-regresses env 1 1064 busy env-Works refl (omega arith) (omega arith)
