-- ===== src/Message/SyncSeq/Levels.antt =====
-- The levels that Redis gives (internal/message/seq_client.go), in sequences of calls of several processes.
use yim.Base.{
  nat_eq, ℕ, zero, suc, ◌+◌, ◌-◌, ◌≡◌, ◌≤◌, ◌<◌, refl, sym, ap, subst, ◌∙◌, Bool, true, false, not,
  Option, none, some, List, [], ◌∷◌, ◌++◌, ◌==◌, if◌then◌else◌, arith, inl, inr, Bool-cases, ==_iff,
}
use yim.Base.Map.{Map, lookup, insert, lookup-insert}
use yim.Message.SyncSeq.{
  State, Env, or_zero, larger, seed_margin, db_max, floor_for, bumped, sync_seq_bump, buffered, arm,
  backfill, bump_redis, bump_sync_seq, write_back, write_rows, limit, flush, run_flush,
}

-- The level of a user in Redis.
abbrev pub level : ℕ → State → ℕ
level uid s = or_zero (lookup uid s.redis)

-- A bump of this process or, with the floor that it knows, of another; a due flush; a range that the seq
-- service claims; a restart of the process.
pub data Call : Type 0 where
  bumps : Env → ℕ → Call
  others : ℕ → ℕ → Call
  flushes : (ℕ → Bool) → (Map ℕ ℕ → Map ℕ ℕ) → Call
  claims : ℕ → ℕ → Call
  restarts : Call

unfoldable pub restarted : State → State
restarted s = record s { floor = []; buf = []; armed = false; due = 0 }

unfoldable pub claimed : ℕ → ℕ → State → State
claimed uid v s = record s { max_ids = insert uid (or_zero (lookup uid s.max_ids) + v) s.max_ids }

unfoldable pub step : Call → State → State
step (bumps env uid) s = (bump_sync_seq env uid s).0
step (others uid floor) s = (sync_seq_bump uid floor s).0
step (flushes fails order) s = run_flush fails order s
step (claims uid v) s = claimed uid v s
step restarts s = restarted s

-- The number, if Redis gave it.
abbrev pub from_redis : Option (ℕ × Bool) → List ℕ
from_redis none = []
from_redis (some (v, false)) = []
from_redis (some (v, true)) = v ∷ []

-- What a call gives to the user from Redis.
abbrev pub given_in : ℕ → Call → State → List ℕ
given_in u (bumps env uid) s = if uid == u then from_redis (bump_sync_seq env uid s).1 else []
given_in u (others uid floor) s = if uid == u then (sync_seq_bump uid floor s).1 ∷ [] else []
given_in u (flushes fails order) s = []
given_in u (claims uid v) s = []
given_in u restarts s = []

unfoldable pub run : List Call → State → State
run [] s = s
run (c ∷ cs) s = run cs (step c s)

abbrev pub given : ℕ → List Call → State → List ℕ
given u [] s = []
given u (c ∷ cs) s = given_in u c s ++ given u cs (step c s)

-- Each number is higher than the ones before it, and than n.
abbrev pub IsRising : ℕ → List ℕ → Type 0
IsRising n [] = Unit {0}
IsRising n (x ∷ xs) = (n < x) × IsRising x xs

lower-IsRising : (m n : ℕ) (xs : List ℕ) → m ≤ n → IsRising n xs → IsRising m xs
lower-IsRising m n [] le h = tt
lower-IsRising m n (x ∷ xs) le h = (omega (arith, le, h.0), h.1)

pub bumped-above :
    (uid floor : ℕ) (redis : Map ℕ ℕ) → or_zero (lookup uid redis) < bumped uid floor redis
bumped-above uid floor redis = ground arith

arm-redis : (s : State) → (arm s).redis ≡ s.redis
unfolding arm
arm-redis s = ground arith

pub backfill-redis : (uid v : ℕ) (s : State) → (backfill uid v s).redis ≡ s.redis
unfolding buffered
backfill-redis uid v s = arm-redis (buffered uid v s)

pub floor_for-redis : (env : Env) (uid : ℕ) (s : State) → (floor_for env uid s).0.redis ≡ s.redis
unfolding floor_for
floor_for-redis env uid s = ground arith

write_rows-redis :
    (fails : ℕ → Bool) (n : ℕ) (rows : Map ℕ ℕ) (s : State)
    → (write_rows fails n rows s).redis ≡ s.redis
unfolding write_rows write_back
write_rows-redis fails n [] s = refl
write_rows-redis fails zero ((uid, v) ∷ rows) s =
    write_rows-redis fails zero rows (backfill uid v s) ∙ backfill-redis uid v s
write_rows-redis fails (suc n) ((uid, v) ∷ rows) s =
    write_rows-redis fails n rows (write_back fails uid v s) ∙ ground arith

run_flush-redis :
    (fails : ℕ → Bool) (order : Map ℕ ℕ → Map ℕ ℕ) (s : State)
    → (run_flush fails order s).redis ≡ s.redis
unfolding run_flush flush
run_flush-redis fails order s =
    write_rows-redis fails (limit (order s.buf)) (order s.buf)
      (record s { buf = []; armed = false; due = s.due - 1 })

-- What a call does to the level of a user: it stays, or it is the number given, which is higher.
abbrev pub Moves : ℕ → State → State → List ℕ → Type 0
Moves u s t [] = level u t ≡ level u s
Moves u s t (v ∷ vs) = (level u s < v) × (level u t ≡ v) × (vs ≡ [])

pub bump-Moves :
    (uid floor u : ℕ) (s t : State)
    → t.redis ≡ insert uid (bumped uid floor s.redis) s.redis
    → Moves u s t (if uid == u then bumped uid floor s.redis ∷ [] else [])
bump-Moves uid floor u s t e = elim (Bool-cases (uid == u)) [
  | inl same ↦
      let u_is : uid ≡ u = (==_iff uid u).0 same in
      rw same (
        subst (λ (k : ℕ). level k s < bumped uid floor s.redis) u_is
            (bumped-above uid floor s.redis),
        ap (λ r. or_zero (lookup u r)) e
            ∙ ap or_zero (lookup-insert uid u (bumped uid floor s.redis) s.redis)
            ∙ ap
                (λ (b : Bool).
                  or_zero (if b then some (bumped uid floor s.redis) else lookup u s.redis))
                same,
        refl,
      )
  | inr other ↦ rw other (
      ap (λ r. or_zero (lookup u r)) e
      ∙ ap or_zero (lookup-insert uid u (bumped uid floor s.redis) s.redis)
      ∙ ap (λ (b : Bool). or_zero (if b then some (bumped uid floor s.redis) else lookup u s.redis))
          other)
]

Moves-from :
    (u : ℕ) (r s t : State) (vs : List ℕ) → s.redis ≡ r.redis → Moves u s t vs → Moves u r t vs
Moves-from u r s t [] e h = h ∙ ap (λ m. or_zero (lookup u m)) e
Moves-from u r s t (v ∷ vs) e h = (subst (λ m. or_zero (lookup u m) < v) e h.0, h.1, h.2)

bump_redis-Moves :
    (uid u : ℕ) (p : State × ℕ) (s : State)
    → p.0.redis ≡ s.redis
    → Moves u s (bump_redis uid p).0 (if uid == u then from_redis (bump_redis uid p).1 else [])
unfolding bump_redis sync_seq_bump
bump_redis-Moves uid u (r, floor) s e =
    let s1 = record r { redis = insert uid (bumped uid floor r.redis) r.redis } in
    Moves-from u s r (backfill uid (bumped uid floor r.redis) s1)
      (if uid == u then bumped uid floor r.redis ∷ [] else []) e
      (bump-Moves uid floor u r (backfill uid (bumped uid floor r.redis) s1)
        (backfill-redis uid (bumped uid floor r.redis) s1))

from_fallback : (o : Option ℕ) → from_redis (yim.Message.SyncSeq.given_by o) ≡ []
from_fallback none = refl
from_fallback (some v) = refl

none_given :
    (b : Bool) (o : Option ℕ) → (if b then from_redis (yim.Message.SyncSeq.given_by o) else []) ≡ []
none_given true o = from_fallback o
none_given false o = refl

bump_sync_seq-Moves :
    (env : Env) (uid u : ℕ) (s : State)
    → Moves u s
        (bump_sync_seq env uid s).0
        (if uid == u then from_redis (bump_sync_seq env uid s).1 else [])
unfolding bump_sync_seq floor_for
bump_sync_seq-Moves env uid u s = elim (Bool-cases (not env.has_cache)) [
  | inl no_cache ↦
      rw (no_cache, bump_sync_seq)
        (subst (Moves u s s) (sym (none_given (uid == u) env.fallback)) refl)
  | inr cached ↦ elim (Bool-cases env.redis_down) [
    | inl down ↦
        rw (cached, bump_sync_seq)
          (rw down (
            subst (Moves u s (floor_for env uid s).0) (sym (none_given (uid == u) env.fallback))
              (ap (λ m. or_zero (lookup u m)) (floor_for-redis env uid s))))
    | inr up ↦
        rw (cached, bump_sync_seq)
          (rw up (bump_redis-Moves uid u (floor_for env uid s) s (floor_for-redis env uid s)))
  ]
]

step-Moves : (u : ℕ) (c : Call) (s : State) → Moves u s (step c s) (given_in u c s)
unfolding step sync_seq_bump claimed restarted
step-Moves u (bumps env uid) s = bump_sync_seq-Moves env uid u s
step-Moves u (others uid floor) s =
    bump-Moves uid floor u s (record s { redis = insert uid (bumped uid floor s.redis) s.redis })
      refl
step-Moves u (flushes fails order) s =
    ap (λ m. or_zero (lookup u m)) (run_flush-redis fails order s)
step-Moves u (claims uid v) s = refl
step-Moves u restarts s = refl

moved-IsRising :
    (u : ℕ) (s t : State) (vs ws : List ℕ)
    → Moves u s t vs
    → IsRising (level u t) ws
    → IsRising (level u s) (vs ++ ws)
moved-IsRising u s t [] ws h more = subst (λ n. IsRising n ws) h more
moved-IsRising u s t (v ∷ vs) ws h more = (
  h.0,
  subst (λ n. IsRising n (vs ++ ws)) h.1
      (subst (λ xs. IsRising (level u t) (xs ++ ws)) (sym h.2) more),
)

-- As long as Redis keeps its keys, the numbers that it gives for a user strictly ascend, above the level that
-- was there: with any calls of this process and of others that bump with any floor, failures of Redis
-- and of the database, flushes in any order, claims of the seq service and restarts in between.
pub given-IsRising : (u : ℕ) (cs : List Call) (s : State) → IsRising (level u s) (given u cs s)
given-IsRising u [] s = tt
given-IsRising u (c ∷ cs) s =
    moved-IsRising u s (step c s) (given_in u c s) (given u cs (step c s)) (step-Moves u c s)
      (given-IsRising u cs (step c s))
