-- ===== src/Message/SyncSeq/Loss.antt =====
-- The next level after Redis has lost its keys (internal/message/seq_client.go).
use yim.Base.{
  nat_eq, ℕ, ◌+◌, ◌≡◌, ◌<◌, refl, ap, ◌∙◌, Bool, true, false, not, none, some, [], if◌then◌else◌,
  arith,
}
use yim.Base.Map.{lookup}
use yim.Message.SyncSeq.{
  State, Env, or_zero, seed_margin, db_max, floor_for, scripted, bumped, sync_seq_bump, bump_redis,
  bump_sync_seq,
}
use yim.Message.SyncSeq.Levels.{level, restarted}

unfoldable pub lost : State → State
lost s = record s { redis = [] }

-- Redis is there and answers, and so does the database.
pub record Works (env : Env) : Type 0 where
  pub cached : env.has_cache ≡ true
  pub up : env.redis_down ≡ false
  pub queried : env.query_fails ≡ false

bump_redis-empty :
    (uid : ℕ) (p : State × ℕ)
    → lookup uid p.0.redis ≡ none
    → (bump_redis uid p).1 ≡ some (scripted 1 p.1, true)
unfolding bump_redis sync_seq_bump
bump_redis-empty uid (s, floor) e = ap (λ o. some (scripted (or_zero o + 1) floor, true)) e

Works-bump :
    (env : Env) (uid : ℕ) (s : State)
    → Works env
    → (bump_sync_seq env uid s).1 ≡ (bump_redis uid (floor_for env uid s)).1
unfolding bump_sync_seq
Works-bump env uid s h =
    ap
      (λ (b : Bool).
        (if not b
          then (s, yim.Message.SyncSeq.given_by env.fallback)
          else if env.redis_down
          then ((floor_for env uid s).0, yim.Message.SyncSeq.given_by env.fallback)
          else bump_redis uid (floor_for env uid s)).1)
      h.cached
    ∙ ap
        (λ (b : Bool).
          (if b
            then ((floor_for env uid s).0, yim.Message.SyncSeq.given_by env.fallback)
            else bump_redis uid (floor_for env uid s)).1)
        h.up

known_floor :
    (env : Env) (uid f : ℕ) (s : State) → lookup uid s.floor ≡ some f → floor_for env uid s ≡ (s, f)
unfolding floor_for
known_floor env uid f s e = rw (e, floor_for) refl

new_floor :
    (env : Env) (uid : ℕ) (s : State)
    → env.query_fails ≡ false
    → s.floor ≡ []
    → ((floor_for env uid s).0.redis ≡ s.redis)
      × ((floor_for env uid s).1 ≡ or_zero (lookup uid s.max_ids) + 1024)
unfolding floor_for lookup
new_floor env uid s asked e = (ground (arith, e), ground (arith, e, asked))

-- When Redis has lost its keys, the process starts anew and the database answers, the next number is exactly
-- 1024 above the level in the table, and so above any number that is less than 1024 above that level.
pub restart-recovers :
    (env : Env) (uid v : ℕ) (s : State)
    → Works env
    → v < or_zero (lookup uid s.max_ids) + 1024
    → (w : ℕ) × ((bump_sync_seq env uid (lost (restarted s))).1 ≡ some (w, true))
      × (w ≡ or_zero (lookup uid s.max_ids) + 1024)
      × (v < w)
unfolding lost restarted lookup
restart-recovers env uid v s h le =
    let t = lost (restarted s) in
    let (same, floor) = new_floor env uid t h.queried refl in
    let first = bump_redis-empty uid (floor_for env uid t) (ap (lookup uid) same) in
    let exact : scripted 1 (floor_for env uid t).1 ≡ or_zero (lookup uid s.max_ids) + 1024 =
      ground (arith, floor) in
    (
      scripted 1 (floor_for env uid t).1,
      Works-bump env uid t h ∙ first,
      exact,
      omega (arith, le, exact),
    )

-- When Redis loses its keys and the process goes on, its next number for a user is the floor that it keeps
-- for the user, if that is not 0, and this is below the level that Redis had, where that had passed the floor.
pub loss-regresses :
    (env : Env) (uid f : ℕ) (s : State)
    → Works env
    → lookup uid s.floor ≡ some f
    → 0 < f
    → f < level uid s
    → (w : ℕ) × ((bump_sync_seq env uid (lost s)).1 ≡ some (w, true)) × (w ≡ f) × (w < level uid s)
unfolding lost lookup
loss-regresses env uid f s h known pos below =
    let t = lost s in
    let first = bump_redis-empty uid (t, f) refl in
    (
      scripted 1 f,
      Works-bump env uid t h
          ∙ ap (λ p. (bump_redis uid p).1) (known_floor env uid f t known)
          ∙ first,
      ground (arith, pos),
      ground (arith, pos, below),
    )
