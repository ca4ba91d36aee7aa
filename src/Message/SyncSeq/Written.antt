-- ===== src/Message/SyncSeq/Written.antt =====
-- The levels in the table once no flush is due (internal/message/seq_client.go).
use yim.Base.{
  nat_eq, ℕ, ◌+◌, ◌≡◌, ◌≤◌, ◌<◌, ◌⊎◌, refl, sym, ap, subst, ◌∙◌, Bool, true, false, not, Option,
  none, some, List, [], ◌∷◌, ◌++◌, ◌==◌, if◌then◌else◌, arith, inl, inr, Bool-cases, Option-cases,
  ==_iff, All, All-append, length,
}
use yim.Base.Map.{Map, lookup, insert, lookup-insert}
use yim.Message.SyncSeq.{
  State, Env, or_zero, db_max, floor_for, bumped, sync_seq_bump, backfill, bump_redis, given_by,
  bump_sync_seq, run_flush,
}
use yim.Message.SyncSeq.Levels.{
  Call, bumps, others, flushes, claims, restarts, claimed, step, run, from_redis,
}
use yim.Message.SyncSeq.Backing.{
  backing, IsDue, Backs, Backs-refl, Backs-trans, backfill-Backs, backfill-holds, none_fails,
  IsOrder, run_flush-Backs,
}

-- The statements of the flushes succeed, and the process does not restart.
abbrev pub IsSmooth : Call → Type 0
IsSmooth (bumps env uid) = Unit {0}
IsSmooth (others uid floor) = Unit {0}
IsSmooth (flushes fails order) = (fails ≡ none_fails) × IsOrder order
IsSmooth (claims uid v) = Unit {0}
IsSmooth restarts = ⊥

-- What this process gives to the user from Redis.
abbrev pub own_in : ℕ → Call → State → List ℕ
own_in u (bumps env uid) s = if uid == u then from_redis (bump_sync_seq env uid s).1 else []
own_in u (others uid floor) s = []
own_in u (flushes fails order) s = []
own_in u (claims uid v) s = []
own_in u restarts s = []

abbrev pub own : ℕ → List Call → State → List ℕ
own u [] s = []
own u (c ∷ cs) s = own_in u c s ++ own u cs (step c s)

-- A call's numbers are backed when it is over.
record Backed (u : ℕ) (s t : State) (vs : List ℕ) : Type 0 where
  backs : Backs s t
  all : All (λ v. v ≤ backing u t) vs

same_tables-Backs :
    (s t : State)
    → t.max_ids ≡ s.max_ids
    → t.buf ≡ s.buf
    → t.armed ≡ s.armed
    → t.due ≡ s.due
    → Backs s t
same_tables-Backs s t max_ids buf armed due = record {
  kept = λ u. ground (arith, ap (lookup u) max_ids, ap (lookup u) buf);
  due = λ h. record {
    armed = λ e. omega (arith, due, h.armed (sym armed ∙ e));
    holds = λ e. omega (arith, due, h.holds (omega (arith, e, ap length buf)));
  };
}

floor_for-Backs : (env : Env) (uid : ℕ) (s : State) → Backs s (floor_for env uid s).0
unfolding floor_for
floor_for-Backs env uid s = elim (Option-cases (lookup uid s.floor)) [
  | inl new_uid ↦
      rw (new_uid, floor_for)
        (same_tables-Backs s (record s { floor = insert uid (db_max env uid s + 1024) s.floor })
          refl refl refl refl)
  | inr (f, known) ↦ rw (known, floor_for) (Backs-refl s)
]

bump_redis-Backed :
    (uid u : ℕ) (p : State × ℕ) (s : State)
    → Backs s p.0
    → Backed u s (bump_redis uid p).0 (if uid == u then from_redis (bump_redis uid p).1 else [])
unfolding bump_redis sync_seq_bump
bump_redis-Backed uid u (r, floor) s first =
    let v = bumped uid floor r.redis in
    let s1 = record r { redis = insert uid v r.redis } in
    let t = backfill uid v s1 in
    record {
      backs = Backs-trans s r t first (
          Backs-trans r s1 t (same_tables-Backs r s1 refl refl refl refl)
            (backfill-Backs uid v s1));
      all = elim (Bool-cases (uid == u)) [
        | inl same ↦ rw same (
          subst (λ (k : ℕ). v ≤ backing k t) ((==_iff uid u).0 same) (backfill-holds uid v s1),
          tt,
        )
        | inr other ↦ rw other tt
      ];
    }

none_backed :
    (b : Bool) (o : Option ℕ) (P : ℕ → Type 0) → All P (if b then from_redis (given_by o) else [])
none_backed true none P = tt
none_backed true (some v) P = tt
none_backed false o P = tt

bump_sync_seq-Backed :
    (env : Env) (uid u : ℕ) (s : State)
    → Backed u s
        (bump_sync_seq env uid s).0
        (if uid == u then from_redis (bump_sync_seq env uid s).1 else [])
unfolding bump_sync_seq floor_for
bump_sync_seq-Backed env uid u s = elim (Bool-cases (not env.has_cache)) [
  | inl no_cache ↦
      rw (no_cache, bump_sync_seq)
        (record {
          backs = Backs-refl s;
          all = none_backed (uid == u) env.fallback (λ v. v ≤ backing u s);
        })
  | inr cached ↦ elim (Bool-cases env.redis_down) [
    | inl down ↦
        rw (cached, bump_sync_seq)
          (rw down (record {
            backs = floor_for-Backs env uid s;
            all = none_backed (uid == u) env.fallback (λ v. v ≤ backing u (floor_for env uid s).0);
          }))
    | inr up ↦
        rw (cached, bump_sync_seq)
          (rw up (bump_redis-Backed uid u (floor_for env uid s) s (floor_for-Backs env uid s)))
  ]
]

claimed-Backs : (uid v : ℕ) (s : State) → Backs s (claimed uid v s)
unfolding claimed
claimed-Backs uid v s = record {
  kept = λ u.
      ground
        (arith, lookup-insert uid u (or_zero (lookup uid s.max_ids) + v) s.max_ids, ==_iff uid u);
  due = λ h. record { armed = h.armed; holds = h.holds };
}

step-Backed : (u : ℕ) (c : Call) (s : State) → IsSmooth c → Backed u s (step c s) (own_in u c s)
unfolding step sync_seq_bump
step-Backed u (bumps env uid) s smooth = bump_sync_seq-Backed env uid u s
step-Backed u (others uid floor) s smooth = record {
  backs =
      same_tables-Backs s (record s { redis = insert uid (bumped uid floor s.redis) s.redis }) refl
        refl refl refl;
  all = tt;
}
step-Backed u (flushes fails order) s smooth = record {
  backs =
      subst (λ f. Backs s (run_flush f order s)) (sym smooth.0) (run_flush-Backs order s smooth.1);
  all = tt;
}
step-Backed u (claims uid v) s smooth = record { backs = claimed-Backs uid v s; all = tt }
step-Backed u restarts s smooth = absurd smooth

raised :
    (u : ℕ) (s t : State) (vs : List ℕ)
    → Backs s t
    → All (λ v. v ≤ backing u s) vs
    → All (λ v. v ≤ backing u t) vs
raised u s t [] h vs = tt
raised u s t (v ∷ vs) h all = (omega (arith, h.kept u, all.0), raised u s t vs h all.1)

run-Backed :
    (u : ℕ) (cs : List Call) (s : State) → All IsSmooth cs → Backed u s (run cs s) (own u cs s)
unfolding run
run-Backed u [] s smooth = record { backs = Backs-refl s; all = tt }
run-Backed u (c ∷ cs) s smooth =
    let one = step-Backed u c s smooth.0 in
    let s1 = step c s in
    let more = run-Backed u cs s1 smooth.1 in
    record {
      backs = Backs-trans s s1 (run cs s1) one.backs more.backs;
      all =
          All-append (λ v. v ≤ backing u (run cs s1)) (own_in u c s) (own u cs s1)
            (raised u s1 (run cs s1) (own_in u c s) more.backs one.all) more.all;
    }

rows-cases : (m : Map ℕ ℕ) → (m ≡ []) ⊎ (0 < length m)
rows-cases [] = inl refl
rows-cases (e ∷ m) = inr (omega arith)

no_rows : (s : State) → IsDue s → s.due ≡ 0 → s.buf ≡ []
no_rows s h none_due = elim (rows-cases s.buf) [
  | inl empty ↦ empty
  | inr some_row ↦ absurd (omega (arith, none_due, h.holds some_row))
]

written_down :
    (u : ℕ) (s : State) (vs : List ℕ)
    → s.buf ≡ []
    → All (λ v. v ≤ backing u s) vs
    → All (λ v. v ≤ or_zero (lookup u s.max_ids)) vs
unfolding lookup
written_down u s [] e h = tt
written_down u s (v ∷ vs) e h = (ground (arith, ap (lookup u) e, h.0), written_down u s vs e h.1)

-- Once no flush is due, the table has for each user a level no lower than any number that the process took
-- from Redis for them, however the bumps and the flushes of at most 32 rows came in between; this needs a
-- start in which flushes are due where they must be, statements of the flushes that succeed, and no
-- restart.
pub run-levels_written :
    (u : ℕ) (cs : List Call) (s : State)
    → IsDue s
    → All IsSmooth cs
    → (run cs s).due ≡ 0
    → All (λ v. v ≤ or_zero (lookup u (run cs s).max_ids)) (own u cs s)
run-levels_written u cs s due smooth none_due =
    let b = run-Backed u cs s smooth in
    written_down u (run cs s) (own u cs s) (no_rows (run cs s) (b.backs.due due) none_due) b.all
