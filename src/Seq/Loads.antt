-- ===== src/Seq/Loads.antt =====
-- What loading a segment gives (loadSegment and tryLoad of internal/seq/allocator.go).
use yim.Base.{
  pair_beq_iff, ==_iff, nat_eq, pair_eq, list_eq, list_beq_iff, ℕ, zero, suc, ◌+◌, ◌≤◌, ◌≡◌, ◌≢◌,
  refl, Option, none, some, arith, Option-cases, inl, inr, =?_refl,
}
use yim.Base.Map.{lookup-insert}
use yim.Seq.{
  Key, Table, Segment, Try, committed, refused, unanswered, max_id, claim, try_load, load_loop,
  load_segment, new_segment,
}

pub max_id-claim_self :
    (k : Key) (step : ℕ) (t : Table) → max_id k (claim k step t) ≡ max_id k t + step
unfolding claim
max_id-claim_self k step t = rw (lookup-insert, =?_refl k)

pub max_id-claim_le : (k j : Key) (step : ℕ) (t : Table) → max_id j t ≤ max_id j (claim k step t)
unfolding claim
max_id-claim_le k j step t =
    rw lookup-insert (ground (arith, (list_beq_iff k.0 j.0), ==_iff k.1 j.1, pair_beq_iff k j))

-- A fresh segment of full width above `m`, under the row's value.
abbrev pub Fresh : ℕ → ℕ → ℕ → Segment → Type 0
Fresh m step top s = (m ≤ s.cursor) × (s.end ≡ s.cursor + step) × (s.end ≤ top)

abbrev pub Loaded : ℕ → ℕ → ℕ → Option Segment → Type 0
Loaded m step top none = m ≤ top
Loaded m step top (some s) = (m ≤ top) × Fresh m step top s

try_load-Loaded :
    (o : Try) (k : Key) (step : ℕ) (t : Table)
    → let (t', loaded) = try_load o k step t in Loaded (max_id k t) step (max_id k t') loaded
unfolding try_load new_segment
try_load-Loaded committed k step t = omega (arith, max_id-claim_self k step t)
try_load-Loaded refused k step t = omega arith
try_load-Loaded unanswered k step t = omega (arith, max_id-claim_self k step t)

Loaded-mono :
    (m m' step top : ℕ) (o : Option Segment) → m ≤ m' → Loaded m' step top o → Loaded m step top o
Loaded-mono m m' step top none h l = omega arith
Loaded-mono m m' step top (some s) h l = omega arith

load_loop-Loaded :
    (left attempt : ℕ) (tries : ℕ → Try) (k : Key) (step : ℕ) (t : Table)
    → let (t', loaded) = load_loop left attempt tries k step t in
      Loaded (max_id k t) step (max_id k t') loaded
unfolding load_loop
load_loop-Loaded zero attempt tries k step t = omega arith
load_loop-Loaded (suc left) attempt tries k step t =
    let one = try_load-Loaded (tries attempt) k step t in
    elim (Option-cases (try_load (tries attempt) k step t).1) [
      | inl e ↦
          rw (e, load_loop)
            (Loaded-mono _ _ step _ _ (rw e at one) (
              load_loop-Loaded left (attempt + 1) tries k step
                (try_load (tries attempt) k step t).0))
      | inr (s, e) ↦ rw (e, load_loop) (rw e at one)
    ]

pub load_segment-Loaded :
    (tries : ℕ → Try) (k : Key) (step : ℕ) (t : Table)
    → let (t', loaded) = load_segment tries k step t in
      Loaded (max_id k t) step (max_id k t') loaded
unfolding load_segment
load_segment-Loaded tries k step t = load_loop-Loaded 3 0 tries k step t

claim_local : (k j : Key) (step : ℕ) (t : Table) → j ≢ k → max_id j (claim k step t) ≡ max_id j t
unfolding claim
claim_local k j step t ne = rw lookup-insert (ground (arith, pair_beq_iff k j))

load_loop_local :
    (left attempt : ℕ) (tries : ℕ → Try) (k j : Key) (step : ℕ) (t : Table)
    → j ≢ k
    → max_id j (load_loop left attempt tries k step t).0 ≡ max_id j t
unfolding load_loop try_load
load_loop_local zero attempt tries k j step t ne = refl
load_loop_local (suc left) attempt tries k j step t ne = ground (
  arith,
  claim_local k j step t,
  load_loop_local left (attempt + 1) tries k j step (try_load (tries attempt) k step t).0,
)

-- Loading a segment of one key leaves the rows of the others.
pub load_segment_local :
    (tries : ℕ → Try) (k j : Key) (step : ℕ) (t : Table)
    → j ≢ k
    → max_id j (load_segment tries k step t).0 ≡ max_id j t
unfolding load_segment
load_segment_local tries k j step t ne = load_loop_local 3 0 tries k j step t ne
