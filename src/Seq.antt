-- ===== src/Seq.antt =====
-- internal/seq/allocator.go: the segment allocator over a row of seq_segment.
-- The counters are int64 in the source; here they are numbers, so a history that passes 2^63 - 1 is
-- left out. `n <= 0` of Next is n = 0 here. Each attempt to load a segment ends as its `Try` says.
pub mod Loads
pub mod Order
pub mod Ownership
pub mod Supply
pub mod Race
pub mod Pool
mod Tests
use yim.Base.{
  nat_eq, pair_eq, list_eq, ℕ, zero, suc, ◌+◌, ◌-◌, ◌/◌, Bool, true, false, ◌||◌, Option, none,
  some, List, ltb, ◌==◌, if◌then◌else◌,
}
use yim.Base.Map.{Map, lookup, insert}

-- (biz, key_id), the primary key of seq_segment; biz is its bytes.
abbrev pub Key : Type 0
Key = List ℕ × ℕ

-- key ↦ max_id.
abbrev pub Table : Type 0
Table = Map Key ℕ

pub record Segment : Type 0 where
  pub start : ℕ
  pub end : ℕ
  pub cursor : ℕ

unfoldable pub new_segment : ℕ → ℕ → Segment
new_segment start end = record { start = start; end = end; cursor = start - 1 }

-- One winning compare-and-swap; `none` is exhaustion.
unfoldable pub take_from : Segment → ℕ → Option (ℕ × Segment)
take_from s n =
    let next = s.cursor + n in
    if ltb s.end next then none else some (next - n + 1, record s { cursor = next })

-- A transaction commits, is refused and rolled back, or commits with its answer lost.
pub data Try : Type 0 where
  committed refused unanswered : Try

abbrev pub or_zero : Option ℕ → ℕ
or_zero none = 0
or_zero (some m) = m

abbrev pub max_id : Key → Table → ℕ
max_id k t = or_zero (lookup k t)

-- INSERT IGNORE of 0, then UPDATE max_id = max_id + step.
unfoldable pub claim : Key → ℕ → Table → Table
claim k step t = insert k (max_id k t + step) t

unfoldable pub try_load : Try → Key → ℕ → Table → Table × Option Segment
try_load committed k step t =
    let m = max_id k (claim k step t) in (claim k step t, some (new_segment (m + 1 - step) m))
try_load refused k step t = (t, none)
try_load unanswered k step t = (claim k step t, none)

-- The attempts that are left, and the number of the next.
unfoldable pub load_loop : ℕ → ℕ → (ℕ → Try) → Key → ℕ → Table → Table × Option Segment
load_loop zero attempt tries k step t = (t, none)
load_loop (suc left) attempt tries k step t =
    let (t', loaded) = try_load (tries attempt) k step t in
    elim loaded [ some s ↦ (t', some s) | none ↦ load_loop left (attempt + 1) tries k step t' ]

unfoldable pub load_segment : (ℕ → Try) → Key → ℕ → Table → Table × Option Segment
load_segment tries k step t = load_loop 3 0 tries k step t

-- `spawned` counts the goroutines of refillAsync that have not run. `last = none` is MinInt64.
pub record Allocator : Type 0 where
  pub meta : Table
  pub key : Key
  pub step : ℕ
  pub cur : Option Segment
  pub buf : Option Segment
  pub last : Option ℕ
  pub spawned : ℕ

unfoldable pub new_allocator : (ℕ → Try) → Key → ℕ → Table → Table × Option Allocator
new_allocator tries k step t =
    let (t', loaded) = load_segment tries k step t in
    elim loaded [
      | none ↦ (t', none)
      | some s ↦ (
        t',
        some (record {
          meta = t';
          key = k;
          step = step;
          cur = some s;
          buf = none;
          last = some (s.start - 1);
          spawned = 0;
        }),
      )
    ]

unfoldable pub refill_async : Allocator → Allocator
refill_async a = elim a.buf [ some s ↦ a | none ↦ record a { spawned = a.spawned + 1 } ]

-- The body of the goroutine, under the lock.
unfoldable pub refill : (ℕ → Try) → Allocator → Allocator
refill tries a = elim a.buf [
  | some s ↦ record a { spawned = a.spawned - 1 }
  | none ↦
      let (t, loaded) = load_segment tries a.key a.step a.meta in
      elim loaded [
        | none ↦ record a { meta = t; spawned = a.spawned - 1 }
        | some s ↦ record a { meta = t; buf = some s; spawned = a.spawned - 1 }
      ]
]

-- `true` where no error is returned.
unfoldable pub swap_sync : (ℕ → Try) → Allocator → Allocator × Bool
swap_sync tries a = elim a.buf [
  | some s ↦ (record a { cur = some s; buf = none }, true)
  | none ↦
      let (t, loaded) = load_segment tries a.key a.step a.meta in
      elim loaded [
        | none ↦ (record a { meta = t }, false)
        | some s ↦ (record a { meta = t; cur = some s }, true)
      ]
]

pub data Answer : Type 0 where
  range : ℕ → Answer
  batch_too_large load_failed out_of_fuel : Answer

unfoldable pub take_cur : Option Segment → ℕ → Option (ℕ × Segment)
take_cur none n = none
take_cur (some s) n = take_from s n

unfoldable pub taken : Allocator → ℕ → ℕ → Segment → Allocator
taken a n start s =
    let b = record a { cur = some s; last = some (start + n - 1) } in
    if ltb (s.end - s.cursor) (a.step / 10) then refill_async b else b

-- The loop of Next; `tries` gives the attempts of each round.
unfoldable pub next_loop : ℕ → (ℕ → ℕ → Try) → ℕ → Allocator → Allocator × Answer
next_loop zero tries n a = (a, out_of_fuel)
next_loop (suc fuel) tries n a = elim (take_cur a.cur n) [
  | some (start, s) ↦ (taken a n start s, range start)
  | none ↦
      let (b, done) = swap_sync (tries fuel) a in
      elim done [ false ↦ (b, load_failed) | true ↦ next_loop fuel tries n b ]
]

-- Two rounds are enough where nobody else takes from the allocator meanwhile.
unfoldable pub next : (ℕ → ℕ → Try) → ℕ → Allocator → Allocator × Answer
next tries n a = if n == 0 || ltb a.step n then (a, batch_too_large) else next_loop 2 tries n a

unfoldable pub cur_position : Allocator → ℕ
cur_position a = elim a.cur [ some s ↦ s.cursor | none ↦ 0 ]

unfoldable pub peek : Allocator → Option ℕ
peek a = a.last
