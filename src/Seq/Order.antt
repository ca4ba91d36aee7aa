-- ===== src/Seq/Order.antt =====
-- Lemmas on the order of what Next of internal/seq/allocator.go gives out.
use yim.Base.{
  nat_eq, pair_eq, list_eq, ℕ, zero, suc, ◌+◌, ◌-◌, ◌≤◌, ◌<◌, ◌≡◌, Option, none, some, List, [],
  ◌∷◌, arith, ltb, ◌==◌, ◌||◌, ◌++◌, Bool-cases, Option-cases, inl, inr,
}
use yim.Seq.{
  Key, Table, Segment, Try, Allocator, max_id, claim, take_from, take_cur, taken, refill,
  refill_async, swap_sync, next_loop, next, Answer, range, batch_too_large, load_failed,
  out_of_fuel, new_allocator,
}
use yim.Seq.Loads.{max_id-claim_le, load_segment-Loaded, Fresh}

-- The current segment holds numbers above `hi` only, and the next segment lies above it.
abbrev pub CurOk : ℕ → ℕ → Option Segment → Type 0
CurOk hi top none = hi ≤ top
CurOk hi top (some s) = (hi ≤ s.cursor) × (s.cursor ≤ s.end) × (s.end ≤ top)

abbrev pub last_of : ℕ → Option Segment → ℕ
last_of hi none = hi
last_of hi (some s) = s.end

abbrev pub BufOk : ℕ → ℕ → ℕ → Option Segment → Type 0
BufOk low step top none = Unit {0}
BufOk low step top (some s) = Fresh low step top s

-- `hi` is the highest number given out.
pub record IsAbove (hi : ℕ) (a : Allocator) : Type 0 where
  pub current : CurOk hi (max_id a.key a.meta) a.cur
  pub spare : BufOk (last_of hi a.cur) a.step (max_id a.key a.meta) a.buf

-- A step of the allocator's environment: the goroutine of refillAsync, or another process that
-- claims numbers of some row.
pub data Event : Type 0 where
  nexts : (ℕ → ℕ → Try) → ℕ → Event
  refills : (ℕ → Try) → Event
  claims : Key → ℕ → Event

pub swap_sync-IsAbove :
    (tries : ℕ → Try) (hi : ℕ) (a : Allocator) → IsAbove hi a → IsAbove hi (swap_sync tries a).0
unfolding swap_sync
swap_sync-IsAbove tries hi a h = ground (arith, load_segment-Loaded tries a.key a.step a.meta)

pub refill-IsAbove :
    (tries : ℕ → Try) (hi : ℕ) (a : Allocator) → IsAbove hi a → IsAbove hi (refill tries a)
unfolding refill
refill-IsAbove tries hi a h = ground (arith, load_segment-Loaded tries a.key a.step a.meta)

-- What an answer to Next says of the numbers that it gives.
abbrev pub Given : ℕ → ℕ → Allocator → Answer → Type 0
Given hi n b (range start) = (hi < start) × IsAbove (start + n - 1) b
Given hi n b batch_too_large = IsAbove hi b
Given hi n b load_failed = IsAbove hi b
Given hi n b out_of_fuel = IsAbove hi b

taken-Given :
    (hi n : ℕ) (a : Allocator) (start : ℕ) (s : Segment)
    → 0 < n
    → IsAbove hi a
    → take_cur a.cur n ≡ some (start, s)
    → Given hi n (taken a n start s) (range start)
unfolding take_cur take_from taken refill_async
taken-Given hi n a start s pos h e = ground arith

next_loop-Given :
    (fuel : ℕ) (tries : ℕ → ℕ → Try) (hi n : ℕ) (a : Allocator)
    → 0 < n
    → IsAbove hi a
    → let (b, answer) = next_loop fuel tries n a in Given hi n b answer
unfolding next_loop
next_loop-Given zero tries hi n a pos h = h
next_loop-Given (suc fuel) tries hi n a pos h = elim (Option-cases (take_cur a.cur n)) [
  | inl e ↦
      let swapped = swap_sync-IsAbove (tries fuel) hi a h in
      elim (Bool-cases (swap_sync (tries fuel) a).1) [
        | inl done ↦ rw (e, done, next_loop) (next_loop-Given fuel tries hi n _ pos swapped)
        | inr failed ↦ rw (e, failed, next_loop) swapped
      ]
  | inr (given, e) ↦ rw (e, next_loop) (taken-Given hi n a given.0 given.1 pos h e)
]

pub next-Given :
    (tries : ℕ → ℕ → Try) (hi n : ℕ) (a : Allocator)
    → IsAbove hi a
    → let (b, answer) = next tries n a in Given hi n b answer
unfolding next
next-Given tries hi n a h = elim (Bool-cases (n == 0 || ltb a.step n)) [
  | inl e ↦ rw (e, next) h
  | inr e ↦ rw (e, next) (next_loop-Given 2 tries hi n a (ground arith) h)
]

-- The range that an answer gives, as its start and its length.
abbrev pub ranges : ℕ → Answer → List (ℕ × ℕ)
ranges n (range start) = (start, n) ∷ []
ranges n batch_too_large = []
ranges n load_failed = []
ranges n out_of_fuel = []

-- All the ranges that Next gives in a history, oldest first.
unfoldable pub history : List Event → Allocator → List (ℕ × ℕ)
history [] a = []
history (nexts tries n ∷ es) a = let (b, answer) = next tries n a in ranges n answer ++ history es b
history (refills tries ∷ es) a = history es (refill tries a)
history (claims key step ∷ es) a = history es (record a { meta = claim key step a.meta })

-- Each range begins above the end of the one before.
abbrev pub IsAscending : ℕ → List (ℕ × ℕ) → Type 0
IsAscending hi [] = Unit {0}
IsAscending hi ((start, n) ∷ rs) = (hi < start) × IsAscending (start + n - 1) rs

pub claim-IsAbove :
    (k : Key) (step hi : ℕ) (a : Allocator)
    → IsAbove hi a
    → IsAbove hi (record a { meta = claim k step a.meta })
claim-IsAbove k step hi a h = ground (arith, max_id-claim_le k a.key step a.meta)

Given-IsAscending :
    (hi n : ℕ) (b : Allocator) (answer : Answer) (rest : List (ℕ × ℕ))
    → Given hi n b answer
    → ((k : ℕ) → IsAbove k b → IsAscending k rest)
    → IsAscending hi (ranges n answer ++ rest)
Given-IsAscending hi n b (range start) rest g k = (g.0, k (start + n - 1) g.1)
Given-IsAscending hi n b batch_too_large rest g k = k hi g
Given-IsAscending hi n b load_failed rest g k = k hi g
Given-IsAscending hi n b out_of_fuel rest g k = k hi g

history-IsAscending_above :
    (es : List Event) (hi : ℕ) (a : Allocator) → IsAbove hi a → IsAscending hi (history es a)
unfolding history
history-IsAscending_above [] hi a h = tt
history-IsAscending_above (refills tries ∷ es) hi a h =
    history-IsAscending_above es hi (refill tries a) (refill-IsAbove tries hi a h)
history-IsAscending_above (claims key step ∷ es) hi a h =
    history-IsAscending_above es hi (record a { meta = claim key step a.meta })
      (claim-IsAbove key step hi a h)
history-IsAscending_above (nexts tries n ∷ es) hi a h =
    Given-IsAscending hi n _ (next tries n a).1 _ (next-Given tries hi n a h)
      (λ k. history-IsAscending_above es k (next tries n a).0)

pub new_allocator-IsAbove :
    (tries : ℕ → Try) (k : Key) (step : ℕ) (t t' : Table) (a : Allocator)
    → new_allocator tries k step t ≡ (t', some a)
    → IsAbove (max_id k t) a
unfolding new_allocator
new_allocator-IsAbove tries k step t t' a e = ground (arith, load_segment-Loaded tries k step t)

-- From a fresh allocator on, in any history of calls, refills and claims by other processes, the
-- ranges that Next gives ascend, and all lie above what the row had reached at the start.
pub history-IsAscending :
    (tries : ℕ → Try) (k : Key) (step : ℕ) (t t' : Table) (a : Allocator) (es : List Event)
    → new_allocator tries k step t ≡ (t', some a)
    → IsAscending (max_id k t) (history es a)
history-IsAscending tries k step t t' a es e =
    history-IsAscending_above es (max_id k t) a (new_allocator-IsAbove tries k step t t' a e)
