-- ===== src/Seq/Ownership.antt =====
-- Next of internal/seq/allocator.go and what another process has claimed of the same row.
use yim.Base.{
  ℕ, zero, suc, ◌+◌, ◌≤◌, ◌<◌, ◌≡◌, Option, none, some, List, [], ◌∷◌, ◌++◌, arith, ltb, ◌==◌, ◌||◌,
  Bool-cases, Option-cases, inl, inr, ◌⊎◌, All,
}
use yim.Seq.{
  Key, Segment, Try, Allocator, max_id, claim, take_from, take_cur, taken, refill, refill_async,
  swap_sync, next_loop, next, Answer, range, batch_too_large, load_failed, out_of_fuel,
}
use yim.Seq.Loads.{load_segment-Loaded, max_id-claim_le, max_id-claim_self}
use yim.Seq.Order.{IsAbove, Event, nexts, refills, claims, history, ranges}

-- The number lies outside what is left of a segment.
abbrev Outside : ℕ → Option Segment → Type 0
Outside x none = Unit {0}
Outside x (some s) = (x ≤ s.cursor) ⊎ (s.end < x)

-- The number is claimed, and this process does not hold it.
pub record Avoids (x : ℕ) (a : Allocator) : Type 0 where
  pub claimed : x ≤ max_id a.key a.meta
  pub current : Outside x a.cur
  pub spare : Outside x a.buf

abbrev pub Misses : ℕ → ℕ × ℕ → Type 0
Misses x (start, n) = (x < start) ⊎ (start + n ≤ x)

swap_sync-Avoids :
    (tries : ℕ → Try) (x : ℕ) (a : Allocator) → Avoids x a → Avoids x (swap_sync tries a).0
unfolding swap_sync
swap_sync-Avoids tries x a h = ground (arith, load_segment-Loaded tries a.key a.step a.meta)

refill-Avoids : (tries : ℕ → Try) (x : ℕ) (a : Allocator) → Avoids x a → Avoids x (refill tries a)
unfolding refill
refill-Avoids tries x a h = ground (arith, load_segment-Loaded tries a.key a.step a.meta)

-- What an answer to Next says of a number that is avoided.
abbrev Kept : ℕ → ℕ → Allocator → Answer → Type 0
Kept x n b (range start) = Misses x (start, n) × Avoids x b
Kept x n b batch_too_large = Avoids x b
Kept x n b load_failed = Avoids x b
Kept x n b out_of_fuel = Avoids x b

taken-Kept :
    (x n : ℕ) (a : Allocator) (start : ℕ) (s : Segment)
    → 0 < n
    → Avoids x a
    → take_cur a.cur n ≡ some (start, s)
    → Kept x n (taken a n start s) (range start)
unfolding take_cur take_from taken refill_async
taken-Kept x n a start s pos h e = ground arith

next_loop-Kept :
    (fuel : ℕ) (tries : ℕ → ℕ → Try) (x n : ℕ) (a : Allocator)
    → 0 < n
    → Avoids x a
    → let (b, answer) = next_loop fuel tries n a in Kept x n b answer
unfolding next_loop
next_loop-Kept zero tries x n a pos h = h
next_loop-Kept (suc fuel) tries x n a pos h = elim (Option-cases (take_cur a.cur n)) [
  | inl e ↦
      let swapped = swap_sync-Avoids (tries fuel) x a h in
      elim (Bool-cases (swap_sync (tries fuel) a).1) [
        | inl done ↦ rw (e, done, next_loop) (next_loop-Kept fuel tries x n _ pos swapped)
        | inr failed ↦ rw (e, failed, next_loop) swapped
      ]
  | inr (given, e) ↦ rw (e, next_loop) (taken-Kept x n a given.0 given.1 pos h e)
]

next-Kept :
    (tries : ℕ → ℕ → Try) (x n : ℕ) (a : Allocator)
    → Avoids x a
    → let (b, answer) = next tries n a in Kept x n b answer
unfolding next
next-Kept tries x n a h = elim (Bool-cases (n == 0 || ltb a.step n)) [
  | inl e ↦ rw (e, next) h
  | inr e ↦ rw (e, next) (next_loop-Kept 2 tries x n a (ground arith) h)
]

claim-Avoids :
    (k : Key) (step x : ℕ) (a : Allocator)
    → Avoids x a
    → Avoids x (record a { meta = claim k step a.meta })
claim-Avoids k step x a h = ground (arith, max_id-claim_le k a.key step a.meta)

given-Misses :
    (x n : ℕ) (b : Allocator) (answer : Answer) (rest : List (ℕ × ℕ))
    → Kept x n b answer
    → (Avoids x b → All (Misses x) rest)
    → All (Misses x) (ranges n answer ++ rest)
given-Misses x n b (range start) rest g k = (g.0, k g.1)
given-Misses x n b batch_too_large rest g k = k g
given-Misses x n b load_failed rest g k = k g
given-Misses x n b out_of_fuel rest g k = k g

history-Misses :
    (es : List Event) (x : ℕ) (a : Allocator) → Avoids x a → All (Misses x) (history es a)
unfolding history
history-Misses [] x a h = tt
history-Misses (refills tries ∷ es) x a h =
    history-Misses es x (refill tries a) (refill-Avoids tries x a h)
history-Misses (claims key step ∷ es) x a h =
    history-Misses es x (record a { meta = claim key step a.meta }) (claim-Avoids key step x a h)
history-Misses (nexts tries n ∷ es) x a h =
    given-Misses x n _ (next tries n a).1 _ (next-Kept tries x n a h)
      (history-Misses es x (next tries n a).0)

-- A number that another process claims of the row is in no range that this one gives afterwards,
-- whatever it held already.
pub claimed-Misses :
    (hi step x : ℕ) (a : Allocator) (es : List Event)
    → IsAbove hi a
    → max_id a.key a.meta < x
    → x ≤ max_id a.key a.meta + step
    → All (Misses x) (history (claims a.key step ∷ es) a)
unfolding history
claimed-Misses hi step x a es h above within =
    history-Misses es x (record a { meta = claim a.key step a.meta })
      (ground (arith, max_id-claim_self a.key step a.meta))
