-- ===== src/Seq/Tests.antt =====
-- Runs and instances of the allocator and the pool (internal/seq/allocator.go) at concrete tables.
use yim.Base.{
  nat_eq, pair_eq, list_eq, ℕ, ◌≡◌, ◌≢◌, ◌≤◌, refl, none, some, List, [], ◌∷◌, arith, All, inl,
}
use yim.Base.Map.{lookup, insert}
use yim.Seq.{
  Key, Segment, Try, committed, refused, Allocator, max_id, claim, new_allocator, load_segment,
  load_loop, try_load, new_segment, take_from, take_cur, taken, swap_sync, next, next_loop, range,
  out_of_fuel,
}
use yim.Seq.Order.{IsAbove, Event, nexts, claims, history, IsAscending, history-IsAscending}
use yim.Seq.Ownership.{Misses, claimed-Misses}
use yim.Seq.Supply.{next-IsRange, next-ne-out_of_fuel}
use yim.Seq.Pool.{Pool, alloc, for_key, IsKeyed}

abbrev all_commit : ℕ → Try
all_commit i = committed

abbrev key : Key
key = (b'm' ∷ [], 0)

-- The second key of the tests.
abbrev other : Key
other = (b'm' ∷ [], 1)

abbrev fresh_segment : Segment
fresh_segment = record { start = 1; end = 10; cursor = 0 }

abbrev fresh : Allocator
fresh = record {
  meta = (key, 10) ∷ [];
  key = key;
  step = 10;
  cur = some fresh_segment;
  buf = none;
  last = some 0;
  spawned = 0;
}

abbrev calls : List Event
calls = nexts (λ r i. committed) 7 ∷ claims key 10 ∷ nexts (λ r i. committed) 7 ∷ []

skips_the_rival : history calls fresh ≡ (1, 7) ∷ (21, 7) ∷ []
unfolding history next next_loop take_cur take_from taken swap_sync load_segment load_loop try_load
    new_segment lookup claim insert
skips_the_rival = refl

made : new_allocator all_commit key 10 [] ≡ ((key, 10) ∷ [], some fresh)
unfolding new_allocator load_segment load_loop try_load claim new_segment insert lookup
made = refl

history-IsAscending_example : IsAscending (max_id key []) (history calls fresh)
history-IsAscending_example =
    history-IsAscending all_commit key 10 [] ((key, 10) ∷ []) fresh calls made

top : max_id key ((key, 10) ∷ []) ≡ 10
unfolding lookup
top = refl

room : 10 ≤ max_id key ((key, 10) ∷ [])
room = omega (arith, top)

fresh-IsAbove : IsAbove 0 fresh
fresh-IsAbove = record { current = (omega arith, omega arith, room); spare = tt }

claimed-Misses_example : All (Misses 15) (history (claims key 10 ∷ calls) fresh)
claimed-Misses_example =
    claimed-Misses 0 10 15 fresh calls fresh-IsAbove (omega (arith, top)) (omega (arith, top))

next-IsRange_example : (start : ℕ) × ((next (λ r i. committed) 7 fresh).1 ≡ range start)
next-IsRange_example =
    next-IsRange (λ r i. committed) 0 7 fresh fresh-IsAbove (omega arith) (omega arith) (inl refl)

next-ne-out_of_fuel_example : (next (λ r i. refused) 7 fresh).1 ≢ out_of_fuel
next-ne-out_of_fuel_example = next-ne-out_of_fuel (λ r i. refused) 0 7 fresh fresh-IsAbove

abbrev pool : Pool
pool = record { meta = []; step = 10; allocators = [] }

allocates : (alloc all_commit (λ r i. committed) none key 4 pool).1 ≡ range 1
unfolding alloc for_key lookup new_allocator load_segment load_loop try_load next next_loop take_cur
    take_from new_segment claim insert
allocates = refl

pool-IsKeyed : IsKeyed pool
unfolding lookup
pool-IsKeyed k a e = absurd (ground arith)

other-ne-key : other ≢ key
other-ne-key e = absurd (ground (arith, e))
