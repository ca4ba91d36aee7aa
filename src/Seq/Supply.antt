-- ===== src/Seq/Supply.antt =====
-- The rounds of the loop of Next in internal/seq/allocator.go.
use yim.Base.{
  ℕ, suc, ◌≤◌, ◌<◌, ◌≡◌, ◌≢◌, none, arith, ltb, ◌==◌, ◌||◌, Option-cases, inl, inr, ◌⊎◌, true,
  false,
}
use yim.Seq.{
  Key, Table, Try, committed, Allocator, try_load, load_loop, load_segment, take_from, take_cur,
  swap_sync, next_loop, next, Answer, range, out_of_fuel,
}
use yim.Seq.Loads.{load_segment-Loaded}
use yim.Seq.Order.{IsAbove}

-- One of the three attempts to load commits.
abbrev pub Commits : (ℕ → Try) → Type 0
Commits tries = (tries 0 ≡ committed) ⊎ (tries 1 ≡ committed) ⊎ (tries 2 ≡ committed)

load_segment-ne-none :
    (tries : ℕ → Try) (k : Key) (step : ℕ) (t : Table)
    → Commits tries
    → (load_segment tries k step t).1 ≢ none
unfolding load_segment load_loop try_load
load_segment-ne-none tries k step t h = ground arith

swap_sync-done : (tries : ℕ → Try) (a : Allocator) → Commits tries → (swap_sync tries a).1 ≡ true
unfolding swap_sync
swap_sync-done tries a c = ground (arith, load_segment-ne-none tries a.key a.step a.meta c)

-- The segment that swapSync puts in place has room for a whole step.
swap_sync-room :
    (tries : ℕ → Try) (hi n : ℕ) (a : Allocator)
    → IsAbove hi a
    → n ≤ a.step
    → (swap_sync tries a).1 ≡ true
    → take_cur (swap_sync tries a).0.cur n ≢ none
unfolding swap_sync take_cur take_from
swap_sync-room tries hi n a h small = ground (arith, load_segment-Loaded tries a.key a.step a.meta)

abbrev IsRange : Answer → Type 0
IsRange answer = (start : ℕ) × (answer ≡ range start)

next_loop-IsRange :
    (fuel : ℕ) (tries : ℕ → ℕ → Try) (n : ℕ) (a : Allocator)
    → take_cur a.cur n ≢ none
    → IsRange (next_loop (suc fuel) tries n a).1
unfolding next_loop
next_loop-IsRange fuel tries n a room = elim (Option-cases (take_cur a.cur n)) [
  | inl e ↦ absurd (room e)
  | inr (given, e) ↦ (given.0, rw (e, next_loop))
]

-- A batch of one to `step` numbers is given whenever one of three attempts to load commits: the
-- model's fuel does not run out, and no error is returned.
pub next-IsRange :
    (tries : ℕ → ℕ → Try) (hi n : ℕ) (a : Allocator)
    → IsAbove hi a
    → 0 < n
    → n ≤ a.step
    → Commits (tries 1)
    → (start : ℕ) × ((next tries n a).1 ≡ range start)
unfolding next next_loop
next-IsRange tries hi n a h pos small c =
    rw (accepted, next)
      (elim (Option-cases (take_cur a.cur n)) [
        | inl e ↦
            let done = swap_sync-done (tries 1) a c in
            let room = swap_sync-room (tries 1) hi n a h small done in
            rw (e, done, next_loop) (next_loop-IsRange 0 tries n (swap_sync (tries 1) a).0 room)
        | inr (given, e) ↦ (given.0, rw (e, next_loop))
      ])
  where
    accepted : (n == 0 || ltb a.step n) ≡ false
    accepted = ground arith

-- Whatever the attempts do, the two rounds end the loop.
pub next-ne-out_of_fuel :
    (tries : ℕ → ℕ → Try) (hi n : ℕ) (a : Allocator)
    → IsAbove hi a
    → (next tries n a).1 ≢ out_of_fuel
unfolding next next_loop
next-ne-out_of_fuel tries hi n a h =
    ground
      (arith, swap_sync-room (tries 1) hi n a h, load_segment-Loaded (tries 1) a.key a.step a.meta)
