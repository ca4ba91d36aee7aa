-- ===== src/Timewheel.antt =====
-- internal/timewheel/wheel.go: the hierarchical timing wheel. Times and delays are nanoseconds; a delay or
-- a remaining time below zero is 0 here, which every test on it treats alike. A task is a number, and
-- `ran` logs the calls of tasks, each with the time at which it was made. Each call of After and of advance
-- is one step: the source lets go of a wheel's lock between the entries of a slot that it sweeps, so that
-- a call of After may come in between there, which is left out. `none`: the fuel ran out.
pub mod Slots
pub mod Insertion
pub mod Outline
pub mod Total
pub mod Advance
pub mod Conserved
pub mod Calls
pub mod Sweep
pub mod Skipped
pub mod Handing
pub mod Beating
pub mod Steady
mod Tests
use Prim.Native.Nat.{bit_and}
use yim.Base.{
  ℕ, zero, suc, ◌+◌, ◌-◌, ◌*◌, ◌/◌, ◌%◌, ◌^◌, Bool, true, false, not, ◌&&◌, Option, none, some,
  List, [], ◌∷◌, ◌++◌, ltb, leb, ◌==◌, if◌then◌else◌, get_elem?, set, replicate, length,
}

pub record Entry : Type 0 where
  pub expire : ℕ
  pub task : ℕ

abbrev pub Bucket : Type 0
Bucket = List Entry

-- One wheel; the overflow of a wheel is the next in the list of levels.
pub record Level : Type 0 where
  pub tick : ℕ
  pub current : ℕ
  pub slots : List Bucket
  pub fired : ℕ

-- A call of a task, made at time `at`.
pub record Run : Type 0 where
  pub entry : Entry
  pub at : ℕ

pub record Wheel : Type 0 where
  pub size : ℕ
  pub levels : List Level
  pub ran : List Run

abbrev pub span : ℕ → Level → ℕ
span size l = l.tick * size

abbrev pub new_wheel : ℕ → ℕ → ℕ → Level
new_wheel size tick current = record {
  tick = tick;
  current = current;
  slots = replicate size [];
  fired = 0;
}

unfoldable pub start : ℕ → ℕ → ℕ → Wheel
start tick size now = record { size = size; levels = new_wheel size tick now ∷ []; ran = [] }

abbrev pub new_level : ℕ → Level → Level
new_level size l = new_wheel size (span size l) l.current

-- `uint32(t / tick) & mask`.
unfoldable pub slot_index : ℕ → ℕ → ℕ → ℕ
slot_index size tick t = bit_and ((t / tick) % 2 ^ 32) (size - 1)

abbrev pub append_one : Entry → Bucket → Bucket
append_one e b = b ++ e ∷ []

unfoldable pub append_at : ℕ → Entry → List Bucket → List Bucket
append_at i e [] = []
append_at zero e (b ∷ slots) = append_one e b ∷ slots
append_at (suc i) e (b ∷ slots) = b ∷ append_at i e slots

unfoldable pub add_to_slot : ℕ → Entry → Level → Level
add_to_slot size e l = record l { slots = append_at (slot_index size l.tick e.expire) e l.slots }

abbrev pub under : Level → Option (List Level × Bool) → Option (List Level × Bool)
under l none = none
under l (some (levels, runs)) = some (l ∷ levels, runs)

-- The levels after an insertion, and whether the task is to run at once.
unfoldable pub insert_from : ℕ → ℕ → Entry → Level → List Level → Option (List Level × Bool)
insert_from zero size e l rest = none
insert_from (suc fuel) size e l rest =
    if ltb (e.expire - l.current) l.tick
    then some (l ∷ rest, true)
    else if ltb (e.expire - l.current) (span size l)
    then some (add_to_slot size e l ∷ rest, false)
    else elim rest [
      | [] ↦ under l (insert_from fuel size e (new_level size l) [])
      | r ∷ rs ↦ under l (insert_from fuel size e r rs)
    ]

unfoldable pub insert_levels : ℕ → Entry → List Level → Option (List Level × Bool)
insert_levels size e [] = none
insert_levels size e (root ∷ rest) = insert_from (e.expire + length rest + 2) size e root rest

-- `go fn()`.
abbrev pub run_entry : Entry → ℕ → Wheel → Wheel
run_entry e now w = record w { ran = record { entry = e; at = now } ∷ w.ran }

abbrev pub inserted : Entry → ℕ → Wheel → Option (List Level × Bool) → Option Wheel
inserted e now w none = none
inserted e now w (some (levels, true)) = some (run_entry e now (record w { levels = levels }))
inserted e now w (some (levels, false)) = some (record w { levels = levels })

unfoldable pub insert : Entry → ℕ → Wheel → Option Wheel
insert e now w = inserted e now w (insert_levels w.size e w.levels)

-- `now` is what time.Now gives in the call.
unfoldable pub after : ℕ → ℕ → ℕ → Wheel → Option Wheel
after delay task now w =
    let e : Entry = record { expire = now + delay; task = task } in
    if delay == 0 then some (run_entry e now w) else insert e now w

abbrev pub count_fired : Level → Level
count_fired l = record l { fired = l.fired + 1 }

unfoldable pub at_level : (Level → Level) → ℕ → List Level → List Level
at_level f n [] = []
at_level f zero (l ∷ ls) = f l ∷ ls
at_level f (suc n) (l ∷ ls) = l ∷ at_level f n ls

-- What one entry of a bucket of level n comes to: it runs, or goes back to the root.
unfoldable pub drain_one : ℕ → ℕ → Entry → Wheel → Option Wheel
drain_one now n e w =
    if leb e.expire now
    then some (run_entry e now (record w { levels = at_level count_fired n w.levels }))
    else insert e now w

unfoldable pub drain : ℕ → ℕ → Bucket → Wheel → Option Wheel
drain now n [] w = some w
drain now n (e ∷ es) w = elim (drain_one now n e w) [ none ↦ none | some w' ↦ drain now n es w' ]

abbrev pub bucket_of : Option Bucket → Bucket
bucket_of none = []
bucket_of (some b) = b

unfoldable pub bucket_at : ℕ → Level → Bucket
bucket_at i l = bucket_of (get_elem? l.slots i)

-- `w.current = now` and the bucket taken.
unfoldable pub swept : ℕ → ℕ → Level → Level
swept now i l = record l { current = now; slots = set l.slots i [] }

-- advance of the wheel at level n.
unfoldable pub advance_at : ℕ → ℕ → ℕ → Wheel → Option Wheel
advance_at zero now n w = none
advance_at (suc fuel) now n w = elim (get_elem? w.levels n) [
  | none ↦ some w
  | some l ↦
      if ltb (now - l.current) l.tick
      then some w
      else let i = slot_index w.size l.tick now in
        elim (drain now n (bucket_at i l)
          (record w { levels = at_level (swept now i) n w.levels })) [
            | none ↦ none
            | some w' ↦ elim (i == 0) [ true ↦ advance_at fuel now (suc n) w' | false ↦ some w' ]
          ]
]

unfoldable pub advance : ℕ → Wheel → Option Wheel
advance now w = advance_at (length w.levels + 1) now 0 w

abbrev pub fired_of : List Level → ℕ
fired_of [] = 0
fired_of (root ∷ rest) = root.fired

unfoldable pub fired_count : Wheel → ℕ
fired_count w = fired_of w.levels
