-- ===== src/Timewheel/Handing.antt =====
-- A call of After on a wheel with one level (internal/timewheel/wheel.go).
use native.Mathlib.Nat.{le-div_iff_mul-le, div-mul-le_self, div-lt_iff_lt-mul, lt-div-mul-add}
use yim.Base.{
  ℕ, zero, suc, ◌+◌, ◌-◌, ◌*◌, ◌/◌, ◌≡◌, ◌≤◌, ◌<◌, ◌⊎◌, inl, inr, refl, ap, false, Option, some,
  List, [], ◌∷◌, ltb, ◌==◌, arith, Bool-cases,
}
use yim.Timewheel.{
  Entry, Bucket, Level, Wheel, Run, add_to_slot, insert_from, insert_levels, insert, inserted,
  after,
}
use yim.Timewheel.Calls.{Call, afters, advances}
use yim.Timewheel.Skipped.{In}
use yim.Timewheel.Sweep.{single, run_all, insert_near, lt→ltb}

-- The task of the entry has been called at this time.
abbrev pub RanAt : Entry → ℕ → List Run → Type 0
RanAt e at [] = ⊥
RanAt e at (r ∷ ran) = (r ≡ record { entry = e; at = at }) ⊎ RanAt e at ran

pub run_all-keeps :
    (e : Entry) (at now : ℕ) (es : Bucket) (ran : List Run)
    → RanAt e at ran
    → RanAt e at (run_all now es ran)
run_all-keeps e at now [] ran h = h
run_all-keeps e at now (x ∷ es) ran h =
    run_all-keeps e at now es (record { entry = x; at = now } ∷ ran) (inr h)

pub run_all-RanAt :
    (e : Entry) (now : ℕ) (es : Bucket) (ran : List Run)
    → In e es
    → RanAt e now (run_all now es ran)
run_all-RanAt e now [] ran h = absurd h
run_all-RanAt e now (x ∷ es) ran (inl same) =
    run_all-keeps e now now es (record { entry = x; at = now } ∷ ran)
      (inl (ap (λ (y : Entry). record { entry = y; at = now }) same))
run_all-RanAt e now (x ∷ es) ran (inr more) =
    run_all-RanAt e now es (record { entry = x; at = now } ∷ ran) more

-- Calls between which the ticker beats once in each tick, at least a tick after the last beat; a delay
-- ends before the wheel has come round.
abbrev pub Steady : ℕ → ℕ → ℕ → List (ℕ × Call) → Type 0
Steady size tick current [] = Unit {0}
Steady size tick current ((now, advances) ∷ cs) =
    (now / tick ≡ current / tick + 1) × (tick ≤ now - current) × Steady size tick now cs
Steady size tick current ((now, afters delay task) ∷ cs) =
    (current ≤ now) × (now + delay < current + tick * size) × Steady size tick current cs

abbrev pub count_beats : List (ℕ × Call) → ℕ
count_beats [] = 0
count_beats ((now, advances) ∷ cs) = count_beats cs + 1
count_beats ((now, afters delay task) ∷ cs) = count_beats cs

-- A call of After: the task is called at once, or waits in the slot of its tick.
pub data Afters (size now : ℕ) (e : Entry) (l : Level) (ran : List Run) (r : Option Wheel)
    : Type 0 where
  at_once :
      e.expire < now + l.tick
      → r ≡ some (single size l (record { entry = e; at = now } ∷ ran))
      → Afters size now e l ran r
  stored :
      l.current / l.tick < e.expire / l.tick
      → e.expire / l.tick ≤ l.current / l.tick + size
      → r ≡ some (single size (add_to_slot size e l) ran)
      → Afters size now e l ran r

pub not_ltb : (a b : ℕ) → b ≤ a → ltb a b ≡ false
not_ltb a b le = ground (arith, le)

pub insert_from_far :
    (fuel size : ℕ) (e : Entry) (l : Level) (rest : List Level)
    → 0 < fuel
    → l.tick ≤ e.expire - l.current
    → e.expire - l.current < l.tick * size
    → insert_from fuel size e l rest ≡ some (add_to_slot size e l ∷ rest, false)
unfolding insert_from
insert_from_far zero size e l rest pos far room = absurd (omega (arith, pos))
insert_from_far (suc fuel) size e l rest pos far room =
    rw (not_ltb (e.expire - l.current) l.tick far)
      (rw (lt→ltb (e.expire - l.current) (l.tick * size) room) refl)

pub insert_far :
    (size now : ℕ) (e : Entry) (l : Level) (ran : List Run)
    → l.tick ≤ e.expire - l.current
    → e.expire - l.current < l.tick * size
    → insert e now (single size l ran) ≡ some (single size (add_to_slot size e l) ran)
unfolding insert insert_levels
insert_far size now e l ran far room =
    ap (inserted e now (single size l ran))
      (insert_from_far (e.expire + 0 + 2) size e l [] (omega arith) far room)

pub tick_above : (c e t : ℕ) → 0 < t → c + t ≤ e → c / t < e / t
tick_above c e t pos le =
    (le-div_iff_mul-le {x = suc (c / t)} {y = e} pos).1 (grind (arith, div-mul-le_self c t))

pub tick_within : (c e t size : ℕ) → 0 < t → e < c + t * size → e / t ≤ c / t + size
tick_within c e t size pos lt = omega (
  arith,
  (div-lt_iff_lt-mul {x = e} {y = c / t + size + 1} pos).1
      (grind (arith, lt-div-mul-add {a = c} pos)),
)

pub after_cases :
    (size now delay task : ℕ) (l : Level) (ran : List Run)
    → 0 < l.tick
    → l.current ≤ now
    → now + delay < l.current + l.tick * size
    → Afters size now
        (record { expire = now + delay; task = task })
        l
        ran
        (after delay task now (single size l ran))
unfolding after
after_cases size now delay task l ran ticks le room =
    let e : Entry = record { expire = now + delay; task = task } in
    elim (Bool-cases (delay == 0)) [
      | inl zero_delay ↦ at_once (ground (arith, zero_delay, ticks)) (rw zero_delay refl)
      | inr delayed ↦ elim (Bool-cases (ltb (now + delay - l.current) l.tick)) [
        | inl near ↦
            at_once (ground (arith, near, le, ticks))
              (rw delayed (insert_near size now e l ran (ground (arith, near))))
        | inr far ↦
            let beyond : l.tick ≤ now + delay - l.current = ground (arith, far) in
            stored (tick_above l.current (now + delay) l.tick ticks (omega (arith, beyond, ticks)))
              (tick_within l.current (now + delay) l.tick size ticks room)
              (rw delayed (insert_far size now e l ran beyond (omega (arith, room, le))))
      ]
    ]
