-- ===== src/Timewheel/Outline.antt =====
-- The ticks and times of the levels through an insertion (internal/timewheel/wheel.go).
use yim.Base.{
  ℕ, zero, suc, ◌+◌, ◌-◌, ◌*◌, ◌≡◌, ◌≢◌, ◌≤◌, ◌<◌, refl, ap, ◌⊎◌, inl, inr, Bool, true, Option,
  none, some, List, [], ◌∷◌, arith, length, All,
}
use yim.Timewheel.{
  Entry, Bucket, Level, Wheel, Run, new_level, add_to_slot, under, insert_from, insert_levels,
}
use yim.Timewheel.Slots.{Masks}
use yim.Timewheel.Conserved.{count_bucket, copies, Kept, insert_from-Kept, insert_from-timely}
use yim.Timewheel.Insertion.{
  Fits, Good, Leaves, Ends, insert_cases, insert_from-Good, insert_from-Ends,
}

-- The ticks and the times of the levels.
abbrev pub outline : List Level → List (ℕ × ℕ)
outline [] = []
outline (l ∷ ls) = (l.tick, l.current) ∷ outline ls

-- One of the levels takes the entry.
abbrev pub Room : ℕ → Entry → List (ℕ × ℕ) → Type 0
Room size e [] = ⊥
Room size e ((tick, current) ∷ o) = ((0 < tick) × Fits size tick current e) ⊎ Room size e o

pub under-outline :
    (l : Level) (o : List (ℕ × ℕ)) (r : Option (List Level × Bool))
    → Leaves (λ ls _. outline ls ≡ o) r
    → Leaves (λ ls _. outline ls ≡ (l.tick, l.current) ∷ o) (under l r)
under-outline l o none h = tt
under-outline l o (some (ls, runs)) h = ap (λ p. (l.tick, l.current) ∷ p) h

pub fits_above :
    (size : ℕ) (e : Entry) (tick current : ℕ) (o : List (ℕ × ℕ))
    → tick * size ≤ e.expire - current
    → 0 < size
    → Room size e ((tick, current) ∷ o)
    → Room size e o
fits_above size e tick current o full pos (inl (ticks, fits)) = absurd (grind arith)
fits_above size e tick current o full pos (inr above) = above

-- Where a level takes the entry, no level is made.
pub insert_from-outline :
    (fuel size : ℕ) (e : Entry) (l : Level) (rest : List Level)
    → Room size e (outline (l ∷ rest))
    → 0 < size
    → Leaves (λ ls _. outline ls ≡ outline (l ∷ rest)) (insert_from fuel size e l rest)
unfolding insert_from add_to_slot
insert_from-outline zero size e l rest room pos = tt
insert_from-outline (suc fuel) size e l [] room pos =
    insert_cases (Leaves (λ ls _. outline ls ≡ outline (l ∷ []))) fuel size e l [] (λ now. refl)
      (λ later here. refl)
      (λ later full. absurd (fits_above size e l.tick l.current [] full pos room))
insert_from-outline (suc fuel) size e l (r ∷ rs) room pos =
    insert_cases (Leaves (λ ls _. outline ls ≡ outline (l ∷ r ∷ rs))) fuel size e l (r ∷ rs)
      (λ now. refl) (λ later here. refl)
      (λ later full. under-outline l (outline (r ∷ rs)) (insert_from fuel size e r rs) (
        insert_from-outline fuel size e r rs
          (fits_above size e l.tick l.current (outline (r ∷ rs)) full pos room) pos))

-- A wheel at time `now` whose root has this tick.
pub record IsWell (tick now : ℕ) (w : Wheel) : Type 0 where
  pub two : 2 ≤ w.size
  pub ticks : 0 < tick
  pub rooted : w.levels ≢ []
  pub good : Good w.size tick now w.levels
  pub masks : Masks w.size

-- A call of a task that is not made a tick or more before its time.
abbrev pub IsTimely : ℕ → Run → Type 0
IsTimely tick r = r.entry.expire < r.at + tick

-- What a step of a call has done with the entries b: the wheel that it leaves is sound, the entries are
-- stored or have been run, no task too early, and no level has been made.
pub record Steps (tick now : ℕ) (w : Wheel) (b : Bucket) (o : List (ℕ × ℕ)) (r : Option Wheel)
    : Type 0 where
  pub next : Wheel
  pub result : r ≡ some next
  pub well : IsWell tick now next
  pub size : next.size ≡ w.size
  pub outlined : outline next.levels ≡ o
  pub kept : (k : ℕ) → copies k next ≡ copies k w + count_bucket k b
  pub timely : All (IsTimely tick) w.ran → All (IsTimely tick) next.ran

pub insert-Ends :
    (tick now : ℕ) (e : Entry) (size : ℕ) (levels : List Level)
    → 2 ≤ size
    → 0 < tick
    → levels ≢ []
    → Good size tick now levels
    → Ends (insert_levels size e levels)
unfolding insert_levels
insert-Ends tick now e size [] two ticks rooted good = rooted refl
insert-Ends tick now e size (l ∷ rest) two ticks rooted good =
    insert_from-Ends (e.expire + length rest + 2) size e tick now l rest two ticks (omega arith)
      (omega (arith, ticks)) good

pub insert_levels-Good :
    (tick now : ℕ) (e : Entry) (size : ℕ) (levels : List Level)
    → Good size tick now levels
    → Leaves (λ ls _. Good size tick now ls) (insert_levels size e levels)
unfolding insert_levels
insert_levels-Good tick now e size [] h = tt
insert_levels-Good tick now e size (l ∷ rest) h =
    insert_from-Good (e.expire + length rest + 2) size e tick now l rest h

pub insert_levels-outline :
    (e : Entry) (size : ℕ) (levels : List Level)
    → Room size e (outline levels)
    → 0 < size
    → Leaves (λ ls _. outline ls ≡ outline levels) (insert_levels size e levels)
unfolding insert_levels
insert_levels-outline e size [] room pos = absurd room
insert_levels-outline e size (l ∷ rest) room pos =
    insert_from-outline (e.expire + length rest + 2) size e l rest room pos

-- An insertion leaves a level.
pub cons-ne-nil : (l : Level) (ls : List Level) → l ∷ ls ≢ []
cons-ne-nil l ls e = cc e

pub under_rooted :
    (l : Level) (r : Option (List Level × Bool)) → Leaves (λ ls _. ls ≢ []) (under l r)
under_rooted l none = tt
under_rooted l (some (ls, runs)) = cons-ne-nil l ls

pub insert_from-rooted :
    (fuel size : ℕ) (e : Entry) (l : Level) (rest : List Level)
    → Leaves (λ ls _. ls ≢ []) (insert_from fuel size e l rest)
unfolding insert_from
insert_from-rooted zero size e l rest = tt
insert_from-rooted (suc fuel) size e l [] =
    insert_cases (Leaves (λ ls _. ls ≢ [])) fuel size e l [] (λ now. cons-ne-nil _ _)
      (λ later room. cons-ne-nil _ _)
      (λ later full. under_rooted l (insert_from fuel size e (new_level size l) []))
insert_from-rooted (suc fuel) size e l (r ∷ rs) =
    insert_cases (Leaves (λ ls _. ls ≢ [])) fuel size e l (r ∷ rs) (λ now. cons-ne-nil _ _)
      (λ later room. cons-ne-nil _ _) (λ later full. under_rooted l (insert_from fuel size e r rs))

pub still_rooted :
    (k tick now : ℕ) (e : Entry) (size : ℕ) (levels : List Level)
    → Masks size
    → 0 < size
    → Good size tick now levels
    → Leaves (Kept k e levels) (insert_levels size e levels)
unfolding insert_levels
still_rooted k tick now e size [] masks pos h = tt
still_rooted k tick now e size (l ∷ rest) masks pos h =
    insert_from-Kept k (e.expire + length rest + 2) size e tick now l rest masks pos h

pub timely_rooted :
    (tick now : ℕ) (e : Entry) (size : ℕ) (levels : List Level)
    → 0 < tick
    → Good size tick now levels
    → Leaves (λ _ runs. runs ≡ true → e.expire < now + tick) (insert_levels size e levels)
unfolding insert_levels
timely_rooted tick now e size [] ticks h = tt
timely_rooted tick now e size (l ∷ rest) ticks h =
    insert_from-timely (e.expire + length rest + 2) size e tick now l rest h ticks

pub insert_levels-Ends :
    (tick now : ℕ) (e : Entry) (w : Wheel)
    → IsWell tick now w
    → Ends (insert_levels w.size e w.levels)
insert_levels-Ends tick now e w h =
    insert-Ends tick now e w.size w.levels h.two h.ticks h.rooted h.good

pub insert_levels-rooted :
    (e : Entry) (size : ℕ) (levels : List Level)
    → Leaves (λ ls _. ls ≢ []) (insert_levels size e levels)
unfolding insert_levels
insert_levels-rooted e size [] = tt
insert_levels-rooted e size (l ∷ rest) =
    insert_from-rooted (e.expire + length rest + 2) size e l rest
