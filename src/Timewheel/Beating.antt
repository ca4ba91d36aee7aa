-- ===== src/Timewheel/Beating.antt =====
-- A wheel with one level under a steady ticker (internal/timewheel/wheel.go).
use yim.Base.{
  ℕ, ◌+◌, ◌/◌, ◌%◌, ◌≡◌, ◌≤◌, ◌<◌, inr, refl, sym, subst, ap, ◌∙◌, some, List, [], ◌∷◌, arith, set,
  length, length-set,
}
use yim.Timewheel.{Entry, Level, Wheel, Run, slot_index, add_to_slot, bucket_at}
use yim.Timewheel.Slots.{Masks}
use yim.Timewheel.Insertion.{length-append_at}
use yim.Timewheel.Calls.{Call, afters, advances, call, run}
use yim.Timewheel.Sweep.{
  single, run_all, PlacedFrom, swept-Placed, append_at-Placed, IsSteady, beat_lem,
}
use yim.Timewheel.Handing.{RanAt, run_all-keeps, Steady, after_cases, at_once, stored}

-- The state after a call of After that stores its task.
pub stored-IsSteady :
    (size : ℕ) (e : Entry) (l : Level)
    → 0 < size
    → Masks size
    → l.current / l.tick < e.expire / l.tick
    → e.expire / l.tick ≤ l.current / l.tick + size
    → IsSteady size l
    → IsSteady size (add_to_slot size e l)
unfolding add_to_slot
stored-IsSteady size e l pos masks above within h = record {
  ticks = h.ticks;
  sized = length-append_at (slot_index size l.tick e.expire) e l.slots ∙ h.sized;
  placed =
      append_at-Placed size l.tick (l.current / l.tick) pos 0 (slot_index size l.tick e.expire) e
        l.slots (sym (masks l.tick e.expire) ∙ omega arith, above, within) h.placed;
}

pub beat-IsSteady :
    (size now : ℕ) (l l' : Level)
    → 0 < size
    → Masks size
    → now / l.tick ≡ l.current / l.tick + 1
    → l'.slots ≡ set l.slots (slot_index size l.tick now) []
    → l'.tick ≡ l.tick
    → l'.current ≡ now
    → IsSteady size l
    → IsSteady size l'
beat-IsSteady size now l l' pos masks next slots tick current h = record {
  ticks = omega (arith, tick, h.ticks);
  sized = ap length slots ∙ length-set l.slots (slot_index size l.tick now) [] ∙ h.sized;
  placed = subst (PlacedFrom size l'.tick (l'.current / l'.tick) 0) (sym slots) (
      subst
        (λ t. PlacedFrom size t (l'.current / t) 0 (set l.slots (slot_index size l.tick now) []))
        (sym tick)
        (subst
          (λ c. PlacedFrom size l.tick (c / l.tick) 0 (set l.slots (slot_index size l.tick now) []))
          (sym current)
          (subst (λ n. PlacedFrom size l.tick n 0 (set l.slots (slot_index size l.tick now) []))
            (sym next)
            (swept-Placed size l.tick (l.current / l.tick) pos 0 (slot_index size l.tick now)
              l.slots (sym (masks l.tick now ∙ ap (λ q. q % size) next) ∙ omega arith) h.placed))));
}

-- A steady run of calls from a level and a log ends in a wheel of which P holds.
abbrev pub EndsIn : (Wheel → Type 0) → ℕ → Level → List Run → List (ℕ × Call) → Type 0
EndsIn P size l ran cs = (w : Wheel) × (run cs (single size l ran) ≡ some w) × P w

-- The first call done, the rest may go on from the level and the log that it leaves.
pub then_run :
    (P : Wheel → Type 0) (size now : ℕ) (c : Call) (cs : List (ℕ × Call)) (l l' : Level)
    (ran ran' : List Run)
    → call now c (single size l ran) ≡ some (single size l' ran')
    → EndsIn P size l' ran' cs
    → EndsIn P size l ran ((now, c) ∷ cs)
unfolding run
then_run P size now c cs l l' ran ran' went rest = (rest.0, rw (went, run) rest.1, rest.2)

pub added-Steady :
    (size : ℕ) (x : Entry) (l : Level) (cs : List (ℕ × Call))
    → Steady size l.tick l.current cs
    → Steady size (add_to_slot size x l).tick (add_to_slot size x l).current cs
unfolding add_to_slot
added-Steady size x l cs h = h

pub Steady-kept :
    (size at : ℕ) (e : Entry) (cs : List (ℕ × Call)) (l : Level) (ran : List Run)
    → 0 < size
    → Masks size
    → IsSteady size l
    → Steady size l.tick l.current cs
    → RanAt e at ran
    → EndsIn (λ w. RanAt e at w.ran) size l ran cs
unfolding run call
Steady-kept size at e [] l ran pos masks h steady done = (single size l ran, refl, done)
Steady-kept size at e ((now, advances) ∷ cs) l ran pos masks h (next, late, steady) done =
    let (l', went, slots, tick, current) = beat_lem size now l ran pos masks h next late in
    let ran' = run_all now (bucket_at (slot_index size l.tick now) l) ran in
    then_run (λ w. RanAt e at w.ran) size now advances cs l l' ran ran' went
      (Steady-kept size at e cs l' ran' pos masks
        (beat-IsSteady size now l l' pos masks next slots tick current h)
        (subst (λ t. Steady size t l'.current cs) (sym tick)
          (subst (λ c. Steady size l.tick c cs) (sym current) steady))
        (run_all-keeps e at now (bucket_at (slot_index size l.tick now) l) ran done))
Steady-kept size at e ((now, afters delay task) ∷ cs) l ran pos masks h (le, room, steady) done =
    let x : Entry = record { expire = now + delay; task = task } in
    elim (after_cases size now delay task l ran h.ticks le room) [
      | at_once near went ↦
          then_run (λ w. RanAt e at w.ran) size now (afters delay task) cs l l ran
            (record { entry = x; at = now } ∷ ran) went
            (Steady-kept size at e cs l (record { entry = x; at = now } ∷ ran) pos masks h steady
              (inr done))
      | stored above within went ↦
          then_run (λ w. RanAt e at w.ran) size now (afters delay task) cs l (add_to_slot size x l)
            ran ran went
            (Steady-kept size at e cs (add_to_slot size x l) ran pos masks
              (stored-IsSteady size x l pos masks above within h) (added-Steady size x l cs steady)
              done)
    ]
