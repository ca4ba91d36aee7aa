-- ===== src/Timewheel/Tests.antt =====
-- Runs and instances of the timing wheel (internal/timewheel/wheel.go): a tick of 10 and 8 slots, from 1005 on.
use yim.Base.{ℕ, ◌≡◌, refl, Option, none, some, List, [], ◌∷◌, arith, inl}
use yim.Timewheel.{Entry, Level, Run, Wheel, start, new_wheel}
use yim.Timewheel.Slots.{mask_8}
use yim.Timewheel.Outline.{IsWell}
use yim.Timewheel.Calls.{Call, afters, advances, run}
use yim.Timewheel.Sweep.{single, IsSteady}
use yim.Timewheel.Steady.{IsPunctual, after-IsPunctual}
use yim.Timewheel.Skipped.{beats, Stored, beats-Stored}

-- Times of runs.
abbrev times : List Run → List ℕ
times [] = []
times (r ∷ ran) = r.at ∷ times ran

abbrev times_of : Option Wheel → Option (List ℕ)
times_of none = none
times_of (some w) = some (times w.ran)

abbrev short : List (ℕ × Call)
short =
    (1005, afters 25 1)
    ∷ (1006, afters 300 2)
    ∷ (1015, advances)
    ∷ (1025, advances)
    ∷ (1035, advances)
    ∷ []

abbrev root : Level
root = new_wheel 8 10 1005

short_times : times_of (run short (start 10 8 1005)) ≡ some (1035 ∷ [])
unfolding run yim.Timewheel.Calls.call yim.Timewheel.after yim.Timewheel.insert
    yim.Timewheel.insert_levels start yim.Timewheel.insert_from yim.Timewheel.add_to_slot
    yim.Timewheel.advance yim.Timewheel.advance_at yim.Timewheel.drain yim.Timewheel.drain_one
    yim.Timewheel.bucket_at yim.Timewheel.append_at yim.Timewheel.slot_index yim.Timewheel.at_level
    yim.Timewheel.swept
short_times = refl

-- The first boundary of the overflow wheel comes less than its tick after its start.
abbrev over : List (ℕ × Call)
over =
    (1005, afters 80 1)
    ∷ beats (1015 ∷ 1025 ∷ 1035 ∷ 1045 ∷ 1055 ∷ 1065 ∷ 1075 ∷ 1085 ∷ 1095 ∷ 1105 ∷ 1115 ∷ 1125 ∷ [])

over_late : times_of (run over (start 10 8 1005)) ≡ some []
unfolding run yim.Timewheel.Calls.call yim.Timewheel.after yim.Timewheel.insert
    yim.Timewheel.insert_levels start yim.Timewheel.insert_from yim.Timewheel.add_to_slot
    yim.Timewheel.advance yim.Timewheel.advance_at yim.Timewheel.drain yim.Timewheel.drain_one
    yim.Timewheel.bucket_at yim.Timewheel.append_at yim.Timewheel.slot_index yim.Timewheel.at_level
    yim.Timewheel.swept
over_late = refl

root-IsSteady : IsSteady 8 root
root-IsSteady = record {
  ticks = omega arith;
  sized = refl;
  placed = (tt, (tt, (tt, (tt, (tt, (tt, (tt, (tt, tt))))))));
}

after-IsPunctual_example :
    (w : Wheel) × (run ((1007, afters 25 1) ∷ beats (1015 ∷ 1025 ∷ 1035 ∷ [])) (single 8 root [])
      ≡ some w)
    × IsPunctual 10 (record { expire = 1032; task = 1 }) w
after-IsPunctual_example =
    after-IsPunctual 8 1007 25 1 (beats (1015 ∷ 1025 ∷ 1035 ∷ [])) root [] (omega arith) mask_8
      root-IsSteady
      (omega arith, omega arith, (refl, omega arith, (refl, omega arith, (refl, omega arith, tt))))
      (omega arith)

abbrev waiting : Entry
waiting = record { expire = 1030; task = 1 }

-- The entry is in slot 7.
abbrev loaded : Wheel
loaded =
    single 8 (record root { slots = [] ∷ [] ∷ [] ∷ [] ∷ [] ∷ [] ∷ [] ∷ (waiting ∷ []) ∷ [] }) []

loaded-IsWell : IsWell 10 1005 loaded
loaded-IsWell = record {
  two = omega arith;
  ticks = omega arith;
  rooted = λ e. cc e;
  good = (
    record {
      sized = refl;
      fits = (tt, (tt, (tt, (tt, (tt, (tt, (tt, ((omega arith, tt), tt))))))));
    },
    refl,
    omega arith,
    tt,
  );
  masks = mask_8;
}

-- The beat of tick 103 is late: it comes in tick 104.
beats-Stored_example :
    (w : Wheel) × (run (beats (1015 ∷ 1025 ∷ 1045 ∷ 1055 ∷ [])) loaded ≡ some w)
    × Stored 7 waiting w.levels
unfolding yim.Timewheel.slot_index
beats-Stored_example =
    beats-Stored 10 1005 7 (1015 ∷ 1025 ∷ 1045 ∷ 1055 ∷ []) waiting loaded loaded-IsWell
      (omega arith, (omega arith, (omega arith, (omega arith, tt))))
      (omega arith, (omega arith, (omega arith, (omega arith, tt)))) (inl refl)
