-- ===== src/Timewheel/Calls.antt =====
-- Sequences of calls of After and advance (internal/timewheel/wheel.go).
use yim.Base.{
  ℕ, ◌+◌, ◌≡◌, ◌≤◌, refl, Option, none, some, List, [], ◌∷◌, ◌==◌, if◌then◌else◌, arith, All,
}
use yim.Timewheel.{Wheel, after, advance}
use yim.Timewheel.Conserved.{copies}
use yim.Timewheel.Total.{after-done}
use yim.Timewheel.Outline.{IsWell, IsTimely}
use yim.Timewheel.Advance.{raise-IsWell, advance-done}

-- A call of After with a delay and a task, or a beat of the ticker.
pub data Call : Type 0 where
  afters : ℕ → ℕ → Call
  advances : Call

unfoldable pub call : ℕ → Call → Wheel → Option Wheel
call now (afters delay task) w = after delay task now w
call now advances w = advance now w

-- Calls, each with its time.
unfoldable pub run : List (ℕ × Call) → Wheel → Option Wheel
run [] w = some w
run ((now, c) ∷ cs) w = elim (call now c w) [ none ↦ none | some w' ↦ run cs w' ]

-- Time does not run backwards.
abbrev pub Ordered : ℕ → List (ℕ × Call) → Type 0
Ordered before [] = Unit {0}
Ordered before ((now, c) ∷ cs) = (before ≤ now) × Ordered now cs

abbrev pub handed_by : ℕ → Call → ℕ
handed_by k (afters delay task) = if task == k then 1 else 0
handed_by k advances = 0

-- How often the task is handed over.
abbrev pub handed : ℕ → List (ℕ × Call) → ℕ
handed k [] = 0
handed k ((now, c) ∷ cs) = handed_by k c + handed k cs

call-done :
    (tick before now : ℕ) (c : Call) (w : Wheel)
    → IsWell tick before w
    → before ≤ now
    → (w' : Wheel) × (call now c w ≡ some w')
      × IsWell tick now w'
      × ((k : ℕ) → copies k w' ≡ copies k w + handed_by k c)
      × (All (IsTimely tick) w.ran → All (IsTimely tick) w'.ran)
unfolding call
call-done tick before now (afters delay task) w h le =
    after-done tick delay task now w (raise-IsWell tick before now w le h)
call-done tick before now advances w h le =
    let (w', result, well, kept, timely, size) = advance-done tick before now w h le in
    (w', result, well, (λ k. omega (arith, kept k)), timely)

pub run-done :
    (tick before : ℕ) (cs : List (ℕ × Call)) (w : Wheel)
    → IsWell tick before w
    → Ordered before cs
    → (w' : Wheel) × (run cs w ≡ some w')
      × ((k : ℕ) → copies k w' ≡ copies k w + handed k cs)
      × (All (IsTimely tick) w.ran → All (IsTimely tick) w'.ran)
unfolding run
run-done tick before [] w h order = (w, refl, (λ k. omega arith), λ timely. timely)
run-done tick before ((now, c) ∷ cs) w h order =
    let (w1, result1, well, kept1, timely1) = call-done tick before now c w h order.0 in
    let (w2, result2, kept2, timely2) = run-done tick now cs w1 well order.1 in
    (
      w2,
      rw (result1, run) result2,
      (λ k. omega (arith, kept1 k, kept2 k)),
      λ timely. timely2 (timely1 timely),
    )
