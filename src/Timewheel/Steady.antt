-- ===== src/Timewheel/Steady.antt =====
-- After under a ticker that beats once in each tick (internal/timewheel/wheel.go).
use native.Mathlib.Nat.{mod-lt}
use yim.Base.{
  ==_iff, ℕ, zero, suc, ◌+◌, ◌/◌, ◌%◌, ◌≡◌, ◌≢◌, ◌≤◌, ◌<◌, inl, inr, refl, sym, subst, ap, ◌∙◌,
  some, List, [], ◌∷◌, ◌++◌, ◌==◌, arith, get_elem?, set, length, Bool-cases,
}
use yim.Timewheel.{
  Entry, Bucket, Level, Wheel, Run, slot_index, append_at, add_to_slot, bucket_of, bucket_at,
}
use yim.Timewheel.Slots.{Masks}
use yim.Timewheel.Calls.{Call, afters, advances, call, run}
use yim.Timewheel.Skipped.{In, In-append_at, In-set}
use yim.Timewheel.Sweep.{single, run_all, same_tick, same_slot, IsSteady, beat_lem}
use yim.Timewheel.Handing.{RanAt, run_all-RanAt, Steady, count_beats, after_cases, at_once, stored}
use yim.Timewheel.Beating.{stored-IsSteady, beat-IsSteady, EndsIn, then_run, Steady-kept}

-- The entry waits in the slot of its tick, which is one of the next.
record Waits (size : ℕ) (e : Entry) (l : Level) : Type 0 where
  there : In e (bucket_of (get_elem? l.slots ((e.expire / l.tick) % size)))
  above : l.current / l.tick < e.expire / l.tick
  within : e.expire / l.tick ≤ l.current / l.tick + size

-- The task has been called within a tick of its expiry.
abbrev pub IsPunctual : ℕ → Entry → Wheel → Type 0
IsPunctual tick e w = (at : ℕ) × RanAt e at w.ran × (at < e.expire + tick) × (e.expire < at + tick)

beat-runs :
    (size now : ℕ) (e : Entry) (l : Level) (ran : List Run)
    → Masks size
    → now / l.tick ≡ e.expire / l.tick
    → Waits size e l
    → RanAt e now (run_all now (bucket_at (slot_index size l.tick now) l) ran)
unfolding bucket_at
beat-runs size now e l ran masks same h =
    run_all-RanAt e now (bucket_of (get_elem? l.slots (slot_index size l.tick now))) ran (
      subst (λ j. In e (bucket_of (get_elem? l.slots j)))
        (ap (λ q. q % size) (sym same) ∙ sym (masks l.tick now)) h.there)

beat-Waits :
    (size now : ℕ) (e : Entry) (l l' : Level)
    → 0 < size
    → Masks size
    → now / l.tick ≡ l.current / l.tick + 1
    → l'.slots ≡ set l.slots (slot_index size l.tick now) []
    → l'.tick ≡ l.tick
    → l'.current ≡ now
    → e.expire / l.tick ≢ l.current / l.tick + 1
    → Waits size e l
    → Waits size e l'
beat-Waits size now e l l' pos masks next slots tick current other h =
    let n = l.current / l.tick in
    let number : l'.current / l'.tick ≡ n + 1 =
      ap (λ t. l'.current / t) tick ∙ ap (λ c. c / l.tick) current ∙ next in
    let expires : e.expire / l'.tick ≡ e.expire / l.tick = ap (λ t. e.expire / t) tick in
    let apart : slot_index size l.tick now ≢ (e.expire / l.tick) % size = λ same. other (
      same_slot size (e.expire / l.tick) n pos
        (sym same ∙ masks l.tick now ∙ ap (λ q. q % size) next) h.above h.within) in
    record {
      there =
          subst (λ ss. In e (bucket_of (get_elem? ss ((e.expire / l'.tick) % size)))) (sym slots)
            (subst
              (λ q.
                In e
                  (bucket_of (get_elem? (set l.slots (slot_index size l.tick now) []) (q % size))))
              (sym expires)
              (In-set (slot_index size l.tick now) ((e.expire / l.tick) % size) e l.slots apart
                h.there));
      above =
          omega (arith, number, expires, h.above, λ (same : e.expire / l.tick ≡ n + 1). other same);
      within = omega (arith, number, expires, h.within);
    }

added-Waits :
    (size : ℕ) (e x : Entry) (l : Level) → Waits size e l → Waits size e (add_to_slot size x l)
unfolding add_to_slot
added-Waits size e x l h = record {
  there =
      In-append_at (slot_index size l.tick x.expire) ((e.expire / l.tick) % size) e x l.slots
        h.there;
  above = h.above;
  within = h.within;
}

In-append_self : (e : Entry) (b : Bucket) → In e (b ++ e ∷ [])
In-append_self e [] = inl refl
In-append_self e (x ∷ b) = inr (In-append_self e b)

In-append_at_self :
    (i : ℕ) (e : Entry) (slots : List Bucket)
    → i < length slots
    → In e (bucket_of (get_elem? (append_at i e slots) i))
unfolding append_at
In-append_at_self i e [] lt = absurd (omega (arith, lt))
In-append_at_self zero e (b ∷ slots) lt = In-append_self e b
In-append_at_self (suc i) e (b ∷ slots) lt = In-append_at_self i e slots (omega (arith, lt))

stored-Waits :
    (size : ℕ) (e : Entry) (l : Level)
    → Masks size
    → IsSteady size l
    → 0 < size
    → l.current / l.tick < e.expire / l.tick
    → e.expire / l.tick ≤ l.current / l.tick + size
    → Waits size e (add_to_slot size e l)
unfolding add_to_slot
stored-Waits size e l masks h pos above within = record {
  there =
      subst
        (λ j.
          In e (bucket_of (get_elem? (append_at (slot_index size l.tick e.expire) e l.slots) j)))
        (masks l.tick e.expire)
        (In-append_at_self (slot_index size l.tick e.expire) e l.slots
          (grind (arith, masks l.tick e.expire, h.sized, mod-lt (e.expire / l.tick) pos)));
  above = above;
  within = within;
}

Steady-runs :
    (size : ℕ) (e : Entry) (cs : List (ℕ × Call)) (l : Level) (ran : List Run)
    → 0 < size
    → Masks size
    → IsSteady size l
    → Steady size l.tick l.current cs
    → Waits size e l
    → e.expire / l.tick ≤ l.current / l.tick + count_beats cs
    → EndsIn (IsPunctual l.tick e) size l ran cs
unfolding call add_to_slot
Steady-runs size e [] l ran pos masks h steady waits soon =
    absurd (omega (arith, waits.above, soon))
Steady-runs size e ((now, advances) ∷ cs) l ran pos masks h (next, late, steady) waits soon =
    let (l', went, slots, tick, current) = beat_lem size now l ran pos masks h next late in
    let ran' = run_all now (bucket_at (slot_index size l.tick now) l) ran in
    let h' = beat-IsSteady size now l l' pos masks next slots tick current h in
    let steady' =
      subst (λ t. Steady size t l'.current cs) (sym tick)
        (subst (λ c. Steady size l.tick c cs) (sym current) steady) in
    elim (Bool-cases (e.expire / l.tick == l.current / l.tick + 1)) [
      | inl due ↦
          let same : now / l.tick ≡ e.expire / l.tick = next ∙ sym ((==_iff _ _).0 due) in
          let (w, result, done) =
            Steady-kept size now e cs l' ran' pos masks h' steady'
              (beat-runs size now e l ran masks same waits) in
          then_run (IsPunctual l.tick e) size now advances cs l l' ran ran' went (
            w,
            result,
            (
              now,
              done,
              same_tick now e.expire l.tick h.ticks same,
              same_tick e.expire now l.tick h.ticks (sym same),
            ),
          )
      | inr not_yet ↦ then_run (IsPunctual l.tick e) size now advances cs l l' ran ran' went (
          subst (λ t. EndsIn (IsPunctual t e) size l' ran' cs) tick
            (Steady-runs size e cs l' ran' pos masks h' steady'
              (beat-Waits size now e l l' pos masks next slots tick current
                (λ same. absurd (ground (arith, not_yet, same))) waits)
              (omega (
                arith,
                soon,
                next,
                ap (λ t. e.expire / t) tick,
                ap (λ t. l'.current / t) tick,
                ap (λ c. c / l.tick) current,
              ))))
    ]
Steady-runs size e ((now, afters delay task) ∷ cs) l ran pos masks h (le, room, steady) waits soon =
    let x : Entry = record { expire = now + delay; task = task } in
    elim (after_cases size now delay task l ran h.ticks le room) [
      | at_once near went ↦
          then_run (IsPunctual l.tick e) size now (afters delay task) cs l l ran
            (record { entry = x; at = now } ∷ ran) went
            (Steady-runs size e cs l (record { entry = x; at = now } ∷ ran) pos masks h steady waits
              soon)
      | stored above within went ↦
          then_run (IsPunctual l.tick e) size now (afters delay task) cs l (add_to_slot size x l)
            ran ran went
            (Steady-runs size e cs (add_to_slot size x l) ran pos masks
              (stored-IsSteady size x l pos masks above within h) steady
              (added-Waits size e x l waits) soon)
    ]

-- On a wheel with one level, under a ticker that beats once in each tick and at least a tick after the beat
-- before, where this call of After and each other one ends before the wheel comes round from its last beat:
-- the task is called, once enough beats have passed, within a tick of its expiry, less than a tick before
-- it and less than a tick after it.
pub after-IsPunctual :
    (size now delay task : ℕ) (cs : List (ℕ × Call)) (l : Level) (ran : List Run)
    → 0 < size
    → Masks size
    → IsSteady size l
    → Steady size l.tick l.current ((now, afters delay task) ∷ cs)
    → (now + delay) / l.tick ≤ l.current / l.tick + count_beats cs
    → (w : Wheel) × (run ((now, afters delay task) ∷ cs) (single size l ran) ≡ some w)
      × IsPunctual l.tick (record { expire = now + delay; task = task }) w
unfolding call add_to_slot
after-IsPunctual size now delay task cs l ran pos masks h (le, room, steady) soon =
    let e : Entry = record { expire = now + delay; task = task } in
    elim (after_cases size now delay task l ran h.ticks le room) [
      | at_once near went ↦
          let ran' = record { entry = e; at = now } ∷ ran in
          let (w, result, done) = Steady-kept size now e cs l ran' pos masks h steady (inl refl) in
          then_run (IsPunctual l.tick e) size now (afters delay task) cs l l ran ran' went
            (w, result, (now, done, omega (arith, h.ticks), near))
      | stored above within went ↦
          then_run (IsPunctual l.tick e) size now (afters delay task) cs l (add_to_slot size e l)
            ran ran went
            (Steady-runs size e cs (add_to_slot size e l) ran pos masks
              (stored-IsSteady size e l pos masks above within h) steady
              (stored-Waits size e l masks h pos above within) soon)
    ]
