-- ===== src/Timewheel/Total.antt =====
-- After and advance of internal/timewheel/wheel.go end.
use yim.Base.{
  ℕ, zero, suc, ◌+◌, ◌*◌, ◌≡◌, ◌≢◌, ◌<◌, refl, sym, subst, ap, ◌∙◌, inl, inr, Bool, true, false,
  Option, none, some, List, [], ◌∷◌, leb, ◌==◌, if◌then◌else◌, arith, All, Bool-cases,
}
use yim.Timewheel.{
  Entry, Bucket, Level, Wheel, insert_levels, insert, inserted, run_entry, after, count_fired,
  at_level, drain_one, drain,
}
use yim.Timewheel.Conserved.{one, copies, Kept, count-count_fired}
use yim.Timewheel.Insertion.{Good, Leaves, Ends}
use yim.Timewheel.Outline.{
  outline, Room, IsWell, IsTimely, Steps, insert_levels-Good, insert_levels-outline, cons-ne-nil,
  still_rooted, timely_rooted, insert_levels-Ends, insert_levels-rooted,
}

run_entry-IsWell :
    (tick now at : ℕ) (e : Entry) (w : Wheel)
    → IsWell tick now w
    → IsWell tick now (run_entry e at w)
run_entry-IsWell tick now at e w h = record {
  two = h.two;
  ticks = h.ticks;
  rooted = h.rooted;
  good = h.good;
  masks = h.masks;
}

insert_levels-Kept :
    (k tick now : ℕ) (e : Entry) (w : Wheel)
    → IsWell tick now w
    → Leaves (Kept k e w.levels) (insert_levels w.size e w.levels)
insert_levels-Kept k tick now e w h =
    still_rooted k tick now e w.size w.levels h.masks (omega (arith, h.two)) h.good

insert_levels-timely :
    (tick now : ℕ) (e : Entry) (w : Wheel)
    → IsWell tick now w
    → Leaves (λ _ runs. runs ≡ true → e.expire < now + tick) (insert_levels w.size e w.levels)
insert_levels-timely tick now e w h = timely_rooted tick now e w.size w.levels h.ticks h.good

-- What an insertion has done, where it ends.
abbrev Inserts : ℕ → ℕ → Entry → Wheel → Option (List Level × Bool) → Wheel → Type 0
Inserts tick now e w r w' =
    IsWell tick now w'
    × (w'.size ≡ w.size)
    × Leaves (λ ls _. w'.levels ≡ ls) r
    × ((k : ℕ) → copies k w' ≡ copies k w + one k e)
    × (All (IsTimely tick) w.ran → All (IsTimely tick) w'.ran)

placed :
    (tick now : ℕ) (e : Entry) (w : Wheel) (r : Option (List Level × Bool))
    → IsWell tick now w
    → Ends r
    → Leaves (λ ls _. Good w.size tick now ls) r
    → Leaves (λ ls _. ls ≢ []) r
    → ((k : ℕ) → Leaves (Kept k e w.levels) r)
    → Leaves (λ _ runs. runs ≡ true → e.expire < now + tick) r
    → (w' : Wheel) × (inserted e now w r ≡ some w') × Inserts tick now e w r w'
placed tick now e w none h ends good rooted kept timely = absurd ends
placed tick now e w (some (ls, true)) h ends good rooted kept timely = (
  run_entry e now (record w { levels = ls }),
  refl,
  (
    record { two = h.two; ticks = h.ticks; rooted = rooted; good = good; masks = h.masks },
    refl,
    refl,
    (λ k. omega (arith, kept k)),
    λ before. (timely refl, before),
  ),
)
placed tick now e w (some (ls, false)) h ends good rooted kept timely = (
  record w { levels = ls },
  refl,
  (
    record { two = h.two; ticks = h.ticks; rooted = rooted; good = good; masks = h.masks },
    refl,
    refl,
    (λ k. omega (arith, kept k)),
    λ before. before,
  ),
)

insert-IsWell :
    (tick now : ℕ) (e : Entry) (w : Wheel)
    → IsWell tick now w
    → (w' : Wheel) × (insert e now w ≡ some w')
      × Inserts tick now e w (insert_levels w.size e w.levels) w'
unfolding insert
insert-IsWell tick now e w h =
    placed tick now e w (insert_levels w.size e w.levels) h (insert_levels-Ends tick now e w h)
      (insert_levels-Good tick now e w.size w.levels h.good)
      (insert_levels-rooted e w.size w.levels) (λ k. insert_levels-Kept k tick now e w h)
      (insert_levels-timely tick now e w h)

-- A call of After has stored its task or run it, and returns.
pub after-done :
    (tick delay task now : ℕ) (w : Wheel)
    → IsWell tick now w
    → (w' : Wheel) × (after delay task now w ≡ some w')
      × IsWell tick now w'
      × ((k : ℕ) → copies k w' ≡ copies k w + (if task == k then 1 else 0))
      × (All (IsTimely tick) w.ran → All (IsTimely tick) w'.ran)
unfolding after
after-done tick delay task now w h =
    let e : Entry = record { expire = now + delay; task = task } in
    elim (Bool-cases (delay == 0)) [
      | inl at_once ↦ (
        run_entry e now w,
        rw at_once refl,
        run_entry-IsWell tick now now e w h,
        (λ k. omega arith),
        λ before. (ground (arith, at_once, h.ticks), before),
      )
      | inr later ↦
          let (w', result, (well, size, levels, kept, timely)) = insert-IsWell tick now e w h in
          (w', rw later result, well, kept, timely)
    ]

outlined_by :
    (o : List (ℕ × ℕ)) (levels : List Level) (r : Option (List Level × Bool))
    → Ends r
    → Leaves (λ ls _. levels ≡ ls) r
    → Leaves (λ ls _. outline ls ≡ o) r
    → outline levels ≡ o
outlined_by o levels none ends e h = absurd ends
outlined_by o levels (some (ls, runs)) ends e h = ap outline e ∙ h

-- An insertion for which there is room.
insert-Steps :
    (tick now : ℕ) (e : Entry) (w : Wheel) (o : List (ℕ × ℕ))
    → IsWell tick now w
    → outline w.levels ≡ o
    → Room w.size e o
    → Steps tick now w (e ∷ []) o (insert e now w)
insert-Steps tick now e w o h outlined room =
    let (w', result, (well, size, levels, kept, timely)) = insert-IsWell tick now e w h in
    record {
      next = w';
      result = result;
      well = well;
      size = size;
      outlined =
          outlined_by o w'.levels (insert_levels w.size e w.levels)
            (insert_levels-Ends tick now e w h) levels
            (subst (λ p. Leaves (λ ls _. outline ls ≡ p) (insert_levels w.size e w.levels)) outlined
              (insert_levels-outline e w.size w.levels (subst (Room w.size e) (sym outlined) room)
                (omega (arith, h.two))));
      kept = λ k. omega (arith, kept k);
      timely = timely;
    }

outline-count_fired :
    (n : ℕ) (levels : List Level) → outline (at_level count_fired n levels) ≡ outline levels
unfolding at_level
outline-count_fired n [] = refl
outline-count_fired zero (l ∷ ls) = refl
outline-count_fired (suc n) (l ∷ ls) = ap (λ o. (l.tick, l.current) ∷ o) (outline-count_fired n ls)

count_fired-Good :
    (n size tick bound : ℕ) (levels : List Level)
    → Good size tick bound levels
    → Good size tick bound (at_level count_fired n levels)
unfolding at_level
count_fired-Good n size tick bound [] h = tt
count_fired-Good zero size tick bound (l ∷ ls) h =
    (record { sized = h.0.sized; fits = h.0.fits }, h.1, h.2, h.3)
count_fired-Good (suc n) size tick bound (l ∷ ls) h =
    (h.0, h.1, h.2, count_fired-Good n size (tick * size) l.current ls h.3)

pub at_level-rooted :
    (f : Level → Level) (n : ℕ) (levels : List Level) → levels ≢ [] → at_level f n levels ≢ []
unfolding at_level
at_level-rooted f n [] h = h
at_level-rooted f zero (l ∷ ls) h = cons-ne-nil _ _
at_level-rooted f (suc n) (l ∷ ls) h = cons-ne-nil _ _

drain_one-Steps :
    (tick now n : ℕ) (e : Entry) (w : Wheel) (o : List (ℕ × ℕ))
    → IsWell tick now w
    → outline w.levels ≡ o
    → Room w.size e o
    → Steps tick now w (e ∷ []) o (drain_one now n e w)
unfolding drain_one
drain_one-Steps tick now n e w o h outlined room = elim (Bool-cases (leb e.expire now)) [
  | inl due ↦ rw due (record {
    next = run_entry e now (record w { levels = at_level count_fired n w.levels });
    result = refl;
    well = record {
      two = h.two;
      ticks = h.ticks;
      rooted = at_level-rooted count_fired n w.levels h.rooted;
      good = count_fired-Good n w.size tick now w.levels h.good;
      masks = h.masks;
    };
    size = refl;
    outlined = outline-count_fired n w.levels ∙ outlined;
    kept = λ k. omega (arith, count-count_fired k n w.levels);
    timely = λ before. (ground (arith, due, h.ticks), before);
  })
  | inr later ↦ rw later (insert-Steps tick now e w o h outlined room)
]

pub drain-Steps :
    (tick now n : ℕ) (es : Bucket) (w : Wheel) (o : List (ℕ × ℕ))
    → IsWell tick now w
    → outline w.levels ≡ o
    → All (λ e. Room w.size e o) es
    → Steps tick now w es o (drain now n es w)
unfolding drain
drain-Steps tick now n [] w o h outlined room = record {
  next = w;
  result = refl;
  well = h;
  size = refl;
  outlined = outlined;
  kept = λ k. omega arith;
  timely = λ before. before;
}
drain-Steps tick now n (e ∷ es) w o h outlined room =
    let first = drain_one-Steps tick now n e w o h outlined room.0 in
    let more =
      drain-Steps tick now n es first.next o first.well first.outlined
        (subst (λ size. All (λ x. Room size x o) es) (sym first.size) room.1) in
    record {
      next = more.next;
      result = rw (first.result, drain) more.result;
      well = more.well;
      size = more.size ∙ first.size;
      outlined = more.outlined;
      kept = λ k. omega (arith, more.kept k, first.kept k);
      timely = λ before. more.timely (first.timely before);
    }
