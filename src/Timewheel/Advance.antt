-- ===== src/Timewheel/Advance.antt =====
-- advance of internal/timewheel/wheel.go ends.
use yim.Base.{
  ℕ, zero, suc, ◌+◌, ◌-◌, ◌*◌, ◌≡◌, ◌≤◌, ◌<◌, refl, sym, subst, ap, ◌∙◌, inl, inr, some, List, [],
  ◌∷◌, ltb, ◌==◌, arith, get_elem?, set, length, length-set, All, Bool-cases, Option-cases,
}
use yim.Timewheel.{
  Entry, Bucket, Level, Wheel, slot_index, at_level, drain, bucket_of, bucket_at, swept, advance_at,
  advance,
}
use yim.Timewheel.Conserved.{count_bucket, copies, count-swept}
use yim.Timewheel.Insertion.{Fits, IsLevel, Good, Good-raise, some_inj}
use yim.Timewheel.Total.{drain-Steps, at_level-rooted}
use yim.Timewheel.Outline.{outline, Room, IsTimely, IsWell, Steps}

-- The first n levels have been advanced.
abbrev Upto : ℕ → ℕ → List (ℕ × ℕ) → Type 0
Upto zero now o = Unit {0}
Upto (suc n) now [] = Unit {0}
Upto (suc n) now ((tick, current) ∷ o) = (current ≡ now) × Upto n now o

module _ (size now : ℕ) where
  raise_bucket :
      (tick current : ℕ) (b : Bucket)
      → current ≤ now
      → All (Fits size tick current) b
      → All (Fits size tick now) b
  raise_bucket tick current [] le h = tt
  raise_bucket tick current (e ∷ b) le h =
      (omega (arith, le, h.0), raise_bucket tick current b le h.1)

  raise-All :
      (tick current : ℕ) (slots : List Bucket)
      → current ≤ now
      → All (All (Fits size tick current)) slots
      → All (All (Fits size tick now)) slots
  raise-All tick current [] le h = tt
  raise-All tick current (b ∷ slots) le h =
      (raise_bucket tick current b le h.0, raise-All tick current slots le h.1)

  raise_slots :
      (tick current i : ℕ) (slots : List Bucket)
      → current ≤ now
      → All (All (Fits size tick current)) slots
      → All (All (Fits size tick now)) (set slots i [])
  raise_slots tick current i [] le h = tt
  raise_slots tick current zero (b ∷ slots) le h = (tt, raise-All tick current slots le h.1)
  raise_slots tick current (suc i) (b ∷ slots) le h =
      (raise_bucket tick current b le h.0, raise_slots tick current i slots le h.1)

  swept-Good :
      (n i tick bound : ℕ) (l : Level) (levels : List Level)
      → get_elem? levels n ≡ some l
      → l.current ≤ now
      → now ≤ bound
      → Upto n now (outline levels)
      → Good size tick bound levels
      → Good size tick bound (at_level (swept now i) n levels)
  unfolding at_level swept
  swept-Good n i tick bound l [] found le top upto h = tt
  swept-Good zero i tick bound l (k ∷ ls) found le top upto h =
      let before : k.current ≤ now = ground (arith, found, le) in
      (
        record {
          sized = length-set k.slots i [] ∙ h.0.sized;
          fits = raise_slots k.tick k.current i k.slots before h.0.fits;
        },
        h.1,
        top,
        Good-raise size (tick * size) k.current now ls before h.3,
      )
  swept-Good (suc n) i tick bound l (k ∷ ls) found le top upto h = (
    h.0,
    h.1,
    h.2,
    swept-Good n i (tick * size) k.current l ls found le (omega (arith, upto.0)) upto.1 h.3,
  )

  -- Room for what the swept bucket of level n held.
  Room-swept :
      (n i : ℕ) (l : Level) (levels : List Level) (e : Entry)
      → get_elem? levels n ≡ some l
      → 0 < l.tick
      → l.current ≤ now
      → Fits size l.tick l.current e
      → Room size e (outline (at_level (swept now i) n levels))
  unfolding at_level swept
  Room-swept n i l [] e found ticks le fits = absurd (ground arith)
  Room-swept zero i l (k ∷ ls) e found ticks le fits = inl (
    ground (arith, found, ticks),
    subst (λ (m : Level). Fits size m.tick now e) (sym (some_inj k l found))
        (omega (arith, le, fits)),
  )
  Room-swept (suc n) i l (k ∷ ls) e found ticks le fits =
      inr (Room-swept n i l ls e found ticks le fits)

  rooms_swept :
      (n i : ℕ) (l : Level) (levels : List Level) (es : Bucket)
      → get_elem? levels n ≡ some l
      → 0 < l.tick
      → l.current ≤ now
      → All (Fits size l.tick l.current) es
      → All (λ e. Room size e (outline (at_level (swept now i) n levels))) es
  rooms_swept n i l levels [] found ticks le fits = tt
  rooms_swept n i l levels (e ∷ es) found ticks le fits = (
    Room-swept n i l levels e found ticks le fits.0,
    rooms_swept n i l levels es found ticks le fits.1,
  )

  Upto-swept :
      (n i : ℕ) (levels : List Level)
      → Upto n now (outline levels)
      → Upto (suc n) now (outline (at_level (swept now i) n levels))
  unfolding at_level swept
  Upto-swept n i [] h = tt
  Upto-swept zero i (l ∷ ls) h = (refl, tt)
  Upto-swept (suc n) i (l ∷ ls) h = (h.0, Upto-swept n i ls h.1)

bucket-fits :
    (P : Entry → Type 0) (i : ℕ) (slots : List Bucket)
    → All (All P) slots
    → All P (bucket_of (get_elem? slots i))
bucket-fits P i [] h = tt
bucket-fits P zero (b ∷ slots) h = h.0
bucket-fits P (suc i) (b ∷ slots) h = bucket-fits P i slots h.1

level-Good :
    (size tick bound n : ℕ) (l : Level) (levels : List Level)
    → get_elem? levels n ≡ some l
    → 0 < tick
    → 0 < size
    → Good size tick bound levels
    → IsLevel size l × (0 < l.tick)
level-Good size tick bound n l [] found ticks pos h = absurd (ground arith)
level-Good size tick bound zero l (k ∷ ls) found ticks pos h =
    (subst (IsLevel size) (some_inj k l found) h.0, ground (arith, found, h.1, ticks))
level-Good size tick bound (suc n) l (k ∷ ls) found ticks pos h =
    level-Good size (tick * size) k.current n l ls found (grind arith) pos h.3

length-outline : (levels : List Level) → length (outline levels) ≡ length levels
length-outline [] = refl
length-outline (l ∷ ls) = ap suc (length-outline ls)

length-at_level :
    (f : Level → Level) (n : ℕ) (levels : List Level) → length (at_level f n levels) ≡ length levels
unfolding at_level
length-at_level f n [] = refl
length-at_level f zero (l ∷ ls) = refl
length-at_level f (suc n) (l ∷ ls) = ap suc (length-at_level f n ls)

get_elem?-lt :
    (n : ℕ) (l : Level) (levels : List Level) → get_elem? levels n ≡ some l → n < length levels
get_elem?-lt n l [] found = absurd (ground arith)
get_elem?-lt zero l (k ∷ ls) found = omega arith
get_elem?-lt (suc n) l (k ∷ ls) found = omega (arith, get_elem?-lt n l ls found)

pub raise-IsWell :
    (tick before now : ℕ) (w : Wheel) → before ≤ now → IsWell tick before w → IsWell tick now w
raise-IsWell tick before now w le h = record {
  two = h.two;
  ticks = h.ticks;
  rooted = h.rooted;
  good = Good-raise w.size tick before now w.levels le h.good;
  masks = h.masks;
}

-- The sweep of one level that is not early.
sweep-Steps :
    (tick now n : ℕ) (w : Wheel) (l : Level) (i : ℕ)
    → IsWell tick now w
    → get_elem? w.levels n ≡ some l
    → l.current ≤ now
    → Upto n now (outline w.levels)
    → Steps tick now
        (record w { levels = at_level (swept now i) n w.levels })
        (bucket_at i l)
        (outline (at_level (swept now i) n w.levels))
        (drain now n (bucket_at i l) (record w { levels = at_level (swept now i) n w.levels }))
unfolding bucket_at
sweep-Steps tick now n w l i h found le upto =
    let (level, ticks) =
      level-Good w.size tick now n l w.levels found h.ticks (omega (arith, h.two)) h.good in
    drain-Steps tick now n (bucket_of (get_elem? l.slots i))
      (record w { levels = at_level (swept now i) n w.levels })
      (outline (at_level (swept now i) n w.levels))
      (record {
        two = h.two;
        ticks = h.ticks;
        rooted = at_level-rooted (swept now i) n w.levels h.rooted;
        good = swept-Good w.size now n i tick now l w.levels found le (omega arith) upto h.good;
        masks = h.masks;
      })
      refl
      (rooms_swept w.size now n i l w.levels (bucket_of (get_elem? l.slots i)) found ticks le
        (bucket-fits (Fits w.size l.tick l.current) i l.slots level.fits))

kept_sweep :
    (k now i n : ℕ) (l : Level) (w : Wheel)
    → get_elem? w.levels n ≡ some l
    → copies k (record w { levels = at_level (swept now i) n w.levels })
        + count_bucket k (bucket_at i l)
      ≡ copies k w
unfolding bucket_at
kept_sweep k now i n l w found = omega (arith, count-swept k now i n l w.levels found)

advance_at-ends :
    (fuel tick now n : ℕ) (w : Wheel)
    → IsWell tick now w
    → n ≤ length w.levels
    → length w.levels < fuel + n
    → Upto n now (outline w.levels)
    → (w' : Wheel) × (advance_at fuel now n w ≡ some w')
      × IsWell tick now w'
      × ((k : ℕ) → copies k w' ≡ copies k w)
      × (All (IsTimely tick) w.ran → All (IsTimely tick) w'.ran)
      × (w'.size ≡ w.size)
unfolding advance_at
advance_at-ends zero tick now n w h within enough upto = absurd (omega (arith, within, enough))
advance_at-ends (suc fuel) tick now n w h within enough upto =
    elim (Option-cases (get_elem? w.levels n)) [
      | inl no_level ↦ (w, rw (no_level, advance_at) refl, h, (λ k. refl), (λ before. before), refl)
      | inr (l, found) ↦ elim (Bool-cases (ltb (now - l.current) l.tick)) [
        | inl early ↦
            (w, rw (found, advance_at) (rw early refl), h, (λ k. refl), (λ before. before), refl)
        | inr in_time ↦
            let i = slot_index w.size l.tick now in
            let (level, ticks) =
              level-Good w.size tick now n l w.levels found h.ticks (omega (arith, h.two)) h.good in
            let s = sweep-Steps tick now n w l i h found (ground (arith, in_time, ticks)) upto in
            let same : length s.next.levels ≡ length w.levels =
              sym (length-outline s.next.levels)
              ∙ ap length s.outlined
              ∙ length-outline (at_level (swept now i) n w.levels)
              ∙ length-at_level (swept now i) n w.levels in
            let once = λ (k : ℕ). s.kept k ∙ kept_sweep k now i n l w found in
            elim (Bool-cases (i == 0)) [
              | inl wraps ↦
                  let (w', result, well, kept, timely, size) =
                    advance_at-ends fuel tick now (suc n) s.next s.well
                      (omega (arith, same, get_elem?-lt n l w.levels found))
                      (omega (arith, same, enough))
                      (subst (Upto (suc n) now) (sym s.outlined)
                        (Upto-swept w.size now n i w.levels upto)) in
                  (
                    w',
                    rw (found, advance_at) (rw in_time (rw s.result (rw wraps result))),
                    well,
                    (λ k. omega (arith, kept k, once k)),
                    (λ before. timely (s.timely before)),
                    omega (arith, size, s.size),
                  )
              | inr stays ↦ (
                s.next,
                rw (found, advance_at) (rw in_time (rw s.result (rw stays refl))),
                s.well,
                once,
                s.timely,
                s.size,
              )
            ]
      ]
    ]

-- advance returns, and has stored or run what it took from the buckets.
pub advance-done :
    (tick before now : ℕ) (w : Wheel)
    → IsWell tick before w
    → before ≤ now
    → (w' : Wheel) × (advance now w ≡ some w')
      × IsWell tick now w'
      × ((k : ℕ) → copies k w' ≡ copies k w)
      × (All (IsTimely tick) w.ran → All (IsTimely tick) w'.ran)
      × (w'.size ≡ w.size)
unfolding advance
advance-done tick before now w h le =
    advance_at-ends (length w.levels + 1) tick now 0 w (raise-IsWell tick before now w le h)
      (omega arith) (omega arith) tt
