-- ===== src/Timewheel/Conserved.antt =====
-- The tasks that a wheel of internal/timewheel/wheel.go holds, and those that an insertion runs.
use yim.Base.{
  ℕ, zero, suc, ◌+◌, ◌-◌, ◌*◌, ◌≡◌, ◌≤◌, ◌<◌, refl, ap, Bool, true, false, leb, Bool-cases, inl,
  inr, Option, none, some, List, [], ◌∷◌, ◌++◌, ◌==◌, if◌then◌else◌, arith, get_elem?, set,
  replicate, length,
}
use yim.Timewheel.{
  Entry, Bucket, Level, Wheel, Run, new_level, slot_index, append_at, add_to_slot, under,
  insert_from, bucket_of, at_level, count_fired, swept,
}
use yim.Timewheel.Slots.{Masks}
use yim.Timewheel.Insertion.{IsLevel, Good, Leaves, insert_cases, new_level-Good, some_inj}

abbrev pub one : ℕ → Entry → ℕ
one k e = if e.task == k then 1 else 0

abbrev pub count_bucket : ℕ → Bucket → ℕ
count_bucket k [] = 0
count_bucket k (e ∷ b) = one k e + count_bucket k b

abbrev pub count_slots : ℕ → List Bucket → ℕ
count_slots k [] = 0
count_slots k (b ∷ slots) = count_bucket k b + count_slots k slots

abbrev pub count_levels : ℕ → List Level → ℕ
count_levels k [] = 0
count_levels k (l ∷ ls) = count_slots k l.slots + count_levels k ls

abbrev pub count_runs : ℕ → List Run → ℕ
count_runs k [] = 0
count_runs k (r ∷ rs) = one k r.entry + count_runs k rs

-- How often the task is stored or has been run.
abbrev pub copies : ℕ → Wheel → ℕ
copies k w = count_levels k w.levels + count_runs k w.ran

count-append_one :
    (k : ℕ) (e : Entry) (b : Bucket) → count_bucket k (b ++ e ∷ []) ≡ count_bucket k b + one k e
count-append_one k e [] = omega arith
count-append_one k e (x ∷ b) = omega (arith, count-append_one k e b)

count-append_at :
    (k i : ℕ) (e : Entry) (slots : List Bucket)
    → i < length slots
    → count_slots k (append_at i e slots) ≡ count_slots k slots + one k e
unfolding append_at
count-append_at k i e [] lt = absurd (omega (arith, lt))
count-append_at k zero e (b ∷ slots) lt = omega (arith, count-append_one k e b)
count-append_at k (suc i) e (b ∷ slots) lt =
    omega (arith, count-append_at k i e slots (omega (arith, lt)))

pub count-replicate : (k n : ℕ) → count_slots k (replicate n []) ≡ 0
count-replicate k zero = refl
count-replicate k (suc n) = omega (arith, count-replicate k n)

pub count-set :
    (k i : ℕ) (slots : List Bucket)
    → count_slots k (set slots i []) + count_bucket k (bucket_of (get_elem? slots i))
      ≡ count_slots k slots
count-set k i [] = refl
count-set k zero (b ∷ slots) = omega arith
count-set k (suc i) (b ∷ slots) = omega (arith, count-set k i slots)

pub count-swept :
    (k now i n : ℕ) (l : Level) (levels : List Level)
    → get_elem? levels n ≡ some l
    → count_levels k (at_level (swept now i) n levels)
        + count_bucket k (bucket_of (get_elem? l.slots i))
      ≡ count_levels k levels
unfolding at_level swept
count-swept k now i n l [] found = absurd (ground arith)
count-swept k now i zero l (m ∷ ls) found = omega (
  arith,
  count-set k i m.slots,
  ap (λ (x : Level). count_bucket k (bucket_of (get_elem? x.slots i))) (some_inj m l found),
)
count-swept k now i (suc n) l (m ∷ ls) found = omega (arith, count-swept k now i n l ls found)

pub count-count_fired :
    (k n : ℕ) (levels : List Level)
    → count_levels k (at_level count_fired n levels) ≡ count_levels k levels
unfolding at_level
count-count_fired k n [] = refl
count-count_fired k zero (l ∷ ls) = refl
count-count_fired k (suc n) (l ∷ ls) = omega (arith, count-count_fired k n ls)

-- The entry is in the levels after an insertion, unless it is to run.
abbrev pub Kept : ℕ → Entry → List Level → List Level → Bool → Type 0
Kept k e before ls runs =
    count_levels k ls + (if runs then one k e else 0) ≡ count_levels k before + one k e

slot_index-lt : (size tick t : ℕ) → Masks size → 0 < size → slot_index size tick t < size
slot_index-lt size tick t masks pos = grind (arith, masks tick t)

count-add_to_slot :
    (k size : ℕ) (e : Entry) (l : Level) (rest : List Level)
    → Masks size
    → 0 < size
    → IsLevel size l
    → Kept k e (l ∷ rest) (add_to_slot size e l ∷ rest) false
unfolding add_to_slot
count-add_to_slot k size e l rest masks pos h = omega (
  arith,
  count-append_at k (slot_index size l.tick e.expire) e l.slots
      (omega (arith, h.sized, slot_index-lt size l.tick e.expire masks pos)),
)

under-Kept :
    (k : ℕ) (e : Entry) (l : Level) (before : List Level) (r : Option (List Level × Bool))
    → Leaves (Kept k e before) r
    → Leaves (Kept k e (l ∷ before)) (under l r)
under-Kept k e l before none h = tt
under-Kept k e l before (some (ls, runs)) h = omega (arith, h)

-- A level that has just been made is empty.
under-Kept_new :
    (k : ℕ) (e : Entry) (l n : Level) (r : Option (List Level × Bool))
    → count_slots k n.slots ≡ 0
    → Leaves (Kept k e (n ∷ [])) r
    → Leaves (Kept k e (l ∷ [])) (under l r)
under-Kept_new k e l n none empty h = tt
under-Kept_new k e l n (some (ls, runs)) empty h = omega (arith, h, empty)

pub insert_from-Kept :
    (k fuel size : ℕ) (e : Entry) (tick bound : ℕ) (l : Level) (rest : List Level)
    → Masks size
    → 0 < size
    → Good size tick bound (l ∷ rest)
    → Leaves (Kept k e (l ∷ rest)) (insert_from fuel size e l rest)
unfolding insert_from
insert_from-Kept k zero size e tick bound l rest masks pos h = tt
insert_from-Kept k (suc fuel) size e tick bound l [] masks pos h =
    insert_cases (Leaves (Kept k e (l ∷ []))) fuel size e l [] (λ now. refl)
      (λ later room. count-add_to_slot k size e l [] masks pos h.0)
      (λ later full.
        under-Kept_new k e l (new_level size l) (insert_from fuel size e (new_level size l) [])
          (count-replicate k size)
          (insert_from-Kept k fuel size e (tick * size) l.current (new_level size l) [] masks pos
            (new_level-Good size tick l h.1)))
insert_from-Kept k (suc fuel) size e tick bound l (r ∷ rs) masks pos h =
    insert_cases (Leaves (Kept k e (l ∷ r ∷ rs))) fuel size e l (r ∷ rs) (λ now. refl)
      (λ later room. count-add_to_slot k size e l (r ∷ rs) masks pos h.0)
      (λ later full.
        under-Kept k e l (r ∷ rs) (insert_from fuel size e r rs)
          (insert_from-Kept k fuel size e (tick * size) l.current r rs masks pos h.3))

-- Past the test for less than a tick, no level above runs the task at once.
under-stored :
    (l : Level) (r : Option (List Level × Bool))
    → Leaves (λ _ runs. runs ≡ false) r
    → Leaves (λ _ runs. runs ≡ false) (under l r)
under-stored l none h = tt
under-stored l (some (ls, runs)) h = h

stored_above :
    (fuel size : ℕ) (e : Entry) (tick bound : ℕ) (l : Level) (rest : List Level)
    → Good size tick bound (l ∷ rest)
    → tick ≤ e.expire - bound
    → Leaves (λ _ runs. runs ≡ false) (insert_from fuel size e l rest)
unfolding insert_from
stored_above zero size e tick bound l rest h later0 = tt
stored_above (suc fuel) size e tick bound l [] h later0 =
    insert_cases (Leaves (λ _ runs. runs ≡ false)) fuel size e l []
      (λ now. absurd (omega (arith, now, later0, h.1, h.2))) (λ later room. refl)
      (λ later full. under-stored l (insert_from fuel size e (new_level size l) []) (
        stored_above fuel size e (tick * size) l.current (new_level size l) []
          (new_level-Good size tick l h.1) (grind (arith, full, h.1))))
stored_above (suc fuel) size e tick bound l (r ∷ rs) h later0 =
    insert_cases (Leaves (λ _ runs. runs ≡ false)) fuel size e l (r ∷ rs)
      (λ now. absurd (omega (arith, now, later0, h.1, h.2))) (λ later room. refl)
      (λ later full.
        under-stored l (insert_from fuel size e r rs)
          (stored_above fuel size e (tick * size) l.current r rs h.3 (grind (arith, full, h.1))))

weaken :
    (r : Option (List Level × Bool)) (P : Type 0)
    → Leaves (λ _ runs. runs ≡ false) r
    → Leaves (λ _ runs. runs ≡ true → P) r
weaken none P h = tt
weaken (some (ls, runs)) P h = λ e. absurd (ground (arith, h, e))

always : (r : Option (List Level × Bool)) (P : Type 0) → P → Leaves (λ _ runs. runs ≡ true → P) r
always none P p = tt
always (some (ls, runs)) P p = λ e. p

-- A task that an insertion runs at once expires less than a tick of the root after the wheel's time.
pub insert_from-timely :
    (fuel size : ℕ) (e : Entry) (tick bound : ℕ) (l : Level) (rest : List Level)
    → Good size tick bound (l ∷ rest)
    → 0 < tick
    → Leaves (λ _ runs. runs ≡ true → e.expire < bound + tick) (insert_from fuel size e l rest)
insert_from-timely fuel size e tick bound l rest h ticks =
    elim (Bool-cases (leb tick (e.expire - bound))) [
      | inl later ↦
          weaken (insert_from fuel size e l rest) (e.expire < bound + tick)
            (stored_above fuel size e tick bound l rest h (ground (arith, later)))
      | inr near ↦
          always (insert_from fuel size e l rest) (e.expire < bound + tick)
            (ground (arith, near, ticks))
    ]
