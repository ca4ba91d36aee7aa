-- ===== src/Timewheel/Sweep.antt =====
-- Beats of the ticker one in each tick, over a wheel with one level (internal/timewheel/wheel.go).
use native.Mathlib.Nat.{mod-lt, div-add-mod'}
use yim.Base.{
  ℕ, zero, suc, ◌+◌, ◌-◌, ◌*◌, ◌/◌, ◌%◌, ◌≡◌, ◌≢◌, ◌≤◌, ◌<◌, inl, inr, refl, sym, subst, ap, ◌∙◌,
  true, false, some, List, [], ◌∷◌, ltb, leb, ◌==◌, arith, get_elem?, set, length, All, All-append,
  Bool-cases,
}
use yim.Timewheel.{
  Entry, Bucket, Level, Wheel, Run, slot_index, append_at, insert_from, insert_levels, insert,
  inserted, count_fired, at_level, drain_one, drain, bucket_of, bucket_at, swept, advance_at,
  advance,
}
use yim.Timewheel.Slots.{Masks}

abbrev pub single : ℕ → Level → List Run → Wheel
single size l ran = record { size = size; levels = l ∷ []; ran = ran }

abbrev pub run_all : ℕ → Bucket → List Run → List Run
run_all now [] ran = ran
run_all now (e ∷ es) ran = run_all now es (record { entry = e; at = now } ∷ ran)

pub same_tick : (a b t : ℕ) → 0 < t → a / t ≡ b / t → a < b + t
same_tick a b t pos same =
    omega (arith, div-add-mod' a t, div-add-mod' b t, ap (λ q. q * t) same, mod-lt a pos)

pub lt→ltb : (a b : ℕ) → a < b → ltb a b ≡ true
lt→ltb a b lt = ground (arith, lt)

insert_from_near :
    (fuel size : ℕ) (e : Entry) (l : Level) (rest : List Level)
    → 0 < fuel
    → e.expire - l.current < l.tick
    → insert_from fuel size e l rest ≡ some (l ∷ rest, true)
unfolding insert_from
insert_from_near zero size e l rest pos near = absurd (omega (arith, pos))
insert_from_near (suc fuel) size e l rest pos near =
    rw (lt→ltb (e.expire - l.current) l.tick near) refl

-- A remaining time of less than a tick runs the task.
pub insert_near :
    (size now : ℕ) (e : Entry) (l : Level) (ran : List Run)
    → e.expire - l.current < l.tick
    → insert e now (single size l ran) ≡ some (single size l (record { entry = e; at = now } ∷ ran))
unfolding insert insert_levels
insert_near size now e l ran near =
    ap (inserted e now (single size l ran))
      (insert_from_near (e.expire + 0 + 2) size e l [] (omega arith) near)

near_now :
    (now : ℕ) (e : Entry) (l : Level)
    → l.current ≡ now
    → 0 < l.tick
    → e.expire / l.tick ≡ now / l.tick
    → e.expire - l.current < l.tick
near_now now e l at ticks same = omega (arith, same_tick e.expire now l.tick ticks same, at, ticks)

drain_due :
    (size now : ℕ) (es : Bucket) (l : Level) (ran : List Run)
    → l.current ≡ now
    → 0 < l.tick
    → All (λ e. e.expire / l.tick ≡ now / l.tick) es
    → (l' : Level) × (drain now 0 es (single size l ran)
        ≡ some (single size l' (run_all now es ran)))
      × (l'.slots ≡ l.slots)
      × (l'.tick ≡ l.tick)
      × (l'.current ≡ l.current)
unfolding drain drain_one at_level
drain_due size now [] l ran at ticks due = (l, refl, refl, refl, refl)
drain_due size now (e ∷ es) l ran at ticks due = elim (Bool-cases (leb e.expire now)) [
  | inl expired ↦
      let (l', result, slots, tick, current) =
        drain_due size now es (count_fired l) (record { entry = e; at = now } ∷ ran) at ticks
          due.1 in
      (l', rw (expired, drain) result, slots, tick, current)
  | inr later ↦
      let (l', result, slots, tick, current) =
        drain_due size now es l (record { entry = e; at = now } ∷ ran) at ticks due.1 in
      (
        l',
        rw (later, drain)
            (rw (insert_near size now e l ran (near_now now e l at ticks due.0), drain) result),
        slots,
        tick,
        current,
      )
]

pub same_slot :
    (size a n : ℕ) → 0 < size → a % size ≡ (n + 1) % size → n < a → a ≤ n + size → a ≡ n + 1
same_slot size a n pos same above below =
    grind (arith, div-add-mod' a size, div-add-mod' (n + 1) size)

-- Where an entry may stand while the wheel is at tick n: in the slot of its tick, which is one of the next.
abbrev pub At : ℕ → ℕ → ℕ → ℕ → Entry → Type 0
At size tick n j e =
    ((e.expire / tick) % size ≡ j) × (n < e.expire / tick) × (e.expire / tick ≤ n + size)

-- Buckets from slot j on.
abbrev pub PlacedFrom : ℕ → ℕ → ℕ → ℕ → List Bucket → Type 0
PlacedFrom size tick n j [] = Unit {0}
PlacedFrom size tick n j (b ∷ slots) =
    All (At size tick n j) b × PlacedFrom size tick n (suc j) slots

module _ (size tick n : ℕ) (pos : 0 < size) where
  raise_bucket :
      (j : ℕ) (b : Bucket)
      → (n + 1) % size ≢ j
      → All (At size tick n j) b
      → All (At size tick (n + 1) j) b
  raise_bucket j [] other h = tt
  raise_bucket j (e ∷ b) other h = (
    (
      h.0.0,
      omega (
        arith,
        h.0.1,
        λ (same : e.expire / tick ≡ n + 1). other (ap (λ a. a % size) (sym same) ∙ h.0.0),
      ),
      omega (arith, h.0.2),
    ),
    raise_bucket j b other h.1,
  )

  raise_rest :
      (j : ℕ) (slots : List Bucket)
      → (n + 1) % size < j
      → PlacedFrom size tick n j slots
      → PlacedFrom size tick (n + 1) j slots
  raise_rest j [] below h = tt
  raise_rest j (b ∷ slots) below h = (
    raise_bucket j b (λ e. omega (arith, below, e)) h.0,
    raise_rest (suc j) slots (omega (arith, below)) h.1,
  )

  pub swept-Placed :
      (j i : ℕ) (slots : List Bucket)
      → (n + 1) % size ≡ j + i
      → PlacedFrom size tick n j slots
      → PlacedFrom size tick (n + 1) j (set slots i [])
  swept-Placed j i [] at h = tt
  swept-Placed j zero (b ∷ slots) at h = (tt, raise_rest (suc j) slots (omega (arith, at)) h.1)
  swept-Placed j (suc i) (b ∷ slots) at h = (
    raise_bucket j b (λ e. omega (arith, at, e)) h.0,
    swept-Placed (suc j) i slots (omega (arith, at)) h.1,
  )

  every_due :
      (j : ℕ) (b : Bucket)
      → (n + 1) % size ≡ j
      → All (At size tick n j) b
      → All (λ e. e.expire / tick ≡ n + 1) b
  every_due j [] at h = tt
  every_due j (e ∷ b) at h =
      (same_slot size (e.expire / tick) n pos (h.0.0 ∙ sym at) h.0.1 h.0.2, every_due j b at h.1)

  pub bucket-due :
      (j i : ℕ) (slots : List Bucket)
      → (n + 1) % size ≡ j + i
      → PlacedFrom size tick n j slots
      → All (λ e. e.expire / tick ≡ n + 1) (bucket_of (get_elem? slots i))
  bucket-due j i [] at h = tt
  bucket-due j zero (b ∷ slots) at h = every_due j b (omega (arith, at)) h.0
  bucket-due j (suc i) (b ∷ slots) at h = bucket-due (suc j) i slots (omega (arith, at)) h.1

  pub append_at-Placed :
      (j i : ℕ) (e : Entry) (slots : List Bucket)
      → At size tick n (j + i) e
      → PlacedFrom size tick n j slots
      → PlacedFrom size tick n j (append_at i e slots)
  unfolding append_at
  append_at-Placed j i e [] at h = tt
  append_at-Placed j zero e (b ∷ slots) at h =
      (All-append (At size tick n j) b (e ∷ []) h.0 ((omega (arith, at.0), at.1, at.2), tt), h.1)
  append_at-Placed j (suc i) e (b ∷ slots) at h =
      (h.0, append_at-Placed (suc j) i e slots (omega (arith, at.0), at.1, at.2) h.1)

-- A level at the time of its last beat.
pub record IsSteady (size : ℕ) (l : Level) : Type 0 where
  pub ticks : 0 < l.tick
  pub sized : length l.slots ≡ size
  pub placed : PlacedFrom size l.tick (l.current / l.tick) 0 l.slots

advance-single :
    (size now : ℕ) (l l' : Level) (ran ran' : List Run)
    → ltb (now - l.current) l.tick ≡ false
    → drain now 0
        (bucket_at (slot_index size l.tick now) l)
        (single size (swept now (slot_index size l.tick now) l) ran)
      ≡ some (single size l' ran')
    → advance now (single size l ran) ≡ some (single size l' ran')
unfolding advance advance_at at_level
advance-single size now l l' ran ran' in_time drained =
    elim (Bool-cases (slot_index size l.tick now == 0)) [
      | inl wraps ↦ rw in_time (rw drained (rw wraps refl))
      | inr stays ↦ rw in_time (rw drained (rw stays refl))
    ]

-- A beat in the next tick runs the bucket of this tick, and takes no other.
pub beat_lem :
    (size now : ℕ) (l : Level) (ran : List Run)
    → 0 < size
    → Masks size
    → IsSteady size l
    → now / l.tick ≡ l.current / l.tick + 1
    → l.tick ≤ now - l.current
    → (l' : Level) × (advance now (single size l ran)
        ≡ some (single size l' (run_all now (bucket_at (slot_index size l.tick now) l) ran)))
      × (l'.slots ≡ set l.slots (slot_index size l.tick now) [])
      × (l'.tick ≡ l.tick)
      × (l'.current ≡ now)
unfolding bucket_at swept
beat_lem size now l ran pos masks h next late =
    let i = slot_index size l.tick now in
    let at : (l.current / l.tick + 1) % size ≡ i =
      sym (masks l.tick now ∙ ap (λ q. q % size) next) in
    let due =
      bucket-due size l.tick (l.current / l.tick) pos 0 i l.slots (at ∙ omega arith) h.placed in
    let (l', result, slots, tick, current) =
      drain_due size now (bucket_of (get_elem? l.slots i)) (swept now i l) ran refl h.ticks (
        subst (λ q. All (λ e. e.expire / l.tick ≡ q) (bucket_of (get_elem? l.slots i))) (sym next)
          due) in
    (
      l',
      advance-single size now l l' ran (run_all now (bucket_of (get_elem? l.slots i)) ran)
          (ground (arith, late, h.ticks)) result,
      slots,
      tick,
      current,
    )
