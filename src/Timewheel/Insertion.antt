-- ===== src/Timewheel/Insertion.antt =====
-- insert of internal/timewheel/wheel.go: what holds of the levels of a wheel, and that it ends.
use yim.Base.{
  ℕ, zero, suc, ◌+◌, ◌-◌, ◌*◌, ◌≡◌, ◌≤◌, ◌<◌, refl, ap, ◌∙◌, inl, inr, Bool, true, false, Option,
  none, some, List, [], ◌∷◌, ltb, arith, replicate, length, All, All-append, Bool-cases,
}
use yim.Timewheel.{
  Entry, Bucket, Level, span, new_wheel, new_level, slot_index, append_at, add_to_slot, under,
  insert_from,
}

pub length-append_at :
    (i : ℕ) (e : Entry) (slots : List Bucket) → length (append_at i e slots) ≡ length slots
unfolding append_at
length-append_at i e [] = refl
length-append_at zero e (b ∷ slots) = refl
length-append_at (suc i) e (b ∷ slots) = ap suc (length-append_at i e slots)

pub All-append_at :
    (P : Entry → Type 0) (i : ℕ) (e : Entry) (slots : List Bucket)
    → P e
    → All (All P) slots
    → All (All P) (append_at i e slots)
unfolding append_at
All-append_at P i e [] p h = tt
All-append_at P zero e (b ∷ slots) p h = (All-append P b (e ∷ []) h.0 (p, tt), h.1)
All-append_at P (suc i) e (b ∷ slots) p h = (h.0, All-append_at P i e slots p h.1)

pub All-replicate : (P : Entry → Type 0) (n : ℕ) → All (All P) (replicate n [])
All-replicate P zero = tt
All-replicate P (suc n) = (tt, All-replicate P n)

pub length-replicate : (n : ℕ) → length (replicate {A = Bucket} n []) ≡ n
length-replicate zero = refl
length-replicate (suc n) = ap suc (length-replicate n)

-- An entry of a level expires before the level has gone round once.
abbrev pub Fits : ℕ → ℕ → ℕ → Entry → Type 0
Fits size tick current e = e.expire < current + tick * size

pub record IsLevel (size : ℕ) (l : Level) : Type 0 where
  pub sized : length l.slots ≡ size
  pub fits : All (All (Fits size l.tick l.current)) l.slots

-- Each level's tick is the span of the one below it, and its time is not ahead of that.
abbrev pub Good : ℕ → ℕ → ℕ → List Level → Type 0
Good size tick bound [] = Unit {0}
Good size tick bound (l ∷ ls) =
    IsLevel size l × (l.tick ≡ tick) × (l.current ≤ bound) × Good size (tick * size) l.current ls

pub Good-raise :
    (size tick bound bound' : ℕ) (ls : List Level)
    → bound ≤ bound'
    → Good size tick bound ls
    → Good size tick bound' ls
Good-raise size tick bound bound' [] le h = tt
Good-raise size tick bound bound' (l ∷ ls) le h = (h.0, h.1, omega (arith, h.2), h.3)

pub new_wheel-IsLevel : (size tick current : ℕ) → IsLevel size (new_wheel size tick current)
new_wheel-IsLevel size tick current = record {
  sized = length-replicate size;
  fits = All-replicate (Fits size tick current) size;
}

add_to_slot-IsLevel :
    (size : ℕ) (e : Entry) (l : Level)
    → Fits size l.tick l.current e
    → IsLevel size l
    → IsLevel size (add_to_slot size e l)
unfolding add_to_slot
add_to_slot-IsLevel size e l room h = record {
  sized = length-append_at (slot_index size l.tick e.expire) e l.slots ∙ h.sized;
  fits =
      All-append_at (Fits size l.tick l.current) (slot_index size l.tick e.expire) e l.slots room
        h.fits;
}

-- What an insertion leaves.
abbrev pub Leaves : (List Level → Bool → Type 0) → Option (List Level × Bool) → Type 0
Leaves P none = Unit {0}
Leaves P (some (ls, runs)) = P ls runs

under-Leaves :
    (P Q : List Level → Bool → Type 0) (l : Level) (r : Option (List Level × Bool))
    → ((ls : List Level) (runs : Bool) → P ls runs → Q (l ∷ ls) runs)
    → Leaves P r
    → Leaves Q (under l r)
under-Leaves P Q l none f h = tt
under-Leaves P Q l (some (ls, runs)) f h = f ls runs h

-- The three ways through a round of the loop.
pub insert_cases :
    (P : Option (List Level × Bool) → Type 0) (fuel size : ℕ) (e : Entry) (l : Level)
    (rest : List Level)
    → (e.expire - l.current < l.tick → P (some (l ∷ rest, true)))
    → (l.tick ≤ e.expire - l.current
        → e.expire - l.current < l.tick * size
        → P (some (add_to_slot size e l ∷ rest, false)))
    → (l.tick ≤ e.expire - l.current
        → l.tick * size ≤ e.expire - l.current
        → P (elim rest as (λ _. Option (List Level × Bool)) [
          | [] ↦ under l (insert_from fuel size e (new_level size l) [])
          | r ∷ rs ↦ under l (insert_from fuel size e r rs)
        ]))
    → P (insert_from (suc fuel) size e l rest)
unfolding insert_from
insert_cases P fuel size e l rest now here up =
    elim (Bool-cases (ltb (e.expire - l.current) l.tick)) [
      | inl due ↦ rw due (now (ground (arith, due)))
      | inr later ↦ elim (Bool-cases (ltb (e.expire - l.current) (l.tick * size))) [
        | inl room ↦ rw (later, room) (here (ground (arith, later)) (ground (arith, room)))
        | inr full ↦ rw (later, full) (up (ground (arith, later)) (ground (arith, full)))
      ]
    ]

pub new_level-Good :
    (size tick : ℕ) (l : Level)
    → l.tick ≡ tick
    → Good size (tick * size) l.current (new_level size l ∷ [])
new_level-Good size tick l e =
    (new_wheel-IsLevel size (span size l) l.current, ap (λ t. t * size) e, omega arith, tt)

pub some_inj : (k l : Level) → some k ≡ some l → k ≡ l
some_inj k l e = cc

pub insert_from-Good :
    (fuel size : ℕ) (e : Entry) (tick bound : ℕ) (l : Level) (rest : List Level)
    → Good size tick bound (l ∷ rest)
    → Leaves (λ ls _. Good size tick bound ls) (insert_from fuel size e l rest)
unfolding insert_from add_to_slot
insert_from-Good zero size e tick bound l rest h = tt
insert_from-Good (suc fuel) size e tick bound l [] h =
    insert_cases (Leaves (λ ls _. Good size tick bound ls)) fuel size e l [] (λ now. h)
      (λ later room. (add_to_slot-IsLevel size e l (omega (arith, room)) h.0, h.1, h.2, tt))
      (λ later full.
        under-Leaves (λ ls _. Good size (tick * size) l.current ls)
          (λ ls _. Good size tick bound ls) l (insert_from fuel size e (new_level size l) [])
          (λ ls runs g. (h.0, h.1, h.2, g))
          (insert_from-Good fuel size e (tick * size) l.current (new_level size l) []
            (new_level-Good size tick l h.1)))
insert_from-Good (suc fuel) size e tick bound l (r ∷ rs) h =
    insert_cases (Leaves (λ ls _. Good size tick bound ls)) fuel size e l (r ∷ rs) (λ now. h)
      (λ later room. (add_to_slot-IsLevel size e l (omega (arith, room)) h.0, h.1, h.2, h.3))
      (λ later full.
        under-Leaves (λ ls _. Good size (tick * size) l.current ls)
          (λ ls _. Good size tick bound ls) l (insert_from fuel size e r rs)
          (λ ls runs g. (h.0, h.1, h.2, g))
          (insert_from-Good fuel size e (tick * size) l.current r rs h.3))

-- There is a result.
abbrev pub Ends {ℓ} : {A : Type ℓ} → Option A → Type 0
Ends none = ⊥
Ends (some a) = Unit {0}

under-Ends : (l : Level) (r : Option (List Level × Bool)) → Ends r → Ends (under l r)
under-Ends l none h = elim h [ ]
under-Ends l (some (ls, runs)) h = tt

-- A level's tick is at least one more than that of the level below it, so that a round for each unit of
-- the time of expiry is enough.
pub insert_from-Ends :
    (fuel size : ℕ) (e : Entry) (tick bound : ℕ) (l : Level) (rest : List Level)
    → 2 ≤ size
    → 0 < tick
    → 0 < fuel
    → e.expire < tick + fuel
    → Good size tick bound (l ∷ rest)
    → Ends (insert_from fuel size e l rest)
unfolding insert_from
insert_from-Ends zero size e tick bound l rest two ticks more enough h =
    absurd (omega (arith, more))
insert_from-Ends (suc fuel) size e tick bound l [] two ticks more enough h =
    insert_cases Ends fuel size e l [] (λ now. tt) (λ later room. tt)
      (λ later full. under-Ends l (insert_from fuel size e (new_level size l) []) (
        insert_from-Ends fuel size e (tick * size) l.current (new_level size l) [] two (grind arith)
          (grind (arith, full, h.1)) (grind (arith, full, h.1)) (new_level-Good size tick l h.1)))
insert_from-Ends (suc fuel) size e tick bound l (r ∷ rs) two ticks more enough h =
    insert_cases Ends fuel size e l (r ∷ rs) (λ now. tt) (λ later room. tt)
      (λ later full. under-Ends l (insert_from fuel size e r rs) (
        insert_from-Ends fuel size e (tick * size) l.current r rs two (grind arith)
          (grind (arith, full, h.1)) (grind (arith, full, h.1)) h.3))
