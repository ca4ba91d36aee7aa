-- ===== src/Timewheel/Skipped.antt =====
-- Beats of the ticker that pass over a slot of the root (internal/timewheel/wheel.go).
use yim.Base.{
  ℕ, zero, suc, ◌+◌, ◌-◌, ◌≡◌, ◌≢◌, ◌⊎◌, inl, inr, refl, sym, subst, ap, ◌∙◌, Bool, true, false,
  Option, none, some, List, [], ◌∷◌, ◌++◌, ltb, leb, ◌==◌, arith, get_elem?, set, length,
  Bool-cases, Option-cases,
}
use yim.Timewheel.{
  Entry, Bucket, Level, Wheel, new_level, slot_index, append_at, add_to_slot, under, insert_from,
  insert_levels, insert, inserted, count_fired, at_level, drain_one, drain, bucket_of, bucket_at,
  swept, advance_at, advance,
}
use yim.Timewheel.Insertion.{Good, Leaves, insert_cases}
use yim.Timewheel.Outline.{IsWell}
use yim.Timewheel.Advance.{advance-done}
use yim.Timewheel.Calls.{Call, advances, call, run, Ordered}

abbrev pub In : Entry → Bucket → Type 0
In e [] = ⊥
In e (x ∷ b) = (x ≡ e) ⊎ In e b

-- The entry is in bucket j of the root.
abbrev pub Stored : ℕ → Entry → List Level → Type 0
Stored j e [] = ⊥
Stored j e (root ∷ rest) = In e (bucket_of (get_elem? root.slots j))

In-append : (e x : Entry) (b : Bucket) → In e b → In e (b ++ x ∷ [])
In-append e x [] h = elim h [ ]
In-append e x (y ∷ b) (inl same) = inl same
In-append e x (y ∷ b) (inr more) = inr (In-append e x b more)

pub In-append_at :
    (i j : ℕ) (e x : Entry) (slots : List Bucket)
    → In e (bucket_of (get_elem? slots j))
    → In e (bucket_of (get_elem? (append_at i x slots) j))
unfolding append_at
In-append_at i j e x [] h = h
In-append_at zero zero e x (b ∷ slots) h = In-append e x b h
In-append_at zero (suc j) e x (b ∷ slots) h = h
In-append_at (suc i) zero e x (b ∷ slots) h = h
In-append_at (suc i) (suc j) e x (b ∷ slots) h = In-append_at i j e x slots h

pub In-set :
    (i j : ℕ) (e : Entry) (slots : List Bucket)
    → i ≢ j
    → In e (bucket_of (get_elem? slots j))
    → In e (bucket_of (get_elem? (set slots i []) j))
In-set i j e [] other h = h
In-set zero zero e (b ∷ slots) other h = absurd (other refl)
In-set zero (suc j) e (b ∷ slots) other h = h
In-set (suc i) zero e (b ∷ slots) other h = h
In-set (suc i) (suc j) e (b ∷ slots) other h = In-set i j e slots (λ same. other (ap suc same)) h

under-Stored :
    (j : ℕ) (e : Entry) (l : Level) (r : Option (List Level × Bool))
    → In e (bucket_of (get_elem? l.slots j))
    → Leaves (λ ls _. Stored j e ls) (under l r)
under-Stored j e l none h = tt
under-Stored j e l (some (ls, runs)) h = h

insert_from-Stored :
    (fuel size j : ℕ) (e x : Entry) (l : Level) (rest : List Level)
    → In e (bucket_of (get_elem? l.slots j))
    → Leaves (λ ls _. Stored j e ls) (insert_from fuel size x l rest)
unfolding insert_from add_to_slot
insert_from-Stored zero size j e x l rest h = tt
insert_from-Stored (suc fuel) size j e x l [] h =
    insert_cases (Leaves (λ ls _. Stored j e ls)) fuel size x l [] (λ now. h)
      (λ later room. In-append_at (slot_index size l.tick x.expire) j e x l.slots h)
      (λ later full. under-Stored j e l (insert_from fuel size x (new_level size l) []) h)
insert_from-Stored (suc fuel) size j e x l (r ∷ rs) h =
    insert_cases (Leaves (λ ls _. Stored j e ls)) fuel size x l (r ∷ rs) (λ now. h)
      (λ later room. In-append_at (slot_index size l.tick x.expire) j e x l.slots h)
      (λ later full. under-Stored j e l (insert_from fuel size x r rs) h)

insert_levels-Stored :
    (size j : ℕ) (e x : Entry) (levels : List Level)
    → Stored j e levels
    → Leaves (λ ls _. Stored j e ls) (insert_levels size x levels)
unfolding insert_levels
insert_levels-Stored size j e x [] h = tt
insert_levels-Stored size j e x (l ∷ rest) h =
    insert_from-Stored (x.expire + length rest + 2) size j e x l rest h

-- What holds of the wheel that a call leaves.
abbrev Then : (Wheel → Type 0) → Option Wheel → Type 0
Then P none = Unit {0}
Then P (some w) = P w

inserted-Stored :
    (j now : ℕ) (e x : Entry) (w : Wheel) (r : Option (List Level × Bool))
    → Leaves (λ ls _. Stored j e ls) r
    → Then (λ (v : Wheel). Stored j e v.levels) (inserted x now w r)
inserted-Stored j now e x w none h = tt
inserted-Stored j now e x w (some (ls, true)) h = h
inserted-Stored j now e x w (some (ls, false)) h = h

at_level-Stored :
    (f : Level → Level) (n j : ℕ) (e : Entry) (levels : List Level)
    → ((l : Level)
        → n ≡ 0
        → In e (bucket_of (get_elem? l.slots j))
        → In e (bucket_of (get_elem? (f l).slots j)))
    → Stored j e levels
    → Stored j e (at_level f n levels)
unfolding at_level
at_level-Stored f n j e [] keeps h = h
at_level-Stored f zero j e (l ∷ ls) keeps h = keeps l refl h
at_level-Stored f (suc n) j e (l ∷ ls) keeps h = h

drain_one-Stored :
    (now n j : ℕ) (e x : Entry) (w : Wheel)
    → Stored j e w.levels
    → Then (λ (v : Wheel). Stored j e v.levels) (drain_one now n x w)
unfolding drain_one insert
drain_one-Stored now n j e x w h = elim (Bool-cases (leb x.expire now)) [
  | inl due ↦ rw due (at_level-Stored count_fired n j e w.levels (λ l _ k. k) h)
  | inr later ↦ rw later (
      inserted-Stored j now e x w (insert_levels w.size x w.levels)
        (insert_levels-Stored w.size j e x w.levels h))
]

drain-Stored :
    (now n j : ℕ) (e : Entry) (es : Bucket) (w : Wheel)
    → Stored j e w.levels
    → Then (λ (v : Wheel). Stored j e v.levels) (drain now n es w)
unfolding drain
drain-Stored now n j e [] w h = h
drain-Stored now n j e (x ∷ es) w h = elim (Option-cases (drain_one now n x w)) [
  | inl ended ↦ rw (ended, drain) tt
  | inr (v, went) ↦
      rw (went, drain)
        (drain-Stored now n j e es v (
          subst (Then (λ (v : Wheel). Stored j e v.levels)) went
            (drain_one-Stored now n j e x w h)))
]

swept-Stored :
    (now n i j : ℕ) (e : Entry) (levels : List Level)
    → (n ≡ 0 → i ≢ j)
    → Stored j e levels
    → Stored j e (at_level (swept now i) n levels)
unfolding swept
swept-Stored now n i j e levels other h =
    at_level-Stored (swept now i) n j e levels (λ l root k. In-set i j e l.slots (other root) k) h

root_tick : List Level → ℕ
root_tick [] = 0
root_tick (root ∷ rest) = root.tick

root_tick-lem :
    (levels : List Level) (n : ℕ) (l : Level)
    → n ≡ 0
    → get_elem? levels n ≡ some l
    → root_tick levels ≡ l.tick
unfolding root_tick
root_tick-lem [] n l root found = absurd (ground arith)
root_tick-lem (k ∷ ls) zero l root found = ground (arith, found)
root_tick-lem (k ∷ ls) (suc n) l root found = absurd (ground arith)

advance_at-Stored :
    (fuel now n j : ℕ) (e : Entry) (w : Wheel)
    → (n ≡ 0 → slot_index w.size (root_tick w.levels) now ≢ j)
    → Stored j e w.levels
    → Then (λ (v : Wheel). Stored j e v.levels) (advance_at fuel now n w)
unfolding advance_at
advance_at-Stored zero now n j e w other h = tt
advance_at-Stored (suc fuel) now n j e w other h = elim (Option-cases (get_elem? w.levels n)) [
  | inl no_level ↦ rw (no_level, advance_at) h
  | inr (l, found) ↦ elim (Bool-cases (ltb (now - l.current) l.tick)) [
    | inl early ↦ rw (found, advance_at) (rw early h)
    | inr in_time ↦
        rw (found, advance_at)
          (rw in_time (
            let i = slot_index w.size l.tick now in
            let other_slot : n ≡ 0 → i ≢ j = λ root same.
              other root (
                ap (λ t. slot_index w.size t now) (root_tick-lem w.levels n l root found) ∙ same) in
            let before = swept-Stored now n i j e w.levels other_slot h in
            let w1 = record w { levels = at_level (swept now i) n w.levels } in
            elim (Option-cases (drain now n (bucket_at i l) w1)) [
              | inl ended ↦ rw ended tt
              | inr (v, went) ↦
                  let after_drain =
                    subst (Then (λ (v : Wheel). Stored j e v.levels)) went
                      (drain-Stored now n j e (bucket_at i l) w1 before) in
                  elim (Bool-cases (i == 0)) [
                    | inl wraps ↦ rw went (
                        rw wraps (
                          advance_at-Stored fuel now (suc n) j e v (λ z. absurd (omega (arith, z)))
                            after_drain))
                    | inr stays ↦ rw went (rw stays after_drain)
                  ]
            ]))
  ]
]

advance-Stored :
    (now j : ℕ) (e : Entry) (w : Wheel)
    → slot_index w.size (root_tick w.levels) now ≢ j
    → Stored j e w.levels
    → Then (λ (v : Wheel). Stored j e v.levels) (advance now w)
unfolding advance
advance-Stored now j e w other h =
    advance_at-Stored (length w.levels + 1) now 0 j e w (λ _. other) h

Good-tick :
    (tick now size : ℕ) (levels : List Level)
    → levels ≢ []
    → Good size tick now levels
    → root_tick levels ≡ tick
unfolding root_tick
Good-tick tick now size [] rooted good = absurd (rooted refl)
Good-tick tick now size (l ∷ ls) rooted good = good.1

root_tick-Well : (tick now : ℕ) (w : Wheel) → IsWell tick now w → root_tick w.levels ≡ tick
root_tick-Well tick now w h = Good-tick tick now w.size w.levels h.rooted h.good

-- Beats of the ticker at these times.
abbrev pub beats : List ℕ → List (ℕ × Call)
beats [] = []
beats (now ∷ nows) = (now, advances) ∷ beats nows

-- No beat falls into the tick's slot.
abbrev pub PassOver : ℕ → ℕ → ℕ → List ℕ → Type 0
PassOver size tick j [] = Unit {0}
PassOver size tick j (now ∷ nows) = (slot_index size tick now ≢ j) × PassOver size tick j nows

-- An entry of a bucket of the root is still there after any beats of which none falls into a tick of that
-- bucket's slot, whatever its expiry is.
pub beats-Stored :
    (tick before j : ℕ) (nows : List ℕ) (e : Entry) (w : Wheel)
    → IsWell tick before w
    → Ordered before (beats nows)
    → PassOver w.size tick j nows
    → Stored j e w.levels
    → (w' : Wheel) × (run (beats nows) w ≡ some w') × Stored j e w'.levels
unfolding run call
beats-Stored tick before j [] e w h order pass stored = (w, refl, stored)
beats-Stored tick before j (now ∷ nows) e w h order pass stored =
    let (w1, result, well, kept, timely, size) = advance-done tick before now w h order.0 in
    let stays = subst (Then (λ (v : Wheel). Stored j e v.levels)) result (
      advance-Stored now j e w
        (λ same.
          pass.0 (ap (λ t. slot_index w.size t now) (sym (root_tick-Well tick before w h)) ∙ same))
        stored) in
    let (w2, rest, there) =
      beats-Stored tick now j nows e w1 well order.1
        (subst (λ n. PassOver n tick j nows) (sym size) pass.1) stays in
    (w2, rw (result, run) rest, there)
