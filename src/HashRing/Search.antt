-- ===== src/HashRing/Search.antt =====
-- The binary search of sort.Search in internal/hashring/hashring.go, beside a linear one.
use yim.Base.{
  ℕ, zero, suc, ◌+◌, ◌/◌, ◌≤◌, ◌<◌, ◌≡◌, refl, true, false, List, [], ◌∷◌, arith, leb, ◌==◌,
  if◌then◌else◌, All, length, Bool-cases, inl, inr,
}
use yim.HashRing.{VNode, reaches, search_loop, start_index}
use yim.HashRing.Order.{Ascending, All-mono}

-- Linear search: the first index that reaches `h`, or the length.
unfoldable pub first_index : List VNode → ℕ → ℕ
first_index [] h = 0
first_index (v ∷ vs) h = if leb h v.hash then 0 else suc (first_index vs h)

reaches-All : (h : ℕ) (vs : List VNode) (i : ℕ) → All (λ u. h ≤ u.hash) vs → reaches vs h i ≡ true
unfolding reaches
reaches-All h [] i a = refl
reaches-All h (v ∷ vs) zero a = ground arith
reaches-All h (v ∷ vs) (suc i) a = reaches-All h vs i a.1

pub reaches_mono :
    (vs : List VNode) (h i j : ℕ)
    → Ascending vs
    → i ≤ j
    → reaches vs h i ≡ true
    → reaches vs h j ≡ true
unfolding reaches
reaches_mono [] h i j a le r = refl
reaches_mono (v ∷ vs) h zero zero a le r = r
reaches_mono (v ∷ vs) h zero (suc j) a le r =
    reaches-All h vs j (All-mono h v.hash vs (ground arith) a.0)
reaches_mono (v ∷ vs) h (suc i) zero a le r = absurd (omega arith)
reaches_mono (v ∷ vs) h (suc i) (suc j) a le r = reaches_mono vs h i j a.1 (omega arith) r

first_index-below : (vs : List VNode) (h i : ℕ) → i < first_index vs h → reaches vs h i ≡ false
unfolding first_index reaches
first_index-below [] h i lt = absurd (omega arith)
first_index-below (v ∷ vs) h zero lt = ground arith
first_index-below (v ∷ vs) h (suc i) lt = ground (arith, first_index-below vs h i)

first_index-reaches : (vs : List VNode) (h : ℕ) → reaches vs h (first_index vs h) ≡ true
unfolding first_index reaches
first_index-reaches [] h = refl
first_index-reaches (v ∷ vs) h = elim (Bool-cases (leb h v.hash)) [
  | inl e ↦ rw e e
  | inr e ↦ rw e (first_index-reaches vs h)
]

first_index-le : (vs : List VNode) (h i : ℕ) → reaches vs h i ≡ true → first_index vs h ≤ i
first_index-le vs h i r = ground (arith, first_index-below vs h i)

lt-first_index :
    (vs : List VNode) (h i : ℕ) → Ascending vs → reaches vs h i ≡ false → i < first_index vs h
lt-first_index vs h i a r =
    ground (arith, first_index-reaches vs h, reaches_mono vs h (first_index vs h) i a)

-- With more fuel than the width of the interval, the search ends at the first index.
search_loop-first_index :
    (fuel : ℕ) (vs : List VNode) (h i j : ℕ)
    → Ascending vs
    → i ≤ first_index vs h
    → first_index vs h ≤ j
    → j < fuel + i
    → search_loop fuel vs h i j ≡ first_index vs h
unfolding search_loop
search_loop-first_index zero vs h i j a lo hi f = absurd (omega arith)
search_loop-first_index (suc fuel) vs h i j a lo hi f =
    let m = (i + j) / 2 in
    ground (
      arith,
      first_index-le vs h m,
      lt-first_index vs h m a,
      search_loop-first_index fuel vs h i m a lo,
      search_loop-first_index fuel vs h (m + 1) j a,
    )

pub first_index-le_length : (vs : List VNode) (h : ℕ) → first_index vs h ≤ length vs
unfolding first_index
first_index-le_length [] h = omega arith
first_index-le_length (v ∷ vs) h = ground (arith, first_index-le_length vs h)

-- On ascending nodes the search of Get and GetN stops at the first node whose hash is at least the
-- key's, and at the first of all where there is none.
pub start_index-first_index :
    (vs : List VNode) (h : ℕ)
    → Ascending vs
    → start_index vs h ≡ (if first_index vs h == length vs then 0 else first_index vs h)
unfolding start_index
start_index-first_index vs h a = rw (
    search_loop-first_index (length vs + 1) vs h 0 (length vs) a (omega arith)
      (first_index-le_length vs h) (omega arith))

pub start_index-lt :
    (vs : List VNode) (h : ℕ) → Ascending vs → 0 < length vs → start_index vs h < length vs
start_index-lt vs h a some_node =
    ground (arith, start_index-first_index vs h a, first_index-le_length vs h)
