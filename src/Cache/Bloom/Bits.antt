-- ===== src/Cache/Bloom/Bits.antt =====
-- Lemmas on single bits of internal/cache/bloom.go.
use yim.Base.{
  ℕ, zero, suc, ◌+◌, ◌*◌, ◌/◌, ◌%◌, ◌≡◌, ◌<◌, refl, sym, subst, ap, ◌∙◌, true, false, none, some,
  List, [], ◌∷◌, arith, ◌==◌, Bool-cases, Option-cases, inl, inr, get_elem?, set, length,
  length-set,
}
use yim.Cache.Bloom.{BloomGen, set_bit, test_bit, add_bit, add_gen, has_bit, might_contain_gen}

half : (a b : ℕ) → b < 2 → (2 * a + b) / 2 ≡ a
half a b lt = omega (arith, lt)

half_set_bit : (w : ℕ) → set_bit zero w / 2 ≡ w / 2
unfolding set_bit
half_set_bit w = ground arith

test_bit-set_bit_self : (i w : ℕ) → test_bit i (set_bit i w) ≡ true
unfolding test_bit set_bit
test_bit-set_bit_self zero w = ground arith
test_bit-set_bit_self (suc i) w =
    rw (half (set_bit i (w / 2)) (w % 2) (omega arith)) (test_bit-set_bit_self i (w / 2))

test_bit-set_bit : (i j w : ℕ) → test_bit j w ≡ true → test_bit j (set_bit i w) ≡ true
unfolding test_bit set_bit
test_bit-set_bit zero zero w h = ground (arith, h)
test_bit-set_bit zero (suc j) w h = subst (λ v. test_bit j v ≡ true) (sym (half_set_bit w)) h
test_bit-set_bit (suc i) zero w h = ground (arith, h)
test_bit-set_bit (suc i) (suc j) w h =
    rw (half (set_bit i (w / 2)) (w % 2) (omega arith)) (test_bit-set_bit i j (w / 2) h)

get_elem?-set_self : (xs : BloomGen) (i v : ℕ) → i < length xs → get_elem? (set xs i v) i ≡ some v
get_elem?-set_self [] i v lt = absurd (omega (arith, lt))
get_elem?-set_self (x ∷ xs) zero v lt = refl
get_elem?-set_self (x ∷ xs) (suc i) v lt = get_elem?-set_self xs i v (omega (arith, lt))

get_elem?-set_other :
    (xs : BloomGen) (i j v : ℕ) → (i == j) ≡ false → get_elem? (set xs i v) j ≡ get_elem? xs j
get_elem?-set_other [] i j v ne = refl
get_elem?-set_other (x ∷ xs) zero zero v ne = absurd (ground arith)
get_elem?-set_other (x ∷ xs) zero (suc j) v ne = refl
get_elem?-set_other (x ∷ xs) (suc i) zero v ne = refl
get_elem?-set_other (x ∷ xs) (suc i) (suc j) v ne =
    get_elem?-set_other xs i j v (ground (arith, ne))

get_elem?-lt : (xs : BloomGen) (i : ℕ) → i < length xs → (w : ℕ) × (get_elem? xs i ≡ some w)
get_elem?-lt [] i lt = absurd (omega (arith, lt))
get_elem?-lt (x ∷ xs) zero lt = (x, refl)
get_elem?-lt (x ∷ xs) (suc i) lt = get_elem?-lt xs i (omega (arith, lt))

get_elem?-some : (xs : BloomGen) (i w : ℕ) → get_elem? xs i ≡ some w → i < length xs
get_elem?-some [] i w e = absurd (ground arith)
get_elem?-some (x ∷ xs) zero w e = omega arith
get_elem?-some (x ∷ xs) (suc i) w e = omega (arith, get_elem?-some xs i w e)

length-add_bit : (bits : BloomGen) (p : ℕ) → length (add_bit bits p) ≡ length bits
unfolding add_bit
length-add_bit bits p = elim (Option-cases (get_elem? bits (p / 64))) [
  | inl e ↦ rw (e, add_bit) refl
  | inr (w, e) ↦ rw (e, add_bit) (length-set bits (p / 64) (set_bit (p % 64) w))
]

has_bit-some :
    (bits : BloomGen) (q w : ℕ)
    → get_elem? bits (q / 64) ≡ some w
    → has_bit bits q ≡ test_bit (q % 64) w
unfolding has_bit
has_bit-some bits q w e = rw (e, has_bit) refl

has_bit-same :
    (a b : BloomGen) (q : ℕ)
    → get_elem? a (q / 64) ≡ get_elem? b (q / 64)
    → has_bit a q ≡ has_bit b q
unfolding has_bit
has_bit-same a b q e = rw (e, has_bit) refl

add_bit-some :
    (bits : BloomGen) (p w : ℕ)
    → get_elem? bits (p / 64) ≡ some w
    → add_bit bits p ≡ set bits (p / 64) (set_bit (p % 64) w)
unfolding add_bit
add_bit-some bits p w e = rw (e, add_bit) refl

add_bit-none : (bits : BloomGen) (p : ℕ) → get_elem? bits (p / 64) ≡ none → add_bit bits p ≡ bits
unfolding add_bit
add_bit-none bits p e = rw (e, add_bit) refl

pub has_bit-add_bit_self :
    (bits : BloomGen) (p : ℕ) → p / 64 < length bits → has_bit (add_bit bits p) p ≡ true
has_bit-add_bit_self bits p lt =
    let (w, e) = get_elem?-lt bits (p / 64) lt in
    ap (λ b. has_bit b p) (add_bit-some bits p w e)
    ∙ has_bit-some _ p _ (get_elem?-set_self bits (p / 64) (set_bit (p % 64) w) lt)
    ∙ test_bit-set_bit_self (p % 64) w

pub has_bit-add_bit :
    (bits : BloomGen) (p q : ℕ) → has_bit bits q ≡ true → has_bit (add_bit bits p) q ≡ true
has_bit-add_bit bits p q h = elim (Option-cases (get_elem? bits (p / 64))) [
  | inl e ↦ ap (λ b. has_bit b q) (add_bit-none bits p e) ∙ h
  | inr (w, e) ↦
      ap (λ b. has_bit b q) (add_bit-some bits p w e) ∙ elim (Bool-cases ((p / 64) == (q / 64))) [
        | inr other ↦
            has_bit-same _ bits q
              (get_elem?-set_other bits (p / 64) (q / 64) (set_bit (p % 64) w) other)
            ∙ h
        | inl same ↦
            let i : (p / 64) ≡ (q / 64) = ground (arith, same) in
            let at = subst (λ j. get_elem? bits j ≡ some w) i e in
            has_bit-some _ q _ (
              subst
                (λ j.
                  get_elem? (set bits (p / 64) (set_bit (p % 64) w)) j ≡ some (set_bit (p % 64) w))
                i
                (get_elem?-set_self bits (p / 64) (set_bit (p % 64) w)
                  (get_elem?-some bits (p / 64) w e)))
            ∙ test_bit-set_bit (p % 64) (q % 64) w (sym (has_bit-some bits q w at) ∙ h)
      ]
]

-- Every position lies in the bit map.
abbrev pub InRange : BloomGen → List ℕ → Type 0
InRange bits [] = Unit {0}
InRange bits (p ∷ ps) = (p / 64 < length bits) × InRange bits ps

pub length-add_gen : (ps : List ℕ) (bits : BloomGen) → length (add_gen bits ps) ≡ length bits
unfolding add_gen
length-add_gen [] bits = refl
length-add_gen (p ∷ ps) bits = length-add_gen ps (add_bit bits p) ∙ length-add_bit bits p

has_bit-add_gen :
    (ps : List ℕ) (bits : BloomGen) (q : ℕ)
    → has_bit bits q ≡ true
    → has_bit (add_gen bits ps) q ≡ true
unfolding add_gen
has_bit-add_gen [] bits q h = h
has_bit-add_gen (p ∷ ps) bits q h =
    has_bit-add_gen ps (add_bit bits p) q (has_bit-add_bit bits p q h)

pub might_contain-add_gen :
    (ps qs : List ℕ) (bits : BloomGen)
    → might_contain_gen bits qs ≡ true
    → might_contain_gen (add_gen bits ps) qs ≡ true
unfolding might_contain_gen
might_contain-add_gen ps [] bits h = refl
might_contain-add_gen ps (q ∷ qs) bits h =
    ground (arith, h, might_contain-add_gen ps qs bits, has_bit-add_gen ps bits q)

InRange-add_bit :
    (ps : List ℕ) (bits : BloomGen) (p : ℕ) → InRange bits ps → InRange (add_bit bits p) ps
InRange-add_bit [] bits p h = tt
InRange-add_bit (q ∷ ps) bits p h =
    (omega (arith, h.0, length-add_bit bits p), InRange-add_bit ps bits p h.1)

pub might_contain-add_gen_self :
    (ps : List ℕ) (bits : BloomGen)
    → InRange bits ps
    → might_contain_gen (add_gen bits ps) ps ≡ true
unfolding might_contain_gen add_gen
might_contain-add_gen_self [] bits h = refl
might_contain-add_gen_self (p ∷ ps) bits h = ground (
  arith,
  has_bit-add_gen ps (add_bit bits p) p (has_bit-add_bit_self bits p h.0),
  might_contain-add_gen_self ps (add_bit bits p) (InRange-add_bit ps bits p h.1),
)
