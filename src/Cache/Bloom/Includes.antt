-- ===== src/Cache/Bloom/Includes.antt =====
-- The filter of internal/cache/bloom.go beside a pair of exact sets kept in the same way.
use Prim.Native.Nat.{ℕ}
use native.Mathlib.Nat.{mod-lt}
use yim.Base.{
  nat_eq, zero, suc, ◌+◌, ◌*◌, ◌/◌, ◌%◌, ◌^◌, ◌≡◌, ◌<◌, refl, ap, ◌∙◌, subst, true, Option, none,
  some, List, [], ◌∷◌, arith, ◌==◌, Bool-cases, inl, inr, replicate, length, contains,
}
use yim.Cache.Bloom.{
  BloomGen, Bloom, new_gen, new_bloom, positions, hashes, add_gen, might_contain_gen, add,
  might_contain, begin_rebuild, fail_rebuild, load_keys, finish_rebuild,
}
use yim.Cache.Bloom.Bits.{
  InRange, length-add_gen, might_contain-add_gen, might_contain-add_gen_self,
}

-- The exact counterpart: the keys of either generation.
pub record Sets : Type 0 where
  pub cur : List ℕ
  pub building : Option (List ℕ)

pub data Op : Type 0 where
  adds : ℕ → Op
  begins : Op
  fails : Op
  loads : List ℕ → Op

unfoldable pub step : Op → Bloom → Bloom
step (adds key) b = add key b
step begins b = begin_rebuild b
step fails b = fail_rebuild b
step (loads keys) b = finish_rebuild keys b

unfoldable pub run : List Op → Bloom → Bloom
run [] b = b
run (op ∷ ops) b = run ops (step op b)

abbrev pub add_all : List ℕ → List ℕ → List ℕ
add_all [] ks = ks
add_all (key ∷ keys) ks = add_all keys (key ∷ ks)

abbrev pub step_sets : Op → Sets → Sets
step_sets (adds key) s = record {
  cur = key ∷ s.cur;
  building = elim s.building [ none ↦ none | some ks ↦ some (key ∷ ks) ];
}
step_sets begins s = record s { building = some [] }
step_sets fails s = record s { building = none }
step_sets (loads keys) s = elim s.building [
  | none ↦ s
  | some ks ↦ record { cur = add_all keys ks; building = none }
]

abbrev pub run_sets : List Op → Sets → Sets
run_sets [] s = s
run_sets (op ∷ ops) s = run_sets ops (step_sets op s)

-- A generation of the right size that has all the keys.
abbrev GenOk : Bloom → BloomGen → List ℕ → Type 0
GenOk b bits ks =
    (length bits ≡ (b.m_bits + 63) / 64)
    × ((key : ℕ) → contains ks key ≡ true → might_contain_gen bits (hashes b key) ≡ true)

abbrev ShadowOk : Bloom → Option BloomGen → Option (List ℕ) → Type 0
ShadowOk b none none = Unit {0}
ShadowOk b (some bits) (some ks) = GenOk b bits ks
ShadowOk b none (some ks) = ⊥
ShadowOk b (some bits) none = ⊥

pub record Includes (s : Sets) (b : Bloom) : Type 0 where
  pub some_bits : 0 < b.m_bits
  pub now : GenOk b b.cur s.cur
  pub shadow : ShadowOk b b.building s.building

positions-InRange :
    (n i h1 h2 m : ℕ) (bits : BloomGen)
    → 0 < m
    → length bits ≡ (m + 63) / 64
    → InRange bits (positions n i h1 h2 m)
unfolding positions
positions-InRange zero i h1 h2 m bits pos len = tt
positions-InRange (suc n) i h1 h2 m bits pos len = (
  omega (arith, len, mod-lt ((h1 + i * h2 % 2 ^ 64) % 2 ^ 64) pos),
  positions-InRange n (i + 1) h1 h2 m bits pos len,
)

hashes-InRange :
    (b : Bloom) (bits : BloomGen) (key : ℕ)
    → 0 < b.m_bits
    → length bits ≡ (b.m_bits + 63) / 64
    → InRange bits (hashes b key)
unfolding hashes
hashes-InRange b bits key pos len = positions-InRange b.k 0 _ _ b.m_bits bits pos len

length-replicate : (n v : ℕ) → length (replicate n v) ≡ n
length-replicate zero v = refl
length-replicate (suc n) v = ap suc (length-replicate n v)

add_gen-GenOk :
    (b : Bloom) (bits : BloomGen) (ks : List ℕ) (key : ℕ)
    → 0 < b.m_bits
    → GenOk b bits ks
    → GenOk b (add_gen bits (hashes b key)) (key ∷ ks)
add_gen-GenOk b bits ks key pos (len, holds) = (
  length-add_gen (hashes b key) bits ∙ len,
  λ j mem. elim (Bool-cases (key == j)) [
    | inl same ↦
        subst (λ i. might_contain_gen (add_gen bits (hashes b key)) (hashes b i) ≡ true)
          (ground (arith, same))
          (might_contain-add_gen_self (hashes b key) bits (hashes-InRange b bits key pos len))
    | inr other ↦
        might_contain-add_gen (hashes b key) (hashes b j) bits
          (holds j (ground (arith, mem, other)))
  ],
)

new_gen-GenOk : (b : Bloom) → GenOk b (new_gen b.m_bits) []
unfolding new_gen
new_gen-GenOk b = (length-replicate ((b.m_bits + 63) / 64) 0, λ key mem. absurd (ground arith))

load_keys-GenOk :
    (b : Bloom) (keys : List ℕ) (bits : BloomGen) (ks : List ℕ)
    → 0 < b.m_bits
    → GenOk b bits ks
    → GenOk b (load_keys b bits keys) (add_all keys ks)
unfolding load_keys
load_keys-GenOk b [] bits ks pos ok = ok
load_keys-GenOk b (key ∷ keys) bits ks pos ok =
    load_keys-GenOk b keys (add_gen bits (hashes b key)) (key ∷ ks) pos
      (add_gen-GenOk b bits ks key pos ok)

shadow_added :
    (b : Bloom) (key : ℕ) (building : Option BloomGen) (sets : Option (List ℕ))
    → 0 < b.m_bits
    → ShadowOk b building sets
    → ShadowOk b
        (elim building [ none ↦ none | some bg ↦ some (add_gen bg (hashes b key)) ])
        (elim sets [ none ↦ none | some ks ↦ some (key ∷ ks) ])
shadow_added b key none none pos ok = tt
shadow_added b key none (some ks) pos ok = absurd ok
shadow_added b key (some bits) none pos ok = absurd ok
shadow_added b key (some bits) (some ks) pos ok = add_gen-GenOk b bits ks key pos ok

add-Includes :
    (key : ℕ) (s : Sets) (b : Bloom) → Includes s b → Includes (step_sets (adds key) s) (add key b)
unfolding add hashes
add-Includes key s b h = record {
  some_bits = h.some_bits;
  now = add_gen-GenOk b b.cur s.cur key h.some_bits h.now;
  shadow = shadow_added b key b.building s.building h.some_bits h.shadow;
}

abbrev with_building : Bloom → Option BloomGen → Bloom
with_building b building = record b { building = building }

abbrev with_sets : Sets → Option (List ℕ) → Sets
with_sets s sets = record s { building = sets }

swapped :
    (keys : List ℕ) (s : Sets) (b : Bloom) (building : Option BloomGen) (sets : Option (List ℕ))
    → Includes (with_sets s sets) (with_building b building)
    → Includes
        (step_sets (loads keys) (with_sets s sets))
        (finish_rebuild keys (with_building b building))
unfolding finish_rebuild hashes
swapped keys s b none none h = h
swapped keys s b none (some ks) h = absurd h.shadow
swapped keys s b (some bits) none h = absurd h.shadow
swapped keys s b (some bits) (some ks) h = record {
  some_bits = h.some_bits;
  now = load_keys-GenOk (with_building b (some bits)) keys bits ks h.some_bits h.shadow;
  shadow = tt;
}

step-Includes :
    (op : Op) (s : Sets) (b : Bloom) → Includes s b → Includes (step_sets op s) (step op b)
unfolding step begin_rebuild fail_rebuild hashes
step-Includes (adds key) s b h = add-Includes key s b h
step-Includes begins s b h = record {
  some_bits = h.some_bits;
  now = h.now;
  shadow = new_gen-GenOk b;
}
step-Includes fails s b h = record { some_bits = h.some_bits; now = h.now; shadow = tt }
step-Includes (loads keys) s b h = swapped keys s b b.building s.building h

run-Includes :
    (ops : List Op) (s : Sets) (b : Bloom) → Includes s b → Includes (run_sets ops s) (run ops b)
unfolding run
run-Includes [] s b h = h
run-Includes (op ∷ ops) s b h =
    run-Includes ops (step_sets op s) (step op b) (step-Includes op s b h)

new_bloom-Includes : (m k : ℕ) → Includes (record { cur = []; building = none }) (new_bloom m k)
unfolding new_bloom
new_bloom-Includes m k = record {
  some_bits = ground arith;
  now = new_gen-GenOk (new_bloom m k);
  shadow = tt;
}

-- A key that the exact pair of sets has after any sequence of Add, begun, failed and finished rebuilds
-- is one that the filter says it may contain.
pub run-no_false_negative :
    (ops : List Op) (m k key : ℕ)
    → contains (run_sets ops (record { cur = []; building = none })).cur key ≡ true
    → might_contain (run ops (new_bloom m k)) key ≡ true
unfolding might_contain
run-no_false_negative ops m k key mem =
    (run-Includes ops (record { cur = []; building = none }) (new_bloom m k)
        (new_bloom-Includes m k)).now.1
      key mem
