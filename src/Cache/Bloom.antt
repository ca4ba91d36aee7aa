-- ===== src/Cache/Bloom.antt =====
-- internal/cache/bloom.go: the filter with two generations. The loader of Rebuild is split: `begin`
-- hangs up the shadow generation, `load` brings the keys and swaps, `fail` drops it; between them any
-- number of Add may run.
pub mod Bits
pub mod Includes
mod Tests
use yim.Base.{
  ℕ, zero, suc, ◌+◌, ◌*◌, ◌/◌, ◌%◌, ◌^◌, Bool, true, false, Option, none, some, List, [], ◌∷◌, ◌++◌,
  ◌==◌, if◌then◌else◌, get_elem?, set, replicate,
}
use yim.HashRing.{GoString, hash_key}

-- The words of the bit map, 64 bits each.
abbrev pub BloomGen : Type 0
BloomGen = List ℕ

pub record Bloom : Type 0 where
  pub m_bits : ℕ
  pub k : ℕ
  pub cur : BloomGen
  pub building : Option BloomGen

unfoldable pub new_gen : ℕ → BloomGen
new_gen m_bits = replicate ((m_bits + 63) / 64) 0

-- A zero argument stands for the default.
unfoldable pub new_bloom : ℕ → ℕ → Bloom
new_bloom m_bits k =
    let m = if m_bits == 0 then 2 ^ 25 else m_bits in
    record { m_bits = m; k = if k == 0 then 4 else k; cur = new_gen m; building = none }

-- binary.LittleEndian.PutUint64: the n low bytes.
unfoldable pub little_endian : ℕ → ℕ → GoString
little_endian zero key = []
little_endian (suc n) key = (key % 256) ∷ little_endian n (key / 256)

unfoldable pub positions : ℕ → ℕ → ℕ → ℕ → ℕ → List ℕ
positions zero i h1 h2 m_bits = []
positions (suc n) i h1 h2 m_bits =
    ((h1 + i * h2 % 2 ^ 64) % 2 ^ 64 % m_bits) ∷ positions n (i + 1) h1 h2 m_bits

-- Two FNV-1a hashes, the second with one more byte, mixed into k positions.
unfoldable pub hashes : Bloom → ℕ → List ℕ
hashes b key =
    let bytes = little_endian 8 key in
    positions b.k 0 (hash_key bytes) (hash_key (bytes ++ (183 ∷ []))) b.m_bits

-- w | 1 << i, a bit at a time.
unfoldable pub set_bit : ℕ → ℕ → ℕ
set_bit zero w = if w % 2 == 0 then w + 1 else w
set_bit (suc i) w = 2 * set_bit i (w / 2) + w % 2

-- w & (1 << i) != 0
unfoldable pub test_bit : ℕ → ℕ → Bool
test_bit zero w = w % 2 == 1
test_bit (suc i) w = test_bit i (w / 2)

unfoldable pub add_bit : BloomGen → ℕ → BloomGen
add_bit bits p = elim (get_elem? bits (p / 64)) [
  | none ↦ bits
  | some w ↦ set bits (p / 64) (set_bit (p % 64) w)
]

unfoldable pub add_gen : BloomGen → List ℕ → BloomGen
add_gen bits [] = bits
add_gen bits (p ∷ ps) = add_gen (add_bit bits p) ps

unfoldable pub has_bit : BloomGen → ℕ → Bool
has_bit bits p = elim (get_elem? bits (p / 64)) [ none ↦ false | some w ↦ test_bit (p % 64) w ]

unfoldable pub might_contain_gen : BloomGen → List ℕ → Bool
might_contain_gen bits [] = true
might_contain_gen bits (p ∷ ps) =
    let rest = might_contain_gen bits ps in if has_bit bits p then rest else false

unfoldable pub add : ℕ → Bloom → Bloom
add key b =
    let pos = hashes b key in
    record b {
      cur = add_gen b.cur pos;
      building = elim b.building [ none ↦ none | some bg ↦ some (add_gen bg pos) ];
    }

unfoldable pub might_contain : Bloom → ℕ → Bool
might_contain b key = might_contain_gen b.cur (hashes b key)

unfoldable pub begin_rebuild : Bloom → Bloom
begin_rebuild b = record b { building = some (new_gen b.m_bits) }

unfoldable pub fail_rebuild : Bloom → Bloom
fail_rebuild b = record b { building = none }

unfoldable pub load_keys : Bloom → BloomGen → List ℕ → BloomGen
load_keys b bg [] = bg
load_keys b bg (key ∷ keys) = load_keys b (add_gen bg (hashes b key)) keys

-- Without a shadow generation there is no rebuild under way.
unfoldable pub finish_rebuild : List ℕ → Bloom → Bloom
finish_rebuild keys b = elim b.building [
  | none ↦ b
  | some bg ↦ record b { cur = load_keys b bg keys; building = none }
]
