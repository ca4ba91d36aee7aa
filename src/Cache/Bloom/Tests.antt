-- ===== src/Cache/Bloom/Tests.antt =====
-- A run and an instance of the filter (internal/cache/bloom.go) with 100 bits.
use yim.Base.{nat_eq, ◌≡◌, refl, true, false, List, [], ◌∷◌}
use yim.Cache.Bloom.{
  new_bloom, might_contain, new_gen, positions, hashes, little_endian, set_bit, test_bit, add_bit,
  add_gen, has_bit, might_contain_gen, add, begin_rebuild, load_keys, finish_rebuild,
}
use yim.HashRing.{hash_key, fnv_write}
use yim.Cache.Bloom.Includes.{Op, adds, begins, loads, step, run, run-no_false_negative}

-- Key 41 comes in during a rebuild that loads 7 only.
abbrev ops : List Op
ops = begins ∷ adds 41 ∷ loads (7 ∷ []) ∷ []

misses : might_contain (run ops (new_bloom 100 3)) 8 ≡ false
unfolding might_contain run step new_bloom new_gen begin_rebuild add finish_rebuild load_keys hashes
    positions little_endian add_gen add_bit set_bit has_bit test_bit might_contain_gen hash_key
    fnv_write
misses = refl

run-no_false_negative_example : might_contain (run ops (new_bloom 100 3)) 41 ≡ true
run-no_false_negative_example = run-no_false_negative ops 100 3 41 refl
