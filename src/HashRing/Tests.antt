-- ===== src/HashRing/Tests.antt =====
-- Runs and instances of the ring (internal/hashring/hashring.go) with two nodes.
use yim.Base.{
  nat_eq, list_eq, ◌≡◌, ◌≢◌, refl, some, List, [], ◌∷◌, ◌++◌, sym, subst, inl, inr, arith, ◌==◌,
  if◌then◌else◌, length, ◌⊎◌,
}
use yim.HashRing.{
  GoString, VNode, Ring, hash_key, new, add, remove, get, get_n, start_index, replicas, itoa,
}
use yim.HashRing.Order.{Ascending}
use yim.HashRing.Search.{first_index, start_index-first_index}
use yim.HashRing.Owner.{owner, node_of, get-owner}
use yim.HashRing.Members.{Rearranges, NoCollision, new_nodes, In-append, append-In, append_In_right}
use yim.HashRing.Moves.{get-add}

abbrev one : VNode
one = record { hash = 1000; node = b'a' ∷ [] }

abbrev two : VNode
two = record { hash = 12000000000000000000; node = b'b' ∷ [] }

abbrev ring : Ring
ring = record {
  vnodes = one ∷ two ∷ [];
  vnodes_per_node = 1;
  nodes = (b'b' ∷ []) ∷ (b'a' ∷ []) ∷ [];
}

abbrev key : GoString
key = b'k' ∷ b'1' ∷ []

ring-Ascending : Ascending ring.vnodes
ring-Ascending = ((omega arith, tt), (tt, tt))

wraps : start_index ring.vnodes 13000000000000000000 ≡ 0
unfolding start_index yim.HashRing.search_loop yim.HashRing.reaches
wraps = refl

start_index-first_index_example : start_index ring.vnodes 5000 ≡ (
    if first_index ring.vnodes 5000 == length ring.vnodes then 0 else first_index ring.vnodes 5000)
start_index-first_index_example = start_index-first_index ring.vnodes 5000 ring-Ascending

get-owner_example : get key ring ≡ node_of (owner ring.vnodes (hash_key key))
get-owner_example = get-owner key ring ring-Ascending

-- A sort that leaves equals in the order opposite to that of its input.
backwards : List VNode → List VNode
backwards [] = []
backwards (v ∷ vs) = backwards vs ++ v ∷ []

backwards-Rearranges : Rearranges backwards
unfolding backwards
backwards-Rearranges [] v = (λ i. i, λ i. i)
backwards-Rearranges (u ∷ us) v = (
  λ i. elim (In-append (backwards us) (u ∷ []) v i) [
    | inl j ↦ inr ((backwards-Rearranges us v).0 j)
    | inr j ↦ elim j [ inl e ↦ inl e | inr k ↦ absurd k ]
  ],
  λ i. elim i [
    | inl e ↦ append_In_right (backwards us) (u ∷ []) v (inl e)
    | inr j ↦ append-In (backwards us) (u ∷ []) v ((backwards-Rearranges us v).1 j)
  ],
)

abbrev three : VNode
three = record { hash = 17777316422345007177; node = b'c' ∷ [] }

three_new : new_nodes (b'c' ∷ []) 1 ring ≡ three ∷ []
unfolding replicas hash_key yim.HashRing.fnv_write itoa yim.HashRing.itoa_loop
three_new = refl

ring-NoCollision : NoCollision (ring.vnodes ++ new_nodes (b'c' ∷ []) 1 ring)
ring-NoCollision =
    subst (λ vs. NoCollision (ring.vnodes ++ vs)) (sym three_new)
      (
        (λ e. absurd (omega (arith, e)), (λ e. absurd (omega (arith, e)), tt)),
        ((λ e. absurd (omega (arith, e)), tt), (tt, tt)),
      )

get-add_example :
    (get key (add backwards (b'c' ∷ []) 1 ring) ≡ some (b'c' ∷ []))
    ⊎ (get key (add backwards (b'c' ∷ []) 1 ring) ≡ get key ring)
get-add_example =
    get-add backwards key (b'c' ∷ []) 1 ring backwards-Rearranges ring-NoCollision ring-Ascending

goes_to : get key ring ≡ some (b'b' ∷ [])
unfolding get start_index yim.HashRing.search_loop yim.HashRing.reaches hash_key
goes_to = refl

b-ne-a : ◌≢◌ {A = GoString} (b'b' ∷ []) (b'a' ∷ [])
b-ne-a e = absurd (ground (arith, e))
