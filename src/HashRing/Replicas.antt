-- ===== src/HashRing/Replicas.antt =====
-- Lemmas on GetN of internal/hashring/hashring.go.
use yim.Base.{
  ℕ, zero, suc, ◌+◌, ◌-◌, ◌%◌, ◌≤◌, ◌<◌, ◌≡◌, refl, subst, true, false, Option, none, some, List,
  [], ◌∷◌, ◌++◌, arith, ltb, leb, ◌==◌, if◌then◌else◌, length, get_elem?, contains, nat_eq, list_eq,
  list_beq_iff, =?_refl, Bool-cases, ◌⊎◌, inl, inr, length-append,
}
use yim.HashRing.Order.{Ascending}
use yim.HashRing.Search.{start_index-lt}
use yim.HashRing.{GoString, VNode, Ring, get_n, get_n_loop, visit, start_index, hash_key}

abbrev pub Distinct : List GoString → Type 0
Distinct [] = Unit {0}
Distinct (x ∷ xs) = (contains xs x ≡ false) × Distinct xs

contains-append :
    (xs ys : List GoString) (x : GoString)
    → contains (xs ++ ys) x ≡ (if contains xs x then true else contains ys x)
contains-append [] ys x = refl
contains-append (y ∷ xs) ys x = ground (arith, contains-append xs ys x)

Distinct-append :
    (xs : List GoString) (x : GoString)
    → Distinct xs
    → contains xs x ≡ false
    → Distinct (xs ++ x ∷ [])
Distinct-append [] x d c = (refl, tt)
Distinct-append (y ∷ xs) x d c = ground (
  arith,
  Distinct-append xs x d.1,
  contains-append xs (x ∷ []) y,
  list_beq_iff x y,
  list_beq_iff y x,
)

visit-Distinct : (o : Option VNode) (out : List GoString) → Distinct out → Distinct (visit o out)
unfolding visit
visit-Distinct none out d = d
visit-Distinct (some v) out d = ground (arith, Distinct-append out v.node d)

length-visit : (o : Option VNode) (out : List GoString) → length (visit o out) ≤ length out + 1
unfolding visit
length-visit none out = omega arith
length-visit (some v) out = ground (arith, length-append out (v.node ∷ []))

contains-visit :
    (o : Option VNode) (out : List GoString) (x : GoString)
    → contains out x ≡ true
    → contains (visit o out) x ≡ true
unfolding visit
contains-visit none out x c = c
contains-visit (some v) out x c = ground (arith, contains-append out (v.node ∷ []) x)

visit_self : (v : VNode) (out : List GoString) → contains (visit (some v) out) v.node ≡ true
unfolding visit
visit_self v out = ground (arith, contains-append out (v.node ∷ []) v.node, =?_refl v.node)

loop-Distinct :
    (left : ℕ) (vs : List VNode) (i n j : ℕ) (out : List GoString)
    → Distinct out
    → length out ≤ n
    → Distinct (get_n_loop left vs i n j out) × (length (get_n_loop left vs i n j out) ≤ n)
unfolding get_n_loop
loop-Distinct zero vs i n j out d b = (d, b)
loop-Distinct (suc left) vs i n j out d b =
    let o = get_elem? vs ((i + j) % length vs) in
    ground (
      arith,
      visit-Distinct o out d,
      length-visit o out,
      loop-Distinct left vs i n (j + 1) (visit o out),
    )

loop-contains :
    (left : ℕ) (vs : List VNode) (i n j : ℕ) (out : List GoString) (x : GoString)
    → contains out x ≡ true
    → contains (get_n_loop left vs i n j out) x ≡ true
unfolding get_n_loop
loop-contains zero vs i n j out x c = c
loop-contains (suc left) vs i n j out x c =
    let o = get_elem? vs ((i + j) % length vs) in
    ground (arith, contains-visit o out x c, loop-contains left vs i n (j + 1) (visit o out) x)

-- A loop that stays short of `n` has visited all that it could.
loop_complete :
    (left : ℕ) (vs : List VNode) (i n j t : ℕ) (out : List GoString) (v : VNode)
    → length (get_n_loop left vs i n j out) < n
    → j ≤ t
    → t < j + left
    → get_elem? vs ((i + t) % length vs) ≡ some v
    → contains (get_n_loop left vs i n j out) v.node ≡ true
unfolding get_n_loop
loop_complete zero vs i n j t out v short lo hi at = absurd (omega arith)
loop_complete (suc left) vs i n j t out v short lo hi at =
    let o = get_elem? vs ((i + j) % length vs) in
    elim (Bool-cases (ltb (length out) n)) [
      | inr e ↦ absurd (ground arith)
      | inl e ↦ elim (Bool-cases (j == t)) [
        | inr other ↦ rw e (
            loop_complete left vs i n (j + 1) t (visit (get_elem? vs ((i + j) % length vs)) out) v
              (rw e at short) (ground arith) (ground arith) at)
        | inl same ↦
            let here : get_elem? vs ((i + j) % length vs) ≡ some v =
              subst (λ u. get_elem? vs ((i + u) % length vs) ≡ some v) (ground arith) at in
            rw (e, here)
              (loop-contains left vs i n (j + 1) (visit (some v) out) v.node (visit_self v out))
      ]
    ]

-- The round in which the loop comes to index `k`.
abbrev round : ℕ → ℕ → ℕ → ℕ
round i k len = if leb i k then k - i else k + len - i

mod_wrap : (x n : ℕ) → x < n → (x + n) % n ≡ x
mod_wrap x n h = grind arith

mod_small : (x n : ℕ) → x < n → x % n ≡ x
mod_small x n h = grind arith

round_lem :
    (i k len : ℕ) → i < len → k < len → ((i + round i k len) % len ≡ k) × (round i k len < len)
round_lem i k len hi hk = elim (Bool-cases (leb i k)) [
  | inl e ↦
      let whole : i + (k - i) ≡ k = ground arith in
      rw e (rw whole (mod_small k len hk), omega arith)
  | inr e ↦
      let whole : i + (k + len - i) ≡ k + len = ground arith in
      rw e (rw whole (mod_wrap k len hk), ground arith)
]

pub get_elem?-lt : (vs : List VNode) (k : ℕ) (v : VNode) → get_elem? vs k ≡ some v → k < length vs
get_elem?-lt [] k v e = cc
get_elem?-lt (u ∷ vs) zero v e = omega arith
get_elem?-lt (u ∷ vs) (suc k) v e = omega (arith, get_elem?-lt vs k v e)

-- GetN gives no node twice, and at most as many as are asked for.
pub get_n-Distinct :
    (key : GoString) (n : ℕ) (r : Ring) → Distinct (get_n key n r) × (length (get_n key n r) ≤ n)
unfolding get_n
get_n-Distinct key n r = ground (
  arith,
  loop-Distinct (length r.vnodes) r.vnodes (start_index r.vnodes (hash_key key)) n 0 [] tt,
)

-- On ascending virtual nodes GetN gives as many nodes as are asked for, or else every node that
-- has a virtual node.
pub get_n_complete :
    (key : GoString) (n k : ℕ) (r : Ring) (v : VNode)
    → Ascending r.vnodes
    → 0 < length r.nodes
    → get_elem? r.vnodes k ≡ some v
    → (length (get_n key n r) ≡ n) ⊎ (contains (get_n key n r) v.node ≡ true)
unfolding get_n
get_n_complete key n k r v a some_node at =
    let vs = r.vnodes in
    let i = start_index vs (hash_key key) in
    let inside = get_elem?-lt r.vnodes k v at in
    let (there, soon) =
      round_lem (start_index r.vnodes (hash_key key)) k (length r.vnodes)
        (start_index-lt r.vnodes (hash_key key) a (omega arith)) inside in
    ground (
      arith,
      loop-Distinct (length r.vnodes) r.vnodes (start_index r.vnodes (hash_key key)) n 0 [] tt,
      loop_complete (length r.vnodes) r.vnodes (start_index r.vnodes (hash_key key)) n 0
          (round (start_index r.vnodes (hash_key key)) k (length r.vnodes)) [] v,
      there,
      soon,
      at,
    )
