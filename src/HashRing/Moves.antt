-- ===== src/HashRing/Moves.antt =====
-- The keys that Add of internal/hashring/hashring.go moves.
use yim.Base.{
  nat_eq, list_eq, ℕ, zero, suc, ◌+◌, ◌*◌, ◌≡◌, ◌≤◌, ◌<◌, refl, sym, ap, subst, Option, none, some,
  List, [], ◌∷◌, ◌++◌, arith, leb, ◌==◌, if◌then◌else◌, contains, Bool-cases, Option-cases, ◌⊎◌,
  inl, inr,
}
use yim.HashRing.{GoString, VNode, Ring, sort_into, sort, add, replicas, get, hash_key}
use yim.HashRing.Order.{Ascending, sort_into-Ascending}
use yim.HashRing.Owner.{next_node, owner, node_of, get-owner}
use yim.HashRing.Members.{
  In, Rearranges, NoCollision, new_nodes, All-In, NoCollision-node, In-append, append-In,
  In-sort_into, sort_into-In,
}

-- `v` comes no later than `u` clockwise from `h`.
abbrev Before : ℕ → VNode → VNode → Type 0
Before h v u = ((h ≤ v.hash) × (h ≤ u.hash → v.hash ≤ u.hash)) ⊎ ((u.hash < h) × (v.hash ≤ u.hash))

Before-antisym : (h : ℕ) (v u : VNode) → Before h v u → Before h u v → v.hash ≡ u.hash
Before-antisym h v u (inl a) (inl b) = omega (arith, a.1 b.0, b.1 a.0)
Before-antisym h v u (inl a) (inr b) = absurd (omega (arith, a.0, b.0))
Before-antisym h v u (inr a) (inl b) = absurd (omega (arith, a.0, b.0))
Before-antisym h v u (inr a) (inr b) = omega (arith, a.1, b.1)

head-least : (v u : VNode) (vs : List VNode) → Ascending (v ∷ vs) → In u (v ∷ vs) → v.hash ≤ u.hash
head-least v u vs a (inl e) = omega (arith, ap (λ w. w.hash) e)
head-least v u vs a (inr i) = All-In (λ w. v.hash ≤ w.hash) vs u a.0 i

-- What the next node is.
abbrev Next : ℕ → List VNode → Option VNode → Type 0
Next h vs none = (u : VNode) → In u vs → u.hash < h
Next h vs (some v) = In v vs × (h ≤ v.hash) × ((u : VNode) → In u vs → h ≤ u.hash → v.hash ≤ u.hash)

Next-beyond :
    (h : ℕ) (v : VNode) (vs : List VNode) (o : Option VNode)
    → v.hash < h
    → Next h vs o
    → Next h (v ∷ vs) o
Next-beyond h v vs none lt n =
    λ u i. elim i [ inl e ↦ subst (λ w. w.hash < h) (sym e) lt | inr j ↦ n u j ]
Next-beyond h v vs (some w) lt (i, far, least) = (
  inr i,
  far,
  λ u j le. elim j [
    | inl e ↦
        let same : u.hash ≡ v.hash = ap (λ x. x.hash) e in absurd (omega (arith, lt, le, same))
    | inr k ↦ least u k le
  ],
)

next_node-Next : (vs : List VNode) (h : ℕ) → Ascending vs → Next h vs (next_node vs h)
next_node-Next [] h a = λ u i. absurd i
next_node-Next (v ∷ vs) h a = elim (Bool-cases (leb h v.hash)) [
  | inl le ↦ rw le (inl refl, ground (arith, le), λ u i far. head-least v u vs a i)
  | inr gt ↦
      rw gt (Next-beyond h v vs (next_node vs h) (ground (arith, gt)) (next_node-Next vs h a.1))
]

-- The owner is a virtual node before which there is none.
abbrev Owns : ℕ → List VNode → Option VNode → Type 0
Owns h vs none = (u : VNode) → In u vs → ⊥
Owns h vs (some v) = In v vs × ((u : VNode) → In u vs → Before h v u)

owner-Owns : (vs : List VNode) (h : ℕ) → Ascending vs → Owns h vs (owner vs h)
unfolding owner
owner-Owns [] h a = λ u i. i
owner-Owns (v ∷ vs) h a = elim (Option-cases (next_node (v ∷ vs) h)) [
  | inl e ↦
      let past = subst (Next h (v ∷ vs)) e (next_node-Next (v ∷ vs) h a) in
      rw e (inl refl, λ u i. inr (past u i, head-least v u vs a i))
  | inr (w, e) ↦
      let (i, far, least) = subst (Next h (v ∷ vs)) e (next_node-Next (v ∷ vs) h a) in
      rw e (i, λ u j. inl (far, least u j))
]

replicas-node :
    (node : GoString) (left i : ℕ) (v : VNode) → In v (replicas node left i) → v.node ≡ node
unfolding replicas
replicas-node node zero i v j = absurd j
replicas-node node (suc left) i v (inl e) = ap (λ w. w.node) e
replicas-node node (suc left) i v (inr j) = replicas-node node left (i + 1) v j

-- The owner among more virtual nodes is the old one, or is new.
Owns-more :
    (h : ℕ) (node : GoString) (vs ws xs : List VNode) (o p : Option VNode)
    → NoCollision (vs ++ ws)
    → ((v : VNode) → In v ws → v.node ≡ node)
    → ((v : VNode) → In v xs → In v (vs ++ ws))
    → ((v : VNode) → In v (vs ++ ws) → In v xs)
    → Owns h vs o
    → Owns h xs p
    → (node_of p ≡ some node) ⊎ (node_of p ≡ node_of o)
Owns-more h node vs ws xs none none c fresh from into old own = inr refl
Owns-more h node vs ws xs (some u) none c fresh from into (i, old) own =
    absurd (own u (into u (append-In vs ws u i)))
Owns-more h node vs ws xs none (some v) c fresh from into old (i, own) =
    elim (In-append vs ws v (from v i)) [
      | inl j ↦ absurd (old v j)
      | inr j ↦ inl (ap some (fresh v j))
    ]
Owns-more h node vs ws xs (some u) (some v) c fresh from into (k, old) (i, own) =
    elim (In-append vs ws v (from v i)) [
      | inr j ↦ inl (ap some (fresh v j))
      | inl j ↦
          let both = append-In vs ws u k in
          let same = Before-antisym h v u (own u (into u both)) (old v j) in
          inr (ap some (NoCollision-node (vs ++ ws) v u c (append-In vs ws v j) both same))
    ]

-- However sort.Slice rearranges what compares equal: where the ring's virtual nodes ascend and no virtual nodes
-- of different nodes, the old ones and those of the added node, have the same hash, Add moves a key to
-- the added node or leaves it where it was.
pub get-add :
    (order : List VNode → List VNode) (key node : GoString) (weight : ℕ) (r : Ring)
    → Rearranges order
    → NoCollision (r.vnodes ++ new_nodes node weight r)
    → Ascending r.vnodes
    → (get key (add order node weight r) ≡ some node)
      ⊎ (get key (add order node weight r) ≡ get key r)
unfolding add sort
get-add order key node weight r keeps apart a = elim (Bool-cases (contains r.nodes node)) [
  | inl e ↦ rw e (inr refl)
  | inr e ↦
      let h = hash_key key in
      let all = r.vnodes ++ new_nodes node weight r in
      let sorted = sort_into [] (order all) in
      let ascends : Ascending sorted = sort_into-Ascending [] (order all) tt in
      let next : Ring = record r { vnodes = sorted; nodes = node ∷ r.nodes } in
      rw (e, get-owner key r a, get-owner key next ascends)
        (Owns-more h node r.vnodes (new_nodes node weight r) sorted (owner r.vnodes h)
          (owner sorted h) apart
          (λ v. replicas-node node (r.vnodes_per_node * (if weight == 0 then 1 else weight)) 0 v)
          (λ v i. elim (In-sort_into [] (order all) v i) [
            | inl none_in ↦ absurd none_in
            | inr j ↦ (keeps all v).0 j
          ])
          (λ v i. sort_into-In [] (order all) v (inr ((keeps all v).1 i))) (owner-Owns r.vnodes h a)
          (owner-Owns sorted h ascends))
]
