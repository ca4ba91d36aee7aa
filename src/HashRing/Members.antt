-- ===== src/HashRing/Members.antt =====
-- The virtual nodes that stand in the lists of internal/hashring/hashring.go.
use yim.Base.{
  nat_eq, list_eq, ℕ, ◌*◌, ◌≡◌, sym, ap, subst, ◌∙◌, List, [], ◌∷◌, ◌++◌, ltb, ◌==◌, if◌then◌else◌,
  All, Bool-cases, ◌⊎◌, inl, inr,
}
use yim.HashRing.{GoString, VNode, Ring, place, sort_into, replicas}

abbrev pub In : VNode → List VNode → Type 0
In v [] = ⊥
In v (u ∷ us) = (v ≡ u) ⊎ In v us

-- sort.Slice rearranges: nothing is lost and nothing is new.
abbrev pub Rearranges : (List VNode → List VNode) → Type 0
Rearranges order =
    (vs : List VNode) (v : VNode) → (In v (order vs) → In v vs) × (In v vs → In v (order vs))

-- Virtual nodes of different nodes have different hashes.
abbrev pub NoCollision : List VNode → Type 0
NoCollision [] = Unit {0}
NoCollision (v ∷ vs) = All (λ u. u.hash ≡ v.hash → u.node ≡ v.node) vs × NoCollision vs

-- The virtual nodes of a node that is added.
abbrev pub new_nodes : GoString → ℕ → Ring → List VNode
new_nodes node weight r = replicas node (r.vnodes_per_node * (if weight == 0 then 1 else weight)) 0

pub All-In : (P : VNode → Type 0) (vs : List VNode) (v : VNode) → All P vs → In v vs → P v
All-In P [] v a i = absurd i
All-In P (u ∷ us) v a (inl e) = subst P (sym e) a.0
All-In P (u ∷ us) v a (inr i) = All-In P us v a.1 i

pub NoCollision-node :
    (vs : List VNode) (u v : VNode)
    → NoCollision vs
    → In u vs
    → In v vs
    → u.hash ≡ v.hash
    → u.node ≡ v.node
NoCollision-node [] u v c i j e = absurd i
NoCollision-node (x ∷ xs) u v c (inl i) (inl j) e = ap (λ w. w.node) (i ∙ sym j)
NoCollision-node (x ∷ xs) u v c (inl i) (inr j) e =
    let meets = All-In (λ w. w.hash ≡ x.hash → w.node ≡ x.node) xs v c.0 j in
    ap (λ w. w.node) i ∙ sym (meets (sym e ∙ ap (λ w. w.hash) i))
NoCollision-node (x ∷ xs) u v c (inr i) (inl j) e =
    let meets = All-In (λ w. w.hash ≡ x.hash → w.node ≡ x.node) xs u c.0 i in
    meets (e ∙ ap (λ w. w.hash) j) ∙ sym (ap (λ w. w.node) j)
NoCollision-node (x ∷ xs) u v c (inr i) (inr j) e = NoCollision-node xs u v c.1 i j e

pub In-append : (vs ws : List VNode) (v : VNode) → In v (vs ++ ws) → In v vs ⊎ In v ws
In-append [] ws v i = inr i
In-append (u ∷ us) ws v (inl e) = inl (inl e)
In-append (u ∷ us) ws v (inr i) = elim (In-append us ws v i) [ inl j ↦ inl (inr j) | inr j ↦ inr j ]

pub append-In : (vs ws : List VNode) (v : VNode) → In v vs → In v (vs ++ ws)
append-In [] ws v i = absurd i
append-In (u ∷ us) ws v (inl e) = inl e
append-In (u ∷ us) ws v (inr i) = inr (append-In us ws v i)

pub append_In_right : (vs ws : List VNode) (v : VNode) → In v ws → In v (vs ++ ws)
append_In_right [] ws v i = i
append_In_right (u ∷ us) ws v i = inr (append_In_right us ws v i)

In-place : (w : VNode) (vs : List VNode) (v : VNode) → In v (place w vs) → In v (w ∷ vs)
unfolding place
In-place w [] v = λ i. i
In-place w (u ∷ us) v = elim (Bool-cases (ltb w.hash u.hash)) [
  | inl lt ↦ rw lt (λ i. i)
  | inr ge ↦
      let rest = In-place w us v in
      rw ge (λ i. elim i [
        | inl e ↦ inr (inl e)
        | inr j ↦ elim (rest j) [ inl e ↦ inl e | inr k ↦ inr (inr k) ]
      ])
]

place-In : (w : VNode) (vs : List VNode) (v : VNode) → In v (w ∷ vs) → In v (place w vs)
unfolding place
place-In w [] v = λ i. i
place-In w (u ∷ us) v = elim (Bool-cases (ltb w.hash u.hash)) [
  | inl lt ↦ rw lt (λ i. i)
  | inr ge ↦
      let rest = place-In w us v in
      rw ge (λ i. elim i [
        | inl e ↦ inr (rest (inl e))
        | inr j ↦ elim j [ inl e ↦ inl e | inr k ↦ inr (rest (inr k)) ]
      ])
]

pub In-sort_into : (acc vs : List VNode) (v : VNode) → In v (sort_into acc vs) → In v acc ⊎ In v vs
unfolding sort_into
In-sort_into acc [] v i = inl i
In-sort_into acc (w ∷ ws) v i = elim (In-sort_into (place w acc) ws v i) [
  | inr j ↦ inr (inr j)
  | inl j ↦ elim (In-place w acc v j) [ inl e ↦ inr (inl e) | inr k ↦ inl k ]
]

pub sort_into-In : (acc vs : List VNode) (v : VNode) → In v acc ⊎ In v vs → In v (sort_into acc vs)
unfolding sort_into
sort_into-In acc [] v (inl i) = i
sort_into-In acc [] v (inr i) = absurd i
sort_into-In acc (w ∷ ws) v (inl i) =
    sort_into-In (place w acc) ws v (inl (place-In w acc v (inr i)))
sort_into-In acc (w ∷ ws) v (inr (inl e)) =
    sort_into-In (place w acc) ws v (inl (place-In w acc v (inl e)))
sort_into-In acc (w ∷ ws) v (inr (inr i)) = sort_into-In (place w acc) ws v (inr i)
