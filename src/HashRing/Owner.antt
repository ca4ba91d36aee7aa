-- ===== src/HashRing/Owner.antt =====
-- The node that Get of internal/hashring/hashring.go gives a key.
use yim.Base.{
  ℕ, ◌≡◌, ◌≢◌, refl, sym, ap, list_beq_iff, ◌∙◌, Bool, true, not, Option, none, some, List, [], ◌∷◌,
  arith, leb, if◌then◌else◌, length, get_elem?, keep_if, contains, nat_eq, list_eq, ◌=?◌,
  Bool-cases, inl, inr,
}
use yim.HashRing.{GoString, VNode, Ring, remove, get, hash_key}
use yim.HashRing.Order.{Ascending, keep_if-Ascending}
use yim.HashRing.Search.{first_index, start_index-first_index}

-- The first node clockwise whose hash is at least `h`.
abbrev pub next_node : List VNode → ℕ → Option VNode
next_node [] h = none
next_node (v ∷ vs) h = if leb h v.hash then some v else next_node vs h

abbrev head_node : List VNode → Option VNode
head_node [] = none
head_node (v ∷ vs) = some v

abbrev or_else : Option VNode → Option VNode → Option VNode
or_else none o = o
or_else (some v) o = some v

-- The specification of the ring: the next node, or the first of all past the end.
unfoldable pub owner : List VNode → ℕ → Option VNode
owner vs h = or_else (next_node vs h) (head_node vs)

get_elem?-first_index :
    (vs : List VNode) (h : ℕ)
    → first_index vs h ≢ length vs
    → get_elem? vs (first_index vs h) ≡ next_node vs h
unfolding first_index
get_elem?-first_index [] h ne = refl
get_elem?-first_index (v ∷ vs) h ne = ground (arith, get_elem?-first_index vs h)

next_node-none : (vs : List VNode) (h : ℕ) → first_index vs h ≡ length vs → next_node vs h ≡ none
unfolding first_index
next_node-none [] h e = refl
next_node-none (v ∷ vs) h e = ground (arith, next_node-none vs h)

abbrev pub node_of : Option VNode → Option GoString
node_of none = none
node_of (some v) = some v.node

get_elem?-zero : (vs : List VNode) → get_elem? vs 0 ≡ head_node vs
get_elem?-zero [] = refl
get_elem?-zero (v ∷ vs) = refl

-- Short of the end there is a next node.
next_node-ne-none : (vs : List VNode) (h : ℕ) → first_index vs h ≢ length vs → next_node vs h ≢ none
unfolding first_index
next_node-ne-none [] h ne = absurd (ne refl)
next_node-ne-none (v ∷ vs) h ne = ground (arith, next_node-ne-none vs h)

-- Get implements the specification: binary search and wrap-around give the clockwise owner.
pub get-owner :
    (key : GoString) (r : Ring)
    → Ascending r.vnodes
    → get key r ≡ node_of (owner r.vnodes (hash_key key))
unfolding get owner
get-owner key r a =
    let vs = r.vnodes in
    let h = hash_key key in
    ground (
      arith,
      start_index-first_index r.vnodes (hash_key key) a,
      next_node-none r.vnodes (hash_key key),
      get_elem?-zero r.vnodes,
      get_elem?-first_index r.vnodes (hash_key key),
      next_node-ne-none r.vnodes (hash_key key),
    )

next_node-keep_if :
    (p : VNode → Bool) (vs : List VNode) (h : ℕ) (v : VNode)
    → next_node vs h ≡ some v
    → p v ≡ true
    → next_node (keep_if p vs) h ≡ some v
next_node-keep_if p [] h v e keep = e
next_node-keep_if p (u ∷ us) h v e keep = ground (arith, next_node-keep_if p us h v)

next_node-keep_if-none :
    (p : VNode → Bool) (vs : List VNode) (h : ℕ)
    → next_node vs h ≡ none
    → next_node (keep_if p vs) h ≡ none
next_node-keep_if-none p [] h e = e
next_node-keep_if-none p (u ∷ us) h e = ground (arith, next_node-keep_if-none p us h)

head_node-keep_if :
    (p : VNode → Bool) (vs : List VNode) (v : VNode)
    → head_node vs ≡ some v
    → p v ≡ true
    → head_node (keep_if p vs) ≡ some v
head_node-keep_if p [] v e keep = e
head_node-keep_if p (u ∷ us) v e keep = ground arith

owner-keep_if :
    (p : VNode → Bool) (vs : List VNode) (h : ℕ) (v : VNode)
    → owner vs h ≡ some v
    → p v ≡ true
    → owner (keep_if p vs) h ≡ some v
unfolding owner
owner-keep_if p vs h v e keep =
    ground
      (arith, next_node-keep_if p vs h v, next_node-keep_if-none p vs h, head_node-keep_if p vs v)

node_of-inv :
    (o : Option VNode) (n : GoString)
    → node_of o ≡ some n
    → (v : VNode) × (o ≡ some v) × (v.node ≡ n)
node_of-inv none n e = cc
node_of-inv (some v) n e = (v, refl, ground arith)

-- Removing a node leaves every key of another node where it is.
get-remove :
    (key node n : GoString) (r : Ring)
    → Ascending r.vnodes
    → get key r ≡ some n
    → n ≢ node
    → get key (remove node r) ≡ some n
unfolding remove
get-remove key node n r a e ne = elim (Bool-cases (contains r.nodes node)) [
  | inr c ↦ rw c e
  | inl c ↦
      let others = λ (v : VNode). not (v.node =? node) in
      let (v, own, name) =
        node_of-inv (owner r.vnodes (hash_key key)) n (sym (get-owner key r a) ∙ e) in
      rw
        (
          c,
          get-owner key
              (record r {
                vnodes = keep_if others r.vnodes;
                nodes = keep_if (λ m. not (m =? node)) r.nodes;
              })
              (keep_if-Ascending others r.vnodes a),
          owner-keep_if others r.vnodes (hash_key key) v own
              (ground (arith, list_beq_iff v.node node)),
        )
        (ap some name)
]
