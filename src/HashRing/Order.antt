-- ===== src/HashRing/Order.antt =====
-- Lemmas on the order of the virtual nodes of internal/hashring/hashring.go.
use yim.Base.{
  ◌*◌, ℕ, ◌≤◌, Bool, not, List, [], ◌∷◌, ◌++◌, arith, ltb, ◌==◌, if◌then◌else◌, All, keep_if,
  nat_eq, list_eq, ◌=?◌, Bool-cases, inl, inr,
}
use yim.HashRing.{GoString, VNode, Ring, place, sort_into, sort, add, remove, replicas}

abbrev pub Ascending : List VNode → Type 0
Ascending [] = Unit {0}
Ascending (v ∷ vs) = All (λ u. v.hash ≤ u.hash) vs × Ascending vs

pub All-mono :
    (h k : ℕ) (vs : List VNode) → h ≤ k → All (λ u. k ≤ u.hash) vs → All (λ u. h ≤ u.hash) vs
All-mono h k [] le a = tt
All-mono h k (v ∷ vs) le a = (omega arith, All-mono h k vs le a.1)

All-place :
    (h : ℕ) (v : VNode) (vs : List VNode)
    → h ≤ v.hash
    → All (λ u. h ≤ u.hash) vs
    → All (λ u. h ≤ u.hash) (place v vs)
unfolding place
All-place h v [] le a = (le, tt)
All-place h v (u ∷ us) le a = ground (arith, All-place h v us le)

place-Ascending : (v : VNode) (vs : List VNode) → Ascending vs → Ascending (place v vs)
unfolding place
place-Ascending v [] a = (tt, tt)
place-Ascending v (u ∷ us) a = elim (Bool-cases (ltb v.hash u.hash)) [
  | inl e ↦ rw e ((ground arith, All-mono v.hash u.hash us (ground arith) a.0), a)
  | inr e ↦ rw e (All-place u.hash v us (ground arith) a.0, place-Ascending v us a.1)
]

pub sort_into-Ascending :
    (sorted vs : List VNode) → Ascending sorted → Ascending (sort_into sorted vs)
unfolding sort_into
sort_into-Ascending sorted [] a = a
sort_into-Ascending sorted (v ∷ vs) a =
    sort_into-Ascending (place v sorted) vs (place-Ascending v sorted a)

All-keep_if :
    (h : ℕ) (p : VNode → Bool) (vs : List VNode)
    → All (λ u. h ≤ u.hash) vs
    → All (λ u. h ≤ u.hash) (keep_if p vs)
All-keep_if h p [] a = tt
All-keep_if h p (v ∷ vs) a = ground (arith, All-keep_if h p vs a.1)

pub keep_if-Ascending :
    (p : VNode → Bool) (vs : List VNode) → Ascending vs → Ascending (keep_if p vs)
keep_if-Ascending p [] a = tt
keep_if-Ascending p (v ∷ vs) a =
    ground (arith, keep_if-Ascending p vs a.1, All-keep_if v.hash p vs a.0)

-- Add and Remove keep the virtual nodes ascending.
pub add-Ascending :
    (order : List VNode → List VNode) (node : GoString) (weight : ℕ) (r : Ring)
    → Ascending r.vnodes
    → Ascending (add order node weight r).vnodes
unfolding add sort
add-Ascending order node weight r a = ground (
  arith,
  sort_into-Ascending []
      (order
        (r.vnodes ++ replicas node (r.vnodes_per_node * (if weight == 0 then 1 else weight)) 0))
      tt,
)

pub remove-Ascending :
    (node : GoString) (r : Ring) → Ascending r.vnodes → Ascending (remove node r).vnodes
unfolding remove
remove-Ascending node r a = ground (arith, keep_if-Ascending (λ v. not (v.node =? node)) r.vnodes a)
