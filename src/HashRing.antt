-- ===== src/HashRing.antt =====
-- internal/hashring/hashring.go: the consistent hash ring with virtual nodes.
-- A Go string is its bytes. `sort.Slice` and `sort.Search` are written out. The first leaves open in which
-- order equal hashes come: `order` says how it rearranges its input before an insertion sort that keeps the
-- order of equals, so that each ascending rearrangement is one that it may give.
pub mod Order
pub mod Search
pub mod Owner
pub mod Members
pub mod Moves
pub mod Replicas
mod Tests
use Prim.Native.Nat.{bit_xor}
use yim.Base.{
  nat_eq, list_eq, ℕ, zero, suc, ◌+◌, ◌*◌, ◌/◌, ◌%◌, ◌^◌, Bool, true, false, not, ◌&&◌, Option,
  none, some, List, [], ◌∷◌, ◌++◌, ltb, leb, ◌==◌, ◌=?◌, if◌then◌else◌, length, get_elem?, keep_if,
  contains,
}

abbrev pub GoString : Type 0
GoString = List ℕ

-- hash/fnv, New64a.
unfoldable pub fnv_write : ℕ → GoString → ℕ
fnv_write h [] = h
fnv_write h (b ∷ bs) = fnv_write (bit_xor h b * 1099511628211 % 2 ^ 64) bs

unfoldable pub hash_key : GoString → ℕ
unfolding fnv_write
hash_key s = fnv_write 14695981039346656037 s

-- strconv.Itoa of a number that is not negative.
itoa_loop : ℕ → ℕ → GoString → GoString
itoa_loop zero n acc = acc
itoa_loop (suc fuel) n acc =
    let digits = (b'0' + n % 10) ∷ acc in
    let rest = itoa_loop fuel (n / 10) digits in if ltb n 10 then digits else rest

unfoldable pub itoa : ℕ → GoString
unfolding itoa_loop
itoa n = itoa_loop (n + 1) n []

pub record VNode : Type 0 where
  pub hash : ℕ
  pub node : GoString

pub record Ring : Type 0 where
  pub vnodes : List VNode
  pub vnodes_per_node : ℕ
  pub nodes : List GoString

-- A Go int that counts: a negative one is 0 here, which the code treats alike.
unfoldable pub new : ℕ → Ring
new vnodes_per_node = record {
  vnodes = [];
  vnodes_per_node = if vnodes_per_node == 0 then 100 else vnodes_per_node;
  nodes = [];
}

-- The loop of Add from `i` on, for `left` rounds.
unfoldable pub replicas : GoString → ℕ → ℕ → List VNode
replicas node zero i = []
replicas node (suc left) i =
    record { hash = hash_key (node ++ b'#' ∷ itoa i); node = node } ∷ replicas node left (i + 1)

-- Insertion sort: each element goes behind those that are not greater.
unfoldable pub place : VNode → List VNode → List VNode
place v [] = v ∷ []
place v (u ∷ us) = if ltb v.hash u.hash then v ∷ u ∷ us else u ∷ place v us

unfoldable pub sort_into : List VNode → List VNode → List VNode
sort_into sorted [] = sorted
sort_into sorted (v ∷ vs) = sort_into (place v sorted) vs

unfoldable pub sort : (List VNode → List VNode) → List VNode → List VNode
sort order vs = sort_into [] (order vs)

unfoldable pub add : (List VNode → List VNode) → GoString → ℕ → Ring → Ring
add order node weight r =
    let w : ℕ = if weight == 0 then 1 else weight in
    if contains r.nodes node then r else record r {
      vnodes = sort order (r.vnodes ++ replicas node (r.vnodes_per_node * w) 0);
      nodes = node ∷ r.nodes;
    }

unfoldable pub remove : GoString → Ring → Ring
remove node r =
    if contains r.nodes node
    then record r {
      vnodes = keep_if (λ v. not (v.node =? node)) r.vnodes;
      nodes = keep_if (λ n. not (n =? node)) r.nodes;
    }
    else r

-- `vnodes[i].hash >= h`; the search asks in range only.
unfoldable pub reaches : List VNode → ℕ → ℕ → Bool
reaches vs h i = elim (get_elem? vs i) [ none ↦ true | some v ↦ leb h v.hash ]

-- The loop of sort.Search.
unfoldable pub search_loop : ℕ → List VNode → ℕ → ℕ → ℕ → ℕ
search_loop zero vs h i j = i
search_loop (suc fuel) vs h i j =
    let m = (i + j) / 2 in
    let right = search_loop fuel vs h (m + 1) j in
    let left = search_loop fuel vs h i m in
    if ltb i j then (if reaches vs h m then left else right) else i

unfoldable pub start_index : List VNode → ℕ → ℕ
start_index vs h =
    let i = search_loop (length vs + 1) vs h 0 (length vs) in if i == length vs then 0 else i

unfoldable pub get : GoString → Ring → Option GoString
get key r = elim (get_elem? r.vnodes (start_index r.vnodes (hash_key key))) [
  | none ↦ none
  | some v ↦ some v.node
]

-- `if _, ok := seen[v.node]; !ok { ... }`: `seen` holds the nodes of `out`.
unfoldable pub visit : Option VNode → List GoString → List GoString
visit none out = out
visit (some v) out = if contains out v.node then out else out ++ v.node ∷ []

-- The loop of GetN from `j` on, for at most `left` rounds.
unfoldable pub get_n_loop : ℕ → List VNode → ℕ → ℕ → ℕ → List GoString → List GoString
get_n_loop zero vs i n j out = out
get_n_loop (suc left) vs i n j out =
    let seen = visit (get_elem? vs ((i + j) % length vs)) out in
    let rest = get_n_loop left vs i n (j + 1) seen in if ltb (length out) n then rest else out

unfoldable pub get_n : GoString → ℕ → Ring → List GoString
get_n key n r =
    let vs = r.vnodes in
    if length r.nodes == 0
    then []
    else if n == 0
    then []
    else get_n_loop (length vs) vs (start_index vs (hash_key key)) n 0 []
