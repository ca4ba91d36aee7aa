-- ===== src/Message/Routes.antt =====
-- internal/message/route_cache.go, and PushRouted and PushAll of internal/message/comet_cluster.go. An address
-- is a number; `tried` logs the calls of pushOne. A Go map that holds sets is a map of lists.
pub mod Pushed
mod Tests
use yim.Base.{
  nat_eq, ℕ, Bool, true, false, not, ◌||◌, Option, none, some, List, [], ◌∷◌, ◌++◌, ◌==◌,
  if◌then◌else◌, contains, keep_if,
}
use yim.Base.Map.{Map, lookup, insert, erase}

-- `routes` is `none` where no local cache is set up.
pub record State : Type 0 where
  pub routes : Option (Map ℕ (List ℕ))
  pub instances : List ℕ
  pub tried : List ℕ

-- `members` is the answer of SMEMBERS; `recent` says that the last resolution is not 5s old, and `resolved`
-- is the answer of the next; `pushes` is what pushOne gives.
pub record Env : Type 0 where
  pub members : ℕ → Option (List ℕ)
  pub recent : Bool
  pub resolved : Option (List ℕ)
  pub pushes : ℕ → Bool

abbrev pub found : Option (List ℕ) → Option (List ℕ)
found none = none
found (some []) = none
found (some (a ∷ addrs)) = some (a ∷ addrs)

abbrev pub route_get : Env → ℕ → Option (List ℕ)
route_get env uid = found (env.members uid)

abbrev pub once : List ℕ → List ℕ → List ℕ
once set [] = set
once set (a ∷ addrs) = once (if contains set a then set else set ++ a ∷ []) addrs

pub seed : ℕ → List ℕ → Map ℕ (List ℕ) → Map ℕ (List ℕ)
seed uid addrs m = insert uid (once [] addrs) m

abbrev pub addrs_of : Option (List ℕ) → List ℕ
addrs_of none = []
addrs_of (some set) = set

abbrev pub seeded : ℕ → Option (List ℕ) → Map ℕ (List ℕ) → State → State
seeded uid none m s = s
seeded uid (some addrs) m s = record s { routes = some (seed uid addrs m) }

-- The local cache, and else Redis.
abbrev pub get_in : Env → ℕ → Map ℕ (List ℕ) → List ℕ → State → State × Option (List ℕ)
get_in env uid m (a ∷ set) s = (s, some (a ∷ set))
get_in env uid m [] s = (seeded uid (route_get env uid) m s, route_get env uid)

pub get : Env → ℕ → State → State × Option (List ℕ)
get env uid s = elim s.routes [
  | none ↦ (s, route_get env uid)
  | some m ↦ get_in env uid m (addrs_of (lookup uid m)) s
]

pub add_route : ℕ → ℕ → Map ℕ (List ℕ) → Map ℕ (List ℕ)
add_route uid addr m =
    let set = addrs_of (lookup uid m) in
    insert uid (if contains set addr then set else set ++ addr ∷ []) m

-- The set without the address; an empty set goes.
abbrev pub keep_set : ℕ → List ℕ → Map ℕ (List ℕ) → Map ℕ (List ℕ)
keep_set uid [] m = erase uid m
keep_set uid (a ∷ set) m = insert uid (a ∷ set) m

pub rem_route : ℕ → ℕ → Map ℕ (List ℕ) → Map ℕ (List ℕ)
rem_route uid addr m = elim (lookup uid m) [
  | none ↦ m
  | some set ↦ keep_set uid (keep_if (λ a. not (a == addr)) set) m
]

abbrev pub reset : Map ℕ (List ℕ)
reset = []

-- The loop over addresses: one delivery is enough, and all are tried.
pub push_each : Env → List ℕ → Bool → State → State × Bool
push_each env [] delivered s = (s, delivered)
push_each env (a ∷ addrs) delivered s =
    push_each env addrs (if env.pushes a then true else delivered)
      (record s { tried = a ∷ s.tried })

-- A resolution that fails leaves the old list.
pub snapshot_instances : Env → State → State
snapshot_instances env s =
    if env.recent
    then s
    else elim env.resolved [ none ↦ s | some addrs ↦ record s { instances = addrs } ]

pub push_all : Env → State → State × Bool
push_all env s = let s1 = snapshot_instances env s in push_each env s1.instances false s1

abbrev pub or_all : Env → State × Bool → State × Bool
or_all env (s, true) = (s, true)
or_all env (s, false) = push_all env s

abbrev pub push_to : Env → State × Option (List ℕ) → State × Bool
push_to env (s, none) = push_all env s
push_to env (s, some addrs) = or_all env (push_each env addrs false s)

pub push_routed : Env → ℕ → State → State × Bool
push_routed env uid s = push_to env (get env uid s)
