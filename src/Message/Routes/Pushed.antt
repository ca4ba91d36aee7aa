-- ===== src/Message/Routes/Pushed.antt =====
-- What PushRouted reaches (internal/message/comet_cluster.go, internal/message/route_cache.go).
use yim.Base.{
  nat_eq, ℕ, ◌≡◌, ap, ◌∙◌, Bool, true, false, none, some, List, [], ◌∷◌, ◌++◌, if◌then◌else◌,
  contains, arith, All,
}
use yim.Base.Map.{Map, lookup, lookup-insert_self}
use yim.Message.Routes.{
  State, Env, route_get, addrs_of, get_in, get, add_route, push_each, or_all, push_to, push_routed,
}

-- An address was tried, and it delivered.
abbrev pub Reached : Env → State → Type 0
Reached env s = (a : ℕ) × (contains s.tried a ≡ true) × (env.pushes a ≡ true)

-- No instance delivers.
abbrev pub Unreached : Env → State → Type 0
Unreached env s = All (λ a. env.pushes a ≡ false) s.instances

push_each-tried :
    (env : Env) (addrs : List ℕ) (delivered : Bool) (s : State) (a : ℕ)
    → contains s.tried a ≡ true
    → contains (push_each env addrs delivered s).0.tried a ≡ true
unfolding push_each
push_each-tried env [] delivered s a h = h
push_each-tried env (b ∷ addrs) delivered s a h =
    push_each-tried env addrs (if env.pushes b then true else delivered)
      (record s { tried = b ∷ s.tried }) a (ground (arith, h))

-- What an answer says.
abbrev Decides : Env → State × Bool → Type 0
Decides env r = (r.1 ≡ true → Reached env r.0) × (r.1 ≡ false → Unreached env r.0)

added :
    (uid b : ℕ) (m : Map ℕ (List ℕ))
    → lookup uid m ≡ none
    → lookup uid (add_route uid b m) ≡ some (b ∷ [])
unfolding add_route
added uid b m e =
    lookup-insert_self uid
      (if contains (addrs_of (lookup uid m)) b
        then addrs_of (lookup uid m)
        else addrs_of (lookup uid m) ++ b ∷ [])
      m
    ∙ ap (λ o. some (if contains (addrs_of o) b then addrs_of o else addrs_of o ++ b ∷ [])) e

-- When the cache does not know a user and the event comes that they are on instance b too, a push that b
-- delivers goes to b only, and ends with true: the instances that the user was on before are not tried.
pub add-hides :
    (env : Env) (uid b : ℕ) (m : Map ℕ (List ℕ)) (s : State)
    → lookup uid m ≡ none
    → env.pushes b ≡ true
    → s.routes ≡ some (add_route uid b m)
    → ((push_routed env uid s).1 ≡ true) × ((push_routed env uid s).0.tried ≡ b ∷ s.tried)
unfolding push_routed get push_each
add-hides env uid b m s unknown works cached =
    let hit : get env uid s ≡ (s, some (b ∷ [])) =
      ap
        (λ o. elim o [
          | none ↦ (s, route_get env uid)
          | some k ↦ get_in env uid k (addrs_of (lookup uid k)) s
        ])
        cached
      ∙ ap (λ o. get_in env uid (add_route uid b m) (addrs_of o) s) (added uid b m unknown) in
    let pushed : push_routed env uid s ≡ (record s { tried = b ∷ s.tried }, true) =
      ap (push_to env) hit
      ∙ ap (λ (c : Bool). or_all env (record s { tried = b ∷ s.tried }, if c then true else false))
          works in
    (ap (λ (r : State × Bool). r.1) pushed, ap (λ (r : State × Bool). r.0.tried) pushed)
