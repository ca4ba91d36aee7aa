-- ===== src/Message/Routes/Tests.antt =====
-- Runs and instances of PushRouted (internal/message/comet_cluster.go) with instances 10, 11 and 12.
use yim.Base.{nat_eq, ◌≡◌, refl, true, false, some, [], ◌∷◌, ◌==◌}
use yim.Base.Map.{lookup, insert, erase}
use yim.Message.Routes.{
  State, Env, seed, get, add_route, rem_route, push_each, snapshot_instances, push_all, push_routed,
}
use yim.Message.Routes.Pushed.{add-hides}

-- The user is on instance 10 and 11 by Redis; 11 does not answer.
abbrev env : Env
env = record {
  members = λ uid. some (10 ∷ 11 ∷ []);
  recent = false;
  resolved = some (10 ∷ 11 ∷ 12 ∷ []);
  pushes = λ addr. addr == 10;
}

abbrev idle : State
idle = record { routes = some []; instances = []; tried = [] }

-- Only a stale address is known: it fails, and all instances are tried.
abbrev stale : State
stale = record idle { routes = some ((1, 11 ∷ []) ∷ []) }

stale_pushed : (push_routed env 1 stale).0.tried ≡ 12 ∷ 11 ∷ 10 ∷ 11 ∷ []
unfolding push_routed get push_each push_all snapshot_instances lookup
stale_pushed = refl

removed : rem_route 1 11 (seed 1 (11 ∷ 11 ∷ []) []) ≡ []
unfolding rem_route seed lookup insert erase
removed = refl

-- The event of instance 10 comes before the first push, while 11 has an older connection.
abbrev fresh : State
fresh = record idle { routes = some (add_route 1 10 []) }

add-hides_example :
    ((push_routed env 1 fresh).1 ≡ true) × ((push_routed env 1 fresh).0.tried ≡ 10 ∷ [])
unfolding lookup
add-hides_example = add-hides env 1 10 [] fresh refl refl refl
