-- ===== src/Message/Marks/Tests.antt =====
-- A run and an instance of markBatcher (internal/message/delivery.go) with one mark.
use yim.Base.{nat_eq, pair_eq, ℕ, ◌≡◌, refl, Bool, List, [], ◌∷◌, ◌==◌}
use yim.Store.Sharding.{default_slot_table}
use yim.Message.Marks.{Mark, State, shard_of, new_mark_batcher}
use yim.Message.Marks.Written.{Event, adds, flushes}

abbrev mark : Mark
mark = (130, 9)

abbrev idle : State
idle = new_mark_batcher (λ _. (mark, 0) ∷ [])

-- The first database fails.
abbrev fails : ℕ → Bool
fails i = i == 0

abbrev events : List Event
events = adds mark ∷ flushes 0 ∷ flushes 1 ∷ []

second_database : shard_of default_slot_table mark ≡ 1
unfolding shard_of yim.Store.Sharding.route_msg default_slot_table yim.Store.Sharding.default_from
    yim.Store.Sharding.mod_slot yim.Store.Sharding.default_shard
second_database = refl
