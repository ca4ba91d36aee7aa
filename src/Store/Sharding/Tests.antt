-- ===== src/Store/Sharding/Tests.antt =====
-- Runs and instances of the routes (internal/store/sharding.go).
use yim.Base.{◌≡◌, refl}
use yim.Store.Sharding.{negsuc, MsgShard, slot_count, mod_slot}

abbrev target : MsgShard
target = record { db_index = 1; table_index = 3 }

negative : mod_slot (negsuc 4) slot_count ≡ 1019
unfolding mod_slot
negative = refl
