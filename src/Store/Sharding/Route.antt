-- ===== src/Store/Sharding/Route.antt =====
-- RouteMsg and SetOverride of internal/store/sharding.go.
use yim.Base.{
  ℕ, zero, suc, ◌+◌, ◌*◌, ◌≡◌, ◌<◌, refl, sym, ap, ◌∙◌, some, List, [], ◌∷◌, arith, ◌==◌,
  if◌then◌else◌, get_elem?, set, length,
}
use yim.Store.Sharding.{
  ℤ, pos, negsuc, slot_count, msg_db_count, msg_table_per_db, MsgShard, SlotTable, default_shard,
  default_from, default_slot_table, mod_slot, route_msg, shards_from, tables_of, all_msg_shards,
  set_override,
}

mod_slot-lt : (v : ℤ) → mod_slot v slot_count < slot_count
unfolding mod_slot
mod_slot-lt (pos n) = omega arith
mod_slot-lt (negsuc n) = ground arith

default_from-get :
    (left slot i : ℕ)
    → i < left
    → get_elem? (default_from left slot) i ≡ some (default_shard (slot + i))
unfolding default_from
default_from-get zero slot i lt = absurd (omega (arith, lt))
default_from-get (suc left) slot zero lt = ap (λ n. some (default_shard n)) (omega arith)
default_from-get (suc left) slot (suc i) lt =
    default_from-get left (slot + 1) i (omega (arith, lt))
    ∙ ap (λ n. some (default_shard n)) (omega arith)

length-default_from : (left slot : ℕ) → length (default_from left slot) ≡ left
unfolding default_from
length-default_from zero slot = refl
length-default_from (suc left) slot = ap suc (length-default_from left (slot + 1))

pub length-default : length default_slot_table.mapping ≡ slot_count
unfolding default_slot_table
length-default = length-default_from slot_count 0

-- Every conversation, also of a negative id, has a route in the default table: the databases alternate
-- by groups of 128 slots, and both indices are in range.
pub route_msg-default :
    (v : ℤ)
    → (route_msg default_slot_table v ≡ some (default_shard (mod_slot v slot_count)))
      × ((default_shard (mod_slot v slot_count)).db_index < msg_db_count)
      × ((default_shard (mod_slot v slot_count)).table_index < msg_table_per_db)
unfolding route_msg default_slot_table default_shard
route_msg-default v = (
  default_from-get slot_count 0 (mod_slot v slot_count) (mod_slot-lt v)
      ∙ ap (λ n. some (default_shard n)) (omega arith),
  omega arith,
  omega (arith, mod_slot-lt v),
)

get-set_shard :
    (ss : List MsgShard) (i j : ℕ) (s : MsgShard)
    → j < length ss
    → get_elem? (set ss i s) j ≡ (if i == j then some s else get_elem? ss j)
get-set_shard [] i j s lt = absurd (omega (arith, lt))
get-set_shard (x ∷ ss) zero zero s lt = refl
get-set_shard (x ∷ ss) zero (suc j) s lt = ground arith
get-set_shard (x ∷ ss) (suc i) zero s lt = ground arith
get-set_shard (x ∷ ss) (suc i) (suc j) s lt =
    ground (arith, get-set_shard ss i j s (omega (arith, lt)))

-- An override moves the conversations of its slot to the new shard, and no others.
pub route_msg-set_override :
    (slot : ℕ) (s : MsgShard) (t : SlotTable) (v : ℤ)
    → length t.mapping ≡ slot_count
    → route_msg (set_override slot s t) v
      ≡ (if slot == mod_slot v slot_count then some s else route_msg t v)
unfolding route_msg set_override
route_msg-set_override slot s t v full =
    get-set_shard t.mapping slot (mod_slot v slot_count) s (omega (arith, full, mod_slot-lt v))

scan_at :
    (db tb : ℕ)
    → db < msg_db_count
    → tb < msg_table_per_db
    → get_elem? all_msg_shards (msg_table_per_db * db + tb)
      ≡ some (record { db_index = db; table_index = tb })
unfolding all_msg_shards shards_from tables_of
scan_at zero zero db_lt tb_lt = refl
scan_at zero (suc zero) db_lt tb_lt = refl
scan_at zero (suc (suc zero)) db_lt tb_lt = refl
scan_at zero (suc (suc (suc zero))) db_lt tb_lt = refl
scan_at zero (suc (suc (suc (suc tb)))) db_lt tb_lt = absurd (omega (arith, tb_lt))
scan_at (suc zero) zero db_lt tb_lt = refl
scan_at (suc zero) (suc zero) db_lt tb_lt = refl
scan_at (suc zero) (suc (suc zero)) db_lt tb_lt = refl
scan_at (suc zero) (suc (suc (suc zero))) db_lt tb_lt = refl
scan_at (suc zero) (suc (suc (suc (suc tb)))) db_lt tb_lt = absurd (omega (arith, tb_lt))
scan_at (suc (suc db)) tb db_lt tb_lt = absurd (omega (arith, db_lt))

-- The scan over all shards visits each shard to which the default table routes a conversation: at
-- position 4 * db_index + table_index.
pub all_msg_shards-default :
    (v : ℤ)
    → get_elem? all_msg_shards (
        msg_table_per_db * (default_shard (mod_slot v slot_count)).db_index
        + (default_shard (mod_slot v slot_count)).table_index)
      ≡ route_msg default_slot_table v
all_msg_shards-default v =
    scan_at (default_shard (mod_slot v slot_count)).db_index
      (default_shard (mod_slot v slot_count)).table_index (route_msg-default v).1
      (route_msg-default v).2
    ∙ sym (route_msg-default v).0
