-- ===== src/Store/Sharding.antt =====
-- internal/store/sharding.go: the slot table and the route of a conversation. `ℤ` is int64; the shift of
-- ConvGene is the division rounded down.
pub mod Route
pub mod Tests
use yim.Base.{
  ℕ, zero, suc, ◌+◌, ◌-◌, ◌*◌, ◌/◌, ◌%◌, Bool, Option, none, some, List, [], ◌∷◌, ◌++◌, ◌==◌,
  if◌then◌else◌, get_elem?, set,
}

-- negsuc n is -(n + 1).
pub data ℤ : Type 0 where
  pos negsuc : ℕ → ℤ

abbrev pub slot_count : ℕ
slot_count = 1024

abbrev pub msg_db_count : ℕ
msg_db_count = 2

abbrev pub msg_table_per_db : ℕ
msg_table_per_db = 4

pub record MsgShard : Type 0 where
  pub db_index : ℕ
  pub table_index : ℕ

pub record SlotTable : Type 0 where
  pub mapping : List MsgShard
  pub overrides : ℕ

unfoldable pub default_shard : ℕ → MsgShard
default_shard slot =
    let group = slot / (slot_count / (msg_db_count * msg_table_per_db)) in
    record { db_index = group % msg_db_count; table_index = group / msg_db_count }

-- The loop from `slot` on, for `left` rounds.
unfoldable pub default_from : ℕ → ℕ → List MsgShard
default_from zero slot = []
default_from (suc left) slot = default_shard slot ∷ default_from left (slot + 1)

unfoldable pub default_slot_table : SlotTable
default_slot_table = record { mapping = default_from slot_count 0; overrides = 0 }

-- Go's % has the sign of its first operand; a negative remainder is moved up by m.
unfoldable pub mod_slot : ℤ → ℕ → ℕ
mod_slot (pos n) m = n % m
mod_slot (negsuc n) m = if (n + 1) % m == 0 then 0 else m - (n + 1) % m

-- none: an index out of range.
unfoldable pub route_msg : SlotTable → ℤ → Option MsgShard
route_msg t conv_id = get_elem? t.mapping (mod_slot conv_id slot_count)

unfoldable pub tables_of : ℕ → ℕ → ℕ → List MsgShard
tables_of zero db tb = []
tables_of (suc left) db tb = record { db_index = db; table_index = tb } ∷ tables_of left db (tb + 1)

-- The loop over the databases from db on, for `left` rounds.
unfoldable pub shards_from : ℕ → ℕ → List MsgShard
shards_from zero db = []
shards_from (suc left) db = tables_of msg_table_per_db db 0 ++ shards_from left (db + 1)

unfoldable pub all_msg_shards : List MsgShard
all_msg_shards = shards_from msg_db_count 0

unfoldable pub set_override : ℕ → MsgShard → SlotTable → SlotTable
set_override slot s t = record { mapping = set t.mapping slot s; overrides = t.overrides + 1 }

unfoldable pub conv_gene : ℤ → ℕ
conv_gene (pos n) = n / 1024 % 4096
conv_gene (negsuc n) = 4095 - n / 1024 % 4096
