-- ===== src/Comet/Bucket.antt =====
-- Keeper of internal/comet/bucket.go: the connections of an instance by user and device, in 16 buckets.
-- A connection is its identity, and a device id a number; the field lastAct of the source is an argument of `sweep`.
pub mod Index
pub mod Tests
use yim.Base.{
  nat_eq, ℕ, zero, suc, ◌+◌, ◌%◌, Bool, true, false, Option, none, some, List, [], ◌∷◌, ◌++◌, ltb,
  ◌==◌, if◌then◌else◌, get_elem?, set, replicate, length,
}
use yim.Base.Map.{Map, lookup, insert, erase}

abbrev pub bucket_count : ℕ
bucket_count = 16

-- uid 0 is a connection before its authentication.
pub record Conn : Type 0 where
  pub id : ℕ
  pub uid : ℕ
  pub device_id : ℕ

abbrev pub Devices : Type 0
Devices = Map ℕ Conn

-- uid ↦ device ↦ connection.
abbrev pub Bucket : Type 0
Bucket = Map ℕ Devices

abbrev pub Keeper : Type 0
Keeper = List Bucket

unfoldable pub new_keeper : Keeper
new_keeper = replicate bucket_count []

-- uid & 15.
unfoldable pub bucket_for : ℕ → ℕ
bucket_for uid = uid % bucket_count

abbrev pub bucket_or_empty : Option Bucket → Bucket
bucket_or_empty none = []
bucket_or_empty (some b) = b

unfoldable pub bucket : Keeper → ℕ → Bucket
bucket k uid = bucket_or_empty (get_elem? k (bucket_for uid))

abbrev pub devices_or_empty : Option Devices → Devices
devices_or_empty none = []
devices_or_empty (some dm) = dm

unfoldable pub devices_of : Keeper → ℕ → Devices
devices_of k uid = devices_or_empty (lookup uid (bucket k uid))

unfoldable pub put : Keeper → ℕ → Bucket → Keeper
put k uid b = set k (bucket_for uid) b

unfoldable pub add : Conn → Keeper → Keeper
add c k = put k c.uid (insert c.uid (insert c.device_id c (devices_of k c.uid)) (bucket k c.uid))

-- `cur == c`: the slot may belong to a newer connection.
unfoldable pub without : Conn → Devices → Devices
without c dm = elim (lookup c.device_id dm) [
  | none ↦ dm
  | some cur ↦ if cur.id == c.id then erase c.device_id dm else dm
]

-- The user's map goes with the last connection; `true` tells the caller so.
unfoldable pub shrink : Keeper → ℕ → Devices → Keeper × Bool
shrink k uid [] = (put k uid (erase uid (bucket k uid)), true)
shrink k uid (d ∷ dm) = (put k uid (insert uid (d ∷ dm) (bucket k uid)), false)

abbrev pub remove_from : Conn → Keeper → Option Devices → Keeper × Bool
remove_from c k none = (k, false)
remove_from c k (some dm) = shrink k c.uid (without c dm)

unfoldable pub remove : Conn → Keeper → Keeper × Bool
remove c k = if c.uid == 0 then (k, false) else remove_from c k (lookup c.uid (bucket k c.uid))

unfoldable pub get : ℕ → ℕ → Keeper → Option Conn
get uid device_id k = lookup device_id (devices_of k uid)

abbrev pub conns : Devices → List Conn
conns [] = []
conns ((_, c) ∷ dm) = c ∷ conns dm

unfoldable pub devices : ℕ → Keeper → List Conn
devices uid k = conns (devices_of k uid)

abbrev pub bucket_conns : Bucket → List Conn
bucket_conns [] = []
bucket_conns ((_, dm) ∷ b) = conns dm ++ bucket_conns b

unfoldable pub all : Keeper → List Conn
all [] = []
all (b ∷ k) = bucket_conns b ++ all k

unfoldable pub count : Keeper → ℕ
count k = length (all k)

-- `idle` is IdleMs of a connection now.
unfoldable pub sweep_from : (Conn → ℕ) → ℕ → List Conn → List Conn
sweep_from idle idle_ms [] = []
sweep_from idle idle_ms (c ∷ cs) =
    let rest = sweep_from idle idle_ms cs in if ltb idle_ms (idle c) then c ∷ rest else rest

unfoldable pub sweep : (Conn → ℕ) → ℕ → Keeper → List Conn
sweep idle idle_ms k = sweep_from idle idle_ms (all k)
