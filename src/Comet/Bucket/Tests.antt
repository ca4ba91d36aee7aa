-- ===== src/Comet/Bucket/Tests.antt =====
-- Runs and instances of Keeper (internal/comet/bucket.go) with two users of one bucket.
use yim.Base.{
  ℕ, nat_eq, length, ◌≡◌, refl, Option, none, some, Bool, true, false, ◌&&◌, ◌==◌, if◌then◌else◌,
}
use yim.Comet.Bucket.{Conn, Keeper, bucket_count, new_keeper, add, remove, get}
use yim.Comet.Bucket.Index.{get-add_conn}

abbrev first : Conn
first = record { id = 1; uid = 5; device_id = 7 }

abbrev second : Conn
second = record { id = 2; uid = 21; device_id = 7 }

abbrev newer : Conn
newer = record { id = 3; uid = 5; device_id = 7 }

abbrev online : Keeper
online = add second (add first new_keeper)

online-full : length online ≡ bucket_count
unfolding add yim.Comet.Bucket.put new_keeper yim.Comet.Bucket.bucket_for
online-full = refl

last_gone : (remove first online).1 ≡ true
unfolding remove yim.Base.Map.lookup yim.Comet.Bucket.bucket add yim.Comet.Bucket.put new_keeper
    yim.Comet.Bucket.bucket_for yim.Base.Map.insert yim.Comet.Bucket.shrink yim.Comet.Bucket.without
    yim.Comet.Bucket.devices_of yim.Base.Map.erase
last_gone = refl

newer_stays : get 5 7 (remove first (add newer online)).0 ≡ some newer
unfolding get yim.Base.Map.lookup yim.Comet.Bucket.devices_of yim.Comet.Bucket.bucket remove add
    yim.Comet.Bucket.put new_keeper yim.Comet.Bucket.bucket_for yim.Base.Map.insert
    yim.Comet.Bucket.shrink yim.Comet.Bucket.without
newer_stays = refl

get-add_conn_example :
    get 5 7 (add newer online)
    ≡ (if (newer.uid == 5) && (newer.device_id == 7) then some newer else get 5 7 online)
get-add_conn_example = get-add_conn newer online 5 7 online-full
