-- ===== src/Message/Conversations/Tests.antt =====
-- Runs and instances of CreateConv (internal/message/conversations.go) on an empty database.
use yim.Base.{nat_eq, pair_eq, ℕ, ◌≡◌, refl, true, false, some, [], ◌∷◌, arith}
use yim.Base.Map.{lookup, has, insert, insert_ignore, erase}
use yim.Relation.{ok}
use yim.Relation.Group as Group
use yim.Relation.Group.Agreement.{Agrees}
use yim.Relation.Group.Owner.{IsOwned}
use yim.Message.Conversations.{
  single, group, ConvMeta, Store, Env, unique, sorted, set_conv_meta, get_conv_meta, check_friends,
  insert_user_convs, insert_row, insert_single, insert_tx, create_as, create_pair, create_conv,
}
use yim.Message.Conversations.Groups.{IsFresh, create_conv-group}
use yim.Message.Conversations.Singles.{IsKeyed}
use yim.Message.Conversations.Once.{Request, create, run, IsFor, create-same_conv}

abbrev empty : Store
empty = record {
  tables = record {
    members = [];
    user_conversations = [];
    conversations = [];
    invalidated = [];
    events = [];
  };
  heads = [];
  single_chat_index = [];
  metas = [];
}

-- Nothing fails, and all are friends.
abbrev env : ℕ → Env
env conv = record {
  fails = λ stmt. false;
  rel = true;
  friendship = λ a b. ok true;
  conv_id = some conv;
  now = 100;
  db_now = 101;
  group_fails = λ stmt. false;
  group_now = 102;
  reply_lost = false;
}

abbrev club : ConvMeta
club = record {
  conv_id = 7;
  type = group;
  member_uids = 1 ∷ 2 ∷ 3 ∷ [];
  last_seq = 0;
  create_time_ms = 100;
  name = 65 ∷ [];
  avatar = [];
}

club_made :
    (create_conv (env 7) group (1 ∷ 2 ∷ 1 ∷ 3 ∷ []) 1 (32 ∷ 65 ∷ []) empty).1 ≡ ok (club, false)
unfolding create run create_conv create_as create_pair unique sorted set_conv_meta get_conv_meta
    check_friends insert_user_convs insert_row insert_single insert_tx lookup has insert
    insert_ignore erase Group.add_group_members Group.add_tx Group.check_owner Group.count_rows
    Group.insert_members Group.mutate_conv_members Group.load_conv Group.insert_one Group.emit
    Group.invalidate_conv Group.new_role Group.append_missing Group.remove_uid Group.clipped
    Group.trim_space Group.trim_left Group.trim_right Group.is_space
club_made = refl

empty-IsFresh : IsFresh 7 empty
unfolding has lookup Group.count_rows
empty-IsFresh = record { unseeded = refl; unindexed = λ u. refl }

create_conv-group_example :
    (club.conv_id ≡ 7)
    × IsOwned 7 1 (create_conv (env 7) group (1 ∷ 2 ∷ 1 ∷ 3 ∷ []) 1 (32 ∷ 65 ∷ []) empty).0.tables
    × Agrees 7 (create_conv (env 7) group (1 ∷ 2 ∷ 1 ∷ 3 ∷ []) 1 (32 ∷ 65 ∷ []) empty).0.tables
create_conv-group_example =
    create_conv-group (env 7) 7 (1 ∷ 2 ∷ 1 ∷ 3 ∷ []) 1 (32 ∷ 65 ∷ []) empty (club, false) refl refl
      empty-IsFresh club_made

abbrev one : Request
one = record { env = env 8; type = single; members = 2 ∷ 1 ∷ []; owner = 2; name = [] }

abbrev other : Request
other = record { env = env 9; type = group; members = 1 ∷ 2 ∷ 3 ∷ []; owner = 3; name = [] }

abbrev again : Request
again = record { env = env 10; type = single; members = 1 ∷ 2 ∷ 1 ∷ []; owner = 1; name = [] }

abbrev pair_meta : ConvMeta
pair_meta = record {
  conv_id = 8;
  type = single;
  member_uids = 1 ∷ 2 ∷ [];
  last_seq = 0;
  create_time_ms = 100;
  name = [];
  avatar = [];
}

one_made : (create one empty).1 ≡ ok (pair_meta, false)
unfolding create run create_conv create_as create_pair unique sorted set_conv_meta get_conv_meta
    check_friends insert_user_convs insert_row insert_single insert_tx lookup has insert
    insert_ignore erase Group.add_group_members Group.add_tx Group.check_owner Group.count_rows
    Group.insert_members Group.mutate_conv_members Group.load_conv Group.insert_one Group.emit
    Group.invalidate_conv Group.new_role Group.append_missing Group.remove_uid Group.clipped
    Group.trim_space Group.trim_left Group.trim_right Group.is_space
one_made = refl

again_found : (create again (run (other ∷ []) (create one empty).0)).1 ≡ ok (pair_meta, true)
unfolding create run create_conv create_as create_pair unique sorted set_conv_meta get_conv_meta
    check_friends insert_user_convs insert_row insert_single insert_tx lookup has insert
    insert_ignore erase Group.add_group_members Group.add_tx Group.check_owner Group.count_rows
    Group.insert_members Group.mutate_conv_members Group.load_conv Group.insert_one Group.emit
    Group.invalidate_conv Group.new_role Group.append_missing Group.remove_uid Group.clipped
    Group.trim_space Group.trim_left Group.trim_right Group.is_space
again_found = refl

empty-IsKeyed : IsKeyed empty
unfolding lookup
empty-IsKeyed = λ c m found. absurd (ground arith)

one-IsFor : IsFor (1, 2) one
unfolding unique sorted
one-IsFor = record { left = 2; right = 1; type = refl; members = refl; pair = refl }

again-IsFor : IsFor (1, 2) again
unfolding unique sorted
again-IsFor = record { left = 1; right = 2; type = refl; members = refl; pair = refl }

create-same_conv_example : pair_meta.conv_id ≡ pair_meta.conv_id
create-same_conv_example =
    create-same_conv (1, 2) one again (other ∷ []) empty (pair_meta, false) (pair_meta, true)
      empty-IsKeyed one-IsFor again-IsFor one_made again_found
