-- ===== src/Message/Conversations.antt =====
-- CreateConv of internal/message/conversations.go, with GetConvMeta and SetConvMeta of
-- internal/cache/cache.go and the call of AddGroupMembers. A uid that is not positive is 0 here. An error
-- without a code of its own is code_internal. What the outside gives in a call is its Env.
pub mod Index
pub mod Groups
pub mod Singles
pub mod Once
mod Tests
use yim.Base.{
  nat_eq, pair_eq, ℕ, ◌+◌, Bool, true, false, not, ◌&&◌, ◌||◌, Option, none, some, List, [], ◌∷◌,
  ◌++◌, ltb, ◌==◌, if◌then◌else◌, contains, length,
}
use yim.Base.Map.{Map, lookup, insert, insert_ignore, erase, has}
use yim.Relation.{code_internal, code_not_friends, Result, ok, err, ◌>>=◌, ◌>>◌, guard, exec}
use yim.Relation.Group.{Conv, Faults, clipped, add_group_members}
use yim.Relation.Group as Group

pub data ConvType : Type 0 where
  unknown single group : ConvType

-- The columns of conversations that the relation service leaves alone.
pub record Head : Type 0 where
  pub type : ConvType
  pub last_seq : ℕ
  pub create_time_ms : ℕ

pub record ConvMeta : Type 0 where
  pub conv_id : ℕ
  pub type : ConvType
  pub member_uids : List ℕ
  pub last_seq : ℕ
  pub create_time_ms : ℕ
  pub name : List ℕ
  pub avatar : List ℕ

-- `tables` are those that the relation service writes too; `metas` is Redis.
pub record Store : Type 0 where
  pub tables : Group.Store
  pub heads : Map ℕ Head
  pub single_chat_index : Map (ℕ × ℕ) ℕ
  pub metas : Map ℕ ConvMeta

pub data Stmt : Type 0 where
  select_index select_conv begin_tx insert_conv insert_index commit_tx redis_get redis_set : Stmt
  insert_user_conv : ℕ → Stmt

-- `rel`: a relation service is there; `friendship` is its answer to CheckFriendship. `now` is the clock of
-- the process and `db_now` that of the database; `reply_lost`: AddGroupMembers is done but its answer
-- does not arrive.
pub record Env : Type 0 where
  pub fails : Stmt → Bool
  pub rel : Bool
  pub friendship : ℕ → ℕ → Result Bool
  pub conv_id : Option ℕ
  pub now : ℕ
  pub db_now : ℕ
  pub group_fails : Faults
  pub group_now : ℕ
  pub reply_lost : Bool

-- The uids so far, and those to come: each once, in the order of the first.
pub unique : List ℕ → List ℕ → Result (List ℕ)
unique uniq [] = ok uniq
unique uniq (uid ∷ members) =
    if uid == 0
    then err code_internal
    else unique (if contains uniq uid then uniq else uniq ++ uid ∷ []) members

pub sorted : ℕ → ℕ → ℕ × ℕ
sorted a b = if ltb b a then (b, a) else (a, b)

pub set_conv_meta : Env → ConvMeta → Store → Store
set_conv_meta env m s =
    if env.fails redis_set then s else record s { metas = insert m.conv_id m s.metas }

-- The row, in both of its parts.
abbrev pub meta_of : ℕ → Option Head → Option Conv → Option ConvMeta
meta_of conv none row = none
meta_of conv (some head) none = none
meta_of conv (some head) (some row) = some (record {
  conv_id = conv;
  type = head.type;
  member_uids = row.member_uids;
  last_seq = head.last_seq;
  create_time_ms = head.create_time_ms;
  name = row.name;
  avatar = row.avatar;
})

abbrev pub loaded : Env → Option ConvMeta → Store → Store × Result ConvMeta
loaded env none s = (s, err code_internal)
loaded env (some m) s = (set_conv_meta env m s, ok m)

pub load_meta : Env → ℕ → Store → Store × Result ConvMeta
load_meta env conv s =
    if env.fails select_conv
    then (s, err code_internal)
    else loaded env (meta_of conv (lookup conv s.heads) (lookup conv s.tables.conversations)) s

pub get_conv_meta : Env → ℕ → Store → Store × Result ConvMeta
get_conv_meta env conv s =
    if env.fails redis_get
    then load_meta env conv s
    else elim (lookup conv s.metas) [ none ↦ load_meta env conv s | some m ↦ (s, ok m) ]

-- `if s.rel != nil`: an error of the relation service is a refusal.
pub check_friends : Env → ℕ → ℕ → Result (Unit {0})
check_friends env a b =
    if env.rel
    then elim (env.friendship a b) [
      | err code ↦ err code_not_friends
      | ok friends ↦ guard friends code_not_friends
    ]
    else ok tt

pub insert_user_convs : Env → ℕ → List ℕ → Store → Result Store
insert_user_convs env conv [] s = ok s
insert_user_convs env conv (uid ∷ uids) s = do
  exec (env.fails (insert_user_conv uid)) code_internal
  insert_user_convs env conv uids (record s {
    tables = record s.tables {
      user_conversations = insert_ignore (uid, conv) env.now s.tables.user_conversations;
    };
  })

pub insert_row : Env → ℕ → ConvType → List ℕ → List ℕ → Store → Store
insert_row env conv type members name s = record s {
  tables = record s.tables {
    conversations =
        insert conv (record { member_uids = members; name = name; avatar = [] })
          s.tables.conversations;
  };
  heads = insert conv (record { type = type; last_seq = 0; create_time_ms = env.db_now }) s.heads;
}

-- A primary key that is taken fails the statement.
pub insert_single : Env → ℕ → ℕ × ℕ → Store → Result Store
insert_single env conv key s = do
  exec (env.fails insert_index || has key s.single_chat_index) code_internal
  ok (record s { single_chat_index = insert key conv s.single_chat_index })

abbrev pub index_pair : Env → ℕ → ConvType → List ℕ → Store → Result Store
index_pair env conv single (a ∷ b ∷ uids) s = insert_single env conv (a, b) s
index_pair env conv single [] s = ok s
index_pair env conv single (a ∷ []) s = ok s
index_pair env conv unknown members s = ok s
index_pair env conv group members s = ok s

pub insert_tx : Env → ℕ → ConvType → List ℕ → List ℕ → Store → Result Store
insert_tx env conv type members name s = do
  exec (env.fails begin_tx) code_internal
  exec (env.fails insert_conv || has conv s.tables.conversations) code_internal
  s1 ← insert_user_convs env conv members (insert_row env conv type members name s)
  s2 ← index_pair env conv type members s1
  exec (env.fails commit_tx) code_internal
  ok s2

abbrev pub new_meta : Env → ℕ → ConvType → List ℕ → List ℕ → ConvMeta
new_meta env conv type members name = record {
  conv_id = conv;
  type = type;
  member_uids = members;
  last_seq = 0;
  create_time_ms = env.now;
  name = name;
  avatar = [];
}

-- The answer of AddGroupMembers, whose success has dropped the entry of Redis.
abbrev pub seeded :
    Env → ConvMeta → Store → Group.Store × Option ℕ → Store × Result (ConvMeta × Bool)
seeded env m s (tables, some code) = (record s { tables = tables }, err code_internal)
seeded env m s (tables, none) = (
  record s { tables = tables; metas = erase m.conv_id s.metas },
  if env.reply_lost then err code_internal else ok (m, false),
)

abbrev pub seed : Env → ConvMeta → ℕ → Store → Store × Result (ConvMeta × Bool)
seed env m owner s =
    seeded env m s
      (add_group_members env.group_fails env.group_now m.conv_id m.member_uids owner s.tables)

abbrev pub is_group : ConvType → Bool
is_group unknown = false
is_group single = false
is_group group = true

abbrev pub committed : Env → ConvMeta → ℕ → Store → Store × Result (ConvMeta × Bool)
committed env m owner s =
    if is_group m.type && env.rel then seed env m owner s else (s, ok (m, false))

-- The answer of AllocID is there.
pub create_as :
    Env → ConvType → List ℕ → ℕ → List ℕ → Store → Option ℕ → Store × Result (ConvMeta × Bool)
create_as env type members owner name s none = (s, err code_internal)
create_as env type members owner name s (some conv) =
    elim (insert_tx env conv type members name s) [
      | err code ↦ (s, err code)
      | ok s1 ↦
          let m = new_meta env conv type members name in
          committed env m owner (set_conv_meta env m s1)
    ]

abbrev pub create_new :
    Env → ConvType → List ℕ → ℕ → List ℕ → Store → Store × Result (ConvMeta × Bool)
create_new env type members owner name s = create_as env type members owner name s env.conv_id

abbrev pub existing : Store × Result ConvMeta → Store × Result (ConvMeta × Bool)
existing (s, err code) = (s, err code)
existing (s, ok m) = (s, ok (m, true))

pub create_pair : Env → ℕ × ℕ → ℕ → List ℕ → Store → Store × Result (ConvMeta × Bool)
create_pair env (a, b) owner name s = elim (check_friends env a b) [
  | err code ↦ (s, err code)
  | ok _ ↦
      if env.fails select_index
      then (s, err code_internal)
      else elim (lookup (a, b) s.single_chat_index) [
        | some conv ↦ existing (get_conv_meta env conv s)
        | none ↦ create_new env single (a ∷ b ∷ []) owner name s
      ]
]

abbrev pub create_single : Env → List ℕ → ℕ → List ℕ → Store → Store × Result (ConvMeta × Bool)
create_single env (a ∷ b ∷ []) owner name s = create_pair env (sorted a b) owner name s
create_single env [] owner name s = (s, err code_internal)
create_single env (a ∷ []) owner name s = (s, err code_internal)
create_single env (a ∷ b ∷ c ∷ members) owner name s = (s, err code_internal)

abbrev pub create_many :
    Env → ConvType → List ℕ → ℕ → List ℕ → Store → Store × Result (ConvMeta × Bool)
create_many env type members owner name s =
    if ltb (length members) 2
    then (s, err code_internal)
    else create_new env type members owner (clipped name) s

abbrev pub create_kind :
    Env → ConvType → List ℕ → ℕ → List ℕ → Store → Store × Result (ConvMeta × Bool)
create_kind env single members owner name s = create_single env members owner name s
create_kind env unknown members owner name s = create_many env unknown members owner name s
create_kind env group members owner name s = create_many env group members owner name s

-- The conversation and whether it was there before.
pub create_conv : Env → ConvType → List ℕ → ℕ → List ℕ → Store → Store × Result (ConvMeta × Bool)
create_conv env type members owner name s = elim (unique [] members) [
  | err code ↦ (s, err code)
  | ok uniq ↦ create_kind env type uniq owner name s
]
