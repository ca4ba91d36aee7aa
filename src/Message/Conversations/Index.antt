-- ===== src/Message/Conversations/Index.antt =====
-- The transaction of CreateConv (internal/message/conversations.go), when it commits.
use yim.Base.{
  nat_eq, pair_eq, ℕ, ◌≡◌, refl, sym, ap, ◌∙◌, Bool, true, false, not, ◌&&◌, ◌||◌, Option, none,
  some, List, [], ◌∷◌, ◌==◌, contains, arith, inl, inr,
}
use yim.Base.Map.{Map, insert, insert_ignore, has, has-insert_ignore}
use yim.Relation.{ok, err, Result-cases}
use yim.Relation.Group.{Conv}
use yim.Message.Conversations.{
  ConvType, unknown, single, group, Head, Store, Env, insert_user_convs, insert_row, insert_single,
  index_pair, insert_tx, new_meta, set_conv_meta, committed, create_as,
}

-- What the loop over the members leaves when no statement fails.
unfoldable indexed : ℕ → ℕ → List ℕ → Store → Store
indexed now conv [] s = s
indexed now conv (uid ∷ uids) s = indexed now conv uids (record s {
  tables = record s.tables {
    user_conversations = insert_ignore (uid, conv) now s.tables.user_conversations;
  };
})

insert_user_convs-indexed :
    (env : Env) (conv : ℕ) (uids : List ℕ) (s t : Store)
    → insert_user_convs env conv uids s ≡ ok t
    → t ≡ indexed env.now conv uids s
unfolding insert_user_convs indexed
insert_user_convs-indexed env conv [] s t e = ground arith
insert_user_convs-indexed env conv (uid ∷ uids) s t e = ground (
  arith,
  insert_user_convs-indexed env conv uids
      (record s {
        tables = record s.tables {
          user_conversations = insert_ignore (uid, conv) env.now s.tables.user_conversations;
        };
      })
      t,
)

has-indexed :
    (now conv : ℕ) (uids : List ℕ) (s : Store) (u c : ℕ)
    → has (u, c) (indexed now conv uids s).tables.user_conversations
      ≡ (((conv == c) && contains uids u) || has (u, c) s.tables.user_conversations)
unfolding indexed
has-indexed now conv [] s u c = ground arith
has-indexed now conv (uid ∷ uids) s u c = ground (
  arith,
  has-indexed now conv uids
      (record s {
        tables = record s.tables {
          user_conversations = insert_ignore (uid, conv) now s.tables.user_conversations;
        };
      })
      u c,
  has-insert_ignore (uid, conv) (u, c) now s.tables.user_conversations,
)

-- The loop leaves the other tables alone.
indexed-rest :
    (now conv : ℕ) (uids : List ℕ) (s : Store)
    → ((indexed now conv uids s).tables.members ≡ s.tables.members)
      × ((indexed now conv uids s).tables.conversations ≡ s.tables.conversations)
      × ((indexed now conv uids s).heads ≡ s.heads)
      × ((indexed now conv uids s).metas ≡ s.metas)
      × ((indexed now conv uids s).single_chat_index ≡ s.single_chat_index)
unfolding indexed
indexed-rest now conv [] s = (refl, refl, refl, refl, refl)
indexed-rest now conv (uid ∷ uids) s = indexed-rest now conv uids (record s {
  tables = record s.tables {
    user_conversations = insert_ignore (uid, conv) now s.tables.user_conversations;
  };
})

-- The entry of single_chat_index that a conversation gets.
abbrev pub key_of : ConvType → List ℕ → Option (ℕ × ℕ)
key_of single (a ∷ b ∷ uids) = some (a, b)
key_of single [] = none
key_of single (a ∷ []) = none
key_of unknown members = none
key_of group members = none

abbrev pub with_key : Option (ℕ × ℕ) → ℕ → Map (ℕ × ℕ) ℕ → Map (ℕ × ℕ) ℕ
with_key none conv m = m
with_key (some key) conv m = insert key conv m

abbrev pub key_free : Option (ℕ × ℕ) → Map (ℕ × ℕ) ℕ → Bool
key_free none m = true
key_free (some key) m = not (has key m)

record Paired (key : Option (ℕ × ℕ)) (conv : ℕ) (s t : Store) : Type 0 where
  free : key_free key s.single_chat_index ≡ true
  index : t.single_chat_index ≡ with_key key conv s.single_chat_index
  tables : t.tables ≡ s.tables
  heads : t.heads ≡ s.heads
  metas : t.metas ≡ s.metas

same_store : (conv : ℕ) (a b : Store) → ok a ≡ ok b → Paired none conv a b
same_store conv a b e = record {
  free = refl;
  index = ground arith;
  tables = ground arith;
  heads = ground arith;
  metas = ground arith;
}

insert_single-Paired :
    (env : Env) (conv : ℕ) (key : ℕ × ℕ) (s t : Store)
    → insert_single env conv key s ≡ ok t
    → Paired (some key) conv s t
unfolding insert_single
insert_single-Paired env conv key s t e = record {
  free = ground arith;
  index = ground arith;
  tables = ground arith;
  heads = ground arith;
  metas = ground arith;
}

index_pair-Paired :
    (env : Env) (conv : ℕ) (type : ConvType) (members : List ℕ) (s t : Store)
    → index_pair env conv type members s ≡ ok t
    → Paired (key_of type members) conv s t
index_pair-Paired env conv single (a ∷ b ∷ uids) s t e = insert_single-Paired env conv (a, b) s t e
index_pair-Paired env conv single [] s t e = same_store conv s t e
index_pair-Paired env conv single (a ∷ []) s t e = same_store conv s t e
index_pair-Paired env conv unknown members s t e = same_store conv s t e
index_pair-Paired env conv group members s t e = same_store conv s t e

abbrev pub row_of : List ℕ → List ℕ → Conv
row_of members name = record { member_uids = members; name = name; avatar = [] }

abbrev pub head_of : Env → ConvType → Head
head_of env type = record { type = type; last_seq = 0; create_time_ms = env.db_now }

-- What a committed transaction has written.
pub record Inserted (env : Env) (conv : ℕ) (type : ConvType) (members name : List ℕ) (s t : Store)
    : Type 0 where
  pub free : has conv s.tables.conversations ≡ false
  pub seeds : t.tables.members ≡ s.tables.members
  pub conversations :
      t.tables.conversations ≡ insert conv (row_of members name) s.tables.conversations
  pub heads : t.heads ≡ insert conv (head_of env type) s.heads
  pub metas : t.metas ≡ s.metas
  pub user_convs :
      (u c : ℕ)
      → has (u, c) t.tables.user_conversations
        ≡ (((conv == c) && contains members u) || has (u, c) s.tables.user_conversations)
  pub key_was_free : key_free (key_of type members) s.single_chat_index ≡ true
  pub index : t.single_chat_index ≡ with_key (key_of type members) conv s.single_chat_index

insert_tx_parts :
    (env : Env) (conv : ℕ) (type : ConvType) (members name : List ℕ) (s t : Store)
    → insert_tx env conv type members name s ≡ ok t
    → (s1 : Store) × (has conv s.tables.conversations ≡ false)
      × (insert_user_convs env conv members (insert_row env conv type members name s) ≡ ok s1)
      × (index_pair env conv type members s1 ≡ ok t)
unfolding insert_tx
insert_tx_parts env conv type members name s t e =
    elim (Result-cases
      (insert_user_convs env conv members (insert_row env conv type members name s))) [
        | inr (code, failed) ↦ absurd (ground arith)
        | inl (s1, looped) ↦ elim (Result-cases (index_pair env conv type members s1)) [
          | inr (code, failed) ↦ absurd (ground arith)
          | inl (s2, paired) ↦ (s1, ground arith, looped, ground arith)
        ]
      ]

pub insert_tx_inv :
    (env : Env) (conv : ℕ) (type : ConvType) (members name : List ℕ) (s t : Store)
    → insert_tx env conv type members name s ≡ ok t
    → Inserted env conv type members name s t
unfolding insert_row
insert_tx_inv env conv type members name s t e =
    let (s1, free, looped, paired) = insert_tx_parts env conv type members name s t e in
    let base = insert_row env conv type members name s in
    let done = insert_user_convs-indexed env conv members base s1 looped in
    let p = index_pair-Paired env conv type members s1 t paired in
    let (m, c, h, r, i) = indexed-rest env.now conv members base in
    let index1 : s1.single_chat_index ≡ s.single_chat_index =
      ap (λ (z : Store). z.single_chat_index) done ∙ i in
    record {
      free = free;
      seeds = ap (λ z. z.members) p.tables ∙ ap (λ (z : Store). z.tables.members) done ∙ m;
      conversations =
          ap (λ z. z.conversations) p.tables ∙ ap (λ (z : Store). z.tables.conversations) done ∙ c;
      heads = p.heads ∙ ap (λ (z : Store). z.heads) done ∙ h;
      metas = p.metas ∙ ap (λ (z : Store). z.metas) done ∙ r;
      user_convs = λ u x.
          ap (λ z. has (u, x) z.user_conversations) p.tables
          ∙ ap (λ (z : Store). has (u, x) z.tables.user_conversations) done
          ∙ has-indexed env.now conv members base u x;
      key_was_free = ap (key_free (key_of type members)) (sym index1) ∙ p.free;
      index = p.index ∙ ap (with_key (key_of type members) conv) index1;
    }

pub create_as-committed :
    (env : Env) (type : ConvType) (members : List ℕ) (owner : ℕ) (name : List ℕ) (s s1 : Store)
    (conv : ℕ)
    → insert_tx env conv type members name s ≡ ok s1
    → create_as env type members owner name s (some conv)
      ≡ committed env
          (new_meta env conv type members name)
          owner
          (set_conv_meta env (new_meta env conv type members name) s1)
unfolding create_as
create_as-committed env type members owner name s s1 conv done = rw (done, create_as) refl

pub create_as-failed :
    (env : Env) (type : ConvType) (members : List ℕ) (owner : ℕ) (name : List ℕ) (s : Store)
    (conv code : ℕ)
    → insert_tx env conv type members name s ≡ err code
    → create_as env type members owner name s (some conv) ≡ (s, err code)
unfolding create_as
create_as-failed env type members owner name s conv code failed = rw (failed, create_as) refl
