-- ===== src/Message/Conversations/Singles.antt =====
-- single_chat_index under CreateConv (internal/message/conversations.go).
use yim.Base.{
  nat_eq, pair_eq, ℕ, ◌≡◌, refl, sym, ap, subst, ◌∙◌, Bool, true, false, ◌&&◌, Option, none, some,
  List, [], ◌∷◌, if◌then◌else◌, arith, inl, inr, Bool-cases, Option-cases, ==_iff,
}
use yim.Base.Map.{Map, lookup, has, lookup-insert, lookup-insert_self, lookup-erase}
use yim.Relation.{Result, ok, err, Result-cases}
use yim.Relation.Group.{clipped, add_group_members}
use yim.Relation.Group as Group
use yim.Message.Conversations.{
  ConvType, unknown, single, group, ConvMeta, Store, Env, select_index, redis_get, unique, sorted,
  set_conv_meta, meta_of, loaded, load_meta, get_conv_meta, check_friends, insert_tx, new_meta,
  seeded, seed, is_group, committed, create_as, create_new, existing, create_pair, create_single,
  create_many, create_kind, create_conv,
}
use yim.Message.Conversations.Index.{
  key_of, with_key, key_free, Inserted, insert_tx_inv, create_as-committed, create_as-failed,
}

-- An entry of Redis stands under its own id.
abbrev pub IsKeyed : Store → Type 0
IsKeyed s = (c : ℕ) (m : ConvMeta) → lookup c s.metas ≡ some m → m.conv_id ≡ c

-- From s to t the index has kept its entries.
pub record Keeps (s t : Store) : Type 0 where
  pub index :
      (k : ℕ × ℕ) (c : ℕ)
      → lookup k s.single_chat_index ≡ some c
      → lookup k t.single_chat_index ≡ some c
  pub keyed : IsKeyed s → IsKeyed t

pub Keeps-refl : (s : Store) → Keeps s s
Keeps-refl s = record { index = λ k c h. h; keyed = λ h. h }

pub Keeps-trans : (s t u : Store) → Keeps s t → Keeps t u → Keeps s u
Keeps-trans s t u a b = record {
  index = λ k c h. b.index k c (a.index k c h);
  keyed = λ h. b.keyed (a.keyed h);
}

set_conv_meta-Keeps : (env : Env) (m : ConvMeta) (s : Store) → Keeps s (set_conv_meta env m s)
unfolding set_conv_meta
set_conv_meta-Keeps env m s = record {
  index = λ k c h. ground (arith, h);
  keyed = λ h c m' found.
      ground (arith, found, h c m', lookup-insert m.conv_id c m s.metas, ==_iff m.conv_id c);
}

meta_of-id :
    (conv : ℕ) (head : Option yim.Message.Conversations.Head) (row : Option Group.Conv)
    (m : ConvMeta)
    → meta_of conv head row ≡ some m
    → m.conv_id ≡ conv
meta_of-id conv none row m e = absurd (ground arith)
meta_of-id conv (some head) none m e = absurd (ground arith)
meta_of-id conv (some head) (some row) m e = ground arith

loaded-Keeps : (env : Env) (o : Option ConvMeta) (s : Store) → Keeps s (loaded env o s).0
loaded-Keeps env none s = Keeps-refl s
loaded-Keeps env (some m) s = set_conv_meta-Keeps env m s

loaded-id :
    (env : Env) (conv : ℕ) (o : Option ConvMeta) (s : Store) (m : ConvMeta)
    → ((k : ConvMeta) → o ≡ some k → k.conv_id ≡ conv)
    → (loaded env o s).1 ≡ ok m
    → m.conv_id ≡ conv
loaded-id env conv none s m ids e = absurd (ground arith)
loaded-id env conv (some k) s m ids e = ids m (ground arith)

-- A read of a conversation's meta data: what it leaves, and under which id.
abbrev pub Reads : Store → ℕ → Store × Result ConvMeta → Type 0
Reads s conv r = Keeps s r.0 × ((m : ConvMeta) → r.1 ≡ ok m → m.conv_id ≡ conv)

load_meta-Reads : (env : Env) (conv : ℕ) (s : Store) → Reads s conv (load_meta env conv s)
unfolding load_meta
load_meta-Reads env conv s = elim (Bool-cases (env.fails yim.Message.Conversations.select_conv)) [
  | inl failed ↦ rw (failed, load_meta) (Keeps-refl s, λ m e. absurd (ground arith))
  | inr read ↦
      let o = meta_of conv (lookup conv s.heads) (lookup conv s.tables.conversations) in
      rw (read, load_meta)
        (
          loaded-Keeps env o s,
          λ m e.
              loaded-id env conv o s m
                (meta_of-id conv (lookup conv s.heads) (lookup conv s.tables.conversations)) e,
        )
]

pub get_conv_meta-Reads :
    (env : Env) (conv : ℕ) (s : Store) → IsKeyed s → Reads s conv (get_conv_meta env conv s)
unfolding get_conv_meta
get_conv_meta-Reads env conv s keyed = elim (Bool-cases (env.fails redis_get)) [
  | inl failed ↦ rw (failed, get_conv_meta) (load_meta-Reads env conv s)
  | inr read ↦ elim (Option-cases (lookup conv s.metas)) [
    | inl missed ↦ rw (read, get_conv_meta) (rw missed (load_meta-Reads env conv s))
    | inr (k, found) ↦
        rw (read, get_conv_meta)
          (rw found (Keeps-refl s, λ m e. ground (arith, e, keyed conv k found)))
  ]
]

seeded-Keeps :
    (env : Env) (m : ConvMeta) (s : Store) (r : Group.Store × Option ℕ)
    → Keeps s (seeded env m s r).0
seeded-Keeps env m s (tables, some code) = record { index = λ k c h. h; keyed = λ h. h }
seeded-Keeps env m s (tables, none) = record {
  index = λ k c h. h;
  keyed = λ h c m' found. h c m' (ground (arith, found, lookup-erase m.conv_id c s.metas));
}

committed-Keeps :
    (env : Env) (m : ConvMeta) (owner : ℕ) (s : Store) → Keeps s (committed env m owner s).0
committed-Keeps env m owner s = elim (Bool-cases (is_group m.type && env.rel)) [
  | inl seeds ↦
      subst (λ b. Keeps s (if b then seed env m owner s else (s, ok (m, false))).0) (sym seeds)
        (seeded-Keeps env m s
          (add_group_members env.group_fails env.group_now m.conv_id m.member_uids owner s.tables))
  | inr plain ↦
      subst (λ b. Keeps s (if b then seed env m owner s else (s, ok (m, false))).0) (sym plain)
        (Keeps-refl s)
]

with_key-kept :
    (key : Option (ℕ × ℕ)) (conv : ℕ) (index : Map (ℕ × ℕ) ℕ) (k : ℕ × ℕ) (c : ℕ)
    → key_free key index ≡ true
    → lookup k index ≡ some c
    → lookup k (with_key key conv index) ≡ some c
unfolding has
with_key-kept none conv index k c free h = h
with_key-kept (some key) conv index k c free h =
    ground (arith, free, h, lookup-insert key k conv index, pair_eq.beq_iff key k)

Inserted-Keeps :
    (env : Env) (conv : ℕ) (type : ConvType) (members name : List ℕ) (s t : Store)
    → Inserted env conv type members name s t
    → Keeps s t
Inserted-Keeps env conv type members name s t r = record {
  index = λ k c h.
      ap (lookup k) r.index
      ∙ with_key-kept (key_of type members) conv s.single_chat_index k c r.key_was_free h;
  keyed = λ h c m found. h c m (ap (lookup c) (sym r.metas) ∙ found);
}

pub create_as-Keeps :
    (env : Env) (type : ConvType) (members : List ℕ) (owner : ℕ) (name : List ℕ) (s : Store)
    (id : Option ℕ)
    → Keeps s (create_as env type members owner name s id).0
unfolding create_as
create_as-Keeps env type members owner name s none = Keeps-refl s
create_as-Keeps env type members owner name s (some conv) =
    elim (Result-cases (insert_tx env conv type members name s)) [
      | inr (code, failed) ↦
          subst (λ (r : Store × Result (ConvMeta × Bool)). Keeps s r.0)
            (sym (create_as-failed env type members owner name s conv code failed)) (Keeps-refl s)
      | inl (s1, done) ↦
          let m = new_meta env conv type members name in
          let s2 = set_conv_meta env m s1 in
          subst (λ (r : Store × Result (ConvMeta × Bool)). Keeps s r.0)
            (sym (create_as-committed env type members owner name s s1 conv done))
            (Keeps-trans s s1 (committed env m owner s2).0
              (Inserted-Keeps env conv type members name s s1
                (insert_tx_inv env conv type members name s s1 done))
              (Keeps-trans s1 s2 (committed env m owner s2).0 (set_conv_meta-Keeps env m s1)
                (committed-Keeps env m owner s2)))
    ]

-- The pair's entry in the index is the answer.
abbrev pub Answers : ℕ × ℕ → Store × Result (ConvMeta × Bool) → Type 0
Answers key r =
    (x : ConvMeta × Bool) → r.1 ≡ ok x → lookup key r.0.single_chat_index ≡ some x.0.conv_id

set_conv_meta-index :
    (env : Env) (m : ConvMeta) (s : Store)
    → (set_conv_meta env m s).single_chat_index ≡ s.single_chat_index
unfolding set_conv_meta
set_conv_meta-index env m s = ground arith

pub create_as-Answers :
    (env : Env) (a b owner : ℕ) (name : List ℕ) (s : Store) (id : Option ℕ)
    → Answers (a, b) (create_as env single (a ∷ b ∷ []) owner name s id)
unfolding create_as
create_as-Answers env a b owner name s none = λ x e. absurd (ground arith)
create_as-Answers env a b owner name s (some conv) =
    elim (Result-cases (insert_tx env conv single (a ∷ b ∷ []) name s)) [
      | inr (code, failed) ↦
          subst (Answers (a, b))
            (sym (create_as-failed env single (a ∷ b ∷ []) owner name s conv code failed))
            (λ x e. absurd (ground arith))
      | inl (s1, done) ↦
          let m = new_meta env conv single (a ∷ b ∷ []) name in
          let r = insert_tx_inv env conv single (a ∷ b ∷ []) name s s1 done in
          let at : lookup (a, b) (set_conv_meta env m s1).single_chat_index ≡ some conv =
            ap (lookup (a, b)) (set_conv_meta-index env m s1 ∙ r.index)
            ∙ lookup-insert_self (a, b) conv s.single_chat_index in
          subst (Answers (a, b))
            (sym (create_as-committed env single (a ∷ b ∷ []) owner name s s1 conv done))
            (λ x e. ground (arith, at, e))
    ]

pub existing-Keeps :
    (s : Store) (r : Store × Result ConvMeta) → Keeps s r.0 → Keeps s (existing r).0
existing-Keeps s (t, err code) h = h
existing-Keeps s (t, ok m) h = h

pub existing-Answers :
    (key : ℕ × ℕ) (s : Store) (conv : ℕ) (r : Store × Result ConvMeta)
    → lookup key s.single_chat_index ≡ some conv
    → Reads s conv r
    → Answers key (existing r)
existing-Answers key s conv (t, err code) at h = λ x e. absurd (ground arith)
existing-Answers key s conv (t, ok m) at h =
    λ x e. h.0.index key conv at ∙ ground (arith, e, h.1 m refl)
