-- ===== src/Message/Conversations/Groups.antt =====
-- CreateConv of a group (internal/message/conversations.go) and the relation service's tables.
use yim.Base.{
  nat_eq, pair_eq, ℕ, ◌≡◌, refl, sym, ap, subst, ◌∙◌, Bool, true, false, Option, none, some, List,
  [], ltb, if◌then◌else◌, length, arith, inl, inr, Bool-cases, =?_refl,
}
use yim.Base.Map.{lookup, has, lookup-insert_self}
use yim.Relation.{Result, ok, Result-cases}
use yim.Relation.Group.{clipped, count_rows, add_group_members}
use yim.Relation.Group as Group
use yim.Relation.Group.Agreement.{Agrees}
use yim.Relation.Group.Permissions.{IsCreated, add-seeds}
use yim.Relation.Group.Owner.{IsOwned}
use yim.Message.Conversations.{
  group, ConvMeta, Store, Env, unique, set_conv_meta, insert_tx, new_meta, seeded, seed, create_as,
  create_new, create_conv,
}
use yim.Message.Conversations.Index.{
  row_of, Inserted, insert_tx_inv, create_as-committed, create_as-failed,
}

-- No row of the member tables has the id, as for one that the seq service gives for the first time.
pub record IsFresh (conv : ℕ) (s : Store) : Type 0 where
  pub unseeded : count_rows conv s.tables.members ≡ 0
  pub unindexed : (u : ℕ) → has (u, conv) s.tables.user_conversations ≡ false

Inserted-IsCreated :
    (env : Env) (conv : ℕ) (members name : List ℕ) (s t : Store)
    → IsFresh conv s
    → Inserted env conv group members name s t
    → IsCreated conv members t.tables
Inserted-IsCreated env conv members name s t h r = record {
  row = row_of members name;
  found =
      ap (lookup conv) r.conversations
      ∙ lookup-insert_self conv (row_of members name) s.tables.conversations;
  listed = λ u. refl;
  indexed = λ u. ground (arith, r.user_convs u conv, h.unindexed u, =?_refl conv);
  unseeded = ap (count_rows conv) r.seeds ∙ h.unseeded;
}

set_conv_meta-tables :
    (env : Env) (m : ConvMeta) (s : Store) → (set_conv_meta env m s).tables ≡ s.tables
unfolding set_conv_meta
set_conv_meta-tables env m s = ground arith

-- A call that succeeds keeps the tables that AddGroupMembers leaves.
seeded_lem :
    (env : Env) (m : ConvMeta) (s : Store) (r : Group.Store × Option ℕ) (x : ConvMeta × Bool)
    → (seeded env m s r).1 ≡ ok x
    → (r.1 ≡ none) × ((seeded env m s r).0.tables ≡ r.0) × (x ≡ (m, false))
seeded_lem env m s (tables, some code) x e = absurd (ground arith)
seeded_lem env m s (tables, none) x e = (refl, refl, ground arith)

-- What a group owes to its creation.
abbrev Whole : ℕ → ℕ → Store × Result (ConvMeta × Bool) → ConvMeta × Bool → Type 0
Whole conv owner r x = (x.0.conv_id ≡ conv) × IsOwned conv owner r.0.tables × Agrees conv r.0.tables

seed-Whole :
    (env : Env) (m : ConvMeta) (owner : ℕ) (s : Store) (x : ConvMeta × Bool)
    → IsCreated m.conv_id m.member_uids s.tables
    → (seed env m owner s).1 ≡ ok x
    → Whole m.conv_id owner (seed env m owner s) x
seed-Whole env m owner s x created e =
    let r =
      add_group_members env.group_fails env.group_now m.conv_id m.member_uids owner s.tables in
    let (done, kept, answer) = seeded_lem env m s r x e in
    let (owned, agrees) =
      add-seeds env.group_fails env.group_now m.conv_id m.member_uids owner s.tables created done in
    (
      ap (λ (y : ConvMeta × Bool). y.0.conv_id) answer,
      subst (IsOwned m.conv_id owner) (sym kept) owned,
      subst (Agrees m.conv_id) (sym kept) agrees,
    )

-- The answer of a call.
abbrev answer_of : Store × Result (ConvMeta × Bool) → Result (ConvMeta × Bool)
answer_of r = r.1

as-Whole :
    (env : Env) (conv : ℕ) (members : List ℕ) (owner : ℕ) (name : List ℕ) (s : Store)
    (x : ConvMeta × Bool)
    → env.rel ≡ true
    → IsFresh conv s
    → (create_as env group members owner name s (some conv)).1 ≡ ok x
    → Whole conv owner (create_as env group members owner name s (some conv)) x
as-Whole env conv members owner name s x rel fresh e =
    elim (Result-cases (insert_tx env conv group members name s)) [
      | inr (code, failed) ↦
          absurd
            (ground (arith, create_as-failed env group members owner name s conv code failed, e))
      | inl (s1, inserted) ↦
          let m = new_meta env conv group members name in
          let created = subst (IsCreated conv members) (sym (set_conv_meta-tables env m s1)) (
            Inserted-IsCreated env conv members name s s1 fresh
              (insert_tx_inv env conv group members name s s1 inserted)) in
          let outcome : create_as env group members owner name s (some conv)
              ≡ seed env m owner (set_conv_meta env m s1) =
            create_as-committed env group members owner name s s1 conv inserted
            ∙ ap
                (λ b.
                  if b
                  then seed env m owner (set_conv_meta env m s1)
                  else (set_conv_meta env m s1, ok (m, false)))
                rel in
          subst (λ r. Whole conv owner r x) (sym outcome)
            (seed-Whole env m owner (set_conv_meta env m s1) x created
              (ap answer_of (sym outcome) ∙ e))
    ]

create_conv-many :
    (env : Env) (members uniq : List ℕ) (owner : ℕ) (name : List ℕ) (s : Store)
    → unique [] members ≡ ok uniq
    → ltb (length uniq) 2 ≡ false
    → create_conv env group members owner name s ≡ create_new env group uniq owner (clipped name) s
unfolding create_conv
create_conv-many env members uniq owner name s kept enough = rw (kept, create_conv) (rw enough refl)

create_conv_many_inv :
    (env : Env) (members : List ℕ) (owner : ℕ) (name : List ℕ) (s : Store) (x : ConvMeta × Bool)
    → (create_conv env group members owner name s).1 ≡ ok x
    → (uniq : List ℕ) × (unique [] members ≡ ok uniq) × (ltb (length uniq) 2 ≡ false)
unfolding create_conv
create_conv_many_inv env members owner name s x e = elim (Result-cases (unique [] members)) [
  | inr (code, failed) ↦ absurd (ground (arith, failed, e))
  | inl (uniq, kept) ↦ elim (Bool-cases (ltb (length uniq) 2)) [
    | inl few ↦ absurd (ground (arith, kept, few, e))
    | inr enough ↦ (uniq, kept, enough)
  ]
]

-- A group that CreateConv makes under an id that is new to the member tables, with the relation service
-- there, has from then on the caller as its one owner, and group_members, user_conversations and member_uids
-- name the same members of it.
pub create_conv-group :
    (env : Env) (conv : ℕ) (members : List ℕ) (owner : ℕ) (name : List ℕ) (s : Store)
    (x : ConvMeta × Bool)
    → env.rel ≡ true
    → env.conv_id ≡ some conv
    → IsFresh conv s
    → (create_conv env group members owner name s).1 ≡ ok x
    → (x.0.conv_id ≡ conv)
      × IsOwned conv owner (create_conv env group members owner name s).0.tables
      × Agrees conv (create_conv env group members owner name s).0.tables
create_conv-group env conv members owner name s x rel id fresh e =
    let (uniq, kept, enough) = create_conv_many_inv env members owner name s x e in
    let outcome : create_conv env group members owner name s
        ≡ create_as env group uniq owner (clipped name) s (some conv) =
      create_conv-many env members uniq owner name s kept enough
      ∙ ap (create_as env group uniq owner (clipped name) s) id in
    subst (λ r. Whole conv owner r x) (sym outcome)
      (as-Whole env conv uniq owner (clipped name) s x rel fresh (ap answer_of (sym outcome) ∙ e))
