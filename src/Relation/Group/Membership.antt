-- ===== src/Relation/Group/Membership.antt =====
-- Lemmas on the three tables that internal/relation/group.go writes.
use yim.Base.{
  nat_eq, pair_eq, pair_beq_iff, ==_iff, ℕ, ◌≡◌, refl, false, not, ◌&&◌, ◌||◌, some, List, [], ◌∷◌,
  ◌++◌, ltb, ◌==◌, if◌then◌else◌, keep_if, contains, arith,
}
use yim.Base.Map.{lookup, insert, has, lookup-insert, has-insert, has-insert_ignore}
use yim.Relation.{ok}
use yim.Relation.Group.{
  Conv, Store, Faults, append_missing, remove_uid, load_conv, mutate_conv_members, upserted,
  new_role, insert_one, insert_members, role_or_zero,
}

contains-append :
    (xs ys : List ℕ) (u : ℕ) → contains (xs ++ ys) u ≡ (contains xs u || contains ys u)
contains-append [] ys u = refl
contains-append (x ∷ xs) ys u = ground (arith, contains-append xs ys u)

pub contains-append_missing :
    (add members : List ℕ) (u : ℕ)
    → contains (append_missing add members) u ≡ (contains add u || contains members u)
unfolding append_missing
contains-append_missing [] members u = refl
contains-append_missing (a ∷ add) members u = ground (
  arith,
  contains-append_missing add (if contains members a then members else members ++ a ∷ []) u,
  contains-append members (a ∷ []) u,
  ==_iff a u,
)

contains-keep_if :
    (r u : ℕ) (members : List ℕ)
    → contains (keep_if (λ m. not (m == r)) members) u ≡ (not (u == r) && contains members u)
contains-keep_if r u [] = ground arith
contains-keep_if r u (m ∷ members) = ground (arith, contains-keep_if r u members)

pub contains-remove_uid :
    (r u : ℕ) (members : List ℕ)
    → contains (remove_uid r members) u ≡ (not (ltb 0 r && (u == r)) && contains members u)
unfolding remove_uid
contains-remove_uid r u members = ground (arith, contains-keep_if r u members)

-- What the loop of AddGroupMembers leaves when no statement fails.
unfoldable pub inserted : ℕ → ℕ → ℕ → ℕ → List ℕ → Store → Store
inserted now conv count owner [] s = s
inserted now conv count owner (uid ∷ uids) s =
    inserted now conv count owner uids (insert_one now conv uid (new_role count uid owner) s)

pub insert_members-inserted :
    (fails : Faults) (now conv count owner : ℕ) (uids : List ℕ) (s t : Store)
    → insert_members fails now conv count owner uids s ≡ ok t
    → t ≡ inserted now conv count owner uids s
unfolding insert_members inserted
insert_members-inserted fails now conv count owner [] s t e = ground arith
insert_members-inserted fails now conv count owner (uid ∷ uids) s t e = ground (
  arith,
  insert_members-inserted fails now conv count owner uids
      (insert_one now conv uid (new_role count uid owner) s) t,
)

pub inserted-conversations :
    (now conv count owner : ℕ) (uids : List ℕ) (s : Store)
    → (inserted now conv count owner uids s).conversations ≡ s.conversations
unfolding inserted insert_one
inserted-conversations now conv count owner [] s = refl
inserted-conversations now conv count owner (uid ∷ uids) s =
    inserted-conversations now conv count owner uids
      (insert_one now conv uid (new_role count uid owner) s)

pub has-inserted :
    (now conv count owner : ℕ) (uids : List ℕ) (s : Store) (c u : ℕ)
    → has (c, u) (inserted now conv count owner uids s).members
      ≡ (((conv == c) && contains uids u) || has (c, u) s.members)
unfolding inserted insert_one
has-inserted now conv count owner [] s c u = ground arith
has-inserted now conv count owner (uid ∷ uids) s c u = ground (
  arith,
  has-inserted now conv count owner uids (insert_one now conv uid (new_role count uid owner) s) c u,
  has-insert (conv, uid) (c, u)
      (upserted (new_role count uid owner) now (lookup (conv, uid) s.members)) s.members,
)

pub has-inserted_index :
    (now conv count owner : ℕ) (uids : List ℕ) (s : Store) (c u : ℕ)
    → has (u, c) (inserted now conv count owner uids s).user_conversations
      ≡ (((conv == c) && contains uids u) || has (u, c) s.user_conversations)
unfolding inserted insert_one
has-inserted_index now conv count owner [] s c u = ground arith
has-inserted_index now conv count owner (uid ∷ uids) s c u = ground (
  arith,
  has-inserted_index now conv count owner uids
      (insert_one now conv uid (new_role count uid owner) s) c u,
  has-insert_ignore (uid, conv) (u, c) now s.user_conversations,
)

-- The role of a user in a group, 0 where there is no row.
abbrev pub role_of : ℕ → ℕ → Store → ℕ
role_of c u s = role_or_zero (lookup (c, u) s.members)

-- An addition to a group that has members changes no role.
pub role-inserted :
    (now conv count owner : ℕ) (uids : List ℕ) (s : Store) (c u : ℕ)
    → (count == 0) ≡ false
    → role_of c u (inserted now conv count owner uids s) ≡ role_of c u s
unfolding inserted insert_one new_role
role-inserted now conv count owner [] s c u old = refl
role-inserted now conv count owner (uid ∷ uids) s c u old = ground (
  arith,
  role-inserted now conv count owner uids (insert_one now conv uid (new_role count uid owner) s) c u
      old,
  lookup-insert (conv, uid) (c, u)
      (upserted (new_role count uid owner) now (lookup (conv, uid) s.members)) s.members,
  pair_beq_iff (conv, uid) (c, u),
)

pub mutate_inv :
    (fails : Faults) (conv : ℕ) (add : List ℕ) (remove : ℕ) (s t : Store)
    → mutate_conv_members fails conv add remove s ≡ ok t
    → (row : Conv) × (lookup conv s.conversations ≡ some row)
      × (t ≡ record s {
        conversations =
            insert conv
              (record row { member_uids = append_missing add (remove_uid remove row.member_uids) })
              s.conversations;
      })
unfolding mutate_conv_members load_conv
mutate_inv fails conv add remove s t e = ground arith
