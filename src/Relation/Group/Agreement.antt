-- ===== src/Relation/Group/Agreement.antt =====
-- The three tables of a group (internal/relation/group.go) beside each other.
use yim.Base.{
  nat_eq, pair_eq, ==_iff, ℕ, ◌≡◌, refl, ap, sym, subst, ◌∙◌, ◌<◌, true, false, some, List, [], ◌∷◌,
  ◌==◌, contains, arith, inl, inr, Bool-cases,
}
use yim.Base.Map.{lookup, insert, has, lookup-insert, has-erase}
use yim.Relation.Group.{
  Conv, Store, Faults, Call, adds, removes, quits, updates, count_rows, call, with_info, clipped,
  remove_uid, update_tx,
}
use yim.Relation.{ok}
use yim.Relation.Group.Membership.{
  has-inserted, has-inserted_index, contains-append_missing, contains-remove_uid,
}
use yim.Relation.Group.Calls.{Added, Removed, relisted, kick_inv, quit_inv, update_inv, call_cases}

-- The members of group c by group_members, by the index of conversations, and by member_uids.
pub record Agrees (c : ℕ) (s : Store) : Type 0 where
  pub indexed : (u : ℕ) → has (u, c) s.user_conversations ≡ has (c, u) s.members
  pub listed :
      (row : Conv)
      → lookup c s.conversations ≡ some row
      → (u : ℕ) → contains row.member_uids u ≡ has (c, u) s.members

-- A write of one conversation's row.
listed_after :
    (c conv : ℕ) (s t : Store) (row' : Conv)
    → t.conversations ≡ insert conv row' s.conversations
    → ((conv == c) ≡ true → (u : ℕ) → contains row'.member_uids u ≡ has (c, u) t.members)
    → ((conv == c) ≡ false → (u : ℕ) → has (c, u) t.members ≡ has (c, u) s.members)
    → Agrees c s
    → (row : Conv) → lookup c t.conversations ≡ some row
    → (u : ℕ) → contains row.member_uids u ≡ has (c, u) t.members
listed_after c conv s t row' e here other h row at u = elim (Bool-cases (conv == c)) [
  | inl same ↦ ground (arith, lookup-insert conv c row' s.conversations, here same u, e, at)
  | inr differ ↦
      h.listed row (ground (arith, lookup-insert conv c row' s.conversations, e, at)) u
      ∙ sym (other differ u)
]

Added-Agrees :
    (now conv : ℕ) (uids : List ℕ) (owner c : ℕ) (s t : Store)
    → Added now conv uids owner s t
    → Agrees c s
    → Agrees c t
Added-Agrees now conv uids owner c s t r h =
    let count = count_rows conv s.members in
    let has_now =
      λ (u : ℕ). ap (has (c, u)) r.members ∙ has-inserted now conv count owner uids s c u in
    record {
      indexed = λ u. ground (
        arith,
        ap (has (u, c)) r.index,
        has_now u,
        has-inserted_index now conv count owner uids s c u,
        h.indexed u,
      );
      listed =
          listed_after c conv s t (relisted uids 0 r.row) r.conversations
            (λ same u. ground (
              arith,
              has_now u,
              contains-append_missing uids (remove_uid 0 r.row.member_uids) u,
              contains-remove_uid 0 u r.row.member_uids,
              h.listed r.row
                  (ap (λ k. lookup k s.conversations) (sym ((==_iff conv c).0 same)) ∙ r.found) u,
            ))
            (λ differ u. ground (arith, has_now u)) h;
    }

Removed-Agrees :
    (conv uid c : ℕ) (s t : Store) → 0 < uid → Removed conv uid s t → Agrees c s → Agrees c t
Removed-Agrees conv uid c s t positive r h =
    let has_now = λ (u : ℕ). ap (has (c, u)) r.members ∙ has-erase (conv, uid) (c, u) s.members in
    record {
      indexed = λ u. ground (
        arith,
        ap (has (u, c)) r.index,
        has_now u,
        has-erase (uid, conv) (u, c) s.user_conversations,
        h.indexed u,
      );
      listed =
          listed_after c conv s t (relisted [] uid r.row) r.conversations
            (λ same u. ground (
              arith,
              has_now u,
              contains-append_missing [] (remove_uid uid r.row.member_uids) u,
              contains-remove_uid uid u r.row.member_uids,
              h.listed r.row
                  (ap (λ k. lookup k s.conversations) (sym ((==_iff conv c).0 same)) ∙ r.found) u,
            ))
            (λ differ u. ground (arith, has_now u)) h;
    }

with_info-member_uids :
    (name avatar : List ℕ) (row : Conv) → (with_info name avatar row).member_uids ≡ row.member_uids
unfolding with_info
with_info-member_uids [] avatar row = refl
with_info-member_uids (x ∷ name) [] row = refl
with_info-member_uids (x ∷ name) (y ∷ avatar) row = refl

updated-Agrees :
    (conv c : ℕ) (s t : Store) (row' row : Conv)
    → row'.member_uids ≡ row.member_uids
    → t.members ≡ s.members
    → t.user_conversations ≡ s.user_conversations
    → lookup conv s.conversations ≡ some row
    → t.conversations ≡ insert conv row' s.conversations
    → Agrees c s
    → Agrees c t
updated-Agrees conv c s t row' row keeps m i found e h = record {
  indexed = λ u. ground (arith, h.indexed u);
  listed =
      listed_after c conv s t row' e
        (λ same u. ground (
          arith,
          h.listed row (ap (λ k. lookup k s.conversations) (sym ((==_iff conv c).0 same)) ∙ found)
              u,
        ))
        (λ differ u. ap (has (c, u)) m) h;
}

update-Agrees :
    (fails : Faults) (op conv : ℕ) (name avatar : List ℕ) (c : ℕ) (s t : Store)
    → update_tx fails op conv name avatar s ≡ ok t
    → Agrees c s
    → Agrees c t
update-Agrees fails op conv name avatar c s t done h =
    let (owner, m, i, wrote) = update_inv fails op conv name avatar s t done in
    elim wrote [
      | inl same ↦ record {
        indexed = λ u. ground (arith, h.indexed u);
        listed = λ row at u. ground (arith, h.listed row (ap (lookup c) (sym same) ∙ at) u);
      }
      | inr (row, found, e) ↦
          updated-Agrees conv c s t (with_info (clipped name) avatar row) row
            (with_info-member_uids (clipped name) avatar row) m i found e h
    ]

-- A user who is removed or quits is no 0, which mutateConvMembers takes for nobody.
abbrev pub IsProper : Call → Type 0
IsProper (adds conv uids owner) = Unit {0}
IsProper (removes op conv target) = 0 < target
IsProper (quits uid conv) = 0 < uid
IsProper (updates op conv name avatar) = Unit {0}

-- For every group, whatever statements fail in a call, the three tables have the same members after it if
-- they had before, provided that no user 0 is removed or quits.
pub call-Agrees :
    (fails : Faults) (now c : ℕ) (cmd : Call) (s : Store)
    → IsProper cmd
    → Agrees c s
    → Agrees c (call fails now cmd s).0
call-Agrees fails now c cmd s proper h =
    call_cases (Agrees c) fails now s h cmd
      (λ conv uids owner t _ r. Added-Agrees now conv uids owner c s t r h)
      (λ op conv target t e done.
        Removed-Agrees conv target c s t (subst IsProper e proper)
          (kick_inv fails op conv target s t done).0 h)
      (λ uid conv t e done.
        Removed-Agrees conv uid c s t (subst IsProper e proper) (quit_inv fails uid conv s t done).0
          h)
      (λ op conv name avatar t done. update-Agrees fails op conv name avatar c s t done h)
