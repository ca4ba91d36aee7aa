-- ===== src/Relation/Group/Owner.antt =====
-- The owner of a group through the calls of internal/relation/group.go.
use yim.Base.{
  nat_eq, pair_eq, pair_beq_iff, ==_iff, ℕ, ◌≡◌, ◌≢◌, refl, ap, sym, ◌∙◌, true, false, ◌&&◌, none,
  List, [], ◌∷◌, ltb, ◌==◌, if◌then◌else◌, contains, arith, inl, inr, Bool-cases,
}
use yim.Base.Map.{Map, lookup, lookup-insert, lookup-erase}
use yim.Relation.{ok}
use yim.Relation.Group.{
  Member, Store, Faults, Call, count_rows, remove_tx, quit_tx, call, insert_one, new_role, upserted,
  role_or_zero,
}
use yim.Relation.Group.Membership.{inserted, role_of, role-inserted}
use yim.Relation.Group.Calls.{Added, Removed, kick_inv, quit_inv, update_inv, call_cases}

-- Role 1 is the owner's, and one user has it.
pub record IsOwned (c owner : ℕ) (s : Store) : Type 0 where
  pub role : role_of c owner s ≡ 1
  pub only : (u : ℕ) → role_of c u s ≡ 1 → u ≡ owner

-- The count sees a row of the conversation.
pub no_rows-role :
    (c u : ℕ) (m : Map (ℕ × ℕ) Member) → (count_rows c m == 0) ≡ true → lookup (c, u) m ≡ none
unfolding count_rows lookup
no_rows-role c u [] none_yet = refl
no_rows-role c u (((d, v), row) ∷ m) none_yet = ground (arith, no_rows-role c u m)

pub role-inserted_other :
    (now conv count owner : ℕ) (uids : List ℕ) (s : Store) (c u : ℕ)
    → (conv == c) ≡ false
    → role_of c u (inserted now conv count owner uids s) ≡ role_of c u s
unfolding inserted insert_one
role-inserted_other now conv count owner [] s c u differ = refl
role-inserted_other now conv count owner (uid ∷ uids) s c u differ = ground (
  arith,
  role-inserted_other now conv count owner uids
      (insert_one now conv uid (new_role count uid owner) s) c u differ,
  lookup-insert (conv, uid) (c, u)
      (upserted (new_role count uid owner) now (lookup (conv, uid) s.members)) s.members,
)

-- The roles after the first addition to a group.
pub role-seeded :
    (now conv owner : ℕ) (uids : List ℕ) (s : Store) (u : ℕ)
    → role_of conv u (inserted now conv 0 owner uids s) ≡ (
        if contains uids u && (u == owner) && ltb (role_of conv u s) 1 then 1 else role_of conv u s)
unfolding inserted insert_one new_role
role-seeded now conv owner [] s u = refl
role-seeded now conv owner (uid ∷ uids) s u = ground (
  arith,
  role-seeded now conv owner uids (insert_one now conv uid (new_role 0 uid owner) s) u,
  lookup-insert (conv, uid) (conv, u)
      (upserted (new_role 0 uid owner) now (lookup (conv, uid) s.members)) s.members,
  pair_beq_iff (conv, uid) (conv, u),
)

pub same_roles-IsOwned :
    (c owner : ℕ) (s t : Store)
    → ((u : ℕ) → role_of c u t ≡ role_of c u s)
    → IsOwned c owner s
    → IsOwned c owner t
same_roles-IsOwned c owner s t same h = record {
  role = same owner ∙ h.role;
  only = λ u e. h.only u (sym (same u) ∙ e);
}

-- An owned group has a member.
pub owned-count :
    (c owner : ℕ) (s : Store) → IsOwned c owner s → (count_rows c s.members == 0) ≡ false
owned-count c owner s h = elim (Bool-cases (count_rows c s.members == 0)) [
  | inl none_yet ↦ absurd (ground (arith, no_rows-role c owner s.members none_yet, h.role))
  | inr some_rows ↦ some_rows
]

pub Added-IsOwned :
    (now conv : ℕ) (uids : List ℕ) (by c owner : ℕ) (s t : Store)
    → Added now conv uids by s t
    → IsOwned c owner s
    → IsOwned c owner t
Added-IsOwned now conv uids by c owner s t r h =
    same_roles-IsOwned c owner s t
      (λ u. ap (λ m. role_or_zero (lookup (c, u) m)) r.members ∙ elim (Bool-cases (conv == c)) [
        | inl same ↦ role-inserted now conv (count_rows conv s.members) by uids s c u (
            ap (λ k. count_rows k s.members == 0) ((==_iff conv c).0 same)
            ∙ owned-count c owner s h)
        | inr differ ↦ role-inserted_other now conv (count_rows conv s.members) by uids s c u differ
      ])
      h

pub Removed-IsOwned :
    (conv uid c owner : ℕ) (s t : Store)
    → ((conv == c) ≡ true → uid ≢ owner)
    → Removed conv uid s t
    → IsOwned c owner s
    → IsOwned c owner t
Removed-IsOwned conv uid c owner s t spared r h = record {
  role = ground (arith, r.members, lookup-erase (conv, uid) (c, owner) s.members, h.role, spared);
  only = λ u e. h.only u (ground (arith, r.members, lookup-erase (conv, uid) (c, u) s.members, e));
}

pub kicked-IsOwned :
    (fails : Faults) (op conv target c owner : ℕ) (s t : Store)
    → remove_tx fails op conv target s ≡ ok t
    → IsOwned c owner s
    → IsOwned c owner t
kicked-IsOwned fails op conv target c owner s t done h =
    let (r, other, by_owner) = kick_inv fails op conv target s t done in
    Removed-IsOwned conv target c owner s t
      (λ same. ground (
        arith,
        other,
        h.only op (ap (λ k. role_of k op s) (sym ((==_iff conv c).0 same)) ∙ by_owner),
      ))
      r h

pub quitted-IsOwned :
    (fails : Faults) (uid conv c owner : ℕ) (s t : Store)
    → quit_tx fails uid conv s ≡ ok t
    → IsOwned c owner s
    → IsOwned c owner t
quitted-IsOwned fails uid conv c owner s t done h =
    let (r, member, there) = quit_inv fails uid conv s t done in
    Removed-IsOwned conv uid c owner s t
      (λ same e.
        member
          (ap (λ k. role_of k uid s) ((==_iff conv c).0 same) ∙ ap (λ v. role_of c v s) e ∙ h.role))
      r h

-- A group that has an owner keeps this owner and gets no second one, through any calls, whatever
-- statements fail in them: nobody can remove the owner or make another, and the owner cannot quit.
pub call-IsOwned :
    (fails : Faults) (now c owner : ℕ) (cmd : Call) (s : Store)
    → IsOwned c owner s
    → IsOwned c owner (call fails now cmd s).0
call-IsOwned fails now c owner cmd s h =
    call_cases (IsOwned c owner) fails now s h cmd
      (λ conv uids by t _ r. Added-IsOwned now conv uids by c owner s t r h)
      (λ op conv target t _ done. kicked-IsOwned fails op conv target c owner s t done h)
      (λ uid conv t _ done. quitted-IsOwned fails uid conv c owner s t done h)
      (λ op conv name avatar t done.
        same_roles-IsOwned c owner s t
          (λ u.
            ap (λ m. role_or_zero (lookup (c, u) m))
              (update_inv fails op conv name avatar s t done).1)
          h)
