-- ===== src/Relation/Group/Permissions.antt =====
-- The owner of a group in internal/relation/group.go, and who changes its members.
use yim.Base.{
  nat_eq, pair_eq, ==_iff, ℕ, ◌≡◌, ◌≢◌, ◌⊎◌, refl, ap, sym, subst, ◌∙◌, true, false, ◌&&◌, ◌||◌,
  none, some, List, ◌==◌, if◌then◌else◌, contains, arith, inl, inr, Bool-cases,
}
use yim.Base.Map.{lookup, has, lookup-insert, has-erase}
use yim.Relation.{ok, Result-cases}
use yim.Relation.Group.Agreement.{Agrees}
use yim.Relation.Group.{
  Conv, Store, Faults, Call, adds, removes, quits, updates, count_rows, add_tx, add_group_members,
  remove_uid, remove_tx, quit_tx, call, role_or_zero,
}
use yim.Relation.Group.Membership.{
  inserted, has-inserted, has-inserted_index, contains-append_missing, contains-remove_uid, role_of,
}
use yim.Relation.Group.Calls.{
  Added, Removed, relisted, add_inv, kick_inv, quit_inv, update_inv, call_cases,
}
use yim.Relation.Group.Owner.{IsOwned, no_rows-role, role-seeded}

-- Who may change whether user u is a member of group c: the owner, or whoever makes the first addition,
-- by an addition that names u; the owner by the removal of u; and u by quitting.
abbrev pub MayChange : ℕ → ℕ → Store → Call → Type 0
MayChange c u s (adds conv uids owner) =
    (conv ≡ c) × (contains uids u ≡ true) × ((count_rows c s.members ≡ 0) ⊎ (role_of c owner s ≡ 1))
MayChange c u s (removes op conv target) = (conv ≡ c) × (target ≡ u) × (role_of c op s ≡ 1)
MayChange c u s (quits uid conv) = (conv ≡ c) × (uid ≡ u) × (role_of c u s ≢ 1)
MayChange c u s (updates op conv name avatar) = ⊥

Added-MayChange :
    (now conv : ℕ) (uids : List ℕ) (owner c u : ℕ) (s t : Store)
    → Added now conv uids owner s t
    → has (c, u) t.members ≢ has (c, u) s.members
    → MayChange c u s (adds conv uids owner)
Added-MayChange now conv uids owner c u s t r changed =
    let now_has =
      ap (has (c, u)) r.members
      ∙ has-inserted now conv (count_rows conv s.members) owner uids s c u in
    let named : ((conv == c) && contains uids u) ≡ true =
      elim (Bool-cases ((conv == c) && contains uids u)) [
        | inl both ↦ both
        | inr neither ↦ absurd (changed (now_has ∙ ap (λ b. b || has (c, u) s.members) neither))
      ] in
    let same : conv ≡ c = ground arith in
    (
      same,
      ground arith,
      elim (Bool-cases (count_rows conv s.members == 0)) [
        | inl none_yet ↦ inl (ap (λ k. count_rows k s.members) (sym same) ∙ (==_iff _ 0).0 none_yet)
        | inr more ↦ inr (ap (λ k. role_of k owner s) (sym same) ∙ r.by_owner more)
      ],
    )

Removed-Changed :
    (conv uid c u : ℕ) (s t : Store)
    → Removed conv uid s t
    → has (c, u) t.members ≢ has (c, u) s.members
    → (conv ≡ c) × (uid ≡ u)
Removed-Changed conv uid c u s t r changed =
    let now_has = ap (has (c, u)) r.members ∙ has-erase (conv, uid) (c, u) s.members in
    let both : ((conv == c) && (uid == u)) ≡ true = elim (Bool-cases ((conv == c) && (uid == u))) [
      | inl both ↦ both
      | inr other ↦
          absurd (changed (now_has ∙ ap (λ b. if b then false else has (c, u) s.members) other))
    ] in
    (ground arith, ground arith)

kicked-MayChange :
    (fails : Faults) (op conv target c u : ℕ) (s t : Store)
    → remove_tx fails op conv target s ≡ ok t
    → has (c, u) t.members ≢ has (c, u) s.members
    → MayChange c u s (removes op conv target)
kicked-MayChange fails op conv target c u s t done changed =
    let (r, other, by_owner) = kick_inv fails op conv target s t done in
    let (same, same_uid) = Removed-Changed conv target c u s t r changed in
    (same, same_uid, ap (λ k. role_of k op s) (sym same) ∙ by_owner)

quitted-MayChange :
    (fails : Faults) (uid conv c u : ℕ) (s t : Store)
    → quit_tx fails uid conv s ≡ ok t
    → has (c, u) t.members ≢ has (c, u) s.members
    → MayChange c u s (quits uid conv)
quitted-MayChange fails uid conv c u s t done changed =
    let (r, member, there) = quit_inv fails uid conv s t done in
    let (same, same_uid) = Removed-Changed conv uid c u s t r changed in
    (
      same,
      same_uid,
      λ e. member (ap (λ k. role_of k uid s) same ∙ ap (λ v. role_of c v s) same_uid ∙ e),
    )

-- A call after which a user has a row in group_members of a conversation and had none before, or the other way
-- round, is one of these: AddGroupMembers that names the user, by the owner, or by any caller while
-- group_members has no row of the conversation (a group without members yet, or a private chat);
-- RemoveGroupMember of the user by the owner; or QuitGroup of the user, who is not the owner.
pub call-MayChange :
    (fails : Faults) (now c u : ℕ) (cmd : Call) (s : Store)
    → has (c, u) (call fails now cmd s).0.members ≢ has (c, u) s.members
    → MayChange c u s cmd
call-MayChange fails now c u cmd s =
    call_cases (λ t. has (c, u) t.members ≢ has (c, u) s.members → MayChange c u s cmd) fails now s
      (λ changed. absurd (changed refl)) cmd
      (λ conv uids owner t e r changed.
        subst (MayChange c u s) (sym e) (Added-MayChange now conv uids owner c u s t r changed))
      (λ op conv target t e done changed.
        subst (MayChange c u s) (sym e)
          (kicked-MayChange fails op conv target c u s t done changed))
      (λ uid conv t e done changed.
        subst (MayChange c u s) (sym e) (quitted-MayChange fails uid conv c u s t done changed))
      (λ op conv name avatar t done changed.
        absurd (changed (ap (has (c, u)) (update_inv fails op conv name avatar s t done).1)))

-- What CreateConv leaves of a group: its members in member_uids and in the index, none in group_members.
pub record IsCreated (conv : ℕ) (uids : List ℕ) (s : Store) : Type 0 where
  pub row : Conv
  pub found : lookup conv s.conversations ≡ some row
  pub listed : (u : ℕ) → contains row.member_uids u ≡ contains uids u
  pub indexed : (u : ℕ) → has (u, conv) s.user_conversations ≡ contains uids u
  pub unseeded : count_rows conv s.members ≡ 0

seeded-IsOwned :
    (now conv : ℕ) (uids : List ℕ) (owner : ℕ) (s t : Store)
    → IsCreated conv uids s
    → Added now conv uids owner s t
    → IsOwned conv owner t
seeded-IsOwned now conv uids owner s t h r =
    let zero_count : (count_rows conv s.members == 0) ≡ true = (==_iff _ 0).1 h.unseeded in
    let role_now = λ (u : ℕ).
      ap (λ m. role_or_zero (lookup (conv, u) m)) r.members
      ∙ ap (λ k. role_of conv u (inserted now conv k owner uids s)) h.unseeded
      ∙ role-seeded now conv owner uids s u in
    record {
      role = ground (
        arith,
        role_now owner,
        r.seeded zero_count,
        no_rows-role conv owner s.members zero_count,
      );
      only = λ u e. ground (arith, role_now u, no_rows-role conv u s.members zero_count, e);
    }

seeded-Agrees :
    (now conv : ℕ) (uids : List ℕ) (owner : ℕ) (s t : Store)
    → IsCreated conv uids s
    → Added now conv uids owner s t
    → Agrees conv t
unfolding has
seeded-Agrees now conv uids owner s t h r =
    let zero_count : (count_rows conv s.members == 0) ≡ true = (==_iff _ 0).1 h.unseeded in
    let count = count_rows conv s.members in
    let absent = λ (u : ℕ). no_rows-role conv u s.members zero_count in
    let has_now =
      λ (u : ℕ). ap (has (conv, u)) r.members ∙ has-inserted now conv count owner uids s conv u in
    record {
      indexed = λ u. ground (
        arith,
        ap (has (u, conv)) r.index,
        has_now u,
        absent u,
        has-inserted_index now conv count owner uids s conv u,
        h.indexed u,
      );
      listed = λ row at u. ground (
        arith,
        has_now u,
        absent u,
        h.listed u,
        h.found,
        r.found,
        at,
        r.conversations,
        lookup-insert conv conv (relisted uids 0 r.row) s.conversations,
        contains-append_missing uids (remove_uid 0 r.row.member_uids) u,
        contains-remove_uid 0 u r.row.member_uids,
      );
    }

-- The first AddGroupMembers of a group that was created with the same members, when it succeeds, makes
-- the caller its one owner, and the three tables have the same members from then on.
pub add-seeds :
    (fails : Faults) (now conv : ℕ) (uids : List ℕ) (owner : ℕ) (s : Store)
    → IsCreated conv uids s
    → (add_group_members fails now conv uids owner s).1 ≡ none
    → IsOwned conv owner (add_group_members fails now conv uids owner s).0
      × Agrees conv (add_group_members fails now conv uids owner s).0
unfolding add_group_members
add-seeds fails now conv uids owner s h done =
    elim (Result-cases (add_tx fails now conv uids owner s)) [
      | inl (t, e) ↦ rw e (
        seeded-IsOwned now conv uids owner s t h (add_inv fails now conv uids owner s t e),
        seeded-Agrees now conv uids owner s t h (add_inv fails now conv uids owner s t e),
      )
      | inr (code, e) ↦ absurd (ground arith)
    ]
