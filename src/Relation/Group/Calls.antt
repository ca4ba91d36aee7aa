-- ===== src/Relation/Group/Calls.antt =====
-- What the calls of internal/relation/group.go have read and written when they succeed.
use yim.Base.{
  nat_eq, pair_eq, ℕ, ◌≡◌, refl, ap, sym, ◌∙◌, ◌≢◌, ◌⊎◌, true, false, not, ◌||◌, some, List, [],
  ◌==◌, contains, arith, inl, inr, ◌&&◌, Bool-cases, Option-cases,
}
use yim.Base.Map.{lookup, insert, erase, has}
use yim.Relation.{ok, Result-cases}
use yim.Relation.Group.{
  Conv, Store, Faults, count_rows, member_role, append_missing, remove_uid, mutate_conv_members,
  insert_members, check_owner, add_tx, emit, invalidate_conv, remove_member, remove_tx, quit_tx,
  update_tx, update_rows, updated, with_info, rows_affected, clipped, is_member, is_empty, Call,
  adds, removes, quits, updates, call, add_group_members, remove_group_member, quit_group,
  update_group_info,
}
use yim.Relation.Group.Membership.{
  inserted, insert_members-inserted, inserted-conversations, mutate_inv, role_of,
}

-- The members in conversations.member_uids after a call that adds some and removes one.
abbrev pub relisted : List ℕ → ℕ → Conv → Conv
relisted add remove row = record row {
  member_uids = append_missing add (remove_uid remove row.member_uids);
}

check_owner_inv :
    (fails : Faults) (conv count owner : ℕ) (s : Store)
    → check_owner fails conv count owner s ≡ ok tt
    → (count == 0) ≡ false
    → role_of conv owner s ≡ 1
unfolding check_owner member_role
check_owner_inv fails conv count owner s e more = ground arith

pub record Added (now conv : ℕ) (uids : List ℕ) (owner : ℕ) (s t : Store) : Type 0 where
  pub row : Conv
  pub found : lookup conv s.conversations ≡ some row
  pub seeded : (count_rows conv s.members == 0) ≡ true → contains uids owner ≡ true
  pub by_owner : (count_rows conv s.members == 0) ≡ false → role_of conv owner s ≡ 1
  pub members : t.members ≡ (inserted now conv (count_rows conv s.members) owner uids s).members
  pub index :
      t.user_conversations
      ≡ (inserted now conv (count_rows conv s.members) owner uids s).user_conversations
  pub conversations : t.conversations ≡ insert conv (relisted uids 0 row) s.conversations

add_parts :
    (fails : Faults) (now conv : ℕ) (uids : List ℕ) (owner : ℕ) (s t : Store)
    → add_tx fails now conv uids owner s ≡ ok t
    → (s1 : Store) × (s2 : Store) × (check_owner fails conv (count_rows conv s.members) owner s
        ≡ ok tt)
      × (insert_members fails now conv (count_rows conv s.members) owner uids s ≡ ok s1)
      × ((not (count_rows conv s.members == 0) || contains uids owner) ≡ true)
      × (mutate_conv_members fails conv uids 0 s1 ≡ ok s2)
      × (t.members ≡ s2.members)
      × (t.user_conversations ≡ s2.user_conversations)
      × (t.conversations ≡ s2.conversations)
unfolding add_tx emit invalidate_conv
add_parts fails now conv uids owner s t e = ground arith

pub add_inv :
    (fails : Faults) (now conv : ℕ) (uids : List ℕ) (owner : ℕ) (s t : Store)
    → add_tx fails now conv uids owner s ≡ ok t
    → Added now conv uids owner s t
add_inv fails now conv uids owner s t e =
    let (s1, s2, checked, ins, seed, mut, m, i, c) = add_parts fails now conv uids owner s t e in
    let count = count_rows conv s.members in
    let done = insert_members-inserted fails now conv count owner uids s s1 ins in
    let (row, at, wrote) = mutate_inv fails conv uids 0 s1 s2 mut in
    let same : s1.conversations ≡ s.conversations =
      ap (λ (z : Store). z.conversations) done
      ∙ inserted-conversations now conv count owner uids s in
    record {
      row = row;
      found = sym (ap (lookup conv) same) ∙ at;
      seeded = λ none_yet. ground (arith, seed, none_yet);
      by_owner = check_owner_inv fails conv count owner s checked;
      members = m ∙ ap (λ (z : Store). z.members) wrote ∙ ap (λ (z : Store). z.members) done;
      index =
          i
          ∙ ap (λ (z : Store). z.user_conversations) wrote
          ∙ ap (λ (z : Store). z.user_conversations) done;
      conversations =
          c
          ∙ ap (λ (z : Store). z.conversations) wrote
          ∙ ap (insert conv (relisted uids 0 row)) same;
    }

pub record Removed (conv uid : ℕ) (s t : Store) : Type 0 where
  pub row : Conv
  pub found : lookup conv s.conversations ≡ some row
  pub members : t.members ≡ erase (conv, uid) s.members
  pub index : t.user_conversations ≡ erase (uid, conv) s.user_conversations
  pub conversations : t.conversations ≡ insert conv (relisted [] uid row) s.conversations

abbrev without_rows : ℕ → ℕ → Store → Store
without_rows conv uid s = record s {
  members = erase (conv, uid) s.members;
  user_conversations = erase (uid, conv) s.user_conversations;
}

remove_parts :
    (fails : Faults) (conv uid : ℕ) (s t : Store)
    → remove_member fails conv uid s ≡ ok t
    → (s2 : Store) × (mutate_conv_members fails conv [] uid (without_rows conv uid s) ≡ ok s2)
      × (t.members ≡ s2.members)
      × (t.user_conversations ≡ s2.user_conversations)
      × (t.conversations ≡ s2.conversations)
unfolding remove_member invalidate_conv
remove_parts fails conv uid s t e =
    elim (Result-cases (mutate_conv_members fails conv [] uid (without_rows conv uid s))) [
      | inl (s2, wrote) ↦ (s2, wrote, ground arith, ground arith, ground arith)
      | inr (code, failed) ↦ absurd (ground arith)
    ]

emitted-Removed :
    (conv uid : ℕ) (s s1 t : Store)
    → t.members ≡ s1.members
    → t.user_conversations ≡ s1.user_conversations
    → t.conversations ≡ s1.conversations
    → Removed conv uid s s1
    → Removed conv uid s t
emitted-Removed conv uid s s1 t m i c r = record {
  row = r.row;
  found = r.found;
  members = m ∙ r.members;
  index = i ∙ r.index;
  conversations = c ∙ r.conversations;
}

kick_parts :
    (fails : Faults) (op conv target : ℕ) (s t : Store)
    → remove_tx fails op conv target s ≡ ok t
    → (s1 : Store) × ((op == target) ≡ false)
      × (role_of conv op s ≡ 1)
      × (remove_member fails conv target s ≡ ok s1)
      × (t.members ≡ s1.members)
      × (t.user_conversations ≡ s1.user_conversations)
      × (t.conversations ≡ s1.conversations)
unfolding remove_tx member_role emit
kick_parts fails op conv target s t e = ground arith

quit_parts :
    (fails : Faults) (uid conv : ℕ) (s t : Store)
    → quit_tx fails uid conv s ≡ ok t
    → (s1 : Store) × (role_of conv uid s ≢ 1)
      × (has (conv, uid) s.members ≡ true)
      × (remove_member fails conv uid s ≡ ok s1)
      × (t.members ≡ s1.members)
      × (t.user_conversations ≡ s1.user_conversations)
      × (t.conversations ≡ s1.conversations)
unfolding quit_tx member_role is_member emit has
quit_parts fails uid conv s t e = ground arith

remove_inv :
    (fails : Faults) (conv uid : ℕ) (s t : Store)
    → remove_member fails conv uid s ≡ ok t
    → Removed conv uid s t
unfolding remove_member invalidate_conv
remove_inv fails conv uid s t e =
    let (s2, mut, m, i, c) = remove_parts fails conv uid s t e in
    let (row, at, wrote) = mutate_inv fails conv [] uid (without_rows conv uid s) s2 mut in
    record {
      row = row;
      found = at;
      members = m ∙ ap (λ (z : Store). z.members) wrote;
      index = i ∙ ap (λ (z : Store). z.user_conversations) wrote;
      conversations = c ∙ ap (λ (z : Store). z.conversations) wrote;
    }

-- RemoveGroupMember that succeeds is a call of the owner, and not upon himself.
pub kick_inv :
    (fails : Faults) (op conv target : ℕ) (s t : Store)
    → remove_tx fails op conv target s ≡ ok t
    → Removed conv target s t × ((op == target) ≡ false) × (role_of conv op s ≡ 1)
kick_inv fails op conv target s t e =
    let (s1, other, owner, removed, m, i, c) = kick_parts fails op conv target s t e in
    (
      emitted-Removed conv target s s1 t m i c (remove_inv fails conv target s s1 removed),
      other,
      owner,
    )

-- QuitGroup that succeeds is a call of a member who is not the owner.
pub quit_inv :
    (fails : Faults) (uid conv : ℕ) (s t : Store)
    → quit_tx fails uid conv s ≡ ok t
    → Removed conv uid s t × (role_of conv uid s ≢ 1) × (has (conv, uid) s.members ≡ true)
quit_inv fails uid conv s t e =
    let (s1, member, there, removed, m, i, c) = quit_parts fails uid conv s t e in
    (emitted-Removed conv uid s s1 t m i c (remove_inv fails conv uid s s1 removed), member, there)

-- UpdateGroupInfo that succeeds is a call of the owner and writes one row at most.
pub update_inv :
    (fails : Faults) (op conv : ℕ) (name avatar : List ℕ) (s t : Store)
    → update_tx fails op conv name avatar s ≡ ok t
    → (role_of conv op s ≡ 1)
      × (t.members ≡ s.members)
      × (t.user_conversations ≡ s.user_conversations)
      × ((t.conversations ≡ s.conversations)
          ⊎ ((row : Conv) × (lookup conv s.conversations ≡ some row)
              × (t.conversations
                  ≡ insert conv (with_info (clipped name) avatar row) s.conversations)))
unfolding update_tx update_rows updated member_role emit invalidate_conv rows_affected
update_inv fails op conv name avatar s t e = (
  ground arith,
  ground arith,
  ground arith,
  elim (Option-cases (lookup conv s.conversations)) [
    | inl missing ↦ inl (ground arith)
    | inr (row, at) ↦ elim (Bool-cases (is_empty (clipped name) && is_empty avatar)) [
      | inl nothing ↦ inl (ground arith)
      | inr some_text ↦ inr (row, at, ground arith)
    ]
  ],
)

-- What holds before a call, and after each of the four that succeeds, holds after the call.
pub call_cases {ℓ} :
    (P : Store → Type ℓ) (fails : Faults) (now : ℕ) (s : Store)
    → P s
    → (c : Call)
    → ((conv : ℕ) (uids : List ℕ) (owner : ℕ) (t : Store)
        → c ≡ adds conv uids owner
        → Added now conv uids owner s t
        → P t)
    → ((op conv target : ℕ) (t : Store)
        → c ≡ removes op conv target
        → remove_tx fails op conv target s ≡ ok t
        → P t)
    → ((uid conv : ℕ) (t : Store) → c ≡ quits uid conv → quit_tx fails uid conv s ≡ ok t → P t)
    → ((op conv : ℕ) (name avatar : List ℕ) (t : Store)
        → update_tx fails op conv name avatar s ≡ ok t
        → P t)
    → P (call fails now c s).0
unfolding call add_group_members remove_group_member quit_group update_group_info
call_cases P fails now s h (adds conv uids owner) add kick quit update =
    elim (Result-cases (add_tx fails now conv uids owner s)) [
      | inl (t, e) ↦ rw e (add conv uids owner t refl (add_inv fails now conv uids owner s t e))
      | inr (code, e) ↦ rw e h
    ]
call_cases P fails now s h (removes op conv target) add kick quit update =
    elim (Result-cases (remove_tx fails op conv target s)) [
      | inl (t, e) ↦ rw e (kick op conv target t refl e)
      | inr (code, e) ↦ rw e h
    ]
call_cases P fails now s h (quits uid conv) add kick quit update =
    elim (Result-cases (quit_tx fails uid conv s)) [
      | inl (t, e) ↦ rw e (quit uid conv t refl e)
      | inr (code, e) ↦ rw e h
    ]
call_cases P fails now s h (updates op conv name avatar) add kick quit update =
    elim (Result-cases (update_tx fails op conv name avatar s)) [
      | inl (t, e) ↦ rw e (update op conv name avatar t e)
      | inr (code, e) ↦ rw e h
    ]
