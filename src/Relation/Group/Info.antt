-- ===== src/Relation/Group/Info.antt =====
-- UpdateGroupInfo of internal/relation/group.go: the name that it stores, and the rows that MySQL counts.
use yim.Base.{
  ℕ, ◌≡◌, ◌≢◌, refl, sym, ◌∙◌, list_beq_iff, false, some, List, [], ◌∷◌, arith, list_eq, nat_eq,
}
use yim.Base.Map.{lookup}
use yim.Relation.{code_not_member}
use yim.Relation.Group.{
  Conv, Store, Faults, select_role, update_info, clipped, with_info, rows_affected, update_rows,
  update_tx, update_group_info, member_role, is_empty,
}
use yim.Relation.Group.Membership.{role_of}

same_info :
    (name avatar : List ℕ) (row : Conv)
    → (with_info name avatar row).name ≡ row.name
    → (with_info name avatar row).avatar ≡ row.avatar
    → rows_affected (some row) name avatar ≡ 0
unfolding rows_affected
same_info name avatar row n a = ground (
  arith,
  list_beq_iff (with_info name avatar row).name row.name,
  list_beq_iff (with_info name avatar row).avatar row.avatar,
)

kept_name : (c : ℕ) (cs : List ℕ) (row : Conv) → (with_info (c ∷ cs) [] row).name ≡ c ∷ cs
unfolding with_info
kept_name c cs row = refl

kept_avatar : (c : ℕ) (cs : List ℕ) (row : Conv) → (with_info (c ∷ cs) [] row).avatar ≡ row.avatar
unfolding with_info
kept_avatar c cs row = refl

same_name :
    (n : List ℕ) (row : Conv)
    → n ≡ row.name
    → n ≢ []
    → (rows_affected (some row) n [] ≡ 0) × (is_empty n ≡ false)
same_name [] row e named = absurd (named refl)
same_name (c ∷ cs) row e named =
    (same_info (c ∷ cs) [] row (kept_name c cs row ∙ e) (kept_avatar c cs row), refl)

-- Where the owner sends the name that the group has already (after the clipping) and no avatar, the call
-- is refused as if the group did not exist, and nothing changes.
pub update-same_refused :
    (fails : Faults) (op conv : ℕ) (name : List ℕ) (row : Conv) (s : Store)
    → fails select_role ≡ false
    → fails update_info ≡ false
    → role_of conv op s ≡ 1
    → lookup conv s.conversations ≡ some row
    → clipped name ≡ row.name
    → row.name ≢ []
    → update_group_info fails op conv name [] s ≡ (s, some code_not_member)
unfolding update_group_info update_tx update_rows member_role
update-same_refused fails op conv name row s reads writes owner found same named =
    let (none_changed, some_text) = same_name (clipped name) row same (λ e. named (sym same ∙ e)) in
    ground arith
