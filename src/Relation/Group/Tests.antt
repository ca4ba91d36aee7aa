-- ===== src/Relation/Group/Tests.antt =====
-- Runs and instances of the group calls (internal/relation/group.go) in a group of three.
use yim.Base.{
  nat_eq, pair_eq, list_eq, ℕ, ◌≡◌, ◌≢◌, ◌<◌, refl, sym, ◌∙◌, Bool, true, false, Option, none, some,
  List, [], ◌∷◌, ◌==◌, arith, contains, inl, inr,
}
use yim.Base.Map.{Map, lookup, has}
use yim.Relation.{code_not_member, code_not_owner}
use yim.Relation.Group.{
  Member, Conv, Store, Stmt, Faults, Call, adds, removes, quits, updates, add_group_members,
  quit_group, update_group_info, call, trim_space,
}
use yim.Relation.Group.Agreement.{Agrees, call-Agrees}
use yim.Relation.Group.Permissions.{MayChange, call-MayChange}
use yim.Relation.Group.Owner.{IsOwned, call-IsOwned}

abbrev none_fails : Faults
none_fails stmt = false

abbrev club : Conv
club = record { member_uids = 1 ∷ 2 ∷ 3 ∷ []; name = 65 ∷ []; avatar = [] }

-- As CreateConv leaves it.
abbrev created : Store
created = record {
  members = [];
  user_conversations = ((1, 7), 100) ∷ ((2, 7), 100) ∷ ((3, 7), 100) ∷ [];
  conversations = (7, club) ∷ [];
  invalidated = [];
  events = [];
}

abbrev row_of : ℕ → Member
row_of role = record { role = role; join_time_ms = 100 }

abbrev seeded : Store
seeded = record created {
  members = ((7, 1), row_of 1) ∷ ((7, 2), row_of 0) ∷ ((7, 3), row_of 0) ∷ [];
}

seeds : (add_group_members none_fails 100 7 (1 ∷ 2 ∷ 3 ∷ []) 1 created).0.members ≡ seeded.members
unfolding add_group_members yim.Relation.Group.add_tx yim.Relation.Group.check_owner
    yim.Relation.Group.count_rows yim.Relation.Group.insert_members
    yim.Relation.Group.mutate_conv_members yim.Relation.Group.load_conv lookup
    yim.Relation.Group.insert_one yim.Relation.Group.emit yim.Relation.Group.invalidate_conv
    yim.Base.Map.insert yim.Relation.Group.new_role
seeds = refl

owner_stays : (quit_group none_fails 1 7 seeded).1 ≡ some code_not_owner
unfolding quit_group yim.Relation.Group.quit_tx yim.Relation.Group.member_role lookup
owner_stays = refl

trims : trim_space (32 ∷ 65 ∷ 32 ∷ 66 ∷ 9 ∷ []) ≡ 65 ∷ 32 ∷ 66 ∷ []
unfolding trim_space yim.Relation.Group.trim_right yim.Relation.Group.trim_left
    yim.Relation.Group.is_space
trims = refl

seeded-Agrees : Agrees 7 seeded
unfolding has lookup
seeded-Agrees = record { indexed = λ u. ground arith; listed = λ row at u. ground arith }

seeded-IsOwned : IsOwned 7 1 seeded
unfolding lookup
seeded-IsOwned = record { role = refl; only = λ u e. ground arith }

call-Agrees_example : Agrees 7 (call none_fails 200 (removes 1 7 2) seeded).0
call-Agrees_example =
    call-Agrees none_fails 200 7 (removes 1 7 2) seeded (omega arith) seeded-Agrees

call-IsOwned_example : IsOwned 7 1 (call none_fails 200 (quits 3 7) seeded).0
call-IsOwned_example = call-IsOwned none_fails 200 7 1 (quits 3 7) seeded seeded-IsOwned

was_there : has (7, 2) seeded.members ≡ true
unfolding has lookup
was_there = refl

is_gone : has (7, 2) (call none_fails 200 (removes 1 7 2) seeded).0.members ≡ false
unfolding has lookup call yim.Relation.Group.remove_group_member yim.Relation.Group.remove_tx
    yim.Relation.Group.member_role yim.Relation.Group.remove_member
    yim.Relation.Group.mutate_conv_members yim.Relation.Group.load_conv yim.Relation.Group.emit
    yim.Relation.Group.invalidate_conv yim.Base.Map.erase
is_gone = refl

call-MayChange_example : MayChange 7 2 seeded (removes 1 7 2)
call-MayChange_example =
    call-MayChange none_fails 200 7 2 (removes 1 7 2) seeded (λ e. cc (sym is_gone ∙ e ∙ was_there))
