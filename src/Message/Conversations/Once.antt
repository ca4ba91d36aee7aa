-- ===== src/Message/Conversations/Once.antt =====
-- CreateConv of one pair of users, twice (internal/message/conversations.go).
use yim.Base.{
  nat_eq, pair_eq, ℕ, ◌≡◌, sym, subst, Bool, List, [], ◌∷◌, ltb, length, arith, inl, inr,
  Bool-cases, Option-cases,
}
use yim.Base.Map.{lookup}
use yim.Relation.{Result, ok, err, Result-cases}
use yim.Relation.Group.{clipped}
use yim.Message.Conversations.{
  ConvType, unknown, single, group, ConvMeta, Store, Env, select_index, unique, sorted,
  get_conv_meta, check_friends, create_pair, create_single, create_many, create_kind, create_conv,
}
use yim.Message.Conversations.Singles.{
  IsKeyed, Keeps, Keeps-refl, Keeps-trans, Answers, create_as-Keeps, create_as-Answers,
  get_conv_meta-Reads, existing-Keeps, existing-Answers,
}

-- A request with what the outside gives for it.
pub record Request : Type 0 where
  pub env : Env
  pub type : ConvType
  pub members : List ℕ
  pub owner : ℕ
  pub name : List ℕ

unfoldable pub create : Request → Store → Store × Result (ConvMeta × Bool)
create q s = create_conv q.env q.type q.members q.owner q.name s

unfoldable pub run : List Request → Store → Store
run [] s = s
run (q ∷ qs) s = run qs (create q s).0

abbrev Both : ℕ × ℕ → Store → Store × Result (ConvMeta × Bool) → Type 0
Both key s r = Keeps s r.0 × Answers key r

error-Both : (key : ℕ × ℕ) (s : Store) (code : ℕ) → Both key s (s, err code)
error-Both key s code = (Keeps-refl s, λ x e. absurd (ground arith))

create_pair-Both :
    (env : Env) (a b owner : ℕ) (name : List ℕ) (s : Store)
    → IsKeyed s
    → Both (a, b) s (create_pair env (a, b) owner name s)
unfolding create_pair
create_pair-Both env a b owner name s keyed = elim (Result-cases (check_friends env a b)) [
  | inr (code, refused) ↦ rw (refused, create_pair) (error-Both (a, b) s code)
  | inl (_, friends) ↦ elim (Bool-cases (env.fails select_index)) [
    | inl failed ↦ rw (friends, create_pair) (rw failed (error-Both (a, b) s 1))
    | inr read ↦ elim (Option-cases (lookup (a, b) s.single_chat_index)) [
      | inl new_pair ↦
          rw (friends, create_pair)
            (rw read (
              rw new_pair (
                create_as-Keeps env single (a ∷ b ∷ []) owner name s env.conv_id,
                create_as-Answers env a b owner name s env.conv_id,
              )))
      | inr (conv, at) ↦
          let reads = get_conv_meta-Reads env conv s keyed in
          rw (friends, create_pair)
            (rw read (
              rw at (
                existing-Keeps s (get_conv_meta env conv s) reads.0,
                existing-Answers (a, b) s conv (get_conv_meta env conv s) at reads,
              )))
    ]
  ]
]

create_single-Keeps :
    (env : Env) (members : List ℕ) (owner : ℕ) (name : List ℕ) (s : Store)
    → IsKeyed s
    → Keeps s (create_single env members owner name s).0
create_single-Keeps env [] owner name s keyed = Keeps-refl s
create_single-Keeps env (a ∷ []) owner name s keyed = Keeps-refl s
create_single-Keeps env (a ∷ b ∷ []) owner name s keyed =
    (create_pair-Both env (sorted a b).0 (sorted a b).1 owner name s keyed).0
create_single-Keeps env (a ∷ b ∷ c ∷ members) owner name s keyed = Keeps-refl s

create_many-Keeps :
    (env : Env) (type : ConvType) (members : List ℕ) (owner : ℕ) (name : List ℕ) (s : Store)
    → Keeps s (create_many env type members owner name s).0
create_many-Keeps env type members owner name s = elim (Bool-cases (ltb (length members) 2)) [
  | inl few ↦ rw few (Keeps-refl s)
  | inr enough ↦ rw enough (create_as-Keeps env type members owner (clipped name) s env.conv_id)
]

create_kind-Keeps :
    (env : Env) (type : ConvType) (members : List ℕ) (owner : ℕ) (name : List ℕ) (s : Store)
    → IsKeyed s
    → Keeps s (create_kind env type members owner name s).0
create_kind-Keeps env unknown members owner name s keyed =
    create_many-Keeps env unknown members owner name s
create_kind-Keeps env single members owner name s keyed =
    create_single-Keeps env members owner name s keyed
create_kind-Keeps env group members owner name s keyed =
    create_many-Keeps env group members owner name s

create-Keeps : (q : Request) (s : Store) → IsKeyed s → Keeps s (create q s).0
unfolding create create_conv
create-Keeps q s keyed = elim (Result-cases (unique [] q.members)) [
  | inr (code, refused) ↦ rw (refused, create_conv) (Keeps-refl s)
  | inl (uniq, kept) ↦
      rw (kept, create_conv) (create_kind-Keeps q.env q.type uniq q.owner q.name s keyed)
]

run-Keeps : (qs : List Request) (s : Store) → IsKeyed s → Keeps s (run qs s)
unfolding run
run-Keeps [] s keyed = Keeps-refl s
run-Keeps (q ∷ qs) s keyed =
    let one = create-Keeps q s keyed in
    Keeps-trans s (create q s).0 (run qs (create q s).0) one
      (run-Keeps qs (create q s).0 (one.keyed keyed))

-- The request is for a single conversation, and its members come to this pair.
pub record IsFor (key : ℕ × ℕ) (q : Request) : Type 0 where
  pub left : ℕ
  pub right : ℕ
  pub type : q.type ≡ single
  pub members : unique [] q.members ≡ ok (left ∷ right ∷ [])
  pub pair : sorted left right ≡ key

create-Answers :
    (key : ℕ × ℕ) (q : Request) (s : Store) → IsFor key q → IsKeyed s → Answers key (create q s)
unfolding create create_conv
create-Answers key q s h keyed =
    rw (h.members, create_conv)
      (subst (λ t. Answers key (create_kind q.env t (h.left ∷ h.right ∷ []) q.owner q.name s))
        (sym h.type)
        (subst (λ k. Answers k (create_pair q.env (sorted h.left h.right) q.owner q.name s)) h.pair
          (create_pair-Both q.env (sorted h.left h.right).0 (sorted h.left h.right).1 q.owner q.name
            s keyed).1))

-- Two calls of CreateConv for a single conversation of the same two users, in whatever order and however
-- often their uids are given, that both succeed give the same conversation, with any other calls of
-- CreateConv between them and whichever of their statements fail.
pub create-same_conv :
    (key : ℕ × ℕ) (q q' : Request) (qs : List Request) (s : Store) (x x' : ConvMeta × Bool)
    → IsKeyed s
    → IsFor key q
    → IsFor key q'
    → (create q s).1 ≡ ok x
    → (create q' (run qs (create q s).0)).1 ≡ ok x'
    → x'.0.conv_id ≡ x.0.conv_id
create-same_conv key q q' qs s x x' keyed for for' done done' =
    let one = create-Keeps q s keyed in
    let more = run-Keeps qs (create q s).0 (one.keyed keyed) in
    let between = run qs (create q s).0 in
    let keyed' = more.keyed (one.keyed keyed) in
    let first = more.index key x.0.conv_id (create-Answers key q s for keyed x done) in
    let still = (create-Keeps q' between keyed').index key x.0.conv_id first in
    ground (arith, still, create-Answers key q' between for' keyed' x' done')
