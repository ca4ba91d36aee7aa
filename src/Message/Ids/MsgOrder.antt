-- ===== src/Message/Ids/MsgOrder.antt =====
-- The order of the numbers of msgIDAlloc of internal/message/service.go.
use yim.Base.{
  nat_eq, ℕ, ◌+◌, ◌-◌, ◌≤◌, ◌<◌, ◌≡◌, refl, Option, none, some, List, [], ◌∷◌, arith, inl, ◌⊎◌,
}
use yim.Message.Ids.{msg_id_step, MsgIdAlloc, pop_id, alloc_msg_id}

unfoldable pub msg_ids : List (Option ℕ) → MsgIdAlloc → List ℕ
msg_ids [] a = []
msg_ids (answer ∷ rs) a =
    let (b, id) = alloc_msg_id answer a in
    let rest = msg_ids rs b in elim id [ none ↦ rest | some v ↦ v ∷ rest ]

abbrev pub IsMsgServed : ℕ → List (Option ℕ) → Type 0
IsMsgServed top [] = Unit {0}
IsMsgServed top (none ∷ rs) = IsMsgServed top rs
IsMsgServed top (some start ∷ rs) = (top < start) × IsMsgServed (start + msg_id_step - 1) rs

abbrev pub IsIncreasing : ℕ → List ℕ → Type 0
IsIncreasing hi [] = Unit {0}
IsIncreasing hi (v ∷ rest) = (hi < v) × IsIncreasing v rest

-- What is left lies above the last number and below what the service has given.
abbrev MsgOk : ℕ → ℕ → MsgIdAlloc → Type 0
MsgOk hi top a = (hi ≤ top) × ((a.cur ≡ 0) ⊎ ((hi < a.cur) × (a.last ≤ top)))

abbrev msg_top : ℕ → Option ℕ → ℕ
msg_top top none = top
msg_top top (some start) = start + msg_id_step - 1

abbrev MsgGiven : ℕ → ℕ → MsgIdAlloc × Option ℕ → Type 0
MsgGiven hi top (b, none) = MsgOk hi top b
MsgGiven hi top (b, some v) = (hi < v) × MsgOk v top b

alloc_msg_id-MsgGiven :
    (hi top : ℕ) (answer : Option ℕ) (a : MsgIdAlloc)
    → MsgOk hi top a
    → ((start : ℕ) → answer ≡ some start → top < start)
    → MsgGiven hi (msg_top top answer) (alloc_msg_id answer a)
unfolding alloc_msg_id pop_id
alloc_msg_id-MsgGiven hi top none a h above = ground arith
alloc_msg_id-MsgGiven hi top (some start) a h above = ground (arith, above start refl)

MsgGiven-IsIncreasing :
    (hi top : ℕ) (r : MsgIdAlloc × Option ℕ) (rs : List (Option ℕ))
    → MsgGiven hi top r
    → ((low : ℕ) → MsgOk low top r.0 → IsIncreasing low (msg_ids rs r.0))
    → IsIncreasing hi (elim r.1 [ none ↦ msg_ids rs r.0 | some v ↦ v ∷ msg_ids rs r.0 ])
MsgGiven-IsIncreasing hi top (b, none) rs ok k = k hi ok
MsgGiven-IsIncreasing hi top (b, some v) rs ok k = (ok.0, k v ok.1)

msg_ids-IsIncreasing_within :
    (rs : List (Option ℕ)) (hi top : ℕ) (a : MsgIdAlloc)
    → MsgOk hi top a
    → IsMsgServed top rs
    → IsIncreasing hi (msg_ids rs a)
unfolding msg_ids
msg_ids-IsIncreasing_within [] hi top a ok h = tt
msg_ids-IsIncreasing_within (none ∷ rs) hi top a ok h =
    MsgGiven-IsIncreasing hi top (alloc_msg_id none a) rs
      (alloc_msg_id-MsgGiven hi top none a ok λ start e. absurd (ground arith))
      λ low ok'. msg_ids-IsIncreasing_within rs low top _ ok' h
msg_ids-IsIncreasing_within (some start ∷ rs) hi top a ok h =
    MsgGiven-IsIncreasing hi (start + msg_id_step - 1) (alloc_msg_id (some start) a) rs
      (alloc_msg_id-MsgGiven hi top (some start) a ok λ start' e. ground (arith, h.0))
      λ low ok'. msg_ids-IsIncreasing_within rs low (start + msg_id_step - 1) _ ok' h.1

-- The ids that msgIDAlloc gives ascend from the zero value on, failed refills included, as long as the
-- seq service answers above all that it has given.
pub msg_ids-IsIncreasing :
    (rs : List (Option ℕ)) (top : ℕ)
    → IsMsgServed top rs
    → IsIncreasing top (msg_ids rs (record { cur = 0; last = 0 }))
msg_ids-IsIncreasing rs top h =
    msg_ids-IsIncreasing_within rs top top (record { cur = 0; last = 0 }) (omega arith, inl refl) h
