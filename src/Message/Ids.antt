-- ===== src/Message/Ids.antt =====
-- msgIDAlloc and convSeqAlloc of internal/message/service.go: ranges fetched ahead from the seq
-- service. What the service answers to a refill is an argument: the start of a range, or an error.
pub mod ConvOrder
pub mod MsgOrder
mod Tests
use yim.Base.{
  nat_eq, ℕ, ◌+◌, ◌-◌, Bool, Option, none, some, List, [], ◌||◌, ltb, leb, ◌==◌, if◌then◌else◌,
  length,
}
use yim.Base.Map.{Map, lookup, insert}

abbrev pub msg_id_step : ℕ
msg_id_step = 512

abbrev pub conv_seq_step : ℕ
conv_seq_step = 64

abbrev pub conv_seq_map_high : ℕ
conv_seq_map_high = 4096

-- [cur, last] is what is left; cur = 0 before the first refill.
pub record MsgIdAlloc : Type 0 where
  pub cur : ℕ
  pub last : ℕ

-- Hand out `cur`.
unfoldable pub pop_id : MsgIdAlloc → MsgIdAlloc × Option ℕ
pop_id a = (record a { cur = a.cur + 1 }, some a.cur)

unfoldable pub alloc_msg_id : Option ℕ → MsgIdAlloc → MsgIdAlloc × Option ℕ
unfolding pop_id
alloc_msg_id answer a =
    if a.cur == 0 || ltb a.last a.cur
    then elim answer [
      | none ↦ (a, none)
      | some start ↦ pop_id (record { cur = start; last = start + msg_id_step - 1 })
    ]
    else pop_id a

-- conv_id ↦ [cur, last].
abbrev pub ConvSegs : Type 0
ConvSegs = Map ℕ (ℕ × ℕ)

-- The head of the loop: a number of the range at hand, if there is one.
unfoldable pub take_seq : ConvSegs → ℕ → Option (ConvSegs × ℕ)
take_seq m conv = elim (lookup conv m) [
  | none ↦ none
  | some (cur, last) ↦ if leb cur last then some (insert conv (cur + 1, last) m, cur) else none
]

-- Past the high mark the whole map is dropped, with what is left of its ranges.
unfoldable pub make_room : ConvSegs → ConvSegs
make_room m = if leb conv_seq_map_high (length m) then [] else m

unfoldable pub refill_conv : ConvSegs → ℕ → ℕ → ConvSegs
refill_conv m conv start = insert conv (start, start + conv_seq_step - 1) (make_room m)

-- The second round of the loop finds the range that the first has fetched.
unfoldable pub alloc_conv_seq : Option ℕ → ConvSegs → ℕ → ConvSegs × Option ℕ
alloc_conv_seq answer m conv = elim (take_seq m conv) [
  | some (m', v) ↦ (m', some v)
  | none ↦ elim answer [
    | none ↦ (make_room m, none)
    | some start ↦ elim (take_seq (refill_conv m conv start) conv) [
      | some (m', v) ↦ (m', some v)
      | none ↦ (refill_conv m conv start, none)
    ]
  ]
]
