-- ===== src/Message/Ids/ConvOrder.antt =====
-- The order of the numbers of convSeqAlloc of internal/message/service.go.
use yim.Base.{
  nat_eq, ℕ, ◌+◌, ◌-◌, ◌≤◌, ◌<◌, ◌≡◌, refl, sym, subst, Option, none, some, List, [], ◌∷◌, arith,
  ◌==◌, if◌then◌else◌, Option-cases, inl, inr, ◌⊎◌,
}
use yim.Base.Map.{lookup, insert, lookup-insert, lookup-insert_self}
use yim.Message.Ids.{conv_seq_step, ConvSegs, take_seq, make_room, refill_conv, alloc_conv_seq}

-- For each conversation a number.
abbrev pub Marks : Type 0
Marks = ℕ → ℕ

abbrev pub raise : Marks → ℕ → ℕ → Marks
raise f conv v c = if c == conv then v else f c

-- A call of Alloc, with what the service answers if it is asked.
abbrev pub Request : Type 0
Request = ℕ × Option ℕ

-- The service answers above `top`, the highest number that it has given for the conversation.
abbrev pub IsServed : Marks → List Request → Type 0
IsServed top [] = Unit {0}
IsServed top ((conv, none) ∷ rs) = IsServed top rs
IsServed top ((conv, some start) ∷ rs) =
    (top conv < start) × IsServed (raise top conv (start + conv_seq_step - 1)) rs

unfoldable pub conv_seqs : List Request → ConvSegs → List (ℕ × ℕ)
conv_seqs [] m = []
conv_seqs ((conv, answer) ∷ rs) m =
    let (m', seq) = alloc_conv_seq answer m conv in
    let rest = conv_seqs rs m' in elim seq [ none ↦ rest | some v ↦ (conv, v) ∷ rest ]

-- In each conversation each number is above those before, all above `hi`.
abbrev pub IsRising : Marks → List (ℕ × ℕ) → Type 0
IsRising hi [] = Unit {0}
IsRising hi ((conv, v) ∷ rest) = (hi conv < v) × IsRising (raise hi conv v) rest

abbrev IsWithin : Marks → Marks → ConvSegs → Type 0
IsWithin hi top m =
    (c : ℕ)
    → (hi c ≤ top c)
      × ((cur last : ℕ) → lookup c m ≡ some (cur, last) → (hi c < cur) × (last ≤ top c))

take_seq-IsWithin :
    (hi top : Marks) (m m' : ConvSegs) (conv v : ℕ)
    → IsWithin hi top m
    → take_seq m conv ≡ some (m', v)
    → (hi conv < v) × IsWithin (raise hi conv v) top m'
unfolding take_seq
take_seq-IsWithin hi top m m' conv v h e = elim (Option-cases (lookup conv m)) [
  | inl f ↦ absurd (ground (arith, f))
  | inr ((cur, last), f) ↦ (
    ground (arith, f, (h conv).1 cur last f),
    λ c. (
      ground (arith, f, (h c).0, (h conv).1 cur last f),
      λ cur' last' at. ground (
        arith,
        f,
        (h conv).1 cur last f,
        (h c).1 cur' last',
        lookup-insert conv c (cur + 1, last) m,
      ),
    ),
  )
]

make_room_cases : (m : ConvSegs) → (make_room m ≡ m) ⊎ (make_room m ≡ [])
unfolding make_room
make_room_cases m = ground arith

none-IsWithin : (hi top : Marks) → ((c : ℕ) → hi c ≤ top c) → IsWithin hi top []
unfolding lookup
none-IsWithin hi top le c = (le c, λ cur last e. absurd (ground arith))

make_room-IsWithin :
    (hi top : Marks) (m : ConvSegs) → IsWithin hi top m → IsWithin hi top (make_room m)
make_room-IsWithin hi top m h = elim (make_room_cases m) [
  | inl e ↦ rw e h
  | inr e ↦ rw e (none-IsWithin hi top λ c. (h c).0)
]

refill_conv-IsWithin :
    (hi top : Marks) (m : ConvSegs) (conv start : ℕ)
    → IsWithin hi top m
    → top conv < start
    → IsWithin hi (raise top conv (start + conv_seq_step - 1)) (refill_conv m conv start)
unfolding refill_conv
refill_conv-IsWithin hi top m conv start h above c = (
  ground (arith, (h c).0),
  λ cur last at. ground (
    arith,
    (h c).0,
    (h conv).0,
    (make_room-IsWithin hi top m h c).1 cur last,
    lookup-insert conv c (start, start + conv_seq_step - 1) (make_room m),
  ),
)

-- What a call leaves: the invariant, with its number on record.
abbrev AllocOk : Marks → Marks → ℕ → ConvSegs × Option ℕ → Type 0
AllocOk hi top conv (m, none) = IsWithin hi top m
AllocOk hi top conv (m, some v) = (hi conv < v) × IsWithin (raise hi conv v) top m

abbrev served : Marks → ℕ → Option ℕ → Marks
served top conv none = top
served top conv (some start) = raise top conv (start + conv_seq_step - 1)

abbrev Above : Marks → ℕ → Option ℕ → Type 0
Above top conv none = Unit {0}
Above top conv (some start) = top conv < start

served-IsWithin :
    (hi top : Marks) (conv : ℕ) (answer : Option ℕ) (m : ConvSegs)
    → IsWithin hi top m
    → Above top conv answer
    → IsWithin hi (served top conv answer) m
served-IsWithin hi top conv none m h above = h
served-IsWithin hi top conv (some start) m h above = λ c. (
  ground (arith, (h c).0),
  λ cur last at. ground (arith, (h c).0, (h conv).0, (h c).1 cur last at),
)

alloc_conv_seq-at_hand :
    (answer : Option ℕ) (m m' : ConvSegs) (conv v : ℕ)
    → take_seq m conv ≡ some (m', v)
    → alloc_conv_seq answer m conv ≡ (m', some v)
unfolding alloc_conv_seq
alloc_conv_seq-at_hand answer m m' conv v e = rw (e, alloc_conv_seq) refl

alloc_conv_seq-unserved :
    (m : ConvSegs) (conv : ℕ)
    → take_seq m conv ≡ none
    → alloc_conv_seq none m conv ≡ (make_room m, none)
unfolding alloc_conv_seq
alloc_conv_seq-unserved m conv e = rw (e, alloc_conv_seq) refl

alloc_conv_seq-served :
    (m m' : ConvSegs) (conv start v : ℕ)
    → take_seq m conv ≡ none
    → take_seq (refill_conv m conv start) conv ≡ some (m', v)
    → alloc_conv_seq (some start) m conv ≡ (m', some v)
unfolding alloc_conv_seq
alloc_conv_seq-served m m' conv start v e f = rw (e, alloc_conv_seq) (rw (f, alloc_conv_seq) refl)

-- The second round always finds the range.
refilled_take :
    (m : ConvSegs) (conv start : ℕ)
    → (m' : ConvSegs) × (take_seq (refill_conv m conv start) conv ≡ some (m', start))
unfolding take_seq refill_conv
refilled_take m conv start =
    let at = lookup-insert_self conv (start, start + conv_seq_step - 1) (make_room m) in
    (
      insert conv (start + 1, start + conv_seq_step - 1) (refill_conv m conv start),
      ground (arith, at),
    )

alloc_conv_seq-AllocOk :
    (hi top : Marks) (conv : ℕ) (answer : Option ℕ) (m : ConvSegs)
    → IsWithin hi top m
    → Above top conv answer
    → AllocOk hi (served top conv answer) conv (alloc_conv_seq answer m conv)
alloc_conv_seq-AllocOk hi top conv answer m h above = elim (Option-cases (take_seq m conv)) [
  | inr ((m', v), e) ↦
      subst (AllocOk hi (served top conv answer) conv)
        (sym (alloc_conv_seq-at_hand answer m m' conv v e))
        (take_seq-IsWithin hi _ m m' conv v (served-IsWithin hi top conv answer m h above) e)
  | inl e ↦ fetched answer above e
]
  where
    fetched :
        (answer : Option ℕ)
        → Above top conv answer
        → take_seq m conv ≡ none
        → AllocOk hi (served top conv answer) conv (alloc_conv_seq answer m conv)
    fetched none _ e =
        subst (AllocOk hi top conv) (sym (alloc_conv_seq-unserved m conv e))
          (make_room-IsWithin hi top m h)
    fetched (some start) over e =
        let (m', f) = refilled_take m conv start in
        subst (AllocOk hi (served top conv (some start)) conv)
          (sym (alloc_conv_seq-served m m' conv start start e f))
          (take_seq-IsWithin hi _ _ m' conv start (refill_conv-IsWithin hi top m conv start h over)
            f)

given-IsRising :
    (hi top : Marks) (conv : ℕ) (m : ConvSegs) (seq : Option ℕ) (rs : List Request)
    → AllocOk hi top conv (m, seq)
    → ((low : Marks) → IsWithin low top m → IsRising low (conv_seqs rs m))
    → IsRising hi (elim seq [ none ↦ conv_seqs rs m | some v ↦ (conv, v) ∷ conv_seqs rs m ])
given-IsRising hi top conv m none rs ok k = k hi ok
given-IsRising hi top conv m (some v) rs ok k = (ok.0, k (raise hi conv v) ok.1)

served_parts :
    (top : Marks) (conv : ℕ) (answer : Option ℕ) (rs : List Request)
    → IsServed top ((conv, answer) ∷ rs)
    → Above top conv answer × IsServed (served top conv answer) rs
served_parts top conv none rs h = (tt, h)
served_parts top conv (some start) rs h = h

conv_seqs-IsRising_within :
    (rs : List Request) (hi top : Marks) (m : ConvSegs)
    → IsWithin hi top m
    → IsServed top rs
    → IsRising hi (conv_seqs rs m)
unfolding conv_seqs
conv_seqs-IsRising_within [] hi top m h served = tt
conv_seqs-IsRising_within ((conv, answer) ∷ rs) hi top m h served =
    let (above, rest) = served_parts top conv answer rs served in
    given-IsRising hi _ conv _ _ rs (alloc_conv_seq-AllocOk hi top conv answer m h above)
      λ low ok. conv_seqs-IsRising_within rs low _ _ ok rest

-- The numbers that Alloc gives ascend in each conversation, through refills, refills that fail and the
-- dropping of the whole map past the high mark, as long as the seq service answers a refill above all
-- that it has given for that conversation.
pub conv_seqs-IsRising :
    (rs : List Request) (top : Marks) → IsServed top rs → IsRising top (conv_seqs rs [])
conv_seqs-IsRising rs top h =
    conv_seqs-IsRising_within rs top top [] (none-IsWithin top top λ c. omega arith) h
