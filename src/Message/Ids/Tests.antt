-- ===== src/Message/Ids/Tests.antt =====
-- Runs and instances of the two number allocators of internal/message/service.go.
use yim.Base.{nat_eq, ℕ, ◌≡◌, refl, Option, none, some, List, [], ◌∷◌, arith}
use yim.Base.Map.{lookup, insert}
use yim.Message.Ids.{alloc_msg_id, pop_id, alloc_conv_seq, take_seq, refill_conv, make_room}
use yim.Message.Ids.ConvOrder.{Marks, Request, conv_seqs, IsRising, conv_seqs-IsRising}
use yim.Message.Ids.MsgOrder.{msg_ids}

-- A failed refill, then three numbers of two conversations.
abbrev requests : List Request
requests = (3, none) ∷ (3, some 1) ∷ (4, some 1) ∷ (3, none) ∷ []

abbrev nothing_given : Marks
nothing_given c = 0

seqs_run : conv_seqs requests [] ≡ (3, 1) ∷ (4, 1) ∷ (3, 2) ∷ []
unfolding conv_seqs alloc_conv_seq take_seq lookup refill_conv insert make_room
seqs_run = refl

conv_seqs-IsRising_example : IsRising nothing_given (conv_seqs requests [])
conv_seqs-IsRising_example =
    conv_seqs-IsRising requests nothing_given (omega arith, (omega arith, tt))

abbrev answers : List (Option ℕ)
answers = none ∷ some 1 ∷ none ∷ []

ids_run : msg_ids answers (record { cur = 0; last = 0 }) ≡ 1 ∷ 2 ∷ []
unfolding msg_ids alloc_msg_id pop_id
ids_run = refl
