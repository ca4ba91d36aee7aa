-- ===== src/Message/Sync/Tests.antt =====
-- Runs and instances of Sync (internal/message/sync.go) on a conversation of four messages.
use yim.Base.{
  nat_eq, ℕ, zero, suc, ◌+◌, ◌≡◌, refl, Bool-cases, inl, inr, true, false, none, some, List, [],
  ◌∷◌, ◌==◌, if◌then◌else◌, arith,
}
use yim.Message.Sync.{ConvMessage, ConvWatermark, Env, cut, pull_increment, sync}
use yim.Message.Sync.Order.{IsAscending}
use yim.Message.Sync.Pages.{Answered, sync-Splits}

abbrev msg : ℕ → ConvMessage
msg seq = record {
  msg_id = seq + 500;
  conv_id = 7;
  from_uid = 1;
  seq = seq;
  content = [];
  server_time_ms = 100;
}

abbrev chat : List ConvMessage
chat = msg 1 ∷ msg 2 ∷ msg 5 ∷ msg 6 ∷ []

abbrev env : Env
env = record { rows = λ conv. if conv == 7 then chat else []; fails = λ conv. conv == 8 }

abbrev mark : ℕ → ℕ → ConvWatermark
mark conv last = record { conv_id = conv; last_seq = last }

two_new : sync env (mark 0 3 ∷ mark 7 2 ∷ mark 9 0 ∷ []) ≡ some (msg 5 ∷ msg 6 ∷ [], [])
unfolding sync pull_increment cut
two_new = refl

one_fails : sync env (mark 7 2 ∷ mark 8 0 ∷ []) ≡ none
unfolding sync pull_increment cut
one_fails = refl

page_of_two : cut 2 (chat) ≡ (msg 1 ∷ msg 2 ∷ [], true)
unfolding cut
page_of_two = refl

-- 201 rows, of which one is left over.
rows_from : ℕ → ℕ → List ConvMessage
rows_from zero next = []
rows_from (suc left) next = msg next ∷ rows_from left (next + 1)

abbrev long : Env
long = record {
  rows = λ conv. if conv == 7 then chat else if conv == 9 then rows_from 201 1 else [];
  fails = λ conv. false;
}

rows_from-IsAscending : (left next : ℕ) → IsAscending next (rows_from left (next + 1))
unfolding rows_from
rows_from-IsAscending zero next = tt
rows_from-IsAscending (suc left) next = (omega arith, rows_from-IsAscending left (next + 1))

long-IsAscending : (conv : ℕ) → IsAscending 0 (long.rows conv)
long-IsAscending conv = elim (Bool-cases (conv == 7)) [
  | inl e ↦ rw e (omega arith, (omega arith, (omega arith, (omega arith, tt))))
  | inr e ↦ elim (Bool-cases (conv == 9)) [
    | inl f ↦ rw (e, f) (rows_from-IsAscending 201 0)
    | inr f ↦ rw (e, f) tt
  ]
]

sync-Splits_example : Answered long (mark 0 3 ∷ mark 7 2 ∷ mark 9 0 ∷ [])
sync-Splits_example =
    sync-Splits long (mark 0 3 ∷ mark 7 2 ∷ mark 9 0 ∷ []) (λ conv. refl) long-IsAscending
