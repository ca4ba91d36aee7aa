-- ===== src/Message/ReadState/Tests.antt =====
-- Runs and instances of MarkRead and GetReadState (internal/message/conversations.go).
use yim.Base.{nat_eq, pair_eq, ◌≡◌, refl, false, List, [], ◌∷◌, arith}
use yim.Base.Map.{lookup}
use yim.Relation.{ok, err, code_not_member}
use yim.Message.Conversations.{single, ConvMeta}
use yim.Message.ReadState.{Store, Env, clamp, mark_read, get_read_seq, states_found, get_read_state}
use yim.Message.ReadState.Levels.{level, Call, marks, states, run, highest}
use yim.Message.ReadState.Acks.{run-highest, late_ack-shown}

abbrev chat : ConvMeta
chat = record {
  conv_id = 7;
  type = single;
  member_uids = 1 ∷ 2 ∷ [];
  last_seq = 9;
  create_time_ms = 100;
  name = [];
  avatar = [];
}

abbrev env : Env
env = record { meta = ok chat; fails = λ stmt. false; now = 200 }

abbrev empty : Store
empty = record { rows = []; cached = []; published = [] }

-- The second mark is beyond the last message, the third comes late.
abbrev calls : List Call
calls = marks env 1 7 4 ∷ marks env 1 7 12 ∷ marks env 1 7 5 ∷ states env 2 7 ∷ []

run-highest_example : level (1, 7) (run calls empty) ≡ highest (1, 7) calls (level (1, 7) empty)
run-highest_example = run-highest (1, 7) calls empty

calls_level : highest (1, 7) calls 0 ≡ 9
calls_level = refl

stranger : (get_read_state env 3 7 empty).1 ≡ err code_not_member
unfolding states_found
stranger = refl

abbrev read : Store
read = record {
  rows = ((1, 7), record { read_seq = 8; update_time_ms = 150 }) ∷ [];
  cached = [];
  published = [];
}

late_ack-shown_example :
    (level (1, 7) (mark_read env 1 7 5 read).0 ≡ level (1, 7) read)
    × ((get_read_seq env 1 7 (mark_read env 1 7 5 read).0).1 ≡ clamp 9 5)
unfolding lookup
late_ack-shown_example = late_ack-shown env env 1 7 5 chat read refl refl refl refl (omega arith)
