-- ===== src/Message/LastSeq/Tests.antt =====
-- A run and an instance of lastSeqBatcher (internal/message/service.go) over two conversations.
use yim.Base.{nat_eq, ◌≡◌, refl, false, some, List, [], ◌∷◌, arith}
use yim.Base.Map.{lookup, insert}
use yim.Message.LastSeq.{State, buffered, add, update, update_all, flush}
use yim.Message.LastSeq.CaughtUp.{
  IsDue, Event, adds, flushes, step, run, level, highest_added, run-caught_up,
}

abbrev rows : State
rows = record {
  buf = [];
  arm = false;
  flushes = 0;
  last_seq = (1, 5) ∷ (2, 0) ∷ [];
  invalidated = [];
}

-- The seqs of conversation 1 come in out of order.
abbrev events : List Event
events = adds 1 9 ∷ adds 2 1 ∷ adds 1 7 ∷ flushes ∷ []

rows-IsDue : IsDue rows
rows-IsDue = record { apart = tt; armed = λ e. absurd (ground arith); pending = λ e. refl }

idle : (run events rows).flushes ≡ 0
unfolding run step add buffered lookup insert flush update_all update
idle = refl

row_there : lookup 1 rows.last_seq ≡ some 5
unfolding lookup
row_there = refl

run-caught_up_example :
    lookup 1 (run events rows).last_seq ≡ some (highest_added 1 (level 1 rows) events)
run-caught_up_example = run-caught_up 1 events rows rows-IsDue (5, row_there) idle
