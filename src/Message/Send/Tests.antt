-- ===== src/Message/Send/Tests.antt =====
-- Runs and instances of SendMessage (internal/message/service.go) in one conversation of three members.
use yim.Base.{nat_eq, pair_eq, ℕ, ◌≡◌, refl, Bool, true, false, none, some, [], ◌∷◌, arith, ◌⊎◌}
use yim.Base.Map.{lookup, insert, erase, has}
use yim.Message.Ids.{alloc_msg_id, alloc_conv_seq, take_seq, refill_conv, make_room, pop_id}
use yim.Message.Send.{
  State, Env, Msg, Stmt, begin_tx, sent, not_member, failed, key_of, number, mark, finish,
  check_member, answer_known, might_contain, prepare_new, going_on, committed, idem_delete,
  idem_value, is_duplicate, persist, push_event, with_push, query_by_client_msg_id, seq_taken,
  stored, prepare, go_on, send_message,
}
use yim.Message.Send.Idempotent.{IsSound, Answers, send-IsSound}
use yim.Message.Send.Resend.{send_all, send-same_ids}
use yim.Message.Send.Effects.{Quiet, Pushed, send-effect}
use yim.Message.Send.Inflight.{send-lost}

abbrev empty : State
empty = record {
  messages = [];
  local_messages = [];
  idem = [];
  bloom = [];
  conv_segs = [];
  msg_ids = record { cur = 0; last = 0 };
  recent = [];
  last_seqs = [];
  pushed = [];
}

abbrev calm : Stmt → Bool
calm s = false

abbrev no_begin : Stmt → Bool
no_begin begin_tx = true
no_begin s = false

abbrev env : Env
env = record {
  members = some (7 ∷ 8 ∷ 9 ∷ []);
  cached = true;
  pusher = true;
  false_positive = false;
  conv_answer = some 1;
  msg_answer = some 513;
  sync_seq = 4;
  fails = calm;
}

abbrev stuck : Env
stuck = record env { fails = no_begin }

abbrev msg : Msg
msg = record { conv_id = 5; client_msg_id = 77; from_uid = 7; content = b'h' ∷ b'i' ∷ [] }

abbrev msg2 : Msg
msg2 = record msg { client_msg_id = 78 }

first_sent : (send_message env msg empty).1 ≡ sent 513 1
unfolding send_message finish prepare check_member answer_known might_contain prepare_new number
    alloc_conv_seq take_seq lookup refill_conv insert make_room alloc_msg_id going_on mark erase has
    pop_id committed idem_delete idem_value is_duplicate persist push_event with_push
    query_by_client_msg_id seq_taken stored send_all
first_sent = refl

second_sent : (send_message env msg2 (send_message env msg empty).0).1 ≡ sent 514 2
unfolding send_message finish prepare check_member answer_known might_contain prepare_new number
    alloc_conv_seq take_seq lookup refill_conv insert make_room alloc_msg_id going_on mark erase has
    pop_id committed idem_delete idem_value is_duplicate persist push_event with_push
    query_by_client_msg_id seq_taken stored send_all
second_sent = refl

stranger_refused : (send_message env (record msg { from_uid = 1 }) empty).1 ≡ not_member
unfolding send_message finish prepare check_member answer_known might_contain prepare_new number
    alloc_conv_seq take_seq lookup refill_conv insert make_room alloc_msg_id going_on mark erase has
    pop_id committed idem_delete idem_value is_duplicate persist push_event with_push
    query_by_client_msg_id seq_taken stored send_all
stranger_refused = refl

empty-IsSound : IsSound empty
unfolding lookup
empty-IsSound k v e = absurd (ground arith)

send-IsSound_example :
    IsSound (send_message env msg empty).0 × Answers (key_of msg) (send_message env msg empty)
send-IsSound_example = send-IsSound env msg empty (refl, refl) empty-IsSound

again_sent :
    (send_message env msg (send_all ((env, msg2) ∷ []) (send_message env msg empty).0)).1
    ≡ sent 513 1
unfolding send_message finish prepare check_member answer_known might_contain prepare_new number
    alloc_conv_seq take_seq lookup refill_conv insert make_room alloc_msg_id going_on mark erase has
    pop_id committed idem_delete idem_value is_duplicate persist push_event with_push
    query_by_client_msg_id seq_taken stored send_all
again_sent = refl

send-same_ids_example : (◌≡◌ {A = ℕ} 513 513) × (◌≡◌ {A = ℕ} 1 1)
send-same_ids_example =
    send-same_ids env env msg msg ((env, msg2) ∷ []) empty 513 1 513 1 empty-IsSound (refl, refl)
      ((refl, refl), tt) (refl, refl) refl first_sent again_sent

send-effect_example :
    Quiet empty.messages empty.pushed msg (send_message env msg empty)
    ⊎ Pushed env msg empty.messages empty.pushed (send_message env msg empty)
send-effect_example = send-effect env msg empty empty-IsSound

-- The mark of a first call that has not come to its transaction.
abbrev marked_state : State
marked_state = record empty { idem = ((5, 77), (513, 1)) ∷ [] }

numbers : (number env msg marked_state).1 ≡ some (513, 1)
unfolding send_message finish prepare check_member answer_known might_contain prepare_new number
    alloc_conv_seq take_seq lookup refill_conv insert make_room alloc_msg_id going_on mark erase has
    pop_id committed idem_delete idem_value is_duplicate persist push_event with_push
    query_by_client_msg_id seq_taken stored send_all
numbers = refl

there : lookup (key_of msg) marked_state.idem ≡ some (513, 1)
unfolding lookup
there = refl

unmarked_yet : lookup (key_of msg) empty.idem ≡ none
unfolding lookup
unmarked_yet = refl

no_row_yet : lookup (key_of msg) empty.messages ≡ none
unfolding lookup
no_row_yet = refl

goes_on : (prepare stuck msg empty).1 ≡ go_on 513 1
unfolding send_message finish prepare check_member answer_known might_contain prepare_new number
    alloc_conv_seq take_seq lookup refill_conv insert make_room alloc_msg_id going_on mark erase has
    pop_id committed idem_delete idem_value is_duplicate persist push_event with_push
    query_by_client_msg_id seq_taken stored send_all
goes_on = refl

later_numbers : (number env msg (prepare stuck msg empty).0).1 ≡ some (514, 2)
unfolding send_message finish prepare check_member answer_known might_contain prepare_new number
    alloc_conv_seq take_seq lookup refill_conv insert make_room alloc_msg_id going_on mark erase has
    pop_id committed idem_delete idem_value is_duplicate persist push_event with_push
    query_by_client_msg_id seq_taken stored send_all
later_numbers = refl

send-lost_example :
    ((send_message stuck msg empty).1 ≡ failed)
    × ((send_message env msg (send_message stuck msg empty).0).1 ≡ sent 513 1)
    × (lookup (key_of msg) (send_message env msg (send_message stuck msg empty).0).0.messages
        ≡ none)
send-lost_example =
    send-lost stuck env msg empty 513 1 refl refl refl refl unmarked_yet no_row_yet goes_on
      ((7 ∷ 8 ∷ 9 ∷ [], refl, refl), refl, refl, refl, ((514, 2), later_numbers))
