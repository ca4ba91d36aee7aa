-- ===== src/Message/Delivery/Tests.antt =====
-- Runs and instances of the delivery (internal/message/delivery.go) of one event to two members.
use yim.Base.{
  contains, nat_eq, pair_eq, ℕ, ◌≡◌, ◌≢◌, ◌≤◌, refl, leb, true, some, List, [], ◌∷◌, arith,
}
use yim.Base.Map.{lookup, insert, erase, has, insert_ignore}
use yim.Message.Send.{PushEvent}
use yim.Message.Delivery.{
  Fire, ConvKey, Registry, State, bucket, entry, register, alive, shrink, drop_upto, ack, remove,
  push_routed, write_offline_box, start, schedule, run_task, push_member, pick, run_at, ack_push,
  Answers, deliver,
}
use yim.Message.Delivery.Tasks.{total}
use yim.Message.Delivery.Tracked.{IsTracked}
use yim.Message.Delivery.Covered.{Op, runs, pushes, acks, run, step}
use yim.Message.Delivery.Drained.{IsDone, drain, unacked-boxed, early_ack-boxed}
use yim.Message.Delivery.Deliver.{BoxWorks, settled, deliver-covers}

abbrev idle : State
idle = record { registry = []; tasks = []; box = []; pushes = []; bumped = []; marks = [] }

abbrev event : PushEvent
event = record { conv_id = 5; max_seq = 3; from_uid = 7; user_sync_seq = 1; msg_id = 513 }

idle-IsTracked : IsTracked idle
unfolding alive entry bucket lookup
idle-IsTracked = record {
  own = λ k q f e. absurd (ground arith);
  timed = λ k q e. absurd (ground arith);
}

eight-ne-seven : ◌≢◌ {A = ℕ} 8 7
eight-ne-seven e = absurd (omega (arith, e))

-- Another event is delivered and confirmed meanwhile.
abbrev meanwhile : List Op
meanwhile = runs true 0 ∷ pushes true (record event { max_seq = 2 }) 8 ∷ acks 8 5 2 ∷ []

retried : List (ConvKey × ℕ)
retried = (drain 20 (run_at true 0 (push_member true event 8 idle))).pushes

four_pushes : retried ≡ ((8, 5), 3) ∷ ((8, 5), 3) ∷ ((8, 5), 3) ∷ ((8, 5), 3) ∷ []
unfolding retried drain run_at push_member push_routed pick run_task start schedule register alive
    entry bucket lookup insert erase remove shrink write_offline_box insert_ignore
four_pushes = refl

enough : total (run meanwhile (push_member true event 8 idle)).tasks ≤ 40
unfolding run step run_at push_member push_routed pick run_task start register entry bucket lookup
    insert ack_push ack shrink drop_upto erase
enough = omega arith

unacked-boxed_example :
    IsDone (drain 40 (run meanwhile (push_member true event 8 idle)))
    × (has ((8, 5), 3) (drain 40 (run meanwhile (push_member true event 8 idle))).box ≡ true)
unacked-boxed_example =
    unacked-boxed true event 8 meanwhile 40 idle idle-IsTracked eight-ne-seven (refl, (refl, tt))
      enough

enough_early : total (ack_push 8 5 3 (push_member true event 8 idle)).tasks ≤ 20
unfolding ack_push push_member push_routed
enough_early = omega arith

early_ack-boxed_example :
    has ((8, 5), 3) (drain 20 (ack_push 8 5 3 (push_member true event 8 idle))).box ≡ true
early_ack-boxed_example =
    early_ack-boxed event 8 3 20 idle idle-IsTracked eight-ne-seven enough_early

abbrev online : Answers
online uid = (leb uid 8, true)

online-BoxWorks : BoxWorks online
online-BoxWorks uid = refl

deliver-covers_example :
    (contains (deliver (some (7 ∷ 8 ∷ 9 ∷ [])) online event idle).bumped 8 ≡ true)
    × (contains (deliver (some (7 ∷ 8 ∷ 9 ∷ [])) online event idle).pushes ((8, 5), 3) ≡ true)
    × (settled true ((8, 5), 3) (deliver (some (7 ∷ 8 ∷ 9 ∷ [])) online event idle) ≡ true)
deliver-covers_example =
    deliver-covers online event (7 ∷ 8 ∷ 9 ∷ []) 8 idle online-BoxWorks refl eight-ne-seven

abbrev fire : Fire
fire = record { event = event; uid = 8 }

abbrev two_waiting : Registry
two_waiting = ((8, 5), (3, fire) ∷ (4, fire) ∷ []) ∷ []

abbrev talk : ConvKey
talk = (8, 5)
