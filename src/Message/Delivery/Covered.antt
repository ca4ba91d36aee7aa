-- ===== src/Message/Delivery/Covered.antt =====
-- Steps of tasks and of further events of internal/message/delivery.go in any order, with ACKs in between.
use yim.Base.{
  nat_eq, pair_eq, ℕ, ◌+◌, ◌≡◌, ◌≢◌, Bool, true, false, ◌||◌, ◌&&◌, List, [], ◌∷◌, arith, leb, ◌=?◌,
  =?_refl, Option-cases, inl, inr,
}
use yim.Base.Map.{has-insert_ignore}
use yim.Message.Send.{PushEvent}
use yim.Message.Delivery.{
  Fire, ConvKey, conv_key, key, Task, joining, armed, pushing, boxing, State, push_routed,
  write_offline_box, start, schedule, run_task, push_member, pick, run_at, ack_push,
}
use yim.Message.Delivery.Registry.{alive-register, alive-ack, alive-remove}
use yim.Message.Delivery.Tasks.{Key, hands_over, covered, any-pick}
use yim.Message.Delivery.Tracked.{
  IsTracked, run_at-IsTracked, push_member-IsTracked, ack_push-IsTracked,
}

-- What is covered while a task runs that was taken out of the list.
abbrev kept : Key → Task → State → Bool
kept k t s = hands_over k t || covered k s

start-covered :
    (k : Key) (f : Fire) (s : State) → kept k (joining f) s ≡ true → covered k (start f s) ≡ true
unfolding start
start-covered (k, q) f s h =
    ground (arith, h, alive-register s.registry (conv_key f) k f.event.max_seq q f)

schedule-covered :
    (k : Key) (f : Fire) (level : ℕ) (s : State)
    → covered k s ≡ true
    → covered k (schedule f level s) ≡ true
unfolding schedule
schedule-covered k f level s h = ground (arith, h)

run_task-covered :
    (k : Key) (t : Task) (s : State) → kept k t s ≡ true → covered k (run_task true t s) ≡ true
unfolding run_task push_routed write_offline_box
run_task-covered k (joining f) s h = start-covered k f s h
run_task-covered k (armed f level) s h = ground (arith, h)
run_task-covered (k, q) (pushing f level) s h = ground (
  arith,
  h,
  alive-remove s.registry (conv_key f) k f.event.max_seq q,
  schedule-covered (k, q) f (level + 1) (push_routed f s),
)
run_task-covered k (boxing f) s h = ground (arith, h, has-insert_ignore (key f) k false s.box)

pub run_at-covered :
    (k : Key) (i : ℕ) (s : State) → covered k s ≡ true → covered k (run_at true i s) ≡ true
unfolding run_at
run_at-covered k i s h = elim (Option-cases (pick i s.tasks)) [
  | inl e ↦ rw (e, run_at) h
  | inr ((t, rest), e) ↦
      rw (e, run_at)
        (run_task-covered k t (record s { tasks = rest })
          (ground (arith, h, any-pick (hands_over k) i s.tasks t rest e)))
]

pub push_member-covered :
    (k : Key) (delivered : Bool) (e : PushEvent) (uid : ℕ) (s : State)
    → covered k s ≡ true
    → covered k (push_member delivered e uid s) ≡ true
unfolding push_member push_routed
push_member-covered k delivered e uid s h = ground (arith, h)

-- What happens next: a task runs, an event reaches a member, a client confirms.
pub data Op : Type 0 where
  runs : Bool → ℕ → Op
  pushes : Bool → PushEvent → ℕ → Op
  acks : ℕ → ℕ → ℕ → Op

unfoldable pub step : Op → State → State
step (runs ok i) s = run_at ok i s
step (pushes delivered e uid) s = push_member delivered e uid s
step (acks uid conv_id ack_seq) s = ack_push uid conv_id ack_seq s

unfoldable pub run : List Op → State → State
run [] s = s
run (op ∷ ops) s = run ops (step op s)

-- No ACK reaches the key and no write of the box fails.
abbrev pub Spares : Key → List Op → Type 0
Spares k [] = Unit {0}
Spares k (runs ok i ∷ ops) = (ok ≡ true) × Spares k ops
Spares k (pushes delivered e uid ∷ ops) = Spares k ops
Spares k (acks uid conv_id a ∷ ops) =
    ((((uid, conv_id) =? k.0) && leb k.1 a) ≡ false) × Spares k ops

ack_push-covered :
    (k : Key) (uid conv_id a : ℕ) (s : State)
    → (((uid, conv_id) =? k.0) && leb k.1 a) ≡ false
    → covered k s ≡ true
    → covered k (ack_push uid conv_id a s) ≡ true
unfolding ack_push
ack_push-covered (k, q) uid conv_id a s other h =
    ground (arith, h, alive-ack s.registry (uid, conv_id) k a q)

pub run-covered :
    (k : Key) (ops : List Op) (s : State)
    → Spares k ops
    → covered k s ≡ true
    → covered k (run ops s) ≡ true
unfolding run step
run-covered k [] s spared h = h
run-covered k (runs ok i ∷ ops) s (fine, spared) h =
    run-covered k ops (run_at ok i s) spared (rw fine (run_at-covered k i s h))
run-covered k (pushes delivered e uid ∷ ops) s spared h =
    run-covered k ops (push_member delivered e uid s) spared
      (push_member-covered k delivered e uid s h)
run-covered k (acks uid conv_id a ∷ ops) s (other, spared) h =
    run-covered k ops (ack_push uid conv_id a s) spared (ack_push-covered k uid conv_id a s other h)

-- Where every entry of the registry has a timer that comes back to it, it is so after any sequence of
-- task steps, pushes and ACKs.
pub run-IsTracked : (ops : List Op) (s : State) → IsTracked s → IsTracked (run ops s)
unfolding run step
run-IsTracked [] s h = h
run-IsTracked (runs ok i ∷ ops) s h = run-IsTracked ops (run_at ok i s) (run_at-IsTracked ok i s h)
run-IsTracked (pushes delivered e uid ∷ ops) s h =
    run-IsTracked ops (push_member delivered e uid s) (push_member-IsTracked delivered e uid s h)
run-IsTracked (acks uid conv_id a ∷ ops) s h =
    run-IsTracked ops (ack_push uid conv_id a s) (ack_push-IsTracked uid conv_id a s h)

pub pushed-covered :
    (delivered : Bool) (e : PushEvent) (uid : ℕ) (s : State)
    → uid ≢ e.from_uid
    → covered ((uid, e.conv_id), e.max_seq) (push_member delivered e uid s) ≡ true
unfolding push_member push_routed
pushed-covered delivered e uid s other = ground (arith, =?_refl {A = ConvKey} (uid, e.conv_id))
