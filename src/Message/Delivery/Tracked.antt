-- ===== src/Message/Delivery/Tracked.antt =====
-- Entries of pendingAcks (internal/message/delivery.go) and the timers that look at them.
use yim.Base.{
  nat_eq, pair_eq, pair_beq_iff, ℕ, ◌+◌, ◌≡◌, Bool, true, false, not, ◌||◌, none, some, List, ◌∷◌,
  arith, leb, ◌==◌, Bool-cases, Option-cases, inl, inr,
}
use yim.Message.Send.{PushEvent}
use yim.Message.Delivery.{
  Fire, ConvKey, conv_key, key, Registry, entry, register, alive, remove, retry_levels, Task,
  joining, armed, pushing, boxing, State, push_routed, write_offline_box, start, schedule, run_task,
  push_member, pick, run_at, ack_push,
}
use yim.Message.Delivery.Registry.{
  entry-register, entry-ack, entry-remove, alive-register, alive-ack, alive-remove,
}
use yim.Message.Delivery.Tasks.{any, retries, any-pick}

-- An entry holds the closure of its own key.
abbrev pub OwnFires : Registry → Type 0
OwnFires m = (k : ConvKey) (q : ℕ) (f : Fire) → entry m k q ≡ some f → key f ≡ (k, q)

-- Whoever is in the registry has a task that comes back to it.
abbrev pub Timed : Registry → List Task → Type 0
Timed m ts = (k : ConvKey) (q : ℕ) → alive m k q ≡ true → any (retries (k, q)) ts ≡ true

pub record IsTracked (s : State) : Type 0 where
  pub own : OwnFires s.registry
  pub timed : Timed s.registry s.tasks

register-OwnFires :
    (m : Registry) (f : Fire) → OwnFires m → OwnFires (register m (conv_key f) f.event.max_seq f).0
register-OwnFires m f own k q g e = ground (
  arith,
  own k q g,
  entry-register m (conv_key f) k f.event.max_seq q f,
  pair_beq_iff (conv_key f) k,
  own (conv_key f) f.event.max_seq g,
)

register-refused :
    (m : Registry) (k : ConvKey) (q : ℕ) (f : Fire) → (register m k q f).1 ≡ not (alive m k q)
unfolding register alive
register-refused m k q f = ground arith

start-IsTracked : (f : Fire) (s : State) → IsTracked s → IsTracked (start f s)
unfolding start
start-IsTracked f s h = record {
  own = register-OwnFires s.registry f h.own;
  timed = λ k q live. ground (
    arith,
    h.timed k q,
    alive-register s.registry (conv_key f) k f.event.max_seq q f,
    register-refused s.registry (conv_key f) f.event.max_seq f,
    pair_beq_iff (conv_key f) k,
    live,
  );
}

pub ack_push-IsTracked :
    (uid conv a : ℕ) (s : State) → IsTracked s → IsTracked (ack_push uid conv a s)
unfolding ack_push
ack_push-IsTracked uid conv a s h = record {
  own = λ k q f e. h.own k q f (ground (arith, entry-ack s.registry (uid, conv) k a q));
  timed = λ k q live. h.timed k q (ground (arith, alive-ack s.registry (uid, conv) k a q));
}

-- The state while a task runs that was taken out of the list.
abbrev Running : Task → State → Type 0
Running t s =
    OwnFires s.registry
    × ((k : ConvKey) (q : ℕ)
        → alive s.registry k q ≡ true
        → (retries (k, q) t || any (retries (k, q)) s.tasks) ≡ true)

not_entry : (m : Registry) (k : ConvKey) (q : ℕ) → entry m k q ≡ none → alive m k q ≡ false
unfolding alive
not_entry m k q e = ground arith

armed-IsTracked :
    (ok : Bool) (f : Fire) (level : ℕ) (s : State)
    → Running (armed f level) s
    → IsTracked (run_task ok (armed f level) s)
unfolding run_task
armed-IsTracked ok f level s (own, timed) =
    elim (Bool-cases (alive s.registry (conv_key f) f.event.max_seq)) [
      | inl e ↦ rw e (record { own = own; timed = timed })
      | inr e ↦ rw e (record {
        own = own;
        timed = λ k q live. ground (arith, timed k q live, live, pair_beq_iff (key f) (k, q));
      })
    ]

schedule-IsTracked :
    (f : Fire) (level : ℕ) (s : State)
    → Running (pushing f level) s
    → IsTracked (schedule f level s)
unfolding schedule
schedule-IsTracked f level s (own, timed) =
    elim (Option-cases (entry s.registry (conv_key f) f.event.max_seq)) [
      | inl e ↦
          rw (e, schedule)
            (record {
              own = own;
              timed = λ k q live. ground (
                arith,
                not_entry s.registry (conv_key f) f.event.max_seq e,
                timed k q live,
                live,
                pair_beq_iff (key f) (k, q),
              );
            })
      | inr (g, e) ↦
          rw (e, schedule)
            (record {
              own = own;
              timed =
                  λ k q live. ground (arith, own (conv_key f) f.event.max_seq g e, timed k q live);
            })
    ]

last-IsTracked :
    (f : Fire) (level : ℕ) (s : State)
    → Running (pushing f level) s
    → IsTracked (record s {
      registry = remove s.registry (conv_key f) f.event.max_seq;
      tasks = boxing f ∷ s.tasks;
    })
last-IsTracked f level s (own, timed) = record {
  own = λ k q g e.
      own k q g (ground (arith, entry-remove s.registry (conv_key f) k f.event.max_seq q));
  timed = λ k q live.
      ground (arith, timed k q, alive-remove s.registry (conv_key f) k f.event.max_seq q);
}

pushing-IsTracked :
    (ok : Bool) (f : Fire) (level : ℕ) (s : State)
    → Running (pushing f level) s
    → IsTracked (run_task ok (pushing f level) s)
unfolding run_task push_routed
pushing-IsTracked ok f level s h = elim (Bool-cases (leb retry_levels level)) [
  | inl e ↦ rw (e, run_task) (last-IsTracked f level (push_routed f s) h)
  | inr e ↦ rw (e, run_task) (schedule-IsTracked f (level + 1) (push_routed f s) h)
]

run_task-IsTracked : (ok : Bool) (t : Task) (s : State) → Running t s → IsTracked (run_task ok t s)
unfolding run_task write_offline_box
run_task-IsTracked ok (joining f) s (own, timed) =
    start-IsTracked f s (record { own = own; timed = timed })
run_task-IsTracked ok (armed f level) s h = armed-IsTracked ok f level s h
run_task-IsTracked ok (pushing f level) s h = pushing-IsTracked ok f level s h
run_task-IsTracked true (boxing f) s (own, timed) = record { own = own; timed = timed }
run_task-IsTracked false (boxing f) s (own, timed) = record { own = own; timed = timed }

pub run_at-IsTracked : (ok : Bool) (i : ℕ) (s : State) → IsTracked s → IsTracked (run_at ok i s)
unfolding run_at
run_at-IsTracked ok i s h = elim (Option-cases (pick i s.tasks)) [
  | inl e ↦ rw (e, run_at) h
  | inr ((t, rest), e) ↦
      rw (e, run_at)
        (run_task-IsTracked ok t (record s { tasks = rest })
          (
            h.own,
            λ k q live.
                ground (arith, h.timed k q live, any-pick (retries (k, q)) i s.tasks t rest e),
          ))
]

pub push_member-IsTracked :
    (delivered : Bool) (e : PushEvent) (uid : ℕ) (s : State)
    → IsTracked s
    → IsTracked (push_member delivered e uid s)
unfolding push_member push_routed
push_member-IsTracked true e uid s h = elim (Bool-cases (uid == e.from_uid)) [
  | inl same ↦ rw (same, push_member) h
  | inr other ↦
      rw (other, push_member) (record { own = h.own; timed = λ k q live. h.timed k q live })
]
push_member-IsTracked false e uid s h = elim (Bool-cases (uid == e.from_uid)) [
  | inl same ↦ rw (same, push_member) h
  | inr other ↦
      rw (other, push_member) (record { own = h.own; timed = λ k q live. h.timed k q live })
]
