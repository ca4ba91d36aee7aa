-- ===== src/Message/Delivery/Drained.antt =====
-- Runs of all tasks of internal/message/delivery.go to their end.
use yim.Base.{
  nat_eq, pair_eq, ℕ, zero, suc, ◌≤◌, ◌<◌, ◌≡◌, ◌≢◌, refl, subst, Bool, true, false, ◌||◌, List, [],
  ◌∷◌, arith, =?_refl, Bool-cases, inl, inr,
}
use yim.Base.Map.{has}
use yim.Message.Send.{PushEvent}
use yim.Message.Delivery.{
  ConvKey, alive, Task, joining, armed, pushing, boxing, State, push_routed, push_member, pick,
  run_at, ack_push,
}
use yim.Message.Delivery.Tasks.{
  Key, any, retries, hands_over, covered, weight, total, total-run_task,
}
use yim.Message.Delivery.Tracked.{
  IsTracked, run_at-IsTracked, push_member-IsTracked, ack_push-IsTracked,
}
use yim.Message.Delivery.Covered.{
  Op, run, Spares, run-covered, run-IsTracked, run_at-covered, pushed-covered,
}

-- All that the tasks at hand can still do, one after another.
unfoldable pub drain : ℕ → State → State
drain zero s = s
drain (suc n) s = drain n (run_at true 0 s)

abbrev pub IsDone : State → Type 0
IsDone s = s.tasks ≡ []

weight-positive : (t : Task) → 0 < weight t
weight-positive (joining f) = omega arith
weight-positive (armed f level) = omega arith
weight-positive (pushing f level) = omega arith
weight-positive (boxing f) = omega arith

total-zero : (ts : List Task) → total ts ≤ 0 → ts ≡ []
total-zero [] le = refl
total-zero (t ∷ ts) le = absurd (omega (arith, le, weight-positive t))

total-run_at :
    (n : ℕ) (s : State) (ts : List Task)
    → s.tasks ≡ ts
    → total ts ≤ suc n
    → total (run_at true 0 s).tasks ≤ n
unfolding run_at pick
total-run_at n s [] e le = rw (e, run_at) (rw e (omega arith))
total-run_at n s (t ∷ ts) e le =
    rw (e, run_at) (omega (arith, le, total-run_task true t (record s { tasks = ts })))

pub drain-IsDone : (n : ℕ) (s : State) → total s.tasks ≤ n → IsDone (drain n s)
unfolding drain
drain-IsDone zero s le = total-zero s.tasks le
drain-IsDone (suc n) s le = drain-IsDone n (run_at true 0 s) (total-run_at n s s.tasks refl le)

pub drain-covered :
    (k : Key) (n : ℕ) (s : State) → covered k s ≡ true → covered k (drain n s) ≡ true
unfolding drain
drain-covered k zero s h = h
drain-covered k (suc n) s h = drain-covered k n (run_at true 0 s) (run_at-covered k 0 s h)

pub drain-IsTracked : (n : ℕ) (s : State) → IsTracked s → IsTracked (drain n s)
unfolding drain
drain-IsTracked zero s h = h
drain-IsTracked (suc n) s h = drain-IsTracked n (run_at true 0 s) (run_at-IsTracked true 0 s h)

-- Where nothing is left to do, nothing waits: what is covered lies in the box.
pub done-boxed :
    (k : Key) (s : State) → IsTracked s → IsDone s → covered k s ≡ true → has k s.box ≡ true
done-boxed (k, q) s h done c = elim (Bool-cases (alive s.registry k q)) [
  | inl live ↦
      absurd (ground (arith, subst (λ ts. any (retries (k, q)) ts ≡ true) done (h.timed k q live)))
  | inr gone ↦ rest s.tasks done c gone
]
  where
    rest :
        (ts : List Task)
        → ts ≡ []
        → (alive s.registry k q || any (hands_over (k, q)) ts || has (k, q) s.box) ≡ true
        → alive s.registry k q ≡ false
        → has (k, q) s.box ≡ true
    rest [] e c gone = ground (arith, c, gone)
    rest (t ∷ ts) e c gone = absurd (ground arith)

-- From a tracked state, an event that is pushed to a member who never confirms it ends in the member's
-- offline box, whatever else happens in between, as long as no write of the box fails: the tasks come
-- to an end within their total weight, and the row is there.
pub unacked-boxed :
    (delivered : Bool) (e : PushEvent) (uid : ℕ) (ops : List Op) (n : ℕ) (s : State)
    → IsTracked s
    → uid ≢ e.from_uid
    → Spares ((uid, e.conv_id), e.max_seq) ops
    → total (run ops (push_member delivered e uid s)).tasks ≤ n
    → IsDone (drain n (run ops (push_member delivered e uid s)))
      × (has ((uid, e.conv_id), e.max_seq) (drain n (run ops (push_member delivered e uid s))).box
          ≡ true)
unacked-boxed delivered e uid ops n s h other spared enough =
    let k : Key = ((uid, e.conv_id), e.max_seq) in
    let s1 = push_member delivered e uid s in
    let s2 = run ops s1 in
    let done = drain-IsDone n s2 enough in
    let tracked =
      drain-IsTracked n s2 (run-IsTracked ops s1 (push_member-IsTracked delivered e uid s h)) in
    let held =
      drain-covered k n s2 (run-covered k ops s1 spared (pushed-covered delivered e uid s other)) in
    (done, done-boxed k (drain n s2) tracked done held)

handed_over-early :
    (e : PushEvent) (uid a : ℕ) (s : State)
    → uid ≢ e.from_uid
    → covered ((uid, e.conv_id), e.max_seq) (ack_push uid e.conv_id a (push_member true e uid s))
      ≡ true
unfolding ack_push push_member push_routed
handed_over-early e uid a s other = ground (arith, =?_refl {A = ConvKey} (uid, e.conv_id))

-- From a tracked state, an ACK of any seq that comes in between the push of an event to a member and its
-- registration does not keep the event out of the member's offline box: once the tasks at hand have run to
-- their end, with writes of the box that succeed, the row is there.
pub early_ack-boxed :
    (e : PushEvent) (uid a n : ℕ) (s : State)
    → IsTracked s
    → uid ≢ e.from_uid
    → total (ack_push uid e.conv_id a (push_member true e uid s)).tasks ≤ n
    → has
        ((uid, e.conv_id), e.max_seq)
        (drain n (ack_push uid e.conv_id a (push_member true e uid s))).box
      ≡ true
early_ack-boxed e uid a n s h other enough =
    let k : Key = ((uid, e.conv_id), e.max_seq) in
    let s1 = ack_push uid e.conv_id a (push_member true e uid s) in
    let tracked =
      ack_push-IsTracked uid e.conv_id a (push_member true e uid s)
        (push_member-IsTracked true e uid s h) in
    done-boxed k (drain n s1) (drain-IsTracked n s1 tracked) (drain-IsDone n s1 enough)
      (drain-covered k n s1 (handed_over-early e uid a s other))
