-- ===== src/Message/Delivery.antt =====
-- Deliverer and pendingAcks of internal/message/delivery.go. A goroutine or an armed timer is a task,
-- which says where it stands; between any two steps of tasks an ACK may come in.
-- The closure that retryFire builds is its data, the event and the receiver.
pub mod Registry
pub mod Tasks
pub mod Tracked
pub mod Covered
pub mod Drained
pub mod Deliver
mod Tests
use yim.Base.{
  nat_eq, pair_eq, ℕ, ◌+◌, Bool, true, false, Option, none, some, List, [], ◌∷◌, ◌++◌, suc, zero,
  leb, ◌==◌, if◌then◌else◌,
}
use yim.Base.Map.{Map, lookup, insert, erase, insert_ignore}
use yim.Message.Send.{PushEvent}

pub record Fire : Type 0 where
  pub event : PushEvent
  pub uid : ℕ

-- pendConvKey.
abbrev pub ConvKey : Type 0
ConvKey = ℕ × ℕ

abbrev pub conv_key : Fire → ConvKey
conv_key f = (f.uid, f.event.conv_id)

-- (uid, conv_id) ↦ seq ↦ closure.
abbrev pub Registry : Type 0
Registry = Map ConvKey (Map ℕ Fire)

-- pendingAcks.bucket; a missing map reads as an empty one.
abbrev pub bucket_of : Option (Map ℕ Fire) → Map ℕ Fire
bucket_of none = []
bucket_of (some b) = b

unfoldable pub bucket : Registry → ConvKey → Map ℕ Fire
bucket m k = bucket_of (lookup k m)

unfoldable pub entry : Registry → ConvKey → ℕ → Option Fire
entry m k seq = lookup seq (bucket m k)

-- Whether `fire(1)` is started comes with the registry.
unfoldable pub register : Registry → ConvKey → ℕ → Fire → Registry × Bool
register m k seq fire = elim (entry m k seq) [
  | some _ ↦ (m, false)
  | none ↦ (insert k (insert seq fire (bucket m k)) m, true)
]

unfoldable pub alive : Registry → ConvKey → ℕ → Bool
alive m k seq = elim (entry m k seq) [ none ↦ false | some _ ↦ true ]

-- What is put back when entries were deleted from a bucket: an empty one goes.
unfoldable pub shrink : Registry → ConvKey → Map ℕ Fire → Registry
shrink m k [] = erase k m
shrink m k (x ∷ b) = insert k (x ∷ b) m

unfoldable pub drop_upto : ℕ → Map ℕ Fire → Map ℕ Fire
drop_upto ack_seq [] = []
drop_upto ack_seq ((seq, f) ∷ b) =
    let rest = drop_upto ack_seq b in if leb seq ack_seq then rest else (seq, f) ∷ rest

unfoldable pub ack : Registry → ConvKey → ℕ → Registry
ack m k ack_seq = shrink m k (drop_upto ack_seq (bucket m k))

unfoldable pub remove : Registry → ConvKey → ℕ → Registry
remove m k seq = shrink m k (erase seq (bucket m k))

-- len(retryDelays).
abbrev pub retry_levels : ℕ
retry_levels = 3

-- joining: pushed, not yet registered. armed: waits for the timer of its level. pushing: found alive,
-- about to push again and move on. boxing: about to write the offline box.
pub data Task : Type 0 where
  joining : Fire → Task
  armed pushing : Fire → ℕ → Task
  boxing : Fire → Task

-- `pushes` and `bumped` log the calls to comet and to the seq service; `box` is the offline box.
pub record State : Type 0 where
  pub registry : Registry
  pub tasks : List Task
  pub box : Map (ConvKey × ℕ) Bool
  pub pushes : List (ConvKey × ℕ)
  pub bumped : List ℕ
  pub marks : List (ℕ × ℕ)

abbrev pub key : Fire → ConvKey × ℕ
key f = (conv_key f, f.event.max_seq)

unfoldable pub push_routed : Fire → State → State
push_routed f s = record s { pushes = key f ∷ s.pushes }

unfoldable pub write_offline_box : Bool → Fire → State → State
write_offline_box ok f s = if ok then record s { box = insert_ignore (key f) false s.box } else s

unfoldable pub start : Fire → State → State
start f s =
    let (m, started) = register s.registry (conv_key f) f.event.max_seq f in
    record s { registry = m; tasks = if started then armed f 1 ∷ s.tasks else s.tasks }

unfoldable pub schedule : Fire → ℕ → State → State
schedule f level s = elim (entry s.registry (conv_key f) f.event.max_seq) [
  | none ↦ s
  | some g ↦ record s { tasks = armed g level ∷ s.tasks }
]

-- A step of a task; `box_ok` is what the write of the offline box meets.
unfoldable pub run_task : Bool → Task → State → State
run_task box_ok (joining f) s = start f s
run_task box_ok (armed f level) s =
    if alive s.registry (conv_key f) f.event.max_seq
    then record s { tasks = pushing f level ∷ s.tasks }
    else s
run_task box_ok (pushing f level) s =
    let s1 = push_routed f s in
    if leb retry_levels level
    then record s1 {
      registry = remove s1.registry (conv_key f) f.event.max_seq;
      tasks = boxing f ∷ s1.tasks;
    }
    else schedule f (level + 1) s1
run_task box_ok (boxing f) s = write_offline_box box_ok f s

-- The first half of deliver's loop body: the number of the receiver moves on, the push goes out.
unfoldable pub push_member : Bool → PushEvent → ℕ → State → State
push_member delivered e uid s =
    if uid == e.from_uid
    then s
    else let f : Fire = record { event = e; uid = uid } in
      let s1 = push_routed f (record s { bumped = uid ∷ s.bumped }) in
      record s1 { tasks = (if delivered then joining f else boxing f) ∷ s1.tasks }

-- The task at a place of the list, and the others.
unfoldable pub pick : ℕ → List Task → Option (Task × List Task)
pick i [] = none
pick zero (t ∷ ts) = some (t, ts)
pick (suc i) (t ∷ ts) = elim (pick i ts) [ none ↦ none | some (u, rest) ↦ some (u, t ∷ rest) ]

unfoldable pub run_at : Bool → ℕ → State → State
run_at box_ok i s = elim (pick i s.tasks) [
  | none ↦ s
  | some (t, rest) ↦ run_task box_ok t (record s { tasks = rest })
]

unfoldable pub ack_push : ℕ → ℕ → ℕ → State → State
ack_push uid conv_id ack_seq s = record s { registry = ack s.registry (uid, conv_id) ack_seq }

-- What the outside answers for a member: is the push delivered, is the box written.
abbrev pub Answers : Type 0
Answers = ℕ → Bool × Bool

-- The loop of deliver, each member's task run at once.
unfoldable pub deliver_members : Answers → PushEvent → List ℕ → State → State
deliver_members answers e [] s = s
deliver_members answers e (uid ∷ uids) s =
    let s1 = push_member (answers uid).0 e uid s in
    deliver_members answers e uids (if uid == e.from_uid then s1 else run_at (answers uid).1 0 s1)

-- deliver; `members` is none where they cannot be read.
unfoldable pub deliver : Option (List ℕ) → Answers → PushEvent → State → State
deliver none answers e s = s
deliver (some uids) answers e s =
    let s1 = deliver_members answers e uids s in
    if e.msg_id == 0 then s1 else record s1 { marks = (e.conv_id, e.msg_id) ∷ s1.marks }
