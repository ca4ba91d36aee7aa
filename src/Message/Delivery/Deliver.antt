-- ===== src/Message/Delivery/Deliver.antt =====
-- Lemmas on deliver of internal/message/delivery.go.
use yim.Base.{
  nat_eq, pair_eq, ==_iff, =?_refl, ℕ, ◌≡◌, ◌≢◌, refl, sym, subst, Bool, true, false, some, List,
  [], ◌∷◌, arith, ◌==◌, contains, Bool-cases, inl, inr,
}
use yim.Base.Map.{has, has-insert_ignore}
use yim.Message.Send.{PushEvent}
use yim.Message.Delivery.{
  Fire, ConvKey, conv_key, key, alive, State, push_routed, write_offline_box, start, run_task,
  push_member, pick, run_at, Answers, deliver_members, deliver,
}
use yim.Message.Delivery.Registry.{alive-register}
use yim.Message.Delivery.Tasks.{Key}

-- Every write of the offline box succeeds.
abbrev pub BoxWorks : Answers → Type 0
BoxWorks answers = (uid : ℕ) → (answers uid).1 ≡ true

-- An event that was delivered waits for its ACK in the registry; one that was not lies in the box.
abbrev pub settled : Bool → Key → State → Bool
settled true k s = alive s.registry k.0 k.1
settled false k s = has k s.box

-- The member's number has moved on, the push has gone out, and the event is settled by its answer.
pub record Reached (delivered : Bool) (k : Key) (s : State) : Type 0 where
  pub numbered : contains s.bumped k.0.0 ≡ true
  pub pushed : contains s.pushes k ≡ true
  pub settles : settled delivered k s ≡ true

-- The state after the push.
abbrev after_push : Fire → State → State
after_push f s = record s { bumped = f.uid ∷ s.bumped; pushes = key f ∷ s.pushes }

-- The task of the push, run at once.
abbrev followed : Bool → Bool → Fire → State → State
followed true ok f s = start f s
followed false ok f s = write_offline_box ok f s

member_followed :
    (delivered ok : Bool) (e : PushEvent) (uid : ℕ) (s : State)
    → (uid == e.from_uid) ≡ false
    → run_at ok 0 (push_member delivered e uid s)
      ≡ followed delivered ok
          (record { event = e; uid = uid })
          (after_push (record { event = e; uid = uid }) s)
unfolding run_at pick run_task push_member push_routed
member_followed true ok e uid s other = rw (other, push_member) refl
member_followed false ok e uid s other = rw (other, push_member) refl

start-settled :
    (d : Bool) (k : Key) (f : Fire) (s : State)
    → settled d k s ≡ true
    → settled d k (start f s) ≡ true
unfolding start
start-settled true (k, q) f s h =
    ground (arith, h, alive-register s.registry (conv_key f) k f.event.max_seq q f)
start-settled false k f s h = h

box-settled :
    (d ok : Bool) (k : Key) (f : Fire) (s : State)
    → settled d k s ≡ true
    → settled d k (write_offline_box ok f s) ≡ true
unfolding write_offline_box
box-settled true ok k f s h = ground (arith, h)
box-settled false ok k f s h = ground (arith, h, has-insert_ignore (key f) k false s.box)

-- The registry, the box and the logs only grow.
followed-Reached :
    (d delivered ok : Bool) (k : Key) (f : Fire) (s : State)
    → Reached d k s
    → Reached d k (followed delivered ok f s)
unfolding start write_offline_box
followed-Reached d true ok k f s h = record {
  numbered = h.numbered;
  pushed = h.pushed;
  settles = start-settled d k f s h.settles;
}
followed-Reached d false ok k f s h = record {
  numbered = ground (arith, h.numbered);
  pushed = ground (arith, h.pushed);
  settles = box-settled d ok k f s h.settles;
}

after_push-Reached :
    (d : Bool) (k : Key) (f : Fire) (s : State) → Reached d k s → Reached d k (after_push f s)
after_push-Reached true k f s h = record {
  numbered = ground (arith, h.numbered);
  pushed = ground (arith, h.pushed);
  settles = h.settles;
}
after_push-Reached false k f s h = record {
  numbered = ground (arith, h.numbered);
  pushed = ground (arith, h.pushed);
  settles = h.settles;
}

followed_self :
    (delivered : Bool) (f : Fire) (s : State)
    → Reached delivered (key f) (followed delivered true f (after_push f s))
unfolding start write_offline_box
followed_self true f s =
    let own = =?_refl {A = ConvKey} (conv_key f) in
    record {
      numbered = ground arith;
      pushed = ground (arith, =?_refl {A = Key} (key f));
      settles = ground (
        arith,
        own,
        alive-register s.registry (conv_key f) (conv_key f) f.event.max_seq f.event.max_seq f,
      );
    }
followed_self false f s = record {
  numbered = ground arith;
  pushed = ground (arith, =?_refl {A = Key} (key f));
  settles =
      ground (arith, =?_refl {A = Key} (key f), has-insert_ignore (key f) (key f) false s.box);
}

push_member_self :
    (delivered : Bool) (e : PushEvent) (uid : ℕ) (s : State)
    → (uid == e.from_uid) ≡ true
    → push_member delivered e uid s ≡ s
unfolding push_member
push_member_self delivered e uid s own = rw (own, push_member) refl

members-Reached :
    (d : Bool) (k : Key) (answers : Answers) (e : PushEvent) (uids : List ℕ) (s : State)
    → Reached d k s
    → Reached d k (deliver_members answers e uids s)
unfolding deliver_members
members-Reached d k answers e [] s h = h
members-Reached d k answers e (uid ∷ uids) s h = elim (Bool-cases (uid == e.from_uid)) [
  | inl own ↦
      rw (own, deliver_members)
        (subst (λ t. Reached d k (deliver_members answers e uids t))
          (sym (push_member_self (answers uid).0 e uid s own))
          (members-Reached d k answers e uids s h))
  | inr other ↦
      let f : Fire = record { event = e; uid = uid } in
      let ok = (answers uid).1 in
      let went = (answers uid).0 in
      let next = followed went ok f (after_push f s) in
      rw (other, deliver_members)
        (subst (λ t. Reached d k (deliver_members answers e uids t))
          (sym (member_followed went ok e uid s other))
          (members-Reached d k answers e uids next
            (followed-Reached d went ok k f (after_push f s) (after_push-Reached d k f s h))))
]

head-Reached :
    (answers : Answers) (e : PushEvent) (uids : List ℕ) (uid : ℕ) (s : State)
    → (answers uid).1 ≡ true
    → (uid == e.from_uid) ≡ false
    → Reached
        (answers uid).0
        ((uid, e.conv_id), e.max_seq)
        (deliver_members answers e (uid ∷ uids) s)
unfolding deliver_members
head-Reached answers e uids uid s works other =
    let f : Fire = record { event = e; uid = uid } in
    let went = (answers uid).0 in
    rw (other, deliver_members)
      (subst (λ t. Reached went (key f) (deliver_members answers e uids t))
        (sym (member_followed went (answers uid).1 e uid s other))
        (members-Reached went (key f) answers e uids
          (followed went (answers uid).1 f (after_push f s))
          (subst (λ ok. Reached went (key f) (followed went ok f (after_push f s))) (sym works)
            (followed_self went f s))))

-- What holds after the rest of the loop, from whatever state, holds after the whole loop.
rest-Reached :
    (d : Bool) (answers : Answers) (e : PushEvent) (u : ℕ) (uids : List ℕ) (k : Key) (s : State)
    → ((t : State) → Reached d k (deliver_members answers e uids t))
    → Reached d k (deliver_members answers e (u ∷ uids) s)
unfolding deliver_members
rest-Reached d answers e u uids k s h = elim (Bool-cases (u == e.from_uid)) [
  | inl own ↦ rw (own, deliver_members) (h (push_member (answers u).0 e u s))
  | inr other ↦
      rw (other, deliver_members) (h (run_at (answers u).1 0 (push_member (answers u).0 e u s)))
]

-- markDelivered leaves the registry and the box alone.
marked-settled :
    (d : Bool) (k : Key) (e : PushEvent) (t : State)
    → settled d k t ≡ true
    → settled d k (record t { marks = (e.conv_id, e.msg_id) ∷ t.marks }) ≡ true
marked-settled true k e t h = h
marked-settled false k e t h = h

member-Reached :
    (answers : Answers) (e : PushEvent) (uids : List ℕ) (uid : ℕ) (s : State)
    → BoxWorks answers
    → contains uids uid ≡ true
    → (uid == e.from_uid) ≡ false
    → Reached (answers uid).0 ((uid, e.conv_id), e.max_seq) (deliver_members answers e uids s)
member-Reached answers e [] uid s works mem other = absurd (ground arith)
member-Reached answers e (u ∷ uids) uid s works mem other = elim (Bool-cases (u == uid)) [
  | inl same ↦
      subst
        (λ v.
          Reached (answers uid).0 ((uid, e.conv_id), e.max_seq)
            (deliver_members answers e (v ∷ uids) s))
        (sym ((==_iff u uid).0 same)) (head-Reached answers e uids uid s (works uid) other)
  | inr next ↦
      rest-Reached (answers uid).0 answers e u uids ((uid, e.conv_id), e.max_seq) s
        (λ t. member-Reached answers e uids uid t works (ground (arith, mem, next)) other)
]

-- Where the members can be read and the writes of the box succeed, deliver moves on the number of each
-- member but the sender and pushes the event to them; when the push is delivered, the event then waits for
-- the member's ACK in the registry, and else it lies in their offline box.
pub deliver-covers :
    (answers : Answers) (e : PushEvent) (uids : List ℕ) (uid : ℕ) (s : State)
    → BoxWorks answers
    → contains uids uid ≡ true
    → uid ≢ e.from_uid
    → (contains (deliver (some uids) answers e s).bumped uid ≡ true)
      × (contains (deliver (some uids) answers e s).pushes ((uid, e.conv_id), e.max_seq) ≡ true)
      × (settled (answers uid).0 ((uid, e.conv_id), e.max_seq) (deliver (some uids) answers e s)
          ≡ true)
unfolding deliver
deliver-covers answers e uids uid s works mem other =
    let h = member-Reached answers e uids uid s works mem (ground (arith, other)) in
    elim (Bool-cases (e.msg_id == 0)) [
      | inl none ↦ rw (none, deliver) (h.numbered, h.pushed, h.settles)
      | inr some_id ↦
          let t = deliver_members answers e uids s in
          rw (some_id, deliver)
            (
              h.numbered,
              h.pushed,
              marked-settled (answers uid).0 ((uid, e.conv_id), e.max_seq) e t h.settles,
            )
    ]
