-- ===== src/Message/Send/Idempotent.antt =====
-- The idempotency marks of SendMessage (internal/message/service.go) and the rows.
use yim.Base.{
  nat_eq, pair_eq, pair_beq_iff, ℕ, ◌≡◌, refl, subst, ◌∙◌, false, not, ◌&&◌, Option, none, some,
  arith, ◌=?◌, Bool-cases, Option-cases, ◌⊎◌, inl, inr,
}
use yim.Base.Map.{lookup, insert, has, lookup-insert, lookup-insert_self, lookup-erase}
use yim.Message.Send.{
  Row, Key, Ids, State, Env, Msg, Stmt, idem_del, begin_tx, Answer, sent, not_member, failed,
  key_of, idem_delete, query_by_client_msg_id, is_duplicate, answered, stored, committed, persist,
  Prepared, done, go_on, prepare, finish, send_message,
}
use yim.Message.Send.Outcomes.{
  Persisted, dropped, left_marked, duplicate, unanswered, added, persist-Persisted, Marked,
  unmarked, marked, marked_before, row_before, Before, refused, remembered, unnumbered, known,
  ready, prepare-Before,
}

-- The key has a row with these numbers.
abbrev pub Backed : State → Key → Ids → Type 0
Backed s k v = (r : Row) × (lookup k s.messages ≡ some r) × (v ≡ (r.msg_id, r.seq))

-- Every mark is the numbers of a row.
abbrev pub IsSound : State → Type 0
IsSound s = (k : Key) (v : Ids) → lookup k s.idem ≡ some v → Backed s k v

-- The same, but for one mark of a call that is under way.
abbrev IsSoundBut : Key → Ids → State → Type 0
IsSoundBut k ids s =
    (j : Key) (v : Ids) → lookup j s.idem ≡ some v → Backed s j v ⊎ ((j ≡ k) × (v ≡ ids))

-- The failures that leave a mark behind do not happen.
abbrev pub CleansUp : Env → Type 0
CleansUp env = (env.fails idem_del ≡ false) × (env.fails begin_tx ≡ false)

pub lookup-stored :
    (m : Msg) (id seq : ℕ) (s : State) (k : Key) (r : Row)
    → is_duplicate m seq s ≡ false
    → lookup k s.messages ≡ some r
    → lookup k (stored m id seq s).messages ≡ some r
unfolding stored is_duplicate has
lookup-stored m id seq s k r new e = ground (
  arith,
  lookup-insert (key_of m) k
      (record { msg_id = id; seq = seq; from_uid = m.from_uid; content = m.content }) s.messages,
  pair_beq_iff (key_of m) k,
)

pub lookup-stored_self :
    (m : Msg) (id seq : ℕ) (s : State)
    → lookup (key_of m) (stored m id seq s).messages
      ≡ some (record { msg_id = id; seq = seq; from_uid = m.from_uid; content = m.content })
unfolding stored
lookup-stored_self m id seq s = rw lookup-insert_self

idem_delete-IsSound :
    (env : Env) (k : Key) (ids : Ids) (s : State)
    → CleansUp env
    → IsSoundBut k ids s
    → (env.cached ≡ false → IsSound s)
    → IsSound (idem_delete env k s)
unfolding idem_delete
idem_delete-IsSound env k ids s clean almost uncached = elim (Bool-cases (env.cached)) [
  | inr e ↦ rw e (uncached e)
  | inl e ↦
      rw (e, clean.0)
        λ j v at. elim (Bool-cases (k =? j)) [
          | inl same ↦ cc (at, lookup-erase k j s.idem, same)
          | inr other ↦ elim (almost j v (ground (arith, lookup-erase k j s.idem))) [
            | inl b ↦ b
            | inr (p, _) ↦ absurd (ground (arith, pair_beq_iff k j))
          ]
        ]
]

stored-idem :
    (m : Msg) (id seq : ℕ) (s : State) (j : Key)
    → lookup j s.idem ≡ lookup j (stored m id seq s).idem
unfolding stored
stored-idem m id seq s j = refl

stored-IsSoundBut :
    (m : Msg) (id seq : ℕ) (s : State)
    → is_duplicate m seq s ≡ false
    → IsSoundBut (key_of m) (id, seq) s
    → IsSound (stored m id seq s)
stored-IsSoundBut m id seq s new almost j v at = elim (almost j v (stored-idem m id seq s j ∙ at)) [
  | inl (r, e, f) ↦ (r, lookup-stored m id seq s j r new e, f)
  | inr (p, q) ↦ rw p (_, lookup-stored_self m id seq s, q)
]

committed-IsSound :
    (env : Env) (m : Msg) (id seq : ℕ) (s : State) → IsSound s → IsSound (committed env m id seq s)
unfolding committed
committed-IsSound env m id seq s sound = sound

-- What is kept of a state while a call is under way with the numbers `ids`.
abbrev Underway : Env → Key → Ids → State → Type 0
Underway env k ids s = IsSoundBut k ids s × (env.cached ≡ false → IsSound s)

IsSound-Underway : (env : Env) (k : Key) (ids : Ids) (s : State) → IsSound s → Underway env k ids s
IsSound-Underway env k ids s sound = ((λ j v at. inl (sound j v at)), λ _. sound)

abbrev pub Answers : Key → State × Answer → Type 0
Answers k (s, a) = (id seq : ℕ) → a ≡ sent id seq → Backed s k (id, seq)

failed-Answers : (k : Key) (s : State) → Answers k (s, failed)
failed-Answers k s id seq e = absurd (ground arith)

pub answered_sent : (o : Option Ids) (id seq : ℕ) → answered o ≡ sent id seq → o ≡ some (id, seq)
answered_sent none id seq e = absurd (ground arith)
answered_sent (some v) id seq e = ground arith

pub idem_delete-messages :
    (env : Env) (k : Key) (s : State) → (idem_delete env k s).messages ≡ s.messages
unfolding idem_delete
idem_delete-messages env k s = elim (Bool-cases (env.cached && not (env.fails idem_del))) [
  | inl e ↦ rw e refl
  | inr e ↦ rw e refl
]

pub query-Backed :
    (env : Env) (stmt : Stmt) (k : Key) (s : State) (v : Ids)
    → query_by_client_msg_id env stmt k s ≡ some v
    → Backed s k v
unfolding query_by_client_msg_id
query-Backed env stmt k s v e = elim (Option-cases (lookup k s.messages)) [
  | inl f ↦ absurd (ground arith)
  | inr (r, f) ↦ (r, f, ground arith)
]

query-Answers :
    (env : Env) (stmt : Stmt) (k : Key) (s : State)
    → Answers k (s, answered (query_by_client_msg_id env stmt k s))
query-Answers env stmt k s id seq e =
    query-Backed env stmt k s (id, seq)
      (answered_sent (query_by_client_msg_id env stmt k s) id seq e)

committed-stored_self :
    (env : Env) (m : Msg) (id seq : ℕ) (s : State)
    → Answers (key_of m) (committed env m id seq (stored m id seq s), sent id seq)
unfolding committed
committed-stored_self env m id seq s i q e = (_, lookup-stored_self m id seq s, ground arith)

marked_under_way :
    (k : Key) (ids : Ids) (s : State)
    → IsSound s
    → IsSoundBut k ids (record s { idem = insert k ids s.idem })
marked_under_way k ids s sound j v at = elim (Bool-cases (k =? j)) [
  | inl same ↦ inr (ground (arith, pair_beq_iff k j), ground (arith, lookup-insert k j ids s.idem))
  | inr other ↦ inl (sound j v (ground (arith, lookup-insert k j ids s.idem)))
]

persist-IsSound :
    (env : Env) (m : Msg) (id seq : ℕ) (s : State)
    → CleansUp env
    → Underway env (key_of m) (id, seq) s
    → (r : State × Answer) → Persisted env m id seq s r
    → IsSound r.0 × Answers (key_of m) r
persist-IsSound env m id seq s clean (almost, uncached) _ dropped = (
  idem_delete-IsSound env (key_of m) (id, seq) s clean almost uncached,
  failed-Answers (key_of m) (idem_delete env (key_of m) s),
)
persist-IsSound env m id seq s clean (almost, uncached) _ (left_marked e) =
    absurd (ground (arith, clean))
persist-IsSound env m id seq s clean (almost, uncached) _ (duplicate e) = (
  idem_delete-IsSound env (key_of m) (id, seq) s clean almost uncached,
  query-Answers env _ (key_of m) (idem_delete env (key_of m) s),
)
persist-IsSound env m id seq s clean (almost, uncached) _ (unanswered new) =
    let sound = stored-IsSoundBut m id seq s new almost in
    let after = IsSound-Underway env (key_of m) (id, seq) (stored m id seq s) sound in
    (
      idem_delete-IsSound env (key_of m) (id, seq) (stored m id seq s) clean after.0 after.1,
      failed-Answers (key_of m) (idem_delete env (key_of m) (stored m id seq s)),
    )
persist-IsSound env m id seq s clean (almost, uncached) _ (added new fresh) = (
  committed-IsSound env m id seq (stored m id seq s) (stored-IsSoundBut m id seq s new almost),
  committed-stored_self env m id seq s,
)

Marked-Underway :
    (env : Env) (m : Msg) (id seq : ℕ) (s : State)
    → IsSound s
    → (r : State × Option Ids) → Marked env m id seq s r
    → Underway env (key_of m) (id, seq) r.0
      × ((v : Ids) → r.1 ≡ some v → IsSound r.0 × Backed r.0 (key_of m) v)
Marked-Underway env m id seq s sound _ (unmarked h) =
    (IsSound-Underway env (key_of m) (id, seq) s sound, λ v e. absurd (ground arith))
Marked-Underway env m id seq s sound _ (marked cached none_yet) = (
  (marked_under_way (key_of m) (id, seq) s sound, λ e. absurd (ground arith)),
  λ v e. absurd (ground arith),
)
Marked-Underway env m id seq s sound _ (marked_before v e) =
    (IsSound-Underway env (key_of m) (id, seq) s sound, λ w f. (sound, sound (key_of m) w (e ∙ f)))
Marked-Underway env m id seq s sound _ (row_before w f) = (
  IsSound-Underway env (key_of m) (id, seq) s sound,
  λ v e. (sound, query-Backed env _ (key_of m) s v e),
)

abbrev PreparedOk : Env → Msg → State × Prepared → Type 0
PreparedOk env m (s, done a) = IsSound s × Answers (key_of m) (s, a)
PreparedOk env m (s, go_on id seq) = Underway env (key_of m) (id, seq) s

refused-Answers :
    (k : Key) (s : State) (a : Answer) → (a ≡ failed) ⊎ (a ≡ not_member) → Answers k (s, a)
refused-Answers k s a h id seq e = absurd (ground arith)

Before-PreparedOk :
    (env : Env) (m : Msg) (s : State)
    → IsSound s
    → (r : State × Prepared) → Before env m s r
    → PreparedOk env m r
Before-PreparedOk env m s sound _ (refused a h) = (sound, refused-Answers (key_of m) s a h)
Before-PreparedOk env m s sound _ (remembered member v e) =
    (sound, λ id seq f. subst (Backed s (key_of m)) (ground arith) (sound (key_of m) v e))
Before-PreparedOk env m s sound _ (unnumbered segs ids) =
    (sound, failed-Answers (key_of m) (record s { conv_segs = segs; msg_ids = ids }))
Before-PreparedOk env m s sound _ (known member segs ids id seq s2 v h) =
    let (_, found) = Marked-Underway env m id seq _ sound _ h in
    let (sound2, backed) = found v refl in
    (sound2, λ i q f. subst (Backed s2 (key_of m)) (ground arith) backed)
Before-PreparedOk env m s sound _ (ready member segs ids id seq s2 h) =
    (Marked-Underway env m id seq _ sound _ h).0

finish-IsSound :
    (env : Env) (m : Msg) (r : State × Prepared)
    → CleansUp env
    → PreparedOk env m r
    → IsSound (finish env m r).0 × Answers (key_of m) (finish env m r)
unfolding finish
finish-IsSound env m (s, done a) clean ok = ok
finish-IsSound env m (s, go_on id seq) clean ok =
    persist-IsSound env m id seq s clean ok (persist env m id seq s)
      (persist-Persisted env m id seq s)

-- Where every mark is the numbers of a row, it is so after a call, on every path, provided that the
-- deletion of a mark and the begin of a transaction do not fail; and an answer with an id and a seq
-- is those of the row that then stands under the message's key.
pub send-IsSound :
    (env : Env) (m : Msg) (s : State)
    → CleansUp env
    → IsSound s
    → IsSound (send_message env m s).0 × Answers (key_of m) (send_message env m s)
unfolding send_message
send-IsSound env m s clean sound =
    finish-IsSound env m (prepare env m s) clean
      (Before-PreparedOk env m s sound _ (prepare-Before env m s))
