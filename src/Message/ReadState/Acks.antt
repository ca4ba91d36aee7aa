-- ===== src/Message/ReadState/Acks.antt =====
-- Sequences of MarkRead and GetReadState (internal/message/conversations.go,
-- internal/message/readstate.go).
use yim.Base.{
  min, nat_eq, pair_eq, ℕ, ◌≡◌, ◌≤◌, ◌<◌, refl, sym, ap, subst, ◌∙◌, false, some, List, [], ◌∷◌,
  if◌then◌else◌, arith, inl, inr, Bool-cases, =?_refl, All,
}
use yim.Base.Map.{lookup, lookup-insert_self}
use yim.Relation.{Result, ok, err}
use yim.Message.Conversations.{ConvMeta}
use yim.Message.ReadState.{
  Store, Env, upsert_row, redis_get, redis_set, set_read_seq, is_single, clamp, upsert, mark_known,
  mark_read, get_read_seq, mark_found, states_of, states_found,
}
use yim.Message.ReadState.Levels.{
  level, Call, marks, states, step, run, clamped, clamp-min, marked, larger, highest, IsBehind,
  publish_read-kept,
}
use yim.Message.ReadState.Writes.{
  states_of-Listed, Kept, states_found-Kept, Marked, same_rows-level, mark_known-Marked,
}

-- What any call leaves.
record Stepped (c : Call) (s t : Store) : Type 0 where
  levels : (k : ℕ × ℕ) → level k t ≡ larger (level k s) (marked k c)
  behind : IsBehind s → IsBehind t

unmoved-Stepped :
    (c : Call) (s t : Store) → ((k : ℕ × ℕ) → marked k c ≡ 0) → Kept s t → Stepped c s t
unmoved-Stepped c s t none_marked h = record {
  levels = λ k. same_rows-level s t k h.rows ∙ ground (arith, none_marked k);
  behind = h.behind;
}

mark_found-Marked :
    (env : Env) (uid conv seq : ℕ) (r : Result ConvMeta) (s : Store)
    → Marked (uid, conv) (clamped env seq r) s (mark_found env uid conv seq r s).0
unfolding mark_found mark_known
mark_found-Marked env uid conv seq (err code) s = record {
  levels = λ k. ground arith;
  behind = λ h. h;
}
mark_found-Marked env uid conv seq (ok meta) s = elim (Bool-cases (env.fails upsert_row)) [
  | inl failed ↦ rw failed (record { levels = λ k. ground arith; behind = λ h. h })
  | inr works ↦
      subst
        (λ b.
          Marked (uid, conv) (if b then 0 else min meta.last_seq seq) s
            (mark_known env uid conv (clamp meta.last_seq seq) meta s).0)
        (sym works)
        (subst
          (λ n. Marked (uid, conv) n s (mark_known env uid conv (clamp meta.last_seq seq) meta s).0)
          (clamp-min meta.last_seq seq)
          (mark_known-Marked env uid conv (clamp meta.last_seq seq) meta s works))
]

step-Stepped : (c : Call) (s : Store) → Stepped c s (step c s)
unfolding step
step-Stepped (marks env uid conv seq) s =
    let m = mark_found-Marked env uid conv seq env.meta s in
    record { levels = m.levels; behind = m.behind }
step-Stepped (states env op conv) s =
    unmoved-Stepped (states env op conv) s (states_found env op conv env.meta s).0 (λ k. refl)
      (states_found-Kept env op conv env.meta s)

-- After any calls, by any users and with any failures, the read seq of a user's row of user_conv_state is the
-- highest of the one before and of those that the successful calls of MarkRead for them named, each no
-- more than the last_seq that the call saw: an acknowledgement out of order does not set the row back.
pub run-highest :
    (key : ℕ × ℕ) (cs : List Call) (s : Store) → level key (run cs s) ≡ highest key cs (level key s)
unfolding run
run-highest key [] s = refl
run-highest key (c ∷ cs) s =
    run-highest key cs (step c s) ∙ ap (highest key cs) ((step-Stepped c s).levels key)

run-IsBehind : (cs : List Call) (s : Store) → IsBehind s → IsBehind (run cs s)
unfolding run
run-IsBehind [] s h = h
run-IsBehind (c ∷ cs) s h = run-IsBehind cs (step c s) ((step-Stepped c s).behind h)

-- When no copy in Redis is ahead of its row, then after any calls no seq that GetReadState lists is ahead
-- of the one in the table: nobody is shown as having read what they have not marked as read.
pub states-never_ahead :
    (cs : List Call) (env : Env) (conv : ℕ) (members : List ℕ) (s : Store)
    → IsBehind s
    → All
        (λ (p : ℕ × ℕ). p.1 ≤ level (p.0, conv) (run cs s))
        (states_of env conv members (run cs s)).1
states-never_ahead cs env conv members s h =
    (states_of-Listed env conv members (run cs s)).answers (run-IsBehind cs s h)

mark_known-cached :
    (env : Env) (uid conv seq : ℕ) (meta : ConvMeta) (s : Store)
    → env.fails upsert_row ≡ false
    → env.fails redis_set ≡ false
    → lookup (uid, conv) (mark_known env uid conv seq meta s).0.cached ≡ some seq
unfolding mark_known set_read_seq upsert
mark_known-cached env uid conv seq meta s works sets =
    let s1 = set_read_seq env uid conv seq (upsert env uid conv seq s) in
    let at : lookup (uid, conv) s1.cached ≡ some seq =
      rw (sets, set_read_seq) (lookup-insert_self (uid, conv) seq s.cached) in
    elim (Bool-cases (is_single meta.type)) [
      | inl one ↦ rw works (
          rw one (
            ap (lookup (uid, conv)) (publish_read-kept env conv uid seq meta.member_uids s1).1
            ∙ at))
      | inr more ↦ rw works (rw more at)
    ]

cached-shown :
    (env : Env) (uid conv seq : ℕ) (s : Store)
    → env.fails redis_get ≡ false
    → lookup (uid, conv) s.cached ≡ some seq
    → (get_read_seq env uid conv s).1 ≡ seq
unfolding get_read_seq
cached-shown env uid conv seq s asked found = rw (asked, get_read_seq) (rw found refl)

-- A successful MarkRead that comes late, with a lower seq than the row has, leaves the row alone, but the
-- next read that Redis answers shows the lower seq.
pub late_ack-shown :
    (env env' : Env) (uid conv seq : ℕ) (meta : ConvMeta) (s : Store)
    → env.meta ≡ ok meta
    → env.fails upsert_row ≡ false
    → env.fails redis_set ≡ false
    → env'.fails redis_get ≡ false
    → clamp meta.last_seq seq < level (uid, conv) s
    → (level (uid, conv) (mark_read env uid conv seq s).0 ≡ level (uid, conv) s)
      × ((get_read_seq env' uid conv (mark_read env uid conv seq s).0).1 ≡ clamp meta.last_seq seq)
unfolding mark_found
late_ack-shown env env' uid conv seq meta s known works sets asked late =
    let t = mark_known env uid conv (clamp meta.last_seq seq) meta s in
    let same = =?_refl {A = ℕ × ℕ} (uid, conv) in
    let outcome : mark_found env uid conv seq env.meta s ≡ t =
      ap (λ r. mark_found env uid conv seq r s) known in
    let kept : level (uid, conv) t.0 ≡ level (uid, conv) s = ground (
      arith,
      (mark_known-Marked env uid conv (clamp meta.last_seq seq) meta s works).levels (uid, conv),
      same,
      late,
    ) in
    let shown =
      cached-shown env' uid conv (clamp meta.last_seq seq) t.0 asked
        (mark_known-cached env uid conv (clamp meta.last_seq seq) meta s works sets) in
    (
      ap (λ (r : Store × Result (Unit {0})). level (uid, conv) r.0) outcome ∙ kept,
      ap (λ (r : Store × Result (Unit {0})). (get_read_seq env' uid conv r.0).1) outcome ∙ shown,
    )
