-- ===== src/Message/ReadState/Writes.antt =====
-- What MarkRead and GetReadState write (internal/message/conversations.go, internal/message/readstate.go).
use yim.Base.{
  nat_eq, pair_eq, ℕ, ◌≡◌, ◌≤◌, refl, sym, ap, ◌∙◌, false, Option, none, some, List, [], ◌∷◌,
  if◌then◌else◌, contains, arith, inl, inr, Bool-cases, ◌=?◌, =?_refl, All,
}
use yim.Base.Map.{lookup, lookup-insert}
use yim.Relation.{Result, ok, err}
use yim.Message.Conversations.{ConvMeta}
use yim.Message.ReadState.{
  ReadRow, Store, Env, upsert_row, upserted, set_read_seq, is_single, publish_read, upsert,
  mark_known, get_read_seq, states_of, states_found,
}
use yim.Message.ReadState.Levels.{
  seq_of, level, larger, IsBehind, set_read_seq-rows, publish_read-kept, set_read_seq-IsBehind,
  get_read_seq-Reads,
}

-- A list of answers on the members: none is ahead of its row.
pub record Listed (conv : ℕ) (s t : Store) (out : List (ℕ × ℕ)) : Type 0 where
  pub rows : t.rows ≡ s.rows
  pub behind : IsBehind s → IsBehind t
  pub answers : IsBehind s → All (λ (p : ℕ × ℕ). p.1 ≤ level (p.0, conv) s) out

pub levels_moved :
    (conv : ℕ) (s t : Store) (out : List (ℕ × ℕ))
    → t.rows ≡ s.rows
    → All (λ (p : ℕ × ℕ). p.1 ≤ level (p.0, conv) t) out
    → All (λ (p : ℕ × ℕ). p.1 ≤ level (p.0, conv) s) out
levels_moved conv s t [] rows h = tt
levels_moved conv s t ((m, seq) ∷ out) rows h = (
  omega (arith, h.0, ap (λ r. seq_of (lookup (m, conv) r)) rows),
  levels_moved conv s t out rows h.1,
)

pub states_of-Listed :
    (env : Env) (conv : ℕ) (members : List ℕ) (s : Store)
    → Listed conv s (states_of env conv members s).0 (states_of env conv members s).1
unfolding states_of
states_of-Listed env conv [] s = record { rows = refl; behind = λ h. h; answers = λ h. tt }
states_of-Listed env conv (m ∷ members) s =
    let one = get_read_seq-Reads env m conv s in
    let s1 = (get_read_seq env m conv s).0 in
    let rest = states_of-Listed env conv members s1 in
    record {
      rows = rest.rows ∙ one.rows;
      behind = λ h. rest.behind (one.behind h);
      answers = λ h. (
        one.answer h,
        levels_moved conv s s1 (states_of env conv members s1).1 one.rows
            (rest.answers (one.behind h)),
      );
    }

-- What GetReadState leaves.
pub record Kept (s t : Store) : Type 0 where
  pub rows : t.rows ≡ s.rows
  pub behind : IsBehind s → IsBehind t

pub states_found-Kept :
    (env : Env) (op conv : ℕ) (r : Result ConvMeta) (s : Store)
    → Kept s (states_found env op conv r s).0
unfolding states_found
states_found-Kept env op conv (err code) s = record { rows = refl; behind = λ h. h }
states_found-Kept env op conv (ok meta) s = elim (Bool-cases (contains meta.member_uids op)) [
  | inl member ↦
      let l = states_of-Listed env conv meta.member_uids s in
      rw member (record { rows = l.rows; behind = l.behind })
  | inr other ↦ rw other (record { rows = refl; behind = λ h. h })
]

-- What a write of one row leaves: its key rises to seq, the others stay.
pub record Marked (key : ℕ × ℕ) (seq : ℕ) (s t : Store) : Type 0 where
  pub levels : (k : ℕ × ℕ) → level k t ≡ larger (level k s) (if key =? k then seq else 0)
  pub behind : IsBehind s → IsBehind t

pub upserted-seq :
    (seq now : ℕ) (o : Option ReadRow) → (upserted seq now o).read_seq ≡ larger (seq_of o) seq
upserted-seq seq now none = ground arith
upserted-seq seq now (some row) = ground arith

pub upsert-level :
    (env : Env) (uid conv seq : ℕ) (s : Store) (k : ℕ × ℕ)
    → level k (upsert env uid conv seq s) ≡ larger (level k s) (if (uid, conv) =? k then seq else 0)
unfolding upsert
upsert-level env uid conv seq s k = elim (Bool-cases ((uid, conv) =? k)) [
  | inl same ↦ rw same (
      ap seq_of
        (lookup-insert (uid, conv) k (upserted seq env.now (lookup (uid, conv) s.rows)) s.rows)
      ∙ ap
          (λ b. seq_of (
            if b then some (upserted seq env.now (lookup (uid, conv) s.rows)) else lookup k s.rows))
          same
      ∙ upserted-seq seq env.now (lookup (uid, conv) s.rows)
      ∙ ap (λ j. larger (seq_of (lookup j s.rows)) seq) ((pair_eq.beq_iff (uid, conv) k).0 same))
  | inr other ↦ rw other (
      ap seq_of
        (lookup-insert (uid, conv) k (upserted seq env.now (lookup (uid, conv) s.rows)) s.rows)
      ∙ ap
          (λ b. seq_of (
            if b then some (upserted seq env.now (lookup (uid, conv) s.rows)) else lookup k s.rows))
          other
      ∙ ground arith)
]

pub same_rows-level : (s t : Store) (k : ℕ × ℕ) → t.rows ≡ s.rows → level k t ≡ level k s
same_rows-level s t k rows = ap (λ r. seq_of (lookup k r)) rows

pub same_rows-IsBehind :
    (s t : Store)
    → ((k : ℕ × ℕ) → level k s ≤ level k t)
    → t.cached ≡ s.cached
    → IsBehind s
    → IsBehind t
same_rows-IsBehind s t up cached h =
    λ k v found. omega (arith, up k, h k v (ap (lookup k) (sym cached) ∙ found))

pub upsert-cached :
    (env : Env) (uid conv seq : ℕ) (s : Store) → (upsert env uid conv seq s).cached ≡ s.cached
unfolding upsert
upsert-cached env uid conv seq s = refl

pub written-Marked :
    (env : Env) (uid conv seq : ℕ) (s t : Store)
    → t.rows ≡ (set_read_seq env uid conv seq (upsert env uid conv seq s)).rows
    → t.cached ≡ (set_read_seq env uid conv seq (upsert env uid conv seq s)).cached
    → Marked (uid, conv) seq s t
written-Marked env uid conv seq s t rows cached =
    let u = upsert env uid conv seq s in
    let s1 = set_read_seq env uid conv seq u in
    let to_t = λ (k : ℕ × ℕ).
      same_rows-level s1 t k rows ∙ same_rows-level u s1 k (set_read_seq-rows env uid conv seq u) in
    let up = λ (k : ℕ × ℕ). upsert-level env uid conv seq s k in
    let same = =?_refl {A = ℕ × ℕ} (uid, conv) in
    record {
      levels = λ k. to_t k ∙ up k;
      behind = λ h.
          same_rows-IsBehind s1 t (λ k. omega (arith, same_rows-level s1 t k rows)) cached
            (set_read_seq-IsBehind env uid conv seq u (ground (arith, up (uid, conv), same)) (
              same_rows-IsBehind s u (λ k. ground (arith, up k)) (upsert-cached env uid conv seq s)
                h));
    }

pub mark_known-Marked :
    (env : Env) (uid conv seq : ℕ) (meta : ConvMeta) (s : Store)
    → env.fails upsert_row ≡ false
    → Marked (uid, conv) seq s (mark_known env uid conv seq meta s).0
unfolding mark_known
mark_known-Marked env uid conv seq meta s works =
    let s1 = set_read_seq env uid conv seq (upsert env uid conv seq s) in
    let (rows, cached) = publish_read-kept env conv uid seq meta.member_uids s1 in
    elim (Bool-cases (is_single meta.type)) [
      | inl one ↦ rw works (
          rw one (
            written-Marked env uid conv seq s (publish_read env conv uid seq meta.member_uids s1)
              rows cached))
      | inr more ↦ rw works (rw more (written-Marked env uid conv seq s s1 refl refl))
    ]
