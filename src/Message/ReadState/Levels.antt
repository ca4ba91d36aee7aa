-- ===== src/Message/ReadState/Levels.antt =====
-- The rows of user_conv_state and their copies in Redis (internal/message/conversations.go,
-- internal/message/readstate.go).
use yim.Base.{
  min, nat_eq, pair_eq, ℕ, ◌≡◌, ◌≤◌, refl, ap, ◌||◌, Option, none, some, List, [], ◌∷◌, ltb, ◌==◌,
  if◌then◌else◌, arith, inl, inr, Bool-cases, Option-cases, ◌=?◌,
}
use yim.Base.Map.{lookup, lookup-insert}
use yim.Relation.{Result, ok, err}
use yim.Message.Conversations.{ConvMeta}
use yim.Message.ReadState.{
  ReadRow, Store, Env, upsert_row, select_row, redis_get, publish, set_read_seq, publish_read,
  clamp, mark_read, read_row, get_read_seq, get_read_state,
}

abbrev pub seq_of : Option ReadRow → ℕ
seq_of none = 0
seq_of (some row) = row.read_seq

-- The read seq of a user in a conversation, by the table.
abbrev pub level : ℕ × ℕ → Store → ℕ
level key s = seq_of (lookup key s.rows)

pub data Call : Type 0 where
  marks : Env → ℕ → ℕ → ℕ → Call
  states : Env → ℕ → ℕ → Call

unfoldable pub step : Call → Store → Store
step (marks env uid conv seq) s = (mark_read env uid conv seq s).0
step (states env op conv) s = (get_read_state env op conv s).0

unfoldable pub run : List Call → Store → Store
run [] s = s
run (c ∷ cs) s = run cs (step c s)

-- The smaller of the seq of the call and the last seq that it saw.
abbrev pub clamped : Env → ℕ → Result ConvMeta → ℕ
clamped env seq (err code) = 0
clamped env seq (ok meta) = if env.fails upsert_row then 0 else min meta.last_seq seq

pub clamp-min : (last seq : ℕ) → clamp last seq ≡ min last seq
clamp-min last seq = ground arith

-- What a call marks as read for the key; 0 for one that fails or is not about it.
abbrev pub marked : ℕ × ℕ → Call → ℕ
marked key (marks env uid conv seq) = if (uid, conv) =? key then clamped env seq env.meta else 0
marked key (states env op conv) = 0

abbrev pub larger : ℕ → ℕ → ℕ
larger a b = if ltb a b then b else a

-- The highest of them and of n.
abbrev pub highest : ℕ × ℕ → List Call → ℕ → ℕ
highest key [] n = n
highest key (c ∷ cs) n = highest key cs (larger n (marked key c))

-- Reads of the table leave it alone.
pub set_read_seq-rows :
    (env : Env) (uid conv seq : ℕ) (s : Store) → (set_read_seq env uid conv seq s).rows ≡ s.rows
unfolding set_read_seq
set_read_seq-rows env uid conv seq s = ground arith

pub publish_read-kept :
    (env : Env) (conv uid seq : ℕ) (members : List ℕ) (s : Store)
    → ((publish_read env conv uid seq members s).rows ≡ s.rows)
      × ((publish_read env conv uid seq members s).cached ≡ s.cached)
unfolding publish_read
publish_read-kept env conv uid seq [] s = (refl, refl)
publish_read-kept env conv uid seq (m ∷ members) s =
    elim (Bool-cases ((m == uid) || env.fails (publish m))) [
      | inl skipped ↦ rw (skipped, publish_read) (publish_read-kept env conv uid seq members s)
      | inr sent ↦
          rw (sent, publish_read)
            (publish_read-kept env conv uid seq members (record s {
              published = record { conv = conv; from = uid; to = m; seq = seq } ∷ s.published;
            }))
    ]

-- A copy in Redis is not ahead of its row.
abbrev pub IsBehind : Store → Type 0
IsBehind s = (key : ℕ × ℕ) (v : ℕ) → lookup key s.cached ≡ some v → v ≤ level key s

-- A read: the rows stay, the copies stay behind, and so does the answer.
pub record Reads (s t : Store) (key : ℕ × ℕ) (v : ℕ) : Type 0 where
  pub rows : t.rows ≡ s.rows
  pub behind : IsBehind s → IsBehind t
  pub answer : IsBehind s → v ≤ level key s

unread : (s : Store) (key : ℕ × ℕ) → Reads s s key 0
unread s key = record { rows = refl; behind = λ h. h; answer = λ h. omega arith }

pub set_read_seq-IsBehind :
    (env : Env) (uid conv seq : ℕ) (s : Store)
    → seq ≤ level (uid, conv) s
    → IsBehind s
    → IsBehind (set_read_seq env uid conv seq s)
unfolding set_read_seq
set_read_seq-IsBehind env uid conv seq s le h = λ key v found. ground (
  arith,
  le,
  found,
  h key v,
  lookup-insert (uid, conv) key seq s.cached,
  pair_eq.beq_iff (uid, conv) key,
)

read_row-Reads :
    (env : Env) (uid conv : ℕ) (s : Store)
    → Reads s (read_row env uid conv s).0 (uid, conv) (read_row env uid conv s).1
unfolding read_row
read_row-Reads env uid conv s = elim (Bool-cases (env.fails select_row)) [
  | inl failed ↦ rw (failed, read_row) (unread s (uid, conv))
  | inr asked ↦ elim (Option-cases (lookup (uid, conv) s.rows)) [
    | inl missing ↦ rw (asked, read_row) (rw missing (unread s (uid, conv)))
    | inr (row, found) ↦
        let same : level (uid, conv) s ≡ row.read_seq = ap seq_of found in
        rw (asked, read_row)
          (rw found (record {
            rows = set_read_seq-rows env uid conv row.read_seq s;
            behind = set_read_seq-IsBehind env uid conv row.read_seq s (omega (arith, same));
            answer = λ h. omega (arith, same);
          }))
  ]
]

pub get_read_seq-Reads :
    (env : Env) (uid conv : ℕ) (s : Store)
    → Reads s (get_read_seq env uid conv s).0 (uid, conv) (get_read_seq env uid conv s).1
unfolding get_read_seq
get_read_seq-Reads env uid conv s = elim (Bool-cases (env.fails redis_get)) [
  | inl failed ↦ rw (failed, get_read_seq) (read_row-Reads env uid conv s)
  | inr asked ↦ elim (Option-cases (lookup (uid, conv) s.cached)) [
    | inl missing ↦ rw (asked, get_read_seq) (rw missing (read_row-Reads env uid conv s))
    | inr (v, found) ↦
        rw (asked, get_read_seq)
          (rw found (record { rows = refl; behind = λ h. h; answer = λ h. h (uid, conv) v found }))
  ]
]
