-- ===== src/Message/SyncSeq/Backing.antt =====
-- The write-back of the levels to seq_segment (internal/message/seq_client.go).
use yim.Base.{
  nat_eq, ℕ, zero, suc, ◌+◌, ◌-◌, ◌≡◌, ◌≤◌, ◌<◌, sym, ap, subst, ◌∙◌, Bool, true, false, some, [],
  ◌∷◌, if◌then◌else◌, arith, inl, inr, Bool-cases, Option-cases, ==_iff, length,
}
use yim.Base.Map.{Map, lookup, lookup-insert, lookup-insert_self}
use yim.Message.SyncSeq.{
  State, or_zero, larger, is_full, buffered, arm, backfill, write_back, write_rows, limit, flush,
  run_flush,
}

-- What the table and the buffer hold for a user.
abbrev pub backing : ℕ → State → ℕ
backing u s = larger (or_zero (lookup u s.max_ids)) (or_zero (lookup u s.buf))

-- A flush is due while a timer is set or the buffer holds a row.
pub record IsDue (s : State) : Type 0 where
  pub armed : s.armed ≡ true → 0 < s.due
  pub holds : 0 < length s.buf → 0 < s.due

-- From s to t nothing that was backed is lost, and flushes stay due.
pub record Backs (s t : State) : Type 0 where
  pub kept : (u : ℕ) → backing u s ≤ backing u t
  pub due : IsDue s → IsDue t

pub Backs-refl : (s : State) → Backs s s
Backs-refl s = record { kept = λ u. omega arith; due = λ h. h }

pub Backs-trans : (r s t : State) → Backs r s → Backs s t → Backs r t
Backs-trans r s t a b = record {
  kept = λ u. omega (arith, a.kept u, b.kept u);
  due = λ h. b.due (a.due h);
}

arm-IsDue : (s : State) → (s.armed ≡ true → 0 < s.due) → IsDue (arm s)
unfolding arm
arm-IsDue s h = elim (Bool-cases (is_full s)) [
  | inl full ↦ rw (full, arm) (record { armed = λ e. omega arith; holds = λ e. omega arith })
  | inr room ↦ elim (Bool-cases s.armed) [
    | inl set_already ↦
        rw (room, arm)
          (subst (λ b. IsDue (if b then s else record s { armed = true; due = s.due + 1 }))
            (sym set_already) (record { armed = h; holds = λ e. h set_already }))
    | inr unset ↦
        rw (room, arm)
          (subst (λ b. IsDue (if b then s else record s { armed = true; due = s.due + 1 }))
            (sym unset) (record { armed = λ e. omega arith; holds = λ e. omega arith }))
  ]
]

arm-tables : (s : State) → ((arm s).max_ids ≡ s.max_ids) × ((arm s).buf ≡ s.buf)
unfolding arm
arm-tables s = (ground arith, ground arith)

pub backfill-Backs : (uid v : ℕ) (s : State) → Backs s (backfill uid v s)
unfolding buffered
backfill-Backs uid v s =
    let b = buffered uid v s in
    let (max_ids, buf) = arm-tables b in
    record {
      kept = λ u. ground (
        arith,
        ap (lookup u) max_ids,
        ap (lookup u) buf,
        lookup-insert uid u (larger (or_zero (lookup uid s.buf)) v) s.buf,
        ==_iff uid u,
      );
      due = λ h. arm-IsDue b h.armed;
    }

pub backfill-holds : (uid v : ℕ) (s : State) → v ≤ backing uid (backfill uid v s)
unfolding buffered
backfill-holds uid v s =
    let (max_ids, buf) = arm-tables (buffered uid v s) in
    ground (
      arith,
      ap (lookup uid) buf,
      lookup-insert_self uid (larger (or_zero (lookup uid s.buf)) v) s.buf,
    )

-- No statement fails.
abbrev pub none_fails : ℕ → Bool
none_fails uid = false

write_back-Backs : (uid v : ℕ) (s : State) → Backs s (write_back none_fails uid v s)
unfolding write_back
write_back-Backs uid v s = record {
  kept = λ u. ground (
    arith,
    lookup-insert uid u (larger (or_zero (lookup uid s.max_ids)) v) s.max_ids,
    ==_iff uid u,
  );
  due = λ h. record { armed = h.armed; holds = h.holds };
}

write_back-holds : (uid v : ℕ) (s : State) → v ≤ backing uid (write_back none_fails uid v s)
unfolding write_back
write_back-holds uid v s =
    ground (arith, lookup-insert_self uid (larger (or_zero (lookup uid s.max_ids)) v) s.max_ids)

-- Each row is written or goes back into the buffer.
record Flushed (rows : Map ℕ ℕ) (s t : State) : Type 0 where
  backs : Backs s t
  holds : (u v : ℕ) → lookup u rows ≡ some v → v ≤ backing u t

one_more :
    (uid v : ℕ) (rows : Map ℕ ℕ) (s s1 t : State)
    → Backs s s1
    → v ≤ backing uid s1
    → Flushed rows s1 t
    → Flushed ((uid, v) ∷ rows) s t
unfolding lookup
one_more uid v rows s s1 t first held rest = record {
  backs = Backs-trans s s1 t first rest.backs;
  holds =
      λ u w found. ground (arith, found, held, rest.backs.kept uid, rest.holds u w, ==_iff uid u);
}

write_rows-Flushed :
    (n : ℕ) (rows : Map ℕ ℕ) (s : State) → Flushed rows s (write_rows none_fails n rows s)
unfolding write_rows lookup
write_rows-Flushed n [] s = record {
  backs = Backs-refl s;
  holds = λ u v found. absurd (ground arith);
}
write_rows-Flushed zero ((uid, v) ∷ rows) s =
    one_more uid v rows s (backfill uid v s) (write_rows none_fails zero rows (backfill uid v s))
      (backfill-Backs uid v s) (backfill-holds uid v s)
      (write_rows-Flushed zero rows (backfill uid v s))
write_rows-Flushed (suc n) ((uid, v) ∷ rows) s =
    let s1 = write_back none_fails uid v s in
    one_more uid v rows s s1 (write_rows none_fails n rows s1) (write_back-Backs uid v s)
      (write_back-holds uid v s) (write_rows-Flushed n rows s1)

-- `range` gives each entry of the map.
abbrev pub IsOrder : (Map ℕ ℕ → Map ℕ ℕ) → Type 0
IsOrder order = (rows : Map ℕ ℕ) (u : ℕ) → lookup u (order rows) ≡ lookup u rows

pub run_flush-Backs :
    (order : Map ℕ ℕ → Map ℕ ℕ) (s : State) → IsOrder order → Backs s (run_flush none_fails order s)
unfolding run_flush flush lookup
run_flush-Backs order s ordered =
    let s1 = record s { buf = []; armed = false; due = s.due - 1 } in
    let f = write_rows-Flushed (limit (order s.buf)) (order s.buf) s1 in
    record {
      kept = λ u. elim (Option-cases (lookup u s.buf)) [
        | inl missing ↦ ground (arith, missing, f.backs.kept u)
        | inr (v, found) ↦
            ground (arith, found, f.backs.kept u, f.holds u v (ordered s.buf u ∙ found))
      ];
      due = λ h.
          f.backs.due
            (record { armed = λ e. absurd (ground arith); holds = λ e. absurd (omega (arith, e)) });
    }
