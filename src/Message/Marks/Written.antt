-- ===== src/Message/Marks/Written.antt =====
-- The rows behind markBatcher (internal/message/delivery.go).
use yim.Base.{
  nat_eq, pair_eq, pair_beq_iff, ℕ, ◌≡◌, refl, sym, subst, ap, not, ◌&&◌, ◌∙◌, ◌<◌, Bool, true,
  false, some, List, [], ◌∷◌, arith, ◌==◌, ◌=?◌, if◌then◌else◌, Bool-cases, inl, inr, ◌⊎◌, contains,
}
use yim.Base.Map.{Map, lookup, lookup-insert}
use yim.Store.Sharding.{SlotTable}
use yim.Message.Marks.{Mark, State, shard_of, include, add_to, add, mark_row, mark_rows, flush}

==_sound : (x y : ℕ) → (x == y) ≡ true → x ≡ y
==_sound x y same = ground (arith, same)

contains-include :
    (k j : Mark) (ks : List Mark)
    → contains (include k ks) j ≡ (if k =? j then true else contains ks j)
unfolding include
contains-include k j [] = refl
contains-include k j (i ∷ ks) =
    ground (arith, pair_beq_iff k j, pair_beq_iff i k, pair_beq_iff i j, contains-include k j ks)

lookup-mark_row :
    (k j : Mark) (rows : Map Mark ℕ) (st : ℕ)
    → lookup j rows ≡ some st
    → lookup j (mark_row k rows) ≡ some (if k =? j then (if st == 0 then 1 else st) else st)
unfolding mark_row
lookup-mark_row k j rows st e = ground (arith, lookup-insert k j 1 rows, pair_beq_iff k j)

lookup-mark_rows :
    (ks : List Mark) (j : Mark) (rows : Map Mark ℕ) (st : ℕ)
    → lookup j rows ≡ some st
    → lookup j (mark_rows ks rows)
      ≡ some (if contains ks j then (if st == 0 then 1 else st) else st)
unfolding mark_rows
lookup-mark_rows [] j rows st e = e
lookup-mark_rows (k ∷ ks) j rows st e = ground (
  arith,
  lookup-mark_rows ks j (mark_row k rows) (if k =? j then (if st == 0 then 1 else st) else st)
      (lookup-mark_row k j rows st e),
)

-- A flush is due for all that is buffered for database i.
pub record IsDue (i : ℕ) (s : State) : Type 0 where
  pub armed : s.arms i ≡ true → 0 < s.due i
  pub pending : s.due i ≡ 0 → s.buf i ≡ []

-- The row of the mark is there, and waits for it or has it.
abbrev pub HasRow : ℕ → Mark → State → Type 0
HasRow i k s = (lookup k (s.status i) ≡ some 0) ⊎ (lookup k (s.status i) ≡ some 1)

-- The row has the mark, or the mark is buffered for it.
abbrev pub IsMarking : ℕ → Mark → State → Type 0
IsMarking i k s =
    (lookup k (s.status i) ≡ some 1)
    ⊎ ((lookup k (s.status i) ≡ some 0) × (contains (s.buf i) k ≡ true))

add_to-IsDue : (i j : ℕ) (k : Mark) (s : State) → IsDue i s → IsDue i (add_to j k s)
unfolding add_to
add_to-IsDue i j k s h = record {
  armed = ground (arith, h.armed);
  pending = ground (arith, h.armed, h.pending);
}

flush-IsDue : (i j : ℕ) (fails : Bool) (s : State) → IsDue i s → IsDue i (flush fails j s)
unfolding flush
flush-IsDue i j fails s h = record {
  armed = ground (arith, h.armed);
  pending = ground (arith, h.pending);
}

add_to-IsMarking :
    (i j : ℕ) (k l : Mark) (s : State) → IsMarking i k s → IsMarking i k (add_to j l s)
unfolding add_to
add_to-IsMarking i j k l s (inl e) = inl e
add_to-IsMarking i j k l s (inr (e, in_buf)) =
    inr (e, ground (arith, contains-include l k (s.buf j)))

add_to-marks : (i : ℕ) (k : Mark) (s : State) → HasRow i k s → IsMarking i k (add_to i k s)
unfolding add_to
add_to-marks i k s (inl e) =
    inr (e, ground (arith, contains-include k k (s.buf i), pair_beq_iff k k))
add_to-marks i k s (inr e) = inl e

flush-status :
    (i j : ℕ) (k : Mark) (fails : Bool) (s : State) (st : ℕ)
    → lookup k (s.status i) ≡ some st
    → lookup k ((flush fails j s).status i)
      ≡ some (
          if not fails && ((j == i) && contains (s.buf i) k)
          then (if st == 0 then 1 else st)
          else st)
unfolding flush
flush-status i j k true s st e = e
flush-status i j k false s st e = elim (Bool-cases (j == i)) [
  | inl same ↦
      ap (λ t. lookup k (if t then mark_rows (s.buf j) (s.status j) else s.status i)) same
      ∙ ap (λ n. lookup k (mark_rows (s.buf n) (s.status n))) (==_sound j i same)
      ∙ lookup-mark_rows (s.buf i) k (s.status i) st e
      ∙ ap (λ t. some (if t && contains (s.buf i) k then (if st == 0 then 1 else st) else st))
          (sym same)
  | inr other ↦
      ap (λ t. lookup k (if t then mark_rows (s.buf j) (s.status j) else s.status i)) other
      ∙ e
      ∙ ap (λ t. some (if t && contains (s.buf i) k then (if st == 0 then 1 else st) else st))
          (sym other)
]

flush-buf :
    (i j : ℕ) (k : Mark) (fails : Bool) (s : State)
    → contains ((flush fails j s).buf i) k ≡ (if j == i then false else contains (s.buf i) k)
unfolding flush
flush-buf i j k fails s = ground arith

flush-HasRow :
    (i j : ℕ) (k : Mark) (fails : Bool) (s : State) → HasRow i k s → HasRow i k (flush fails j s)
flush-HasRow i j k fails s (inl e) = ground (arith, flush-status i j k fails s 0 e)
flush-HasRow i j k fails s (inr e) = ground (arith, flush-status i j k fails s 1 e)

flush-IsMarking :
    (i j : ℕ) (k : Mark) (fails : Bool) (s : State)
    → ((j == i) ≡ true → fails ≡ false)
    → IsMarking i k s
    → IsMarking i k (flush fails j s)
flush-IsMarking i j k fails s works (inl e) = ground (arith, flush-status i j k fails s 1 e)
flush-IsMarking i j k fails s works (inr (e, in_buf)) =
    ground (arith, works, in_buf, flush-status i j k fails s 0 e, flush-buf i j k fails s)

-- A call of add, or a due flush of a database that runs.
pub data Event : Type 0 where
  adds : Mark → Event
  flushes : ℕ → Event

-- `fails` says in which databases the statement fails.
unfoldable pub step : SlotTable → (ℕ → Bool) → Event → State → State
step t fails (adds k) s = add t k s
step t fails (flushes j) s = if s.due j == 0 then s else flush (fails j) j s

unfoldable pub run : SlotTable → (ℕ → Bool) → List Event → State → State
run t fails [] s = s
run t fails (e ∷ es) s = run t fails es (step t fails e s)

step-IsDue :
    (i : ℕ) (t : SlotTable) (fails : ℕ → Bool) (e : Event) (s : State)
    → IsDue i s
    → IsDue i (step t fails e s)
unfolding step add
step-IsDue i t fails (adds k) s h = add_to-IsDue i (shard_of t k) k s h
step-IsDue i t fails (flushes j) s h = elim (Bool-cases (s.due j == 0)) [
  | inl e ↦ rw (e, step) h
  | inr e ↦ rw (e, step) (flush-IsDue i j (fails j) s h)
]

step-HasRow :
    (i : ℕ) (k : Mark) (t : SlotTable) (fails : ℕ → Bool) (e : Event) (s : State)
    → HasRow i k s
    → HasRow i k (step t fails e s)
unfolding step add add_to
step-HasRow i k t fails (adds l) s h = h
step-HasRow i k t fails (flushes j) s h = elim (Bool-cases (s.due j == 0)) [
  | inl e ↦ rw (e, step) h
  | inr e ↦ rw (e, step) (flush-HasRow i j k (fails j) s h)
]

step-IsMarking :
    (i : ℕ) (k : Mark) (t : SlotTable) (fails : ℕ → Bool) (e : Event) (s : State)
    → fails i ≡ false
    → IsMarking i k s
    → IsMarking i k (step t fails e s)
unfolding step add
step-IsMarking i k t fails (adds l) s works h = add_to-IsMarking i (shard_of t l) k l s h
step-IsMarking i k t fails (flushes j) s works h = elim (Bool-cases (s.due j == 0)) [
  | inl e ↦ rw (e, step) h
  | inr e ↦
      rw (e, step)
        (flush-IsMarking i j k (fails j) s (λ same. ap fails (==_sound j i same) ∙ works) h)
]

-- The mark is among those that were added.
abbrev pub is_added : Mark → List Event → Bool
is_added k [] = false
is_added k (adds l ∷ es) = if l =? k then true else is_added k es
is_added k (flushes j ∷ es) = is_added k es

run-IsMarking :
    (i : ℕ) (k : Mark) (t : SlotTable) (fails : ℕ → Bool) (es : List Event) (s : State)
    → fails i ≡ false
    → IsMarking i k s
    → IsMarking i k (run t fails es s)
unfolding run
run-IsMarking i k t fails [] s works h = h
run-IsMarking i k t fails (e ∷ es) s works h =
    run-IsMarking i k t fails es (step t fails e s) works (step-IsMarking i k t fails e s works h)

run-IsDue :
    (i : ℕ) (t : SlotTable) (fails : ℕ → Bool) (es : List Event) (s : State)
    → IsDue i s
    → IsDue i (run t fails es s)
unfolding run
run-IsDue i t fails [] s h = h
run-IsDue i t fails (e ∷ es) s h =
    run-IsDue i t fails es (step t fails e s) (step-IsDue i t fails e s h)

adds-IsMarking :
    (k l : Mark) (t : SlotTable) (fails : ℕ → Bool) (s : State)
    → (l =? k) ≡ true
    → HasRow (shard_of t k) k s
    → IsMarking (shard_of t k) k (step t fails (adds l) s)
unfolding step add
adds-IsMarking k l t fails s same row =
    subst (λ m. IsMarking (shard_of t k) k (add_to (shard_of t m) m s))
      (sym ((pair_beq_iff l k).0 same)) (add_to-marks (shard_of t k) k s row)

run-marks :
    (k : Mark) (t : SlotTable) (fails : ℕ → Bool) (es : List Event) (s : State)
    → HasRow (shard_of t k) k s
    → fails (shard_of t k) ≡ false
    → is_added k es ≡ true
    → IsMarking (shard_of t k) k (run t fails es s)
unfolding run
run-marks k t fails [] s row works added = absurd (ground (arith, added))
run-marks k t fails (adds l ∷ es) s row works added = elim (Bool-cases (l =? k)) [
  | inl same ↦
      run-IsMarking (shard_of t k) k t fails es (step t fails (adds l) s) works
        (adds-IsMarking k l t fails s same row)
  | inr other ↦
      run-marks k t fails es (step t fails (adds l) s)
        (step-HasRow (shard_of t k) k t fails (adds l) s row) works
        (ap (λ b. if b then true else is_added k es) (sym other) ∙ added)
]
run-marks k t fails (flushes j ∷ es) s row works added =
    run-marks k t fails es (step t fails (flushes j) s)
      (step-HasRow (shard_of t k) k t fails (flushes j) s row) works added

none_buffered :
    (i : ℕ) (k : Mark) (s : State) → s.buf i ≡ [] → IsMarking i k s → lookup k (s.status i) ≡ some 1
none_buffered i k s empty (inl e) = e
none_buffered i k s empty (inr (e, in_buf)) =
    absurd (ground (arith, sym (ap (λ b. contains b k) empty) ∙ in_buf))

-- From a state in which a flush is due for all that is buffered for the database of a mark, after any calls
-- of add and due flushes in which the statements on that database succeed (others may fail), once no flush
-- of it is due the row of a mark that was added has status 1, if its status was 0 or 1 before.
pub run-written :
    (k : Mark) (t : SlotTable) (fails : ℕ → Bool) (es : List Event) (s : State)
    → IsDue (shard_of t k) s
    → HasRow (shard_of t k) k s
    → fails (shard_of t k) ≡ false
    → is_added k es ≡ true
    → (run t fails es s).due (shard_of t k) ≡ 0
    → lookup k ((run t fails es s).status (shard_of t k)) ≡ some 1
run-written k t fails es s h row works added idle =
    none_buffered (shard_of t k) k (run t fails es s)
      ((run-IsDue (shard_of t k) t fails es s h).pending idle)
      (run-marks k t fails es s row works added)
