-- ===== src/Message/LastSeq/CaughtUp.antt =====
-- The rows behind lastSeqBatcher (internal/message/service.go).
use yim.Base.{
  nat_eq, ==_iff, ℕ, ◌≡◌, refl, ap, ◌∙◌, ◌<◌, true, false, none, some, List, [], ◌∷◌, arith, ltb,
  ◌==◌, if◌then◌else◌, Bool-cases, inl, inr,
}
use yim.Base.Map.{Map, lookup, insert, lookup-insert}
use yim.Message.LastSeq.{value, State, buffered, add, update, update_all, flush}

abbrev pub highest : ℕ → ℕ → ℕ
highest a b = if ltb a b then b else a

-- What the row of a conversation has or is going to get.
abbrev pub level : ℕ → State → ℕ
level c s = highest (value (lookup c s.last_seq)) (value (lookup c s.buf))

-- A batch in which each conversation stands once.
abbrev Apart : Map ℕ ℕ → Type 0
Apart [] = Unit {0}
Apart ((c, v) ∷ m) = (lookup c m ≡ none) × Apart m

value-buffered :
    (conv c seq : ℕ) (buf : Map ℕ ℕ)
    → value (lookup c (buffered conv seq buf))
      ≡ (if conv == c then highest (value (lookup c buf)) seq else value (lookup c buf))
unfolding buffered
value-buffered conv c seq buf = ground (arith, lookup-insert conv c seq buf)

lookup-update :
    (conv c seq v : ℕ) (rows : Map ℕ ℕ)
    → lookup c rows ≡ some v
    → lookup c (update conv seq rows) ≡ some (if conv == c then highest v seq else v)
unfolding update
lookup-update conv c seq v rows e = ground (arith, lookup-insert conv c seq rows)

insert-Apart : (k v : ℕ) (m : Map ℕ ℕ) → Apart m → Apart (insert k v m)
unfolding insert lookup
insert-Apart k v [] h = ground arith
insert-Apart k v ((j, w) ∷ m) h = ground (arith, h, insert-Apart k v m, lookup-insert k j v m)

lookup-update_all :
    (batch rows : Map ℕ ℕ) (c v : ℕ)
    → Apart batch
    → lookup c rows ≡ some v
    → lookup c (update_all (λ _. false) batch rows) ≡ some (highest v (value (lookup c batch)))
unfolding update_all lookup
lookup-update_all [] rows c v h e = ground arith
lookup-update_all ((conv, seq) ∷ batch) rows c v h e = ground (
  arith,
  lookup-update conv c seq v rows e,
  lookup-update_all batch (update conv seq rows) c (if conv == c then highest v seq else v) h.1
      (lookup-update conv c seq v rows e),
  ==_iff conv c,
)

-- A flush is due for all that is buffered.
pub record IsDue (s : State) : Type 0 where
  pub apart : Apart s.buf
  pub armed : s.arm ≡ true → 0 < s.flushes
  pub pending : s.flushes ≡ 0 → s.buf ≡ []

-- A call of add, or a due flush that runs.
pub data Event : Type 0 where
  adds : ℕ → ℕ → Event
  flushes : Event

unfoldable pub step : Event → State → State
step (adds conv seq) s = add conv seq s
step flushes s = if s.flushes == 0 then s else flush (λ _. false) s

unfoldable pub run : List Event → State → State
run [] s = s
run (e ∷ es) s = run es (step e s)

-- The highest of `v` and the numbers that were added for the conversation.
abbrev pub highest_added : ℕ → ℕ → List Event → ℕ
highest_added c v [] = v
highest_added c v (adds conv seq ∷ es) = highest_added c (if conv == c then highest v seq else v) es
highest_added c v (flushes ∷ es) = highest_added c v es

buffered-Apart : (conv seq : ℕ) (buf : Map ℕ ℕ) → Apart buf → Apart (buffered conv seq buf)
unfolding buffered
buffered-Apart conv seq buf h = ground (arith, h, insert-Apart conv seq buf h)

add-IsDue : (conv seq : ℕ) (s : State) → IsDue s → IsDue (add conv seq s)
unfolding add
add-IsDue conv seq s h = record {
  apart = buffered-Apart conv seq s.buf h.apart;
  armed = ground (arith, h.armed);
  pending = ground (arith, h.armed);
}

flush-IsDue : (s : State) → IsDue s → IsDue (flush (λ _. false) s)
unfolding flush
flush-IsDue s h = record { apart = tt; armed = λ e. absurd (ground arith); pending = λ e. refl }

step-IsDue : (e : Event) (s : State) → IsDue s → IsDue (step e s)
unfolding step
step-IsDue (adds conv seq) s h = add-IsDue conv seq s h
step-IsDue flushes s h = elim (Bool-cases (s.flushes == 0)) [
  | inl e ↦ rw (e, step) h
  | inr e ↦ rw (e, step) (flush-IsDue s h)
]

-- The row of the conversation is there.
abbrev pub HasRow : ℕ → State → Type 0
HasRow c s = (v : ℕ) × (lookup c s.last_seq ≡ some v)

add-level :
    (conv c seq : ℕ) (s : State)
    → level c (add conv seq s) ≡ (if conv == c then highest (level c s) seq else level c s)
unfolding add
add-level conv c seq s = ground (arith, value-buffered conv c seq s.buf)

flush-level :
    (c v : ℕ) (s : State)
    → IsDue s
    → lookup c s.last_seq ≡ some v
    → lookup c (flush (λ _. false) s).last_seq ≡ some (level c s)
unfolding flush
flush-level c v s h e = ground (arith, lookup-update_all s.buf s.last_seq c v h.apart e)

flushed-level :
    (c : ℕ) (s : State) (w : ℕ)
    → lookup c (flush (λ _. false) s).last_seq ≡ some w
    → level c (flush (λ _. false) s) ≡ w
unfolding flush lookup
flushed-level c s w e = ground arith

flush_all-level :
    (c v : ℕ) (s : State)
    → IsDue s
    → lookup c s.last_seq ≡ some v
    → level c (step flushes s) ≡ level c s
unfolding step
flush_all-level c v s h e = elim (Bool-cases (s.flushes == 0)) [
  | inl f ↦ rw (f, step) refl
  | inr f ↦ rw (f, step) (flushed-level c s (level c s) (flush-level c v s h e))
]

step-HasRow : (e : Event) (c : ℕ) (s : State) → IsDue s → HasRow c s → HasRow c (step e s)
unfolding step add
step-HasRow (adds conv seq) c s h row = row
step-HasRow flushes c s h (v, at) = elim (Bool-cases (s.flushes == 0)) [
  | inl f ↦ rw (f, step) (v, at)
  | inr f ↦ rw (f, step) (level c s, flush-level c v s h at)
]

run-level :
    (c : ℕ) (es : List Event) (s : State)
    → IsDue s
    → HasRow c s
    → level c (run es s) ≡ highest_added c (level c s) es
unfolding run step add
run-level c [] s h row = refl
run-level c (adds conv seq ∷ es) s h row =
    run-level c es (step (adds conv seq) s) (step-IsDue (adds conv seq) s h)
      (step-HasRow (adds conv seq) c s h row)
    ∙ ap (λ v. highest_added c v es) (add-level conv c seq s)
run-level c (flushes ∷ es) s h row =
    run-level c es (step flushes s) (step-IsDue flushes s h) (step-HasRow flushes c s h row)
    ∙ ap (λ v. highest_added c v es) (flush_all-level c row.0 s h row.1)

run-IsDue : (es : List Event) (s : State) → IsDue s → IsDue (run es s)
unfolding run
run-IsDue [] s h = h
run-IsDue (e ∷ es) s h = run-IsDue es (step e s) (step-IsDue e s h)

run-HasRow : (es : List Event) (c : ℕ) (s : State) → IsDue s → HasRow c s → HasRow c (run es s)
unfolding run
run-HasRow [] c s h row = row
run-HasRow (e ∷ es) c s h row =
    run-HasRow es c (step e s) (step-IsDue e s h) (step-HasRow e c s h row)

none_buffered :
    (c : ℕ) (s : State) (v : ℕ) → s.buf ≡ [] → lookup c s.last_seq ≡ some v → v ≡ level c s
unfolding lookup
none_buffered c s v e at = ground arith

-- From a state in which a flush is due for all that is buffered, after any calls of add and flushes that
-- succeed, once no flush is due the row of a conversation has the highest of what it had, what was
-- buffered and all that was added.
pub run-caught_up :
    (c : ℕ) (es : List Event) (s : State)
    → IsDue s
    → HasRow c s
    → (run es s).flushes ≡ 0
    → lookup c (run es s).last_seq ≡ some (highest_added c (level c s) es)
run-caught_up c es s h row idle =
    let (v, at) = run-HasRow es c s h row in
    let due = run-IsDue es s h in
    at ∙ ap some (none_buffered c (run es s) v (due.pending idle) at ∙ run-level c es s h row)
