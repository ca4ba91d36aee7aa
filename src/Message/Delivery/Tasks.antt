-- ===== src/Message/Delivery/Tasks.antt =====
-- The tasks of internal/message/delivery.go that stand behind what the registry and the offline box
-- hold, and how far each is from its end.
use yim.Base.{
  nat_eq, pair_eq, ℕ, zero, suc, ◌+◌, ◌-◌, ◌*◌, ◌≡◌, ◌<◌, Bool, false, ◌||◌, some, List, [], ◌∷◌,
  arith, ◌=?◌, Option-cases, inl, inr,
}
use yim.Base.Map.{has}
use yim.Message.Delivery.{
  ConvKey, key, alive, retry_levels, Task, joining, armed, pushing, boxing, State, push_routed,
  write_offline_box, start, schedule, run_task, pick,
}

abbrev pub Key : Type 0
Key = ConvKey × ℕ

abbrev pub any : (Task → Bool) → List Task → Bool
any p [] = false
any p (t ∷ ts) = p t || any p ts

-- A task that will look at the entry of the key again.
abbrev pub retries : Key → Task → Bool
retries k (joining f) = false
retries k (armed f level) = key f =? k
retries k (pushing f level) = key f =? k
retries k (boxing f) = false

-- A task on the way to an entry, or to a row of the box.
abbrev pub hands_over : Key → Task → Bool
hands_over k (joining f) = key f =? k
hands_over k (armed f level) = false
hands_over k (pushing f level) = false
hands_over k (boxing f) = key f =? k

-- The message is not forgotten: it waits for an ACK, is on its way, or lies in the box.
abbrev pub covered : Key → State → Bool
covered k s = alive s.registry k.0 k.1 || any (hands_over k) s.tasks || has k s.box

-- How many steps a task can still cause.
abbrev pub weight : Task → ℕ
weight (joining f) = 8
weight (armed f level) = 2 * (retry_levels - level) + 3
weight (pushing f level) = 2 * (retry_levels - level) + 2
weight (boxing f) = 1

abbrev pub total : List Task → ℕ
total [] = 0
total (t ∷ ts) = weight t + total ts

pub any-pick :
    (p : Task → Bool) (i : ℕ) (ts : List Task) (t : Task) (rest : List Task)
    → pick i ts ≡ some (t, rest)
    → any p ts ≡ p t || any p rest
unfolding pick
any-pick p i [] t rest e = absurd (ground arith)
any-pick p zero (u ∷ ts) t rest e = ground arith
any-pick p (suc i) (u ∷ ts) t rest e = elim (Option-cases (pick i ts)) [
  | inl f ↦ absurd (ground (arith, f))
  | inr ((v, vs), f) ↦ ground (arith, f, any-pick p i ts v vs f)
]

pub total-pick :
    (i : ℕ) (ts : List Task) (t : Task) (rest : List Task)
    → pick i ts ≡ some (t, rest)
    → total ts ≡ weight t + total rest
unfolding pick
total-pick i [] t rest e = absurd (ground arith)
total-pick zero (u ∷ ts) t rest e = ground arith
total-pick (suc i) (u ∷ ts) t rest e = elim (Option-cases (pick i ts)) [
  | inl f ↦ absurd (ground (arith, f))
  | inr ((v, vs), f) ↦ ground (arith, f, total-pick i ts v vs f)
]

-- A task's step leaves less to do.
pub total-run_task :
    (ok : Bool) (t : Task) (s : State) → total (run_task ok t s).tasks < weight t + total s.tasks
unfolding run_task start schedule push_routed write_offline_box
total-run_task ok (joining f) s = ground arith
total-run_task ok (armed f level) s = ground arith
total-run_task ok (pushing f level) s = ground arith
total-run_task ok (boxing f) s = ground arith
