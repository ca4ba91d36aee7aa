-- ===== src/Message/Send/Resend.antt =====
-- Messages that are sent again by SendMessage of internal/message/service.go, and their rows.
use yim.Base.{nat_eq, pair_eq, ℕ, ◌≡◌, refl, ap, subst, ◌∙◌, Option, some, List, [], ◌∷◌, arith}
use yim.Base.Map.{lookup}
use yim.Message.Send.{
  Row, Key, Ids, State, Env, Msg, Answer, sent, key_of, idem_delete, stored, committed, Prepared,
  done, go_on, prepare, finish, send_message,
}
use yim.Message.Send.Outcomes.{
  Persisted, dropped, left_marked, duplicate, unanswered, added, persist-Persisted, Marked,
  unmarked, marked, marked_before, row_before, Before, refused, remembered, unnumbered, known,
  ready, prepare-Before,
}
use yim.Message.Send.Idempotent.{
  IsSound, CleansUp, lookup-stored, idem_delete-messages, send-IsSound,
}

-- The rows of a state are those of another, unchanged, and possibly more.
abbrev pub Keeps : State → State → Type 0
Keeps s s' = (k : Key) (r : Row) → lookup k s.messages ≡ some r → lookup k s'.messages ≡ some r

same-Keeps : (s s' : State) → s'.messages ≡ s.messages → Keeps s s'
same-Keeps s s' same k r e = ap (lookup k) same ∙ e

committed_rows :
    (env : Env) (m : Msg) (id seq : ℕ) (s : State) (k : Key)
    → lookup k (committed env m id seq s).messages ≡ lookup k s.messages
unfolding committed
committed_rows env m id seq s k = refl

Persisted-Keeps :
    (env : Env) (m : Msg) (id seq : ℕ) (s : State) (r : State × Answer)
    → Persisted env m id seq s r
    → Keeps s r.0
Persisted-Keeps env m id seq s _ dropped =
    same-Keeps s (idem_delete env (key_of m) s) (idem_delete-messages env (key_of m) s)
Persisted-Keeps env m id seq s _ (left_marked e) = λ k r e. e
Persisted-Keeps env m id seq s _ (duplicate e) =
    same-Keeps s (idem_delete env (key_of m) s) (idem_delete-messages env (key_of m) s)
Persisted-Keeps env m id seq s _ (unanswered new) = λ k r e.
    ap (lookup k) (idem_delete-messages env (key_of m) (stored m id seq s))
    ∙ lookup-stored m id seq s k r new e
Persisted-Keeps env m id seq s _ (added new fresh) =
    λ k r e. committed_rows env m id seq (stored m id seq s) k ∙ lookup-stored m id seq s k r new e

Marked-messages :
    (env : Env) (m : Msg) (id seq : ℕ) (s : State) (r : State × Option Ids)
    → Marked env m id seq s r
    → r.0.messages ≡ s.messages
Marked-messages env m id seq s _ (unmarked h) = refl
Marked-messages env m id seq s _ (marked cached e) = refl
Marked-messages env m id seq s _ (marked_before v e) = refl
Marked-messages env m id seq s _ (row_before w f) = refl

pub Before-messages :
    (env : Env) (m : Msg) (s : State) (r : State × Prepared)
    → Before env m s r
    → r.0.messages ≡ s.messages
Before-messages env m s _ (refused a h) = refl
Before-messages env m s _ (remembered member v e) = refl
Before-messages env m s _ (unnumbered segs ids) = refl
Before-messages env m s _ (known member segs ids id seq s2 v h) = Marked-messages env m id seq _ _ h
Before-messages env m s _ (ready member segs ids id seq s2 h) = Marked-messages env m id seq _ _ h

finish-Keeps :
    (env : Env) (m : Msg) (s : State) (r : State × Prepared)
    → r.0.messages ≡ s.messages
    → Keeps s (finish env m r).0
unfolding finish
finish-Keeps env m s (s2, done a) same = same-Keeps s s2 same
finish-Keeps env m s (s2, go_on id seq) same = λ k r e.
    Persisted-Keeps env m id seq s2 _ (persist-Persisted env m id seq s2) k r
      (same-Keeps s s2 same k r e)

-- No call changes or removes a row that is there, whatever fails in it.
pub send-Keeps : (env : Env) (m : Msg) (s : State) → Keeps s (send_message env m s).0
unfolding send_message
send-Keeps env m s =
    finish-Keeps env m s (prepare env m s) (Before-messages env m s _ (prepare-Before env m s))

-- Other messages sent in between, each under conditions of its own.
unfoldable pub send_all : List (Env × Msg) → State → State
send_all [] s = s
send_all ((env, m) ∷ calls) s = send_all calls (send_message env m s).0

abbrev pub AllCleanUp : List (Env × Msg) → Type 0
AllCleanUp [] = Unit
AllCleanUp ((env, m) ∷ calls) = CleansUp env × AllCleanUp calls

send_all-IsSound :
    (calls : List (Env × Msg)) (s : State)
    → AllCleanUp calls
    → IsSound s
    → IsSound (send_all calls s) × Keeps s (send_all calls s)
unfolding send_all
send_all-IsSound [] s clean sound = (sound, λ k r e. e)
send_all-IsSound ((env, m) ∷ calls) s (c, clean) sound =
    let (sound2, kept) =
      send_all-IsSound calls (send_message env m s).0 clean (send-IsSound env m s c sound).0 in
    (sound2, λ k r e. kept k r (send-Keeps env m s k r e))

-- SendMessage is idempotent: where a message was accepted, and any messages are sent after it, a second
-- message with the same conversation and client number that is accepted gets the ids of the first. It is
-- enough that the marks are sound to begin with and the two failures that leave a mark do not happen.
pub send-same_ids :
    (env env' : Env) (m m' : Msg) (calls : List (Env × Msg)) (s : State) (id seq id' seq' : ℕ)
    → IsSound s
    → CleansUp env
    → AllCleanUp calls
    → CleansUp env'
    → key_of m ≡ key_of m'
    → (send_message env m s).1 ≡ sent id seq
    → (send_message env' m' (send_all calls (send_message env m s).0)).1 ≡ sent id' seq'
    → (id ≡ id') × (seq ≡ seq')
send-same_ids env env' m m' calls s id seq id' seq' sound c cs c' same first second =
    let s1 = (send_message env m s).0 in
    let s2 = send_all calls s1 in
    let (sound1, answers1) = send-IsSound env m s c sound in
    let (sound2, kept) = send_all-IsSound calls s1 cs sound1 in
    let (r, at, ids) = answers1 id seq first in
    let (r', at', ids') = (send-IsSound env' m' s2 c' sound2).1 id' seq' second in
    let later = send-Keeps env' m' s2 (key_of m) r (kept (key_of m) r at) in
    let one = subst (λ k. lookup k (send_message env' m' s2).0.messages ≡ some r) same later in
    ground (arith, one, at', ids, ids')
