-- ===== src/Message/Sync.antt =====
-- Sync and pullIncrement of internal/message/sync.go. `rows` gives the messages of a conversation in the
-- order of the primary key, that is of seq; `fails` says for which conversations the query fails.
pub mod Order
pub mod Pages
mod Tests
use yim.Base.{
  nat_eq, ℕ, zero, suc, ◌+◌, Bool, true, false, not, ◌&&◌, Option, none, some, List, [], ◌∷◌, ◌++◌,
  ltb, ◌==◌, if◌then◌else◌, length, take, keep_if,
}

abbrev pub sync_max : ℕ
sync_max = 200

pub record ConvMessage : Type 0 where
  pub msg_id : ℕ
  pub conv_id : ℕ
  pub from_uid : ℕ
  pub seq : ℕ
  pub content : List ℕ
  pub server_time_ms : ℕ

pub record ConvWatermark : Type 0 where
  pub conv_id : ℕ
  pub last_seq : ℕ

pub record Env : Type 0 where
  pub rows : ℕ → List ConvMessage
  pub fails : ℕ → Bool

-- `seq > ?`.
abbrev pub above : ℕ → List ConvMessage → List ConvMessage
above after msgs = keep_if (λ (m : ConvMessage). ltb after m.seq) msgs

-- One row more than the limit tells whether there are more.
pub cut : ℕ → List ConvMessage → List ConvMessage × Bool
cut limit msgs = if ltb limit (length msgs) then (take limit msgs, true) else (msgs, false)

pub pull_increment : Env → ℕ → ℕ → ℕ → Option (List ConvMessage × Bool)
pull_increment env conv after limit =
    if env.fails conv
    then none
    else some (cut limit (take (limit + 1) (above after (env.rows conv))))

-- `page[len(page)-1].GetSeq()`, of a page that is not empty.
abbrev pub last_seq_of : ConvMessage → List ConvMessage → ℕ
last_seq_of m [] = m.seq
last_seq_of m (n ∷ msgs) = last_seq_of n msgs

abbrev pub overflow_of : ℕ → List ConvMessage × Bool → List ConvWatermark
overflow_of conv ([], more) = []
overflow_of conv (m ∷ msgs, false) = []
overflow_of conv (m ∷ msgs, true) = record { conv_id = conv; last_seq = last_seq_of m msgs } ∷ []

abbrev pub join :
    Option (List ConvMessage × List ConvWatermark)
    → List ConvMessage
    → List ConvWatermark
    → Option (List ConvMessage × List ConvWatermark)
join none page overflow = none
join (some (msgs, more)) page overflow = some (page ++ msgs, overflow ++ more)

pub sync : Env → List ConvWatermark → Option (List ConvMessage × List ConvWatermark)
sync env [] = some ([], [])
sync env (wm ∷ wms) =
    let rest = sync env wms in
    if wm.conv_id == 0 then rest else elim (pull_increment env wm.conv_id wm.last_seq sync_max) [
      | none ↦ none
      | some (page, more) ↦ join rest page (overflow_of wm.conv_id (page, more))
    ]
