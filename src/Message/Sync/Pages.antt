-- ===== src/Message/Sync/Pages.antt =====
-- The pages of Sync for one conversation (internal/message/sync.go).
use yim.Base.{
  nat_eq, ℕ, zero, suc, ◌≡◌, ◌≤◌, ◌<◌, refl, sym, ap, subst, ◌∙◌, Bool, true, false, some, List, [],
  ◌∷◌, ◌++◌, ltb, ◌==◌, arith, inl, inr, Bool-cases, length, take, drop,
}
use yim.Message.Sync.{
  ConvMessage, ConvWatermark, Env, above, cut, pull_increment, last_seq_of, overflow_of, sync,
}
use yim.Message.Sync.Order.{
  IsAscending, above-from, above-above, last_seq-above, take-IsAscending, above-page, take-drop,
  cut_last, cut_more,
}

-- What an answer to a list of watermarks is: a conversation of at most 200 new rows is given whole; of one
-- with more, 200 rows are given and a watermark above which lies just what is left.
pub data Splits (env : Env)
    : List ConvWatermark → List ConvMessage → List ConvWatermark → Type 0 where
  nothing : Splits env [] [] []
  unnamed :
      (wm : ConvWatermark) (wms : List ConvWatermark) (msgs : List ConvMessage)
      (more : List ConvWatermark)
      → (wm.conv_id == 0) ≡ true
      → Splits env wms msgs more
      → Splits env (wm ∷ wms) msgs more
  whole :
      (wm : ConvWatermark) (wms : List ConvWatermark) (msgs : List ConvMessage)
      (more : List ConvWatermark)
      → length (above wm.last_seq (env.rows wm.conv_id)) ≤ 200
      → Splits env wms msgs more
      → Splits env (wm ∷ wms) (above wm.last_seq (env.rows wm.conv_id) ++ msgs) more
  part :
      (wm : ConvWatermark) (wms : List ConvWatermark) (msgs : List ConvMessage)
      (more : List ConvWatermark) (page : List ConvMessage) (last : ℕ)
      → page ++ above last (env.rows wm.conv_id) ≡ above wm.last_seq (env.rows wm.conv_id)
      → length page ≡ 200
      → 0 < length (above last (env.rows wm.conv_id))
      → Splits env wms msgs more
      → Splits env
          (wm ∷ wms)
          (page ++ msgs)
          (record { conv_id = wm.conv_id; last_seq = last } ∷ more)

abbrev pub Answered : Env → List ConvWatermark → Type 0
Answered env wms =
    (msgs : List ConvMessage) × (more : List ConvWatermark) × (sync env wms ≡ some (msgs, more))
    × Splits env wms msgs more

full_page :
    (i : ℕ) (msgs : List ConvMessage)
    → i < length msgs
    → (length (take i msgs) ≡ i) × (0 < length (drop i msgs))
full_page zero msgs lt = (refl, lt)
full_page (suc i) [] lt = absurd (omega (arith, lt))
full_page (suc i) (m ∷ msgs) lt =
    let (here, there) = full_page i msgs (omega (arith, lt)) in (ap suc here, there)

module _ (env : Env) (wm : ConvWatermark) (wms : List ConvWatermark) where
  skip_lem : (wm.conv_id == 0) ≡ true → sync env (wm ∷ wms) ≡ sync env wms
  unfolding sync
  skip_lem none_named = rw (none_named, sync) refl

  step_lem :
      (msgs page : List ConvMessage) (more : List ConvWatermark) (over : Bool)
      → (wm.conv_id == 0) ≡ false
      → env.fails wm.conv_id ≡ false
      → sync env wms ≡ some (msgs, more)
      → cut 200 (take 201 (above wm.last_seq (env.rows wm.conv_id))) ≡ (page, over)
      → sync env (wm ∷ wms) ≡ some (page ++ msgs, overflow_of wm.conv_id (page, over) ++ more)
  unfolding sync pull_increment
  step_lem msgs page more over named works rest split = rw (named, works, rest, split, sync) refl

overflow-false : (conv : ℕ) (page : List ConvMessage) → overflow_of conv (page, false) ≡ []
overflow-false conv [] = refl
overflow-false conv (m ∷ page) = refl

-- A conversation with more than 200 new rows.
part-Answered :
    (env : Env) (wm : ConvWatermark) (wms : List ConvWatermark) (m : ConvMessage)
    (msgs : List ConvMessage)
    → (wm.conv_id == 0) ≡ false
    → env.fails wm.conv_id ≡ false
    → IsAscending 0 (env.rows wm.conv_id)
    → above wm.last_seq (env.rows wm.conv_id) ≡ m ∷ msgs
    → 200 < length (m ∷ msgs)
    → Answered env wms
    → Answered env (wm ∷ wms)
part-Answered env wm wms m msgs named works h e lt (rest, more, done, splits) =
    let rows = env.rows wm.conv_id in
    let last = last_seq_of m (take 199 msgs) in
    let from_w : IsAscending wm.last_seq (m ∷ msgs) =
      subst (IsAscending wm.last_seq) e (above-from 0 wm.last_seq rows h) in
    let beyond =
      last_seq-above wm.last_seq m (take 199 msgs)
        (from_w.0, take-IsAscending 199 m.seq msgs from_w.1) in
    let next : above last rows ≡ drop 199 msgs =
      sym (above-above wm.last_seq last rows (omega (arith, beyond)))
      ∙ ap (above last) e
      ∙ above-page 199 wm.last_seq m msgs from_w in
    let (full, left) = full_page 199 msgs (omega (arith, lt)) in
    (
      m ∷ take 199 msgs ++ rest,
      record { conv_id = wm.conv_id; last_seq = last } ∷ more,
      step_lem env wm wms rest (m ∷ take 199 msgs) more true named works done
          (ap (λ xs. cut 200 (take 201 xs)) e ∙ cut_more 200 (m ∷ msgs) lt),
      part wm wms rest more (m ∷ take 199 msgs) last
          (ap (λ xs. m ∷ take 199 msgs ++ xs) next ∙ ap (λ xs. m ∷ xs) (take-drop 199 msgs) ∙ sym e)
          (ap suc full) (subst (λ xs. 0 < length xs) (sym next) left) splits,
    )

-- A conversation with at most 200 new rows.
whole-Answered :
    (env : Env) (wm : ConvWatermark) (wms : List ConvWatermark)
    → (wm.conv_id == 0) ≡ false
    → env.fails wm.conv_id ≡ false
    → length (above wm.last_seq (env.rows wm.conv_id)) ≤ 200
    → Answered env wms
    → Answered env (wm ∷ wms)
whole-Answered env wm wms named works le (rest, more, done, splits) =
    let page = above wm.last_seq (env.rows wm.conv_id) in
    (
      page ++ rest,
      more,
      step_lem env wm wms rest page more false named works done (cut_last 200 page le)
          ∙ ap (λ wms. some (page ++ rest, wms ++ more)) (overflow-false wm.conv_id page),
      whole wm wms rest more le splits,
    )

named-Answered :
    (env : Env) (wm : ConvWatermark) (wms : List ConvWatermark) (xs : List ConvMessage)
    → (wm.conv_id == 0) ≡ false
    → env.fails wm.conv_id ≡ false
    → IsAscending 0 (env.rows wm.conv_id)
    → above wm.last_seq (env.rows wm.conv_id) ≡ xs
    → Answered env wms
    → Answered env (wm ∷ wms)
named-Answered env wm wms [] named works h e rest =
    whole-Answered env wm wms named works (omega (arith, ap length e)) rest
named-Answered env wm wms (m ∷ msgs) named works h e rest =
    elim (Bool-cases (ltb 200 (length (m ∷ msgs)))) [
      | inr fits ↦ whole-Answered env wm wms named works (ground (arith, fits, ap length e)) rest
      | inl over ↦ part-Answered env wm wms m msgs named works h e (ground (arith, over)) rest
    ]

-- Where the rows of each conversation ascend in seq and no query fails, Sync answers a list of watermarks, and
-- its answer splits the new rows: a conversation with at most 200 rows above its watermark is given whole,
-- without an overflow; of one with more, 200 rows are given with one overflow watermark, and these rows
-- followed by those above the overflow's watermark are the new rows, in their order.
pub sync-Splits :
    (env : Env) (wms : List ConvWatermark)
    → ((conv : ℕ) → env.fails conv ≡ false)
    → ((conv : ℕ) → IsAscending 0 (env.rows conv))
    → (msgs : List ConvMessage) × (more : List ConvWatermark) × (sync env wms ≡ some (msgs, more))
      × Splits env wms msgs more
unfolding sync
sync-Splits env [] works h = ([], [], refl, nothing)
sync-Splits env (wm ∷ wms) works h = elim (Bool-cases (wm.conv_id == 0)) [
  | inl none_named ↦
      let (msgs, more, done, splits) = sync-Splits env wms works h in
      (
        msgs,
        more,
        skip_lem env wm wms none_named ∙ done,
        unnamed wm wms msgs more none_named splits,
      )
  | inr named ↦
      named-Answered env wm wms (above wm.last_seq (env.rows wm.conv_id)) named (works wm.conv_id)
        (h wm.conv_id) refl (sync-Splits env wms works h)
]
