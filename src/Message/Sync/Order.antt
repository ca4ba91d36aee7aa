-- ===== src/Message/Sync/Order.antt =====
-- Rows of a conversation in the order of seq, and the pages cut from them (internal/message/sync.go).
use yim.Base.{
  nat_eq, ℕ, zero, suc, ◌+◌, ◌≡◌, ◌≤◌, ◌<◌, refl, ap, ◌∙◌, true, false, List, [], ◌∷◌, ◌++◌, ltb,
  if◌then◌else◌, arith, inl, inr, Bool-cases, length, take, drop, length-take,
}
use yim.Message.Sync.{ConvMessage, above, cut, last_seq_of}

-- The seqs ascend, from above n.
abbrev pub IsAscending : ℕ → List ConvMessage → Type 0
IsAscending n [] = Unit {0}
IsAscending n (m ∷ msgs) = (n < m.seq) × IsAscending m.seq msgs

raise : (n k : ℕ) (msgs : List ConvMessage) → n ≤ k → IsAscending k msgs → IsAscending n msgs
raise n k [] le h = tt
raise n k (m ∷ msgs) le h = (omega (arith, le, h.0), h.1)

above-IsAscending :
    (n w : ℕ) (msgs : List ConvMessage) → IsAscending n msgs → IsAscending n (above w msgs)
above-IsAscending n w [] h = tt
above-IsAscending n w (m ∷ msgs) h = elim (Bool-cases (ltb w m.seq)) [
  | inl kept ↦ rw kept (h.0, above-IsAscending m.seq w msgs h.1)
  | inr dropped ↦
      rw dropped
        (raise n m.seq (above w msgs) (omega (arith, h.0)) (above-IsAscending m.seq w msgs h.1))
]

pub above-from :
    (n w : ℕ) (msgs : List ConvMessage) → IsAscending n msgs → IsAscending w (above w msgs)
above-from n w [] h = tt
above-from n w (m ∷ msgs) h = elim (Bool-cases (ltb w m.seq)) [
  | inl kept ↦ rw kept (ground (arith, kept), above-IsAscending m.seq w msgs h.1)
  | inr dropped ↦ rw dropped (above-from m.seq w msgs h.1)
]

above-all : (w n : ℕ) (msgs : List ConvMessage) → w ≤ n → IsAscending n msgs → above w msgs ≡ msgs
above-all w n [] le h = refl
above-all w n (m ∷ msgs) le h =
    let kept : ltb w m.seq ≡ true = ground (arith, le, h.0) in
    rw kept (ap (λ ms. m ∷ ms) (above-all w m.seq msgs (omega (arith, le, h.0)) h.1))

-- The rows above a higher seq are among those above a lower one.
pub above-above :
    (w v : ℕ) (msgs : List ConvMessage) → w ≤ v → above v (above w msgs) ≡ above v msgs
above-above w v [] le = refl
above-above w v (m ∷ msgs) le = elim (Bool-cases (ltb w m.seq)) [
  | inl kept ↦ rw kept (ap (λ ms. if ltb v m.seq then m ∷ ms else ms) (above-above w v msgs le))
  | inr dropped ↦
      let under : ltb v m.seq ≡ false = ground (arith, dropped, le) in
      rw dropped (rw under (above-above w v msgs le))
]

pub last_seq-above :
    (n : ℕ) (m : ConvMessage) (msgs : List ConvMessage)
    → IsAscending n (m ∷ msgs)
    → n < last_seq_of m msgs
last_seq-above n m [] h = h.0
last_seq-above n m (k ∷ msgs) h = omega (arith, h.0, last_seq-above m.seq k msgs h.1)

pub take-IsAscending :
    (i n : ℕ) (msgs : List ConvMessage) → IsAscending n msgs → IsAscending n (take i msgs)
take-IsAscending zero n msgs h = tt
take-IsAscending (suc i) n [] h = tt
take-IsAscending (suc i) n (m ∷ msgs) h = (h.0, take-IsAscending i m.seq msgs h.1)

-- Above the last row of a page is what comes after it.
pub above-page :
    (i n : ℕ) (m : ConvMessage) (msgs : List ConvMessage)
    → IsAscending n (m ∷ msgs)
    → above (last_seq_of m (take i msgs)) (m ∷ msgs) ≡ drop i msgs
above-page zero n m msgs h =
    let own : ltb m.seq m.seq ≡ false = ground arith in
    rw own (above-all m.seq m.seq msgs (omega arith) h.1)
above-page (suc i) n m [] h = let own : ltb m.seq m.seq ≡ false = ground arith in rw own refl
above-page (suc i) n m (k ∷ msgs) h =
    let far = last_seq-above m.seq k (take i msgs) (h.1.0, take-IsAscending i k.seq msgs h.1.1) in
    let own : ltb (last_seq_of k (take i msgs)) m.seq ≡ false = ground (arith, far) in
    rw own (above-page i m.seq k msgs h.1)

pub take-drop : (i : ℕ) (msgs : List ConvMessage) → take i msgs ++ drop i msgs ≡ msgs
take-drop zero msgs = refl
take-drop (suc i) [] = refl
take-drop (suc i) (m ∷ msgs) = ap (λ ms. m ∷ ms) (take-drop i msgs)

take-all : (i : ℕ) (msgs : List ConvMessage) → length msgs ≤ i → take i msgs ≡ msgs
take-all zero [] le = refl
take-all zero (m ∷ msgs) le = absurd (omega (arith, le))
take-all (suc i) [] le = refl
take-all (suc i) (m ∷ msgs) le = ap (λ ms. m ∷ ms) (take-all i msgs (omega (arith, le)))

take-take : (i : ℕ) (msgs : List ConvMessage) → take i (take (suc i) msgs) ≡ take i msgs
take-take zero msgs = refl
take-take (suc i) [] = refl
take-take (suc i) (m ∷ msgs) = ap (λ ms. m ∷ ms) (take-take i msgs)

-- Whether a page is all that there is.
pub cut_last :
    (i : ℕ) (msgs : List ConvMessage) → length msgs ≤ i → cut i (take (i + 1) msgs) ≡ (msgs, false)
unfolding cut
cut_last i msgs le =
    let all = take-all (i + 1) msgs (omega (arith, le)) in
    let fits : ltb i (length msgs) ≡ false = ground (arith, le) in
    ap (λ ms. if ltb i (length ms) then (take i ms, true) else (ms, false)) all ∙ rw fits refl

pub cut_more :
    (i : ℕ) (msgs : List ConvMessage)
    → i < length msgs
    → cut i (take (i + 1) msgs) ≡ (take i msgs, true)
unfolding cut
cut_more i msgs lt =
    let over : ltb i (length (take (i + 1) msgs)) ≡ true =
      ground (arith, lt, length-take (i + 1) msgs) in
    let next : i + 1 ≡ suc i = omega arith in
    rw over (ap (λ ms. (ms, true)) (ap (λ k. take i (take k msgs)) next ∙ take-take i msgs))
