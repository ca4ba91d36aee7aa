-- ===== src/Comet/Protocol/Partial.antt =====
-- Frames of internal/comet/protocol.go of which a part has come in.
use yim.Base.{
  ℕ, zero, suc, ◌+◌, ◌-◌, ◌≡◌, refl, sym, ap, ◌∙◌, subst, ◌≤◌, ◌<◌, none, some, [], ◌∷◌, ◌++◌,
  arith, leb, Bool-cases, inl, inr, length, take, length-take, length-append,
}
use yim.Comet.Protocol.{
  Bytes, header_size, max_body_size, Proto, encoded, header, put_uint32, put_uint16, encode_frame,
  waits, peek, parse_body, parse_header, read_frame,
}
use yim.Comet.Protocol.RoundTrip.{
  peek-append, parse_header-header, encode_body-encoded, encode_frame-encoded,
}

take-append_more :
    (xs ys : Bytes) (k : ℕ) → length xs ≤ k → take k (xs ++ ys) ≡ xs ++ take (k - length xs) ys
take-append_more [] ys k le = ap (λ j. take j ys) (omega arith)
take-append_more (x ∷ xs) ys zero le = absurd (omega (arith, le))
take-append_more (x ∷ xs) ys (suc k) le =
    ap (λ t. x ∷ t)
      (take-append_more xs ys k (omega (arith, le)) ∙ ap (λ j. xs ++ take j ys) (omega arith))

peek-short : (n : ℕ) (bs : Bytes) → length bs < n → peek n bs ≡ none
unfolding peek
peek-short n bs lt = ground (arith, lt)

waits_header :
    {Frame : Type 0} (p : Proto Frame) (bs : Bytes)
    → length bs < header_size
    → read_frame p bs ≡ waits
unfolding read_frame parse_header
waits_header p bs lt = ap (λ h. parse_header p h bs) (peek-short header_size bs lt)

header_there :
    (n cmd : ℕ) (part : Bytes) → peek header_size (header n cmd ++ part) ≡ some (header n cmd)
unfolding header put_uint32 put_uint16
header_there n cmd part = peek-append (header n cmd) part

length-header : (n cmd : ℕ) → length (header n cmd) ≡ header_size
unfolding header put_uint32 put_uint16
length-header n cmd = refl

waits_body :
    {Frame : Type 0} (p : Proto Frame) (n cmd : ℕ) (part : Bytes)
    → n ≤ max_body_size
    → length part < n
    → read_frame p (header n cmd ++ part) ≡ waits
unfolding read_frame parse_body
waits_body p n cmd part le lt =
    ap (λ h. parse_header p h (header n cmd ++ part)) (header_there n cmd part)
    ∙ parse_header-header p n cmd (header n cmd ++ part) le
    ∙ ap (λ full. parse_body p n full (header n cmd ++ part))
        (peek-short (header_size + n) (header n cmd ++ part)
          (omega (arith, lt, length-append (header n cmd) part, length-header n cmd)))

cut :
    {Frame : Type 0} (p : Proto Frame) (n cmd : ℕ) (body : Bytes) (k : ℕ)
    → n ≤ max_body_size
    → length body ≡ n
    → header_size ≤ k
    → k < header_size + n
    → read_frame p (take k (header n cmd ++ body)) ≡ waits
cut p n cmd body k le len more less =
    ap (read_frame p)
      (take-append_more (header n cmd) body k (omega (arith, more, length-header n cmd)))
    ∙ waits_body p n cmd (take (k - length (header n cmd)) body) le (
        omega (
          arith,
          len,
          less,
          more,
          length-header n cmd,
          length-take (k - length (header n cmd)) body,
        ))

-- An encoded frame of which any part is missing at the end is waited for, with no error and nothing
-- consumed.
pub read_frame-partial :
    {Frame : Type 0} (p : Proto Frame) (f : Frame) (b : Bytes) (k : ℕ)
    → encode_frame p f ≡ encoded b
    → k < length b
    → read_frame p (take k b) ≡ waits
read_frame-partial p f b k e lt = elim (Bool-cases (leb header_size k)) [
  | inr small ↦ waits_header p (take k b) (ground (arith, length-take k b, small, lt))
  | inl large ↦
      let (known, e1) = encode_frame-encoded p f b e in
      let (body, m, le, whole) = encode_body-encoded (p.cmd f) (p.marshal f) b e1 in
      subst (λ t. read_frame p (take k t) ≡ waits) (sym whole)
        (cut p (length body) (p.cmd f) body k le refl (ground (arith, large)) (
          omega (
            arith,
            lt,
            ap length whole,
            length-append (header (length body) (p.cmd f)) body,
            length-header (length body) (p.cmd f),
          )))
]
