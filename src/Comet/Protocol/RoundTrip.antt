-- ===== src/Comet/Protocol/RoundTrip.antt =====
-- Streams of frames of internal/comet/protocol.go, encoded and read.
use yim.Base.{
  ℕ, zero, suc, ◌+◌, ◌/◌, ◌%◌, ◌≡◌, ◌≢◌, refl, sym, ap, ◌∙◌, subst, ◌≤◌, true, false, Option, none,
  some, List, [], ◌∷◌, ◌++◌, arith, ltb, ◌==◌, if◌then◌else◌, Bool-cases, inl, inr, length, take,
  drop, length-append,
}
use yim.Comet.Protocol.{
  Bytes, header_size, max_body_size, Proto, Encoded, encoded, refused, put_uint32, put_uint16,
  header, encode_body, encode_frame, waits, failed, frame, peek, uint32, check_cmd, parse_body,
  parse_header, read_frame,
}

-- What the gateway relies on: a frame that was marshalled is read back, and one with a command has a body.
pub record IsFaithful {Frame : Type 0} (p : Proto Frame) : Type 0 where
  pub read_back : (f : Frame) (b : Bytes) → p.marshal f ≡ some b → p.unmarshal b ≡ some f
  pub has_body : (f : Frame) → p.cmd f ≢ 0 → p.marshal f ≢ some []

uint32-put_uint32 :
    (n : ℕ)
    → n ≤ max_body_size
    → uint32 (n / 16777216 % 256) (n / 65536 % 256) (n / 256 % 256) (n % 256) ≡ n
unfolding uint32
uint32-put_uint32 n le = omega (arith, le)

take-append : (xs ys : Bytes) → take (length xs) (xs ++ ys) ≡ xs
take-append [] ys = refl
take-append (x ∷ xs) ys = ap (λ t. x ∷ t) (take-append xs ys)

drop-append : (xs ys : Bytes) → drop (length xs) (xs ++ ys) ≡ ys
drop-append [] ys = refl
drop-append (x ∷ xs) ys = drop-append xs ys

pub peek-append : (xs ys : Bytes) → peek (length xs) (xs ++ ys) ≡ some xs
unfolding peek
peek-append xs ys = ground (arith, length-append xs ys, take-append xs ys)

pub parse_header-header :
    {Frame : Type 0} (p : Proto Frame) (n cmd : ℕ) (bs : Bytes)
    → n ≤ max_body_size
    → parse_header p (some (header n cmd)) bs ≡ parse_body p n (peek (header_size + n) bs) bs
unfolding parse_header header put_uint32 put_uint16
parse_header-header p n cmd bs le =
    let small : ltb max_body_size n ≡ false = ground (arith, le) in
    rw (uint32-put_uint32 n le, small) refl

peek-header :
    (n cmd : ℕ) (body rest : Bytes)
    → peek header_size ((header n cmd ++ body) ++ rest) ≡ some (header n cmd)
unfolding header put_uint32 put_uint16
peek-header n cmd body rest = peek-append (header n cmd) (body ++ rest)

length-frame :
    (n cmd : ℕ) (body : Bytes) → length body ≡ n → length (header n cmd ++ body) ≡ header_size + n
unfolding header put_uint32 put_uint16
length-frame n cmd body len = omega (arith, len)

drop-frame :
    (n cmd : ℕ) (body rest : Bytes)
    → length body ≡ n
    → drop (header_size + n) ((header n cmd ++ body) ++ rest) ≡ rest
drop-frame n cmd body rest len =
    subst (λ m. drop m ((header n cmd ++ body) ++ rest) ≡ rest) (length-frame n cmd body len)
      (drop-append (header n cmd ++ body) rest)

peek_frame :
    (n cmd : ℕ) (body rest : Bytes)
    → length body ≡ n
    → peek (header_size + n) ((header n cmd ++ body) ++ rest) ≡ some (header n cmd ++ body)
unfolding header put_uint32 put_uint16
peek_frame n cmd body rest len =
    subst (λ m. peek m ((header n cmd ++ body) ++ rest) ≡ some (header n cmd ++ body))
      (length-frame n cmd body len) (peek-append (header n cmd ++ body) rest)

parse_body-frame :
    {Frame : Type 0} (p : Proto Frame) (n cmd : ℕ) (body rest : Bytes)
    → length body ≡ n
    → parse_body p n (some (header n cmd ++ body)) ((header n cmd ++ body) ++ rest)
      ≡ check_cmd p (if ltb 0 n then p.unmarshal body else some p.no_frame) rest
unfolding parse_body header put_uint32 put_uint16
parse_body-frame p n cmd body rest len =
    ap (check_cmd p (if ltb 0 n then p.unmarshal body else some p.no_frame))
      (drop-frame n cmd body rest len)

pub encode_body-encoded :
    (cmd : ℕ) (o : Option Bytes) (b : Bytes)
    → encode_body cmd o ≡ encoded b
    → (body : Bytes) × (o ≡ some body)
      × (length body ≤ max_body_size)
      × (b ≡ header (length body) cmd ++ body)
unfolding encode_body
encode_body-encoded cmd none b e = absurd (ground arith)
encode_body-encoded cmd (some body) b e = (body, refl, ground arith, ground arith)

pub encode_frame-encoded :
    {Frame : Type 0} (p : Proto Frame) (f : Frame) (b : Bytes)
    → encode_frame p f ≡ encoded b
    → (p.cmd f ≢ 0) × (encode_body (p.cmd f) (p.marshal f) ≡ encoded b)
unfolding encode_frame
encode_frame-encoded p f b e = elim (Bool-cases (p.cmd f == 0)) [
  | inl unknown ↦ absurd (ground (arith, unknown))
  | inr known ↦ (ground (arith, known), ground (arith, known))
]

read_frame-append :
    {Frame : Type 0} (p : Proto Frame) (n cmd : ℕ) (body rest : Bytes)
    → length body ≡ n
    → n ≤ max_body_size
    → read_frame p ((header n cmd ++ body) ++ rest)
      ≡ check_cmd p (if ltb 0 n then p.unmarshal body else some p.no_frame) rest
unfolding read_frame
read_frame-append p n cmd body rest len le =
    ap (λ h. parse_header p h ((header n cmd ++ body) ++ rest)) (peek-header n cmd body rest)
    ∙ parse_header-header p n cmd ((header n cmd ++ body) ++ rest) le
    ∙ ap (λ full. parse_body p n full ((header n cmd ++ body) ++ rest))
        (peek_frame n cmd body rest len)
    ∙ parse_body-frame p n cmd body rest len

known-frame :
    {Frame : Type 0} (p : Proto Frame) (f : Frame) (rest : Bytes)
    → p.cmd f ≢ 0
    → check_cmd p (some f) rest ≡ frame f rest
unfolding check_cmd
known-frame p f rest known =
    let e : (p.cmd f == 0) ≡ false = ground (arith, known) in rw (e, check_cmd) refl

read_known :
    {Frame : Type 0} (p : Proto Frame) (f : Frame) (body rest : Bytes)
    → p.cmd f ≢ 0
    → p.unmarshal body ≡ some f
    → body ≢ []
    → check_cmd p (if ltb 0 (length body) then p.unmarshal body else some p.no_frame) rest
      ≡ frame f rest
read_known p f [] rest known u empty = absurd (empty refl)
read_known p f (x ∷ body) rest known u empty =
    let e : ltb 0 (length (x ∷ body)) ≡ true = ground arith in
    rw (e, u) (known-frame p f rest known)

-- One frame.
read_frame-encode_frame :
    {Frame : Type 0} (p : Proto Frame) (f : Frame) (b rest : Bytes)
    → IsFaithful p
    → encode_frame p f ≡ encoded b
    → read_frame p (b ++ rest) ≡ frame f rest
read_frame-encode_frame p f b rest faithful e =
    let (known, e1) = encode_frame-encoded p f b e in
    let (body, m, le, whole) = encode_body-encoded (p.cmd f) (p.marshal f) b e1 in
    subst (λ bs. read_frame p (bs ++ rest) ≡ frame f rest) (sym whole)
      (read_frame-append p (length body) (p.cmd f) body rest refl le
        ∙ read_known p f body rest known (faithful.read_back f body m)
            (λ h. faithful.has_body f known (m ∙ ap some h)))

-- Frames written one after another; none where one is refused.
unfoldable pub write_frames : {Frame : Type 0} → Proto Frame → List Frame → Option Bytes
write_frames p [] = some []
write_frames p (f ∷ fs) =
    let rest = write_frames p fs in
    elim (encode_frame p f) [
      | refused e ↦ none
      | encoded b ↦ elim rest [ none ↦ none | some bs ↦ some (b ++ bs) ]
    ]

-- The reading loop of a connection, as many times as it is told.
unfoldable pub read_frames :
    {Frame : Type 0} → Proto Frame → ℕ → Bytes → Option (List Frame × Bytes)
read_frames p zero bs = some ([], bs)
read_frames p (suc n) bs = elim (read_frame p bs) [
  | waits ↦ none
  | failed e rest ↦ none
  | frame f rest ↦ elim (read_frames p n rest) [
    | none ↦ none
    | some (fs, left) ↦ some (f ∷ fs, left)
  ]
]

write_frames-cons :
    {Frame : Type 0} (p : Proto Frame) (f : Frame) (fs : List Frame) (bs : Bytes)
    → write_frames p (f ∷ fs) ≡ some bs
    → (b b' : Bytes) × (encode_frame p f ≡ encoded b)
      × (write_frames p fs ≡ some b')
      × (bs ≡ b ++ b')
unfolding write_frames
write_frames-cons p f fs bs e = parts (encode_frame p f) (write_frames p fs) e
  where
    parts :
        (r : Encoded) (o : Option Bytes)
        → (elim r [
          | refused e ↦ none
          | encoded b ↦ elim o [ none ↦ none | some b' ↦ some (b ++ b') ]
        ])
          ≡ some bs
        → (b b' : Bytes) × (r ≡ encoded b) × (o ≡ some b') × (bs ≡ b ++ b')
    parts (refused x) o h = absurd (ground arith)
    parts (encoded b) none h = absurd (ground arith)
    parts (encoded b) (some b') h = (b, b', refl, refl, ground arith)

append_assoc : (a b c : Bytes) → (a ++ b) ++ c ≡ a ++ (b ++ c)
append_assoc [] b c = refl
append_assoc (x ∷ a) b c = ap (λ t. x ∷ t) (append_assoc a b c)

read_frames-frame :
    {Frame : Type 0} (p : Proto Frame) (n : ℕ) (f : Frame) (fs : List Frame) (bs rest left : Bytes)
    → read_frame p bs ≡ frame f rest
    → read_frames p n rest ≡ some (fs, left)
    → read_frames p (suc n) bs ≡ some (f ∷ fs, left)
unfolding read_frames
read_frames-frame p n f fs bs rest left e h = rw (e, read_frames) (rw h refl)

-- Frames that were encoded one after another are read as the same frames in the same order, and what
-- follows on the stream is left on it, provided that protobuf reads back what it wrote and writes a body
-- for a frame with a command.
pub read_frames-write_frames :
    {Frame : Type 0} (p : Proto Frame) (fs : List Frame) (bs rest : Bytes)
    → IsFaithful p
    → write_frames p fs ≡ some bs
    → read_frames p (length fs) (bs ++ rest) ≡ some (fs, rest)
unfolding read_frames write_frames
read_frames-write_frames p [] bs rest faithful e = ground arith
read_frames-write_frames p (f ∷ fs) bs rest faithful e =
    let (b, b', one, others, whole) = write_frames-cons p f fs bs e in
    subst (λ t. read_frames p (suc (length fs)) (t ++ rest) ≡ some (f ∷ fs, rest)) (sym whole)
      (read_frames-frame p (length fs) f fs _ (b' ++ rest) rest
        (ap (read_frame p) (append_assoc b b' rest)
          ∙ read_frame-encode_frame p f b (b' ++ rest) faithful one)
        (read_frames-write_frames p fs b' rest faithful others))
