-- ===== src/Comet/Protocol/Tests.antt =====
-- Runs and instances of the frame format (internal/comet/protocol.go) with a frame that is a command and
-- one byte.
use yim.Base.{ℕ, ◌≡◌, refl, ap, Option, none, some, [], ◌∷◌, ◌++◌, arith, take}
use yim.Comet.Protocol.{
  Bytes, Proto, waits, failed, bad_version, encoded, encode_frame, encode_body, header, put_uint32,
  put_uint16, read_frame, peek, parse_header, uint32,
}
use yim.Comet.Protocol.RoundTrip.{IsFaithful, write_frames, read_frames, read_frames-write_frames}
use yim.Comet.Protocol.Partial.{read_frame-partial}

abbrev pair_of : Bytes → Option (ℕ × ℕ)
pair_of (a ∷ b ∷ []) = some (a, b)
pair_of _ = none

abbrev pairs : Proto (ℕ × ℕ)
pairs = record {
  marshal = λ f. some (f.0 ∷ f.1 ∷ []);
  unmarshal = pair_of;
  cmd = λ f. f.0;
  no_frame = (0, 0);
}

pairs_back : (f : ℕ × ℕ) (b : Bytes) → b ≡ f.0 ∷ f.1 ∷ [] → pair_of b ≡ some f
pairs_back f b e = ap pair_of e

pairs-IsFaithful : IsFaithful pairs
pairs-IsFaithful = record {
  read_back = λ f b e. pairs_back f b (ground (arith, e));
  has_body = λ f known e. absurd (ground (arith, e));
}

abbrev ping_bytes : Bytes
ping_bytes = 0 ∷ 0 ∷ 0 ∷ 2 ∷ 1 ∷ 0 ∷ 0 ∷ 9 ∷ 9 ∷ 77 ∷ []

ping : encode_frame pairs (9, 77) ≡ encoded ping_bytes
unfolding encode_frame encode_body header put_uint32 put_uint16
ping = refl

wrong_version :
    read_frame pairs (0 ∷ 0 ∷ 0 ∷ 0 ∷ 2 ∷ 0 ∷ 0 ∷ 9 ∷ [])
    ≡ failed bad_version (0 ∷ 0 ∷ 0 ∷ 0 ∷ 2 ∷ 0 ∷ 0 ∷ 9 ∷ [])
unfolding read_frame peek parse_header uint32
wrong_version = refl

written : write_frames pairs ((9, 77) ∷ (9, 77) ∷ []) ≡ some (ping_bytes ++ ping_bytes)
unfolding write_frames encode_frame encode_body header put_uint32 put_uint16
written = refl

read_frames-write_frames_example :
    read_frames pairs 2 ((ping_bytes ++ ping_bytes) ++ (3 ∷ []))
    ≡ some ((9, 77) ∷ (9, 77) ∷ [], 3 ∷ [])
read_frames-write_frames_example =
    read_frames-write_frames pairs ((9, 77) ∷ (9, 77) ∷ []) (ping_bytes ++ ping_bytes) (3 ∷ [])
      pairs-IsFaithful written

read_frame-partial_example : read_frame pairs (take 9 ping_bytes) ≡ waits
read_frame-partial_example = read_frame-partial pairs (9, 77) ping_bytes 9 ping (omega arith)
