-- ===== src/Comet/Protocol.antt =====
-- internal/comet/protocol.go: frames on the wire. Bytes are numbers below 256. The generated protobuf
-- code is the record `Proto`; a stream is the bytes that have come in and were not consumed.
pub mod RoundTrip
pub mod Partial
mod Tests
use yim.Base.{
  ℕ, zero, suc, ◌+◌, ◌*◌, ◌/◌, ◌%◌, ◌^◌, Bool, true, false, not, Option, none, some, List, [], ◌∷◌,
  ◌++◌, ltb, leb, ◌==◌, if◌then◌else◌, length, take, drop,
}

abbrev pub Bytes : Type 0
Bytes = List ℕ

abbrev pub header_size : ℕ
header_size = 8

abbrev pub max_body_size : ℕ
max_body_size = 65536

abbrev pub version_v1 : ℕ
version_v1 = 1

-- kitex_gen/yim and proto: what the gateway calls. `cmd` 0 is CMD_UNKNOWN.
pub record Proto (Frame : Type 0) : Type 0 where
  pub marshal : Frame → Option Bytes
  pub unmarshal : Bytes → Option Frame
  pub cmd : Frame → ℕ
  pub no_frame : Frame

pub data EncodeError : Type 0 where
  encode_unknown_cmd encode_failed encode_too_large : EncodeError

pub data Encoded : Type 0 where
  encoded : Bytes → Encoded
  refused : EncodeError → Encoded

unfoldable pub put_uint32 : ℕ → Bytes
put_uint32 n = (n / 16777216 % 256) ∷ (n / 65536 % 256) ∷ (n / 256 % 256) ∷ (n % 256) ∷ []

unfoldable pub put_uint16 : ℕ → Bytes
put_uint16 n = (n / 256 % 256) ∷ (n % 256) ∷ []

unfoldable pub header : ℕ → ℕ → Bytes
header body_len cmd = put_uint32 body_len ++ (version_v1 ∷ 0 ∷ put_uint16 cmd)

unfoldable pub encode_body : ℕ → Option Bytes → Encoded
encode_body cmd none = refused encode_failed
encode_body cmd (some body) =
    if ltb max_body_size (length body)
    then refused encode_too_large
    else encoded (header (length body) cmd ++ body)

unfoldable pub encode_frame : {Frame : Type 0} → Proto Frame → Frame → Encoded
encode_frame p f =
    if p.cmd f == 0 then refused encode_unknown_cmd else encode_body (p.cmd f) (p.marshal f)

pub data ReadError : Type 0 where
  bad_version bad_flag body_too_large unmarshal_failed unknown_cmd : ReadError

-- A read waits for more bytes, or fails, or has a frame; with what is then on the stream.
pub data Read (Frame : Type 0) : Type 0 where
  waits : Read Frame
  failed : ReadError → Bytes → Read Frame
  frame : Frame → Bytes → Read Frame

-- Peek: none where fewer bytes have come in.
unfoldable pub peek : ℕ → Bytes → Option Bytes
peek n bs = if leb n (length bs) then some (take n bs) else none

unfoldable pub uint32 : ℕ → ℕ → ℕ → ℕ → ℕ
uint32 a b c d = a * 16777216 + b * 65536 + c * 256 + d

unfoldable pub check_cmd : {Frame : Type 0} → Proto Frame → Option Frame → Bytes → Read Frame
check_cmd p none rest = failed unmarshal_failed rest
check_cmd p (some f) rest = if p.cmd f == 0 then failed unknown_cmd rest else frame f rest

unfoldable pub parse_body : {Frame : Type 0} → Proto Frame → ℕ → Option Bytes → Bytes → Read Frame
parse_body p body_len none bs = waits
parse_body p body_len (some full) bs =
    check_cmd p (if ltb 0 body_len then p.unmarshal (drop header_size full) else some p.no_frame)
      (drop (header_size + body_len) bs)

unfoldable pub parse_header : {Frame : Type 0} → Proto Frame → Option Bytes → Bytes → Read Frame
parse_header p (some (a ∷ b ∷ c ∷ d ∷ version ∷ flag ∷ hi ∷ lo ∷ [])) bs =
    let body_len = uint32 a b c d in
    if not (version == version_v1)
    then failed bad_version bs
    else if not (flag == 0)
    then failed bad_flag bs
    else if ltb max_body_size body_len
    then failed body_too_large bs
    else parse_body p body_len (peek (header_size + body_len) bs) bs
parse_header p _ bs = waits

unfoldable pub read_frame : {Frame : Type 0} → Proto Frame → Bytes → Read Frame
read_frame p bs = parse_header p (peek header_size bs) bs
