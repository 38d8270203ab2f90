-- ===== src/Protocol/Codec.antt =====
-- Frames of src/session/protocol.rs: `encode_frame`, `require_length`, `validate_size`, the errors
-- and the big-endian integers that the standard library reads and writes.
use rustmux.Base.{
  Bool, [], if◌then◌else◌, leb, length, ltb, not, true, ◌%◌, ◌&&◌, ◌*◌, ◌++◌, ◌+◌, ◌/◌, ◌==◌, ◌^◌,
  ◌||◌, ◌∷◌, ℕ, List,
}
use rustmux.Base.Result.{Result, ok, err}

abbrev pub Bytes : Type 0
Bytes = List ℕ

abbrev pub protocol_version : ℕ
protocol_version = 7

abbrev pub max_frame_bytes : ℕ
max_frame_bytes = 64 * 1024

abbrev pub max_error_bytes : ℕ
max_error_bytes = 1024

abbrev pub header_bytes : ℕ
header_bytes = 5

pub data ProtocolError : Type 0 where
  frame_too_large : ℕ → ProtocolError
  error_message_too_long : ℕ → ProtocolError
  unknown_message : ℕ → ProtocolError
  invalid_length : ℕ → ℕ → ℕ → ProtocolError
  invalid_terminal_size : ProtocolError
  invalid_handshake_flags : ℕ → ProtocolError
  invalid_utf8 invalid_session_name : ProtocolError
  truncated_frame : ℕ → ProtocolError

pub record Frame : Type 0 where
  pub message : ℕ
  pub payload : Bytes

-- `to_be_bytes` of a `u16` and of a `u32`.
unfoldable pub be16 : ℕ → Bytes
be16 v = (v / 256 % 256) ∷ (v % 256) ∷ []

unfoldable pub be32 : ℕ → Bytes
be32 v = (v / 2 ^ 24 % 256) ∷ (v / 2 ^ 16 % 256) ∷ (v / 256 % 256) ∷ (v % 256) ∷ []

-- `from_be_bytes` of a slice.
abbrev pub from_be_onto : ℕ → Bytes → ℕ
from_be_onto acc [] = acc
from_be_onto acc (b ∷ bs) = from_be_onto (acc * 256 + b) bs

abbrev pub from_be : Bytes → ℕ
from_be bs = from_be_onto 0 bs

unfoldable pub encode_frame : ℕ → Bytes → Result ProtocolError Bytes
encode_frame message payload =
    if ltb max_frame_bytes (length payload)
    then err (frame_too_large (length payload))
    else ok (message ∷ (be32 (length payload % 2 ^ 32) ++ payload))

unfoldable pub require_length : Frame → ℕ → Result ProtocolError (Unit {0})
require_length frame expected =
    if length frame.payload == expected
    then ok tt
    else err (invalid_length frame.message expected (length frame.payload))

unfoldable pub validate_size : ℕ → ℕ → Result ProtocolError (Unit {0})
validate_size rows columns = if rows == 0 || columns == 0 then err invalid_terminal_size else ok tt

-- `SessionName::new` of src/session.rs, as a test: not empty, at most 64 bytes, each an ASCII letter,
-- a digit, a dash or an underscore.
abbrev pub within : ℕ → ℕ → ℕ → Bool
within lo hi b = leb lo b && leb b hi

unfoldable pub is_name_byte : ℕ → Bool
is_name_byte b =
    within b'a' b'z' b || within b'A' b'Z' b || within b'0' b'9' b || b == b'-' || b == b'_'

abbrev pub all : (ℕ → Bool) → Bytes → Bool
all p [] = true
all p (b ∷ bs) = p b && all p bs

unfoldable pub is_session_name : Bytes → Bool
is_session_name name = not (length name == 0) && not (ltb 64 (length name)) && all is_name_byte name
