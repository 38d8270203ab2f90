-- ===== src/Protocol/Messages.antt =====
-- The messages of src/session/protocol.rs, their encoders, and the decoders of a frame and of a
-- stream. A `String` is its bytes; whether bytes are UTF-8 is a parameter, `valid_utf8`.
use rustmux.Base.{
  Bool, Option, [], drop, false, if◌then◌else◌, length, ltb, none, not, some, take, true, ◌++◌,
  ◌==◌, ◌∷◌, ℕ, List,
}
use rustmux.Base.Word.{ℤ, to_u32, from_u32}
use rustmux.Base.Result.{fail_if, ◌>>◌, ◌>>=◌, Result, ok, err}
use rustmux.Protocol.Codec.{
  invalid_utf8, invalid_session_name, unknown_message, error_message_too_long, max_error_bytes,
  invalid_handshake_flags, require_length, is_session_name, validate_size, Bytes, Frame,
  ProtocolError, be16, be32, from_be, encode_frame,
}
use rustmux.Protocol.Frames.{Taken, push}

pub data ClientMessage : Type 0 where
  hello : ℕ → ℕ → ℕ → ℕ → ℕ → ClientMessage
  input : Bytes → ClientMessage
  resize : ℕ → ℕ → ℕ → ℕ → ClientMessage
  detach : ClientMessage

unfoldable pub encode_client : ClientMessage → Result ProtocolError Bytes
unfolding encode_frame validate_size be16 be32
encode_client (hello version rows columns pixel_width pixel_height) = do
  validate_size rows columns
  encode_frame 1
      (be16 version ++ (be16 rows ++ (be16 columns ++ (be16 pixel_width ++ be16 pixel_height))))
encode_client (input bytes) = encode_frame 2 bytes
encode_client (resize rows columns pixel_width pixel_height) = do
  validate_size rows columns
  encode_frame 3 (be16 rows ++ (be16 columns ++ (be16 pixel_width ++ be16 pixel_height)))
encode_client detach = encode_frame 4 []

-- `attached version locked_enter legacy_client_shortcuts`; a status is an `i32`.
pub data ServerMessage : Type 0 where
  attached : ℕ → ℕ → Bool → ServerMessage
  output : Bytes → ServerMessage
  exit : ℤ → ServerMessage
  rejected : Bytes → ServerMessage
  renamed : Bytes → ServerMessage
  open_session_manager server_detach : ServerMessage

abbrev pub u8_from : Bool → ℕ
u8_from true = 1
u8_from false = 0

unfoldable pub encode_server : ServerMessage → Result ProtocolError Bytes
unfolding encode_frame is_session_name be16 be32
encode_server (attached version locked_enter legacy) =
    encode_frame 128 (be16 version ++ locked_enter ∷ u8_from legacy ∷ [])
encode_server (output bytes) = encode_frame 129 bytes
encode_server (exit status) = encode_frame 130 (be32 (to_u32 status))
encode_server (rejected message) =
    if ltb max_error_bytes (length message)
    then err (error_message_too_long (length message))
    else encode_frame 131 message
encode_server (renamed name) = do
  fail_if (not (is_session_name name)) invalid_session_name
  encode_frame 134 name
encode_server open_session_manager = encode_frame 132 []
encode_server server_detach = encode_frame 133 []

-- `u16::from_be_bytes(frame.payload[i..i + 2])`
abbrev pub u16_at : ℕ → Bytes → ℕ
u16_at i payload = from_be (take 2 (drop i payload))

unfoldable pub decode_client : Frame → Result ProtocolError ClientMessage
unfolding require_length validate_size
decode_client frame =
    let p = frame.payload in
    if frame.message == 1
    then (do
      require_length frame 10
      validate_size (u16_at 2 p) (u16_at 4 p)
      ok (hello (u16_at 0 p) (u16_at 2 p) (u16_at 4 p) (u16_at 6 p) (u16_at 8 p)))
    else if frame.message == 2
    then ok (input p)
    else if frame.message == 3
    then (do
      require_length frame 8
      validate_size (u16_at 0 p) (u16_at 2 p)
      ok (resize (u16_at 0 p) (u16_at 2 p) (u16_at 4 p) (u16_at 6 p)))
    else if frame.message == 4
    then (do require_length frame 0; ok detach)
    else err (unknown_message frame.message)

abbrev pub byte_at : ℕ → Bytes → ℕ
byte_at i payload = from_be (take 1 (drop i payload))

unfoldable pub handshake_flag : ℕ → Result ProtocolError Bool
handshake_flag flags =
    if flags == 0
    then ok false
    else if flags == 1
    then ok true
    else err (invalid_handshake_flags flags)

module _ (valid_utf8 : Bytes → Bool) where
  unfoldable pub decode_server : Frame → Result ProtocolError ServerMessage
  unfolding require_length handshake_flag is_session_name
  decode_server frame =
      let p = frame.payload in
      if frame.message == 128
      then (do
        require_length frame 4
        legacy ← handshake_flag (byte_at 3 p)
        ok (attached (u16_at 0 p) (byte_at 2 p) legacy))
      else if frame.message == 129
      then ok (output p)
      else if frame.message == 130
      then (do require_length frame 4; ok (exit (from_u32 (from_be (take 4 p)))))
      else if frame.message == 131
      then (do
        fail_if (ltb max_error_bytes (length p)) (error_message_too_long (length p))
        fail_if (not (valid_utf8 p)) invalid_utf8
        ok (rejected p))
      else if frame.message == 132
      then (do require_length frame 0; ok open_session_manager)
      else if frame.message == 134
      then (do
        fail_if (not (valid_utf8 p)) invalid_utf8
        fail_if (not (is_session_name p)) invalid_session_name
        ok (renamed p))
      else if frame.message == 133
      then (do require_length frame 0; ok server_detach)
      else err (unknown_message frame.message)

-- `.into_iter().map(decode).collect()`: all messages, or the first error.
abbrev pub collect :
    {A : Type 0} → (Frame → Result ProtocolError A) → List Frame → Result ProtocolError (List A)
collect decode [] = ok []
collect decode (f ∷ fs) = decode f >>= λ m. collect decode fs >>= λ ms. ok (m ∷ ms)

abbrev pub decode_taken :
    {A : Type 0}
    → (Frame → Result ProtocolError A)
    → Option Taken
    → Option (Bytes × Result ProtocolError (List A))
decode_taken decode none = none
decode_taken decode (some (pending, frames)) = some (pending, frames >>= collect decode)

-- `ClientDecoder::push` and `ServerDecoder::push`.
unfoldable pub push_client :
    Bytes → Bytes → Option (Bytes × Result ProtocolError (List ClientMessage))
unfolding push decode_client
push_client pending bytes = decode_taken decode_client (push pending bytes)

unfoldable pub push_server :
    (Bytes → Bool) → Bytes → Bytes → Option (Bytes × Result ProtocolError (List ServerMessage))
unfolding push decode_server
push_server valid_utf8 pending bytes = decode_taken (decode_server valid_utf8) (push pending bytes)
