-- ===== src/Protocol/Roundtrip.antt =====
-- The encoders and the decoders of the messages of src/session/protocol.rs.
use mathlib.Core.Path.{subst}
use rustmux.Base.{
  ◌*◌, ◌+◌, Bool, Bool-cases, false, if_false, inr, length, ltb, not, sym, true, ◌%◌, ◌-◌, ◌^◌, ◌∙◌,
  arith, inl, refl, some, ℕ, ◌++◌, ◌<◌, ◌∷◌, ◌≡◌, [],
}
use rustmux.Base.Result.{fail_if, Result, ok, >>=-eq-ok}
use rustmux.Protocol.Codec.{
  invalid_session_name, is_session_name, from_be, require_length, Bytes, Frame, ProtocolError,
  encode_frame, be16, be32, validate_size,
}
use rustmux.Protocol.Frames.{push}
use rustmux.Protocol.Messages.{
  ClientMessage, hello, input, resize, detach, ServerMessage, attached, output, exit, rejected,
  renamed, open_session_manager, server_detach, encode_client, encode_server, decode_client,
  decode_server, decode_taken, push_client, push_server, u8_from, handshake_flag,
}
use rustmux.Protocol.Chunks.{push-of-Drains}
use rustmux.Protocol.Draining.{short, Drains}
use rustmux.Protocol.Pushing.{append-nil}
use rustmux.Protocol.Wire.{encode_frame-Drains, from_be-be16}
use rustmux.Base.Word.{negsuc, from_u32, to_u32, pos, ℤ}

push-encode_frame :
    (f : Frame) (b : Bytes)
    → encode_frame f.message f.payload ≡ ok b
    → push [] b ≡ some ([], ok (f ∷ []))
push-encode_frame f b e = push-of-Drains [] b (inl (omega arith)) (
    subst (λ c. Drains c [] ([], ok (f ∷ []))) (append-nil b)
      (encode_frame-Drains f b [] [] ([], ok (f ∷ [])) e (short (omega arith) refl)))

one_message :
    {A : Type 0} (decode : Frame → Result ProtocolError A) (f : Frame) (b : Bytes) (m : A)
    → encode_frame f.message f.payload ≡ ok b
    → decode f ≡ ok m
    → decode_taken decode (push [] b) ≡ some ([], ok (m ∷ []))
one_message decode f b m e h = rw (push-encode_frame f b e, h)

-- The fields of a message fit their 16 bits.
abbrev pub Fits : ClientMessage → Type 0
Fits (hello v r c w h) = (v < 65536) × (r < 65536) × (c < 65536) × (w < 65536) × (h < 65536)
Fits (input b) = Unit
Fits (resize r c w h) = (r < 65536) × (c < 65536) × (w < 65536) × (h < 65536)
Fits detach = Unit

abbrev hello_frame : ℕ → ℕ → ℕ → ℕ → ℕ → Frame
hello_frame v r c w h = record {
  message = 1;
  payload = be16 v ++ (be16 r ++ (be16 c ++ (be16 w ++ be16 h)));
}

abbrev resize_frame : ℕ → ℕ → ℕ → ℕ → Frame
resize_frame r c w h = record { message = 3; payload = be16 r ++ (be16 c ++ (be16 w ++ be16 h)) }

decode-hello :
    (v r c w h : ℕ)
    → Fits (hello v r c w h)
    → validate_size r c ≡ ok tt
    → decode_client (hello_frame v r c w h) ≡ ok (hello v r c w h)
unfolding decode_client require_length be16
decode-hello v r c w h (a0, a1, a2, a3, a4) e = rw (
  from_be-be16 v a0,
  from_be-be16 r a1,
  from_be-be16 c a2,
  from_be-be16 w a3,
  from_be-be16 h a4,
  e,
)

decode-resize :
    (r c w h : ℕ)
    → Fits (resize r c w h)
    → validate_size r c ≡ ok tt
    → decode_client (resize_frame r c w h) ≡ ok (resize r c w h)
unfolding decode_client require_length be16
decode-resize r c w h (a1, a2, a3, a4) e =
    rw (from_be-be16 r a1, from_be-be16 c a2, from_be-be16 w a3, from_be-be16 h a4, e)

-- A client message whose fields fit 16 bits and which `encode_client` encodes comes back from
-- `push_client`, alone, and nothing is left in the buffer.
pub push_client-encode_client :
    (m : ClientMessage) (b : Bytes)
    → Fits m
    → encode_client m ≡ ok b
    → push_client [] b ≡ some ([], ok (m ∷ []))
unfolding push_client encode_client
push_client-encode_client (hello v r c w h) b fits e =
    let (u, valid, e') = >>=-eq-ok (validate_size r c) _ e in
    one_message decode_client (hello_frame v r c w h) b (hello v r c w h) e'
      (decode-hello v r c w h fits valid)
push_client-encode_client (input bytes) b fits e =
    one_message decode_client (record { message = 2; payload = bytes }) b (input bytes) e refl
push_client-encode_client (resize r c w h) b fits e =
    let (u, valid, e') = >>=-eq-ok (validate_size r c) _ e in
    one_message decode_client (resize_frame r c w h) b (resize r c w h) e'
      (decode-resize r c w h fits valid)
push_client-encode_client detach b fits e =
    one_message decode_client (record { message = 4; payload = [] }) b detach e refl

pub from_be-be32_word : (w : ℕ) → w < 2 ^ 32 → from_be (be32 w) ≡ w
unfolding be32
from_be-be32_word w h = omega arith

-- The range of an `i32`.
abbrev pub IsI32 : ℤ → Type 0
IsI32 (pos n) = n < 2 ^ 31
IsI32 (negsuc n) = n < 2 ^ 31

to_u32-bound : (z : ℤ) → to_u32 z < 2 ^ 32
to_u32-bound (pos n) = omega arith
to_u32-bound (negsuc n) = omega arith

pub from_u32-to_u32 : (z : ℤ) → IsI32 z → from_u32 (to_u32 z) ≡ z
from_u32-to_u32 (pos n) h =
    let same : n % 4294967296 ≡ n = omega arith in
    let low : ltb n 2147483648 ≡ true = ground arith in rw (same, low)
from_u32-to_u32 (negsuc n) h =
    let same : n % 4294967296 ≡ n = omega arith in
    let high : ltb (4294967295 - n) 2147483648 ≡ false = ground arith in
    let back : 4294967295 - (4294967295 - n) ≡ n = omega arith in rw (same, high, back)

module _ (valid_utf8 : Bytes → Bool) where
  -- The fields of a message fit their machine types, and a `String` is UTF-8.
  abbrev pub FitsServer : ServerMessage → Type 0
  FitsServer (attached v locked legacy) = (v < 65536) × (locked < 256)
  FitsServer (output bytes) = Unit
  FitsServer (exit status) = IsI32 status
  FitsServer (rejected message) = valid_utf8 message ≡ true
  FitsServer (renamed name) = valid_utf8 name ≡ true
  FitsServer open_session_manager = Unit
  FitsServer server_detach = Unit

  abbrev attached_frame : ℕ → ℕ → Bool → Frame
  attached_frame v locked legacy = record {
    message = 128;
    payload = be16 v ++ locked ∷ u8_from legacy ∷ [];
  }

  one_byte : (b : ℕ) → 0 * 256 + b ≡ b
  one_byte b = omega arith

  decode-attached :
      (v locked : ℕ) (legacy : Bool)
      → v < 65536
      → decode_server valid_utf8 (attached_frame v locked legacy) ≡ ok (attached v locked legacy)
  unfolding decode_server require_length handshake_flag be16
  decode-attached v locked true h = rw (from_be-be16 v h, one_byte locked)
  decode-attached v locked false h = rw (from_be-be16 v h, one_byte locked)

  decode-exit :
      (status : ℤ)
      → IsI32 status
      → decode_server valid_utf8 (record { message = 130; payload = be32 (to_u32 status) })
        ≡ ok (exit status)
  unfolding decode_server require_length be32
  decode-exit status h =
      rw (from_be-be32_word (to_u32 status) (to_u32-bound status), from_u32-to_u32 status h)

  -- A server message whose fields fit their machine types, whose strings are UTF-8, and which
  -- `encode_server` encodes comes back from `push_server`, alone, and nothing is left in the buffer.
  pub push_server-encode_server :
      (m : ServerMessage) (b : Bytes)
      → FitsServer m
      → encode_server m ≡ ok b
      → push_server valid_utf8 [] b ≡ some ([], ok (m ∷ []))
  unfolding push_server encode_server decode_server require_length
  push_server-encode_server (attached v locked legacy) b fits e =
      one_message (decode_server valid_utf8) (attached_frame v locked legacy) b
        (attached v locked legacy) e (decode-attached v locked legacy fits.0)
  push_server-encode_server (output bytes) b fits e =
      one_message (decode_server valid_utf8) (record { message = 129; payload = bytes }) b
        (output bytes) e refl
  push_server-encode_server (exit status) b fits e =
      one_message (decode_server valid_utf8)
        (record { message = 130; payload = be32 (to_u32 status) }) b (exit status) e
        (decode-exit status fits)
  push_server-encode_server (rejected message) b fits e =
      elim (Bool-cases (ltb 1024 (length message))) [
        | inl big ↦ absurd (cc)
        | inr small ↦
            one_message (decode_server valid_utf8) (record { message = 131; payload = message }) b
              (rejected message) (sym (if_false _ _ small) ∙ e) (rw (small, fits))
      ]
  push_server-encode_server (renamed name) b fits e =
      let (u, valid, e') =
        >>=-eq-ok (fail_if (not (is_session_name name)) invalid_session_name) _ e in
      one_message (decode_server valid_utf8) (record { message = 134; payload = name }) b
        (renamed name) e' (rw (fits, valid))
  push_server-encode_server open_session_manager b fits e =
      one_message (decode_server valid_utf8) (record { message = 132; payload = [] }) b
        open_session_manager e refl
  push_server-encode_server server_detach b fits e =
      one_message (decode_server valid_utf8) (record { message = 133; payload = [] }) b
        server_detach e refl
