-- ===== src/Protocol/Frames.antt =====
-- `FrameDecoder` of src/session/protocol.rs. A method returns the new `pending` buffer beside its
-- result, since an error clears the buffer.
use rustmux.Base.{
  Option, [], drop, if◌then◌else◌, length, ltb, min, none, some, suc, take, zero, ◌++◌, ◌+◌, ◌-◌,
  ◌==◌, ◌∷◌, ℕ, List,
}
use rustmux.Base.Result.{Result, ok, err}
use rustmux.Protocol.Codec.{
  Bytes, Frame, ProtocolError, frame_too_large, truncated_frame, header_bytes, max_frame_bytes,
  from_be,
}

-- What a method leaves: the buffer, and the frames or the error.
abbrev pub Taken : Type 0
Taken = Bytes × Result ProtocolError (List Frame)

-- `u32::from_be_bytes(self.pending[1..HEADER_BYTES])`
abbrev pub frame_payload_length : Bytes → ℕ
frame_payload_length pending = from_be (take 4 (drop 1 pending))

abbrev pub first_byte : Bytes → ℕ
first_byte [] = 0
first_byte (b ∷ bs) = b

-- The first frame of a buffer that holds one.
abbrev pub first_frame : Bytes → Frame
first_frame pending = record {
  message = first_byte pending;
  payload = take (frame_payload_length pending) (drop header_bytes pending);
}

-- `loop { … }` of `take_complete`; `none` is a loop of the model that ran out of fuel.
unfoldable pub take_complete : ℕ → Bytes → List Frame → Option Taken
take_complete zero pending frames = none
take_complete (suc fuel) pending frames =
    let len = frame_payload_length pending in
    let rest =
      take_complete fuel (drop (header_bytes + len) pending) (frames ++ first_frame pending ∷ []) in
    if ltb (length pending) header_bytes
    then some (pending, ok frames)
    else if ltb max_frame_bytes len
    then some ([], err (frame_too_large len))
    else if ltb (length pending) (header_bytes + len)
    then some (pending, ok frames)
    else rest

abbrev pub then_push : (Bytes → List Frame → Option Taken) → Option Taken → Option Taken
then_push push none = none
then_push push (some (pending, err e)) = some (pending, err e)
then_push push (some (pending, ok frames)) = push pending frames

-- `while !bytes.is_empty() { … }` of `push`. A buffer of `n` bytes holds fewer than `n + 1` frames.
unfoldable pub push_bytes : ℕ → Bytes → Bytes → List Frame → Option Taken
push_bytes fuel [] pending frames = some (pending, ok frames)
push_bytes zero (b ∷ bs) pending frames = none
push_bytes (suc fuel) (b ∷ bs) pending frames =
    let available = header_bytes + max_frame_bytes - length pending in
    let count = min available (length (b ∷ bs)) in
    let filled = pending ++ take count (b ∷ bs) in
    let rest =
      then_push (λ p. push_bytes fuel (drop count (b ∷ bs)) p)
        (take_complete (suc (length filled)) filled frames) in
    if available == 0 then some ([], err (frame_too_large (max_frame_bytes + 1))) else rest

unfoldable pub push : Bytes → Bytes → Option Taken
unfolding push_bytes take_complete
push pending bytes = push_bytes (length bytes) bytes pending []

unfoldable pub finish : Bytes → Bytes × Result ProtocolError (Unit {0})
finish [] = ([], ok tt)
finish (b ∷ pending) = ([], err (truncated_frame (length (b ∷ pending))))
