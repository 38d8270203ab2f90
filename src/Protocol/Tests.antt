-- ===== src/Protocol/Tests.antt =====
-- Runs of the model of src/session/protocol.rs.
use rustmux.Base.{arith, drop, inl, length, refl, some, take, true, ◌++◌, ◌∷◌, ◌≡◌, ◌≤◌, []}
use rustmux.Base.Result.{ok, err}
use rustmux.Protocol.Codec.{be32, Bytes, Frame, truncated_frame, frame_too_large}
use rustmux.Protocol.Frames.{finish, Taken, push}
use rustmux.Protocol.Messages.{push_server, push_client, encode_server, encode_client, resize, exit}
use rustmux.Base.Word.{negsuc}
use rustmux.Protocol.Pushing.{Settled}
use rustmux.Protocol.Chunks.{feed-push, push-Settled, concat, feed}
use rustmux.Protocol.Wire.{push-stream, stream}
use rustmux.Protocol.Roundtrip.{push_server-encode_server, push_client-encode_client}

abbrev greeting : Bytes
greeting = 2 ∷ 0 ∷ 0 ∷ 0 ∷ 2 ∷ 104 ∷ 105 ∷ []

abbrev greeting_frame : Frame
greeting_frame = record { message = 2; payload = 104 ∷ 105 ∷ [] }

empty-Settled : Settled []
empty-Settled = inl (omega arith)

push_whole : push [] (greeting ++ 4 ∷ []) ≡ some (4 ∷ [], ok (greeting_frame ∷ []))
unfolding push
push_whole = refl

push_large : push [] (2 ∷ 0 ∷ 1 ∷ 0 ∷ 1 ∷ []) ≡ some ([], err (frame_too_large 65537))
unfolding push
push_large = refl

finish_part : finish (2 ∷ 0 ∷ []) ≡ ([], err (truncated_frame 2))
unfolding finish
finish_part = refl

feed-push_example :
    (t : Taken) × (feed [] [] (take 3 greeting ∷ drop 3 greeting ∷ []) ≡ some t)
    × (push [] (concat (take 3 greeting ∷ drop 3 greeting ∷ [])) ≡ some t)
feed-push_example = feed-push [] (take 3 greeting ∷ drop 3 greeting ∷ []) empty-Settled

push-Settled_example : Settled (take 3 greeting) × (length (take 3 greeting) ≤ 65540)
unfolding push
push-Settled_example = push-Settled [] (take 3 greeting) empty-Settled refl

push-stream_example :
    push [] (greeting ++ greeting) ≡ some ([], ok (greeting_frame ∷ greeting_frame ∷ []))
unfolding stream be32
push-stream_example = push-stream (greeting_frame ∷ greeting_frame ∷ []) (greeting ++ greeting) refl

push_client-encode_client_example :
    push_client [] (3 ∷ 0 ∷ 0 ∷ 0 ∷ 8 ∷ 0 ∷ 24 ∷ 0 ∷ 80 ∷ 0 ∷ 0 ∷ 0 ∷ 0 ∷ [])
    ≡ some ([], ok (resize 24 80 0 0 ∷ []))
unfolding encode_client
push_client-encode_client_example =
    push_client-encode_client (resize 24 80 0 0)
      (3 ∷ 0 ∷ 0 ∷ 0 ∷ 8 ∷ 0 ∷ 24 ∷ 0 ∷ 80 ∷ 0 ∷ 0 ∷ 0 ∷ 0 ∷ [])
      (omega arith, omega arith, omega arith, omega arith) refl

push_server-encode_server_example :
    push_server (λ bytes. true) [] (130 ∷ 0 ∷ 0 ∷ 0 ∷ 4 ∷ 255 ∷ 255 ∷ 255 ∷ 255 ∷ [])
    ≡ some ([], ok (exit (negsuc 0) ∷ []))
unfolding encode_server
push_server-encode_server_example =
    push_server-encode_server (λ bytes. true) (exit (negsuc 0))
      (130 ∷ 0 ∷ 0 ∷ 0 ∷ 4 ∷ 255 ∷ 255 ∷ 255 ∷ 255 ∷ []) (omega arith) refl
