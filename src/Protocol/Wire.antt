-- ===== src/Protocol/Wire.antt =====
-- `encode_frame` and the decoders of src/session/protocol.rs undo each other.
use rustmux.Base.{
  suc, Bool-cases, ap, drop, if_false, inl, inr, length, length-append, ltb, refl, some, sym, take,
  ◌+◌, ◌∙◌, List, arith, ℕ, ◌%◌, ◌++◌, ◌<◌, ◌^◌, ◌∷◌, ◌≡◌, ◌≤◌, [],
}
use mathlib.Core.Path.{subst, subst₂}
use rustmux.Base.Result.{>>=-eq-ok, ok-injective, Result, ok, ◌>>=◌}
use rustmux.Protocol.Codec.{from_be, Bytes, Frame, ProtocolError, encode_frame, be16, be32}
use rustmux.Protocol.Frames.{first_frame, frame_payload_length, push, Taken}
use rustmux.Protocol.Draining.{short, frame, Drains}
use rustmux.Protocol.Chunks.{append_assoc, push-of-Drains}
use rustmux.Protocol.Pushing.{append-nil}

-- Frames written one after the other.
unfoldable pub stream : List Frame → Result ProtocolError Bytes
unfolding encode_frame
stream [] = ok []
stream (f ∷ fs) = encode_frame f.message f.payload >>= λ b. stream fs >>= λ bs. ok (b ++ bs)

pub from_be-be32 : (n : ℕ) → n ≤ 65536 → from_be (be32 (n % 2 ^ 32)) ≡ n
unfolding be32
from_be-be32 n h = let small : n % 4294967296 ≡ n = omega arith in rw small (omega arith)

pub from_be-be16 : (n : ℕ) → n < 65536 → from_be (be16 n) ≡ n
unfolding be16
from_be-be16 n h = omega arith

take_all {ℓ} : {A : Type ℓ} (xs ys : List A) → take (length xs) (xs ++ ys) ≡ xs
take_all [] ys = refl
take_all (x ∷ xs) ys = ap (λ l. x ∷ l) (take_all xs ys)

drop_all {ℓ} : {A : Type ℓ} (xs ys : List A) → drop (length xs) (xs ++ ys) ≡ ys
drop_all [] ys = refl
drop_all (x ∷ xs) ys = drop_all xs ys

add_header : (n : ℕ) → 5 + n ≡ suc (suc (suc (suc (suc n))))
add_header n = omega arith

-- A frame at the front of a buffer is drained first.
frame_front :
    (f : Frame) (rest : Bytes) (fs : List Frame) (t : Taken)
    → length f.payload ≤ 65536
    → Drains rest (fs ++ f ∷ []) t
    → Drains (f.message ∷ ((be32 (length f.payload % 2 ^ 32) ++ f.payload) ++ rest)) fs t
unfolding be32
frame_front f rest fs t h d =
    let n = length f.payload in
    let buffer = f.message ∷ ((be32 (n % 2 ^ 32) ++ f.payload) ++ rest) in
    let size : frame_payload_length buffer ≡ n = from_be-be32 n h in
    let long = length-append {0} f.payload rest in
    let cut : drop (5 + frame_payload_length buffer) buffer ≡ rest =
      rw size (rw (add_header n) (drop_all f.payload rest)) in
    let body : take (frame_payload_length buffer) (f.payload ++ rest) ≡ f.payload =
      rw size (take_all f.payload rest) in
    let first : first_frame buffer ≡ f =
      ap (λ (l : Bytes). let g : Frame = record { message = f.message; payload = l } in g) body in
    frame (omega arith) (omega (arith, size)) (omega (arith, size, long))
      (subst₂ (λ b g. Drains b (fs ++ g ∷ []) t) (sym cut) (sym first) d)

pub encode_frame-Drains :
    (f : Frame) (b rest : Bytes) (fs : List Frame) (t : Taken)
    → encode_frame f.message f.payload ≡ ok b
    → Drains rest (fs ++ f ∷ []) t
    → Drains (b ++ rest) fs t
unfolding encode_frame
encode_frame-Drains f b rest fs t e d = elim (Bool-cases (ltb 65536 (length f.payload))) [
  | inl big ↦ absurd (cc)
  | inr fits ↦
      let same = ok-injective (sym (if_false _ _ fits) ∙ e) in
      subst (λ c. Drains (c ++ rest) fs t) same (frame_front f rest fs t (ground arith) d)
]

pub stream-Drains :
    (frames : List Frame) (bytes : Bytes) (fs : List Frame)
    → stream frames ≡ ok bytes
    → Drains bytes fs ([], ok (fs ++ frames))
unfolding stream
stream-Drains [] bytes fs e =
    subst₂ (λ b gs. Drains b fs ([], ok gs)) (ok-injective e) (sym (append-nil fs))
      (short (omega arith) refl)
stream-Drains (f ∷ frames) bytes fs e =
    let (b, h, k) = >>=-eq-ok (encode_frame f.message f.payload) _ e in
    let (bs, h', k') = >>=-eq-ok (stream frames) _ k in
    let d = stream-Drains frames bs (fs ++ f ∷ []) h' in
    let all_of = append_assoc fs (f ∷ []) frames in
    subst (λ c. Drains c fs ([], ok (fs ++ f ∷ frames))) (ok-injective k')
      (encode_frame-Drains f b bs fs ([], ok (fs ++ f ∷ frames)) h
        (subst (λ gs. Drains bs (fs ++ f ∷ []) ([], ok gs)) all_of d))

-- Frames that `encode_frame` wrote one after the other come back from `push`, all and in order,
-- and nothing is left in the buffer.
pub push-stream :
    (frames : List Frame) (bytes : Bytes)
    → stream frames ≡ ok bytes
    → push [] bytes ≡ some ([], ok frames)
push-stream frames bytes e =
    push-of-Drains [] bytes (inl (omega arith)) (stream-Drains frames bytes [] e)
