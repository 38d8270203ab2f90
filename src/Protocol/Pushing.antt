-- ===== src/Protocol/Pushing.antt =====
-- `FrameDecoder::push` of src/session/protocol.rs drains the bytes that were left followed by the
-- new ones, whatever the pieces it copies them in.
use rustmux.Base.{
  Option, Bool-cases, List, [], ap, arith, drop, false, inl, inr, length, ltb, min, refl, some, suc,
  sym, take, zero, ℕ, ◌++◌, ◌+◌, ◌-◌, ◌<◌, ◌==◌, ◌∷◌, ◌≡◌, ◌≤◌, ◌⊎◌,
}
use mathlib.Core.Path.{subst}
use rustmux.Base.{[]}
use rustmux.Base.Result.{ok, err}
use rustmux.Protocol.Codec.{Bytes, Frame}
use rustmux.Protocol.Frames.{Taken, push_bytes, push, frame_payload_length, then_push}
use rustmux.Protocol.Draining.{
  Drains-append_err, Drains-append, take_complete-Drains, length-drop, taken-injective, short,
  large, partial, frame, Drains,
}

-- A buffer that holds no whole frame, and whose header, if it has one, is within the limit.
abbrev pub Settled : Bytes → Type 0
Settled p =
    (length p < 5) ⊎ ((frame_payload_length p ≤ 65536) × (length p < 5 + frame_payload_length p))

pub Settled-bound : (p : Bytes) → Settled p → length p ≤ 65540
Settled-bound p (inl h) = omega arith
Settled-bound p (inr h) = omega (arith, h.0, h.1)

pub Drains-Settled :
    {p q : Bytes} {fs gs : List Frame} {u : Taken} → Drains p fs u → u ≡ (q, ok gs) → Settled q
Drains-Settled (short h e) z = subst Settled (taken-injective e z).0 (inl h)
Drains-Settled (large h k e) z = absurd (cc)
Drains-Settled (partial h k l e) z = subst Settled (taken-injective e z).0 (inr (k, l))
Drains-Settled (frame h k l d) z = Drains-Settled d z

pub Settled-Drains : (p : Bytes) (fs : List Frame) → Settled p → Drains p fs (p, ok fs)
Settled-Drains p fs (inl h) = short h refl
Settled-Drains p fs (inr h) = elim (Bool-cases (ltb (length p) 5)) [
  | inl few ↦ short (ground arith) refl
  | inr header ↦ partial (ground arith) h.0 h.1 refl
]

pub append-nil {ℓ} : {A : Type ℓ} (xs : List A) → xs ++ [] ≡ xs
append-nil [] = refl
append-nil (x ∷ xs) = ap (λ l. x ∷ l) (append-nil xs)

take-drop {ℓ} : {A : Type ℓ} (n : ℕ) (ps xs : List A) → (ps ++ take n xs) ++ drop n xs ≡ ps ++ xs
take-drop zero [] xs = refl
take-drop (suc n) [] [] = refl
take-drop (suc n) [] (x ∷ xs) = ap (λ l. x ∷ l) (take-drop n [] xs)
take-drop n (p ∷ ps) xs = ap (λ l. p ∷ l) (take-drop n ps xs)

push_after :
    (filled more : Bytes) {fs : List Frame} (u : Taken)
    → Drains filled fs u
    → (k : Bytes → List Frame → Option Taken)
    → ((q : Bytes) (gs : List Frame)
        → Settled q
        → (t : Taken) × (k q gs ≡ some t) × Drains (q ++ more) gs t)
    → (t : Taken) × (then_push k (some u) ≡ some t) × Drains (filled ++ more) fs t
push_after filled more (q, ok gs) d k step =
    let (t, e, d') = step q gs (Drains-Settled d refl) in (t, e, Drains-append more d refl d')
push_after filled more (q, err x) d k step = ((q, err x), refl, Drains-append_err more d refl)

pub push_bytes-Drains :
    (fuel : ℕ) (bytes pending : Bytes) (fs : List Frame)
    → length bytes ≤ fuel
    → Settled pending
    → (t : Taken) × (push_bytes fuel bytes pending fs ≡ some t) × Drains (pending ++ bytes) fs t
unfolding push_bytes
push_bytes-Drains fuel [] pending fs h s = (
  (pending, ok fs),
  refl,
  subst (λ p. Drains p fs (pending, ok fs)) (sym (append-nil pending))
      (Settled-Drains pending fs s),
)
push_bytes-Drains zero (b ∷ bs) pending fs h s = absurd (omega arith)
push_bytes-Drains (suc fuel) (b ∷ bs) pending fs h s =
    let bound = Settled-bound pending s in
    let available = 65541 - length pending in
    let room : (available == 0) ≡ false = ground arith in
    let count = min available (length (b ∷ bs)) in
    let filled = pending ++ take count (b ∷ bs) in
    let rest_bytes = drop count (b ∷ bs) in
    let fewer : length rest_bytes ≤ fuel = ground (arith, length-drop count (b ∷ bs)) in
    let joined = take-drop count pending (b ∷ bs) in
    let (u, e, d) = take_complete-Drains (suc (length filled)) filled fs (omega arith) in
    let (t, e', d') =
      push_after filled rest_bytes u d (λ q gs. push_bytes fuel rest_bytes q gs)
        (λ q gs settled. push_bytes-Drains fuel rest_bytes q gs fewer settled) in
    (t, rw (room, e) e', subst (λ p. Drains p fs t) joined d')

-- From a buffer that an earlier call left, `push` ends, and drains that buffer followed by the bytes.
pub push-Drains :
    (pending bytes : Bytes)
    → Settled pending
    → (t : Taken) × (push pending bytes ≡ some t) × Drains (pending ++ bytes) [] t
unfolding push
push-Drains pending bytes s = push_bytes-Drains (length bytes) bytes pending [] (omega arith) s
