-- ===== src/Protocol/Draining.antt =====
-- What `take_complete` does to a buffer, as a relation: the frames at the front of the buffer are
-- taken one by one until it holds no whole frame, or a header announces too much.
use mathlib.Core.Path.{subst₂}
use rustmux.Base.{
  ap₂, length-append, Bool-cases, [], ap, arith, drop, inl, inr, length, ltb, refl, some, suc, sym,
  take, zero, ◌++◌, ◌+◌, ◌-◌, ◌<◌, ◌∙◌, ◌∷◌, ◌≡◌, ◌≤◌, ℕ, List,
}
use rustmux.Base.Result.{ok-injective, ok, err}
use rustmux.Protocol.Codec.{Bytes, Frame, ProtocolError, frame_too_large}
use rustmux.Protocol.Frames.{Taken, take_complete, frame_payload_length, first_frame}

pub data Drains : Bytes → List Frame → Taken → Type 0 where
  short : {p : Bytes} {fs : List Frame} {t : Taken} → length p < 5 → t ≡ (p, ok fs) → Drains p fs t
  large :
      {p : Bytes} {fs : List Frame} {t : Taken}
      → 5 ≤ length p
      → 65536 < frame_payload_length p
      → t ≡ ([], err (frame_too_large (frame_payload_length p)))
      → Drains p fs t
  partial :
      {p : Bytes} {fs : List Frame} {t : Taken}
      → 5 ≤ length p
      → frame_payload_length p ≤ 65536
      → length p < 5 + frame_payload_length p
      → t ≡ (p, ok fs)
      → Drains p fs t
  frame :
      {p : Bytes} {fs : List Frame} {t : Taken}
      → 5 ≤ length p
      → frame_payload_length p ≤ 65536
      → 5 + frame_payload_length p ≤ length p
      → Drains (drop (5 + frame_payload_length p) p) (fs ++ first_frame p ∷ []) t
      → Drains p fs t

pub length-drop {ℓ} : {A : Type ℓ} (n : ℕ) (xs : List A) → length (drop n xs) ≡ length xs - n
length-drop zero xs = omega arith
length-drop (suc n) [] = omega arith
length-drop (suc n) (x ∷ xs) = omega (arith, length-drop n xs)

-- With fuel beyond the length of the buffer the loop ends, as the relation says.
pub take_complete-Drains :
    (fuel : ℕ) (p : Bytes) (fs : List Frame)
    → length p < fuel
    → (t : Taken) × (take_complete fuel p fs ≡ some t) × Drains p fs t
unfolding take_complete
take_complete-Drains zero p fs h = absurd (omega arith)
take_complete-Drains (suc fuel) p fs h = elim (Bool-cases (ltb (length p) 5)) [
  | inl few ↦ ((p, ok fs), rw few, short (ground arith) refl)
  | inr header ↦ elim (Bool-cases (ltb 65536 (frame_payload_length p))) [
    | inl big ↦ (
      ([], err (frame_too_large (frame_payload_length p))),
      rw (header, big),
      large (ground arith) (ground arith) refl,
    )
    | inr fair ↦ elim (Bool-cases (ltb (length p) (5 + frame_payload_length p))) [
      | inl some_left ↦ (
        (p, ok fs),
        rw (header, fair, some_left),
        partial (ground arith) (ground arith) (ground arith) refl,
      )
      | inr whole ↦
          let len = frame_payload_length p in
          let (t, e, d) =
            take_complete-Drains fuel (drop (5 + len) p) (fs ++ first_frame p ∷ [])
              (ground (arith, length-drop (5 + len) p)) in
          (t, rw (header, fair, whole) e, frame (ground arith) (ground arith) (ground arith) d)
    ]
  ]
]

-- The relation is a function.
pub Drains_unique :
    {p : Bytes} {fs : List Frame} {t u : Taken} → Drains p fs t → Drains p fs u → t ≡ u
Drains_unique (short h e) (short h' e') = e ∙ sym e'
Drains_unique (short h e) (large h' k' e') = absurd (omega arith)
Drains_unique (short h e) (partial h' k' l' e') = e ∙ sym e'
Drains_unique (short h e) (frame h' k' l' d) = absurd (omega arith)
Drains_unique (large h k e) (short h' e') = absurd (omega arith)
Drains_unique (large h k e) (large h' k' e') = e ∙ sym e'
Drains_unique (large h k e) (partial h' k' l' e') = absurd (omega arith)
Drains_unique (large h k e) (frame h' k' l' d) = absurd (omega arith)
Drains_unique (partial h k l e) (short h' e') = e ∙ sym e'
Drains_unique (partial h k l e) (large h' k' e') = absurd (omega arith)
Drains_unique (partial h k l e) (partial h' k' l' e') = e ∙ sym e'
Drains_unique (partial h k l e) (frame h' k' l' d) = absurd (omega arith)
Drains_unique (frame h k l c) (short h' e') = absurd (omega arith)
Drains_unique (frame h k l c) (large h' k' e') = absurd (omega arith)
Drains_unique (frame h k l c) (partial h' k' l' e') = absurd (omega arith)
Drains_unique (frame h k l c) (frame h' k' l' d) = Drains_unique c d

-- A header in the buffer is not changed by more bytes behind it.
pub drop-append {ℓ} :
    {A : Type ℓ} (n : ℕ) (xs ys : List A) → n ≤ length xs → drop n (xs ++ ys) ≡ drop n xs ++ ys
drop-append zero xs ys h = refl
drop-append (suc n) [] ys h = absurd (omega arith)
drop-append (suc n) (x ∷ xs) ys h = drop-append n xs ys (omega arith)

pub take-append {ℓ} :
    {A : Type ℓ} (n : ℕ) (xs ys : List A) → n ≤ length xs → take n (xs ++ ys) ≡ take n xs
take-append zero xs ys h = refl
take-append (suc n) [] ys h = absurd (omega arith)
take-append (suc n) (x ∷ xs) ys h = ap (λ l. x ∷ l) (take-append n xs ys (omega arith))

header-append :
    (p more : Bytes) → 5 ≤ length p → frame_payload_length (p ++ more) ≡ frame_payload_length p
header-append p more h =
    rw (drop-append 1 p more (omega arith))
      (rw (take-append 4 (drop 1 p) more (omega (arith, length-drop 1 p))))

first_frame-append :
    (p more : Bytes)
    → 5 ≤ length p
    → 5 + frame_payload_length p ≤ length p
    → first_frame (p ++ more) ≡ first_frame p
first_frame-append [] more h k = absurd (omega arith)
first_frame-append (b ∷ p) more h k =
    let len = frame_payload_length (b ∷ p) in
    let same = header-append (b ∷ p) more h in
    let body = drop-append 5 (b ∷ p) more h in
    let cut = take-append len (drop 5 (b ∷ p)) more (omega (arith, length-drop 5 (b ∷ p))) in
    let whole : take (frame_payload_length ((b ∷ p) ++ more)) (drop 5 ((b ∷ p) ++ more))
        ≡ take len (drop 5 (b ∷ p)) =
      ap₂ take same body ∙ cut in
    ap (λ (l : Bytes). let f : Frame = record { message = b; payload = l } in f) whole

drop_whole :
    (p more : Bytes)
    → 5 ≤ length p
    → 5 + frame_payload_length p ≤ length p
    → drop (5 + frame_payload_length (p ++ more)) (p ++ more)
      ≡ drop (5 + frame_payload_length p) p ++ more
drop_whole p more h k =
    rw (header-append p more h) (drop-append (5 + frame_payload_length p) p more k)

frame-append :
    (p more : Bytes) (fs : List Frame) (t : Taken)
    → 5 ≤ length p
    → frame_payload_length p ≤ 65536
    → 5 + frame_payload_length p ≤ length p
    → Drains (drop (5 + frame_payload_length p) p ++ more) (fs ++ first_frame p ∷ []) t
    → Drains (p ++ more) fs t
frame-append p more fs t h k l d =
    let len = length-append {0} p more in
    let same = header-append p more h in
    frame (omega (arith, len)) (omega (arith, same)) (omega (arith, same, len)) (
      subst₂ (λ b f. Drains b (fs ++ f ∷ []) t) (sym (drop_whole p more h l))
        (sym (first_frame-append p more h l)) d)

pub taken-injective :
    {p q : Bytes} {fs gs : List Frame} {u : Taken}
    → u ≡ (p, ok fs)
    → u ≡ (q, ok gs)
    → (p ≡ q) × (fs ≡ gs)
taken-injective e z =
    let same = sym e ∙ z in (ap (λ t. t.0) same, ok-injective (ap (λ t. t.1) same))

-- What is left when a buffer is drained can be drained with the bytes that come next.
pub Drains-append :
    {p q : Bytes} {fs gs : List Frame} {t u : Taken} (more : Bytes)
    → Drains p fs u
    → u ≡ (q, ok gs)
    → Drains (q ++ more) gs t
    → Drains (p ++ more) fs t
Drains-append {t = t} more (short {p} {fs} h e) z d =
    let (s, s') = taken-injective e z in subst₂ (λ b gs. Drains (b ++ more) gs t) (sym s) (sym s') d
Drains-append more (large h k e) z d = absurd (cc)
Drains-append {t = t} more (partial {p} {fs} h k l e) z d =
    let (s, s') = taken-injective e z in subst₂ (λ b gs. Drains (b ++ more) gs t) (sym s) (sym s') d
Drains-append {t = t} more (frame {p} {fs} h k l c) z d =
    frame-append p more fs t h k l (Drains-append more c z d)

-- An announced length beyond the limit stays an error, whatever follows.
pub Drains-append_err :
    {p q : Bytes} {fs : List Frame} {x : ProtocolError} {u : Taken} (more : Bytes)
    → Drains p fs u
    → u ≡ (q, err x)
    → Drains (p ++ more) fs u
Drains-append_err more (short h e) z = absurd (cc)
Drains-append_err more (large {p} h k e) z =
    let same = header-append p more h in
    large (omega (arith, length-append {0} p more)) (omega (arith, same)) (e ∙ rw same)
Drains-append_err more (partial h k l e) z = absurd (cc)
Drains-append_err {u = u} more (frame {p} {fs} h k l c) z =
    frame-append p more fs u h k l (Drains-append_err more c z)
