-- ===== src/Protocol/Chunks.antt =====
-- `FrameDecoder::push` of src/session/protocol.rs does not depend on how a stream is cut.
use mathlib.Core.Path.{subst}
use rustmux.Base.{
  some-injective, List, Option, ap, drop, length, refl, some, sym, ◌++◌, ◌+◌, ◌∙◌, ◌∷◌, ◌≡◌, ◌≤◌,
  [],
}
use rustmux.Base.Result.{ok, err}
use rustmux.Protocol.Codec.{Bytes, Frame}
use rustmux.Protocol.Frames.{then_push, first_frame, frame_payload_length, Taken, push}
use rustmux.Protocol.Draining.{
  Drains-append_err, Drains-append, Drains_unique, short, large, partial, frame, Drains,
}
use rustmux.Protocol.Pushing.{
  Settled-Drains, append-nil, Settled-bound, Drains-Settled, push-Drains, Settled,
}

-- The same outcome with frames that were found before.
abbrev pub onto : List Frame → Taken → Taken
onto ks (p, ok fs) = (p, ok (ks ++ fs))
onto ks (p, err x) = (p, err x)

pub append_assoc {ℓ} : {A : Type ℓ} (xs ys zs : List A) → (xs ++ ys) ++ zs ≡ xs ++ (ys ++ zs)
append_assoc [] ys zs = refl
append_assoc (x ∷ xs) ys zs = ap (λ l. x ∷ l) (append_assoc xs ys zs)

pub Drains-onto :
    {p : Bytes} {fs : List Frame} {t : Taken} (ks : List Frame)
    → Drains p fs t
    → Drains p (ks ++ fs) (onto ks t)
Drains-onto ks (short h e) = short h (ap (onto ks) e)
Drains-onto ks (large h k e) = large h k (ap (onto ks) e)
Drains-onto ks (partial h k l e) = partial h k l (ap (onto ks) e)
Drains-onto {t = t} ks (frame {p} {fs} h k l d) = frame h k l (
    subst (λ gs. Drains (drop (5 + frame_payload_length p) p) gs (onto ks t))
      (sym (append_assoc ks fs (first_frame p ∷ []))) (Drains-onto ks d))

pub Drains-push :
    (p bytes : Bytes) {t : Taken} → Settled p → push p bytes ≡ some t → Drains (p ++ bytes) [] t
Drains-push p bytes s e =
    let (u, e', d) = push-Drains p bytes s in
    subst (Drains (p ++ bytes) []) (some-injective (sym e' ∙ e)) d

pub push-of-Drains :
    (p bytes : Bytes) {t : Taken} → Settled p → Drains (p ++ bytes) [] t → push p bytes ≡ some t
push-of-Drains p bytes s d =
    let (u, e, c) = push-Drains p bytes s in e ∙ ap some (Drains_unique c d)

-- A buffer that a successful `push` leaves is settled, and at most 65540 bytes long.
pub push-Settled :
    (p bytes : Bytes) {q : Bytes} {gs : List Frame}
    → Settled p
    → push p bytes ≡ some (q, ok gs)
    → Settled q × (length q ≤ 65540)
push-Settled p bytes {q} s e =
    let settled = Drains-Settled (Drains-push p bytes s e) refl in
    (settled, Settled-bound q settled)

-- A connection's reads, one `push` after the other, until one fails.
unfoldable pub feed : Bytes → List Frame → List Bytes → Option Taken
unfolding push
feed pending frames [] = some (pending, ok frames)
feed pending frames (c ∷ cs) = then_push (λ q gs. feed q (frames ++ gs) cs) (push pending c)

abbrev pub concat : List Bytes → Bytes
concat [] = []
concat (c ∷ cs) = c ++ concat cs

feed_after :
    (p c more : Bytes) (fs : List Frame) (u : Taken) (cs : List Bytes)
    → Drains (p ++ c) fs (onto fs u)
    → Settled p
    → push p c ≡ some u
    → ((q : Bytes) (gs : List Frame)
        → Settled q
        → (t : Taken) × (feed q gs cs ≡ some t) × Drains (q ++ more) gs t)
    → (t : Taken) × (feed p fs (c ∷ cs) ≡ some t) × Drains ((p ++ c) ++ more) fs t
unfolding feed
feed_after p c more fs (q, ok gs) cs d s e step =
    let (t, e', d') = step q (fs ++ gs) (Drains-Settled d refl) in
    (t, rw e e', Drains-append more d refl d')
feed_after p c more fs (q, err x) cs d s e step = ((q, err x), rw e, Drains-append_err more d refl)

feed-Drains :
    (p : Bytes) (fs : List Frame) (cs : List Bytes)
    → Settled p
    → (t : Taken) × (feed p fs cs ≡ some t) × Drains (p ++ concat cs) fs t
unfolding feed
feed-Drains p fs [] s = (
  (p, ok fs),
  refl,
  subst (λ b. Drains b fs (p, ok fs)) (sym (append-nil p)) (Settled-Drains p fs s),
)
feed-Drains p fs (c ∷ cs) s =
    let (u, e, d) = push-Drains p c s in
    let d' = subst (λ gs. Drains (p ++ c) gs (onto fs u)) (append-nil fs) (Drains-onto fs d) in
    let (t, e', c') =
      feed_after p c (concat cs) fs u cs d' s e (λ q gs settled. feed-Drains q gs cs settled) in
    (t, e', subst (λ b. Drains b fs t) (append_assoc p c (concat cs)) c')

-- From a buffer that an earlier `push` left, or the empty one, the reads of a connection, whatever
-- their number and lengths, end in the same outcome as one `push` of all their bytes: the same
-- frames or the same error, and the same buffer. Neither runs out of fuel.
pub feed-push :
    (p : Bytes) (cs : List Bytes)
    → Settled p
    → (t : Taken) × (feed p [] cs ≡ some t) × (push p (concat cs) ≡ some t)
feed-push p cs s = let (t, e, d) = feed-Drains p [] cs s in (t, e, push-of-Drains p (concat cs) s d)
