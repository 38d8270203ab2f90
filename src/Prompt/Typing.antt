-- ===== src/Prompt/Typing.antt =====
-- A character typed at an idle prompt of src/prompt.rs, byte by byte.
use rustmux.Prompt.Text.{
  len_utf8, bytes_of, first_char, is_control, from_utf8, complete, incomplete,
}
use rustmux.Base.{
  ap₂, if_cases, sym, [], ap, arith, false, if◌then◌else◌, leb, ltb, not, refl, true, ◌%◌, ◌&&◌,
  ◌*◌, ◌++◌, ◌+◌, ◌/◌, ◌<◌, ◌==◌, ◌||◌, ◌∙◌, ◌∷◌, ◌≡◌, ◌≤◌, List, Bool, ℕ,
}
use rustmux.Prompt.Editor.{append, take_utf8, is_command, feed_utf8, feed, WindowPrompt}
use rustmux.Prompt.Bounds.{fed}

-- The UTF-8 bytes of a scalar.
unfoldable pub utf8_bytes : ℕ → List ℕ
utf8_bytes c =
    if ltb c 128
    then c ∷ []
    else if ltb c 2048
    then (192 + c / 64) ∷ (128 + c % 64) ∷ []
    else if ltb c 65536
    then (224 + c / 4096) ∷ (128 + c / 64 % 64) ∷ (128 + c % 64) ∷ []
    else (240 + c / 262144) ∷ (128 + c / 4096 % 64) ∷ (128 + c / 64 % 64) ∷ (128 + c % 64) ∷ []

-- Scalar values leave out the surrogates.
abbrev pub is_scalar : ℕ → Bool
is_scalar c = ltb c 55296 || ltb 57343 c && ltb c 1114112

-- No escape sequence, with the bytes of a scalar read so far.
abbrev reading : WindowPrompt → List ℕ → WindowPrompt
reading p bytes = record p { escape = []; utf8 = bytes }

abbrev written : WindowPrompt → ℕ → WindowPrompt
written p c = record p { escape = []; utf8 = []; text = p.text ++ c ∷ [] }

feed_high :
    (p : WindowPrompt) (bytes : List ℕ) (byte now : ℕ)
    → 128 ≤ byte
    → (feed (reading p bytes) byte now).0 ≡ feed_utf8 (reading p bytes) byte
unfolding feed
feed_high p bytes byte now h = rw (not_escape, not_command, not_control, not_ascii) refl
  where
    not_escape : (byte == 27) ≡ false
    not_escape = ground arith

    not_command : (not p.paste && is_command byte) ≡ false
    not_command = ground arith

    not_control : (ltb byte 32 || byte == 127) ≡ false
    not_control = ground arith

    not_ascii : ltb byte 128 ≡ false
    not_ascii = ground arith

feed_more :
    (p : WindowPrompt) (bytes : List ℕ) (byte now : ℕ)
    → 128 ≤ byte
    → from_utf8 (bytes ++ byte ∷ []) ≡ incomplete
    → (feed (reading p bytes) byte now).0 ≡ reading p (bytes ++ byte ∷ [])
unfolding feed_utf8
feed_more p bytes byte now h e =
    feed_high p bytes byte now h ∙ ap (λ c. take_utf8 c (reading p bytes) (bytes ++ byte ∷ [])) e

append_room :
    (p : WindowPrompt) (c : ℕ)
    → is_control c ≡ false
    → bytes_of p.text + len_utf8 c ≤ 128
    → append (reading p []) c ≡ written p c
unfolding append
append_room p c visible room = rw (visible, fits) refl
  where
    fits : leb (bytes_of p.text + len_utf8 c) 128 ≡ true
    fits = ground arith

feed_whole :
    (p : WindowPrompt) (bytes : List ℕ) (byte now c : ℕ)
    → 128 ≤ byte
    → from_utf8 (bytes ++ byte ∷ []) ≡ complete
    → first_char (bytes ++ byte ∷ []) ≡ c
    → is_control c ≡ false
    → bytes_of p.text + len_utf8 c ≤ 128
    → (feed (reading p bytes) byte now).0 ≡ written p c
unfolding feed_utf8
feed_whole p bytes byte now c h e first visible room =
    feed_high p bytes byte now h
    ∙ ap (λ k. take_utf8 k (reading p bytes) (bytes ++ byte ∷ [])) e
    ∙ ap (append (reading p [])) first
    ∙ append_room p c visible room

feed_ascii :
    (p : WindowPrompt) (c now : ℕ)
    → c < 128
    → is_control c ≡ false
    → bytes_of p.text + 1 ≤ 128
    → (feed (reading p []) c now).0 ≡ written p c
unfolding feed
feed_ascii p c now small visible room = taken ∙ append_room p c visible (ground arith)
  where
    not_escape : (c == 27) ≡ false
    not_escape = ground arith

    not_command : (not p.paste && is_command c) ≡ false
    not_command = ground arith

    visible_byte : (ltb c 32 || c == 127) ≡ false
    visible_byte = ground arith

    ascii : ltb c 128 ≡ true
    ascii = ground arith

    taken : (feed (reading p []) c now).0 ≡ append (reading p []) c
    taken = rw (not_escape, not_command, visible_byte, ascii) refl

two_bytes :
    (h l : ℕ)
    → 2 ≤ h
    → h < 32
    → l < 64
    → (from_utf8 ((192 + h) ∷ []) ≡ incomplete)
      × (from_utf8 ((192 + h) ∷ (128 + l) ∷ []) ≡ complete)
      × (first_char ((192 + h) ∷ (128 + l) ∷ []) ≡ h * 64 + l)
unfolding from_utf8
two_bytes h l p q r = (ground arith, ground arith, ground arith)

three_bytes :
    (h m l : ℕ)
    → h < 16
    → m < 64
    → l < 64
    → 2048 ≤ h * 4096 + m * 64 + l
    → is_scalar (h * 4096 + m * 64 + l) ≡ true
    → (from_utf8 ((224 + h) ∷ []) ≡ incomplete)
      × (from_utf8 ((224 + h) ∷ (128 + m) ∷ []) ≡ incomplete)
      × (from_utf8 ((224 + h) ∷ (128 + m) ∷ (128 + l) ∷ []) ≡ complete)
      × (first_char ((224 + h) ∷ (128 + m) ∷ (128 + l) ∷ []) ≡ h * 4096 + m * 64 + l)
unfolding from_utf8
three_bytes h m l p q r big scalar = (ground arith, ground arith, ground arith, ground arith)

four_bytes :
    (h n m l : ℕ)
    → n < 64
    → m < 64
    → l < 64
    → 65536 ≤ h * 262144 + n * 4096 + m * 64 + l
    → h * 262144 + n * 4096 + m * 64 + l < 1114112
    → (from_utf8 ((240 + h) ∷ []) ≡ incomplete)
      × (from_utf8 ((240 + h) ∷ (128 + n) ∷ []) ≡ incomplete)
      × (from_utf8 ((240 + h) ∷ (128 + n) ∷ (128 + m) ∷ []) ≡ incomplete)
      × (from_utf8 ((240 + h) ∷ (128 + n) ∷ (128 + m) ∷ (128 + l) ∷ []) ≡ complete)
      × (first_char ((240 + h) ∷ (128 + n) ∷ (128 + m) ∷ (128 + l) ∷ [])
          ≡ h * 262144 + n * 4096 + m * 64 + l)
unfolding from_utf8
four_bytes h n m l p q r big small =
    (ground arith, ground arith, ground arith, ground arith, ground arith)

-- The bytes with the time at which all of them come.
abbrev pub at_time : ℕ → List ℕ → List (ℕ × ℕ)
at_time now [] = []
at_time now (byte ∷ bytes) = (byte, now) ∷ at_time now bytes

typed :
    (p : WindowPrompt) (c now : ℕ)
    → is_scalar c ≡ true
    → is_control c ≡ false
    → bytes_of p.text + len_utf8 c ≤ 128
    → fed (reading p []) (at_time now (utf8_bytes c)) ≡ written p c
unfolding utf8_bytes
typed p c now scalar visible room =
    if_cases Writes (ltb c 128)
      (λ one. feed_ascii p c now (ground (arith, one)) visible (ground (arith, one)))
      (λ over.
        if_cases Writes (ltb c 2048) (λ h. two (ground (arith, over)) (ground (arith, h)))
          (λ h.
            if_cases Writes (ltb c 65536) (λ k. three (ground (arith, h)) (ground (arith, k)))
              (λ k. four (ground (arith, k)))))
  where
    Writes : List ℕ → Type 0
    Writes bytes = fed (reading p []) (at_time now bytes) ≡ written p c

    two : 128 ≤ c → c < 2048 → Writes ((192 + c / 64) ∷ (128 + c % 64) ∷ [])
    two big small =
        let (start, end, value) =
          two_bytes (c / 64) (c % 64) (omega arith) (omega arith) (omega arith) in
        ap (λ q. (feed q (128 + c % 64) now).0)
          (feed_more p [] (192 + c / 64) now (omega arith) start)
        ∙ feed_whole p ((192 + c / 64) ∷ []) (128 + c % 64) now c (omega arith) end
            (value ∙ omega arith) visible room

    three :
        2048 ≤ c → c < 65536 → Writes ((224 + c / 4096) ∷ (128 + c / 64 % 64) ∷ (128 + c % 64) ∷ [])
    three big small =
        let sum : c / 4096 * 4096 + c / 64 % 64 * 64 + c % 64 ≡ c = omega arith in
        let (start, middle, end, value) =
          three_bytes (c / 4096) (c / 64 % 64) (c % 64) (omega arith) (omega arith) (omega arith)
            (rw sum big) (rw sum scalar) in
        ap (λ q. (feed (feed q (128 + c / 64 % 64) now).0 (128 + c % 64) now).0)
          (feed_more p [] (224 + c / 4096) now (omega arith) start)
        ∙ ap (λ q. (feed q (128 + c % 64) now).0)
            (feed_more p ((224 + c / 4096) ∷ []) (128 + c / 64 % 64) now (omega arith) middle)
        ∙ feed_whole p ((224 + c / 4096) ∷ (128 + c / 64 % 64) ∷ []) (128 + c % 64) now c
            (omega arith) end (value ∙ sum) visible room

    four :
        65536 ≤ c
        → Writes
            ((240 + c / 262144) ∷ (128 + c / 4096 % 64) ∷ (128 + c / 64 % 64) ∷ (128 + c % 64) ∷ [])
    four big =
        let sum : c / 262144 * 262144 + c / 4096 % 64 * 4096 + c / 64 % 64 * 64 + c % 64 ≡ c =
          omega arith in
        let (start, next, middle, end, value) =
          four_bytes (c / 262144) (c / 4096 % 64) (c / 64 % 64) (c % 64) (omega arith) (omega arith)
            (omega arith) (rw sum big) (rw sum (ground (arith, scalar))) in
        ap
          (λ q.
            (feed (feed (feed q (128 + c / 4096 % 64) now).0 (128 + c / 64 % 64) now).0
              (128 + c % 64) now).0)
          (feed_more p [] (240 + c / 262144) now (omega arith) start)
        ∙ ap (λ q. (feed (feed q (128 + c / 64 % 64) now).0 (128 + c % 64) now).0)
            (feed_more p ((240 + c / 262144) ∷ []) (128 + c / 4096 % 64) now (omega arith) next)
        ∙ ap (λ q. (feed q (128 + c % 64) now).0)
            (feed_more p ((240 + c / 262144) ∷ (128 + c / 4096 % 64) ∷ []) (128 + c / 64 % 64) now
              (omega arith) middle)
        ∙ feed_whole p ((240 + c / 262144) ∷ (128 + c / 4096 % 64) ∷ (128 + c / 64 % 64) ∷ [])
            (128 + c % 64) now c (omega arith) end (value ∙ sum) visible room

-- The UTF-8 bytes of a scalar that is no control character, typed or pasted at a prompt which reads no escape
-- sequence and no other scalar, put it at the end of the text if there is room for it, and change nothing else.
pub fed-utf8_bytes :
    (p : WindowPrompt) (c now : ℕ)
    → p.escape ≡ []
    → p.utf8 ≡ []
    → is_scalar c ≡ true
    → is_control c ≡ false
    → bytes_of p.text + len_utf8 c ≤ 128
    → fed p (at_time now (utf8_bytes c)) ≡ record p { text = p.text ++ c ∷ [] }
fed-utf8_bytes p c now idle settled scalar visible room =
    ap₂ (λ e u. fed (record p { escape = e; utf8 = u }) (at_time now (utf8_bytes c))) idle settled
    ∙ typed p c now scalar visible room
    ∙ ap₂ (λ e u. record p { escape = e; utf8 = u; text = p.text ++ c ∷ [] }) (sym idle)
        (sym settled)
