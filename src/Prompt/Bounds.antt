-- ===== src/Prompt/Bounds.antt =====
-- What every prompt of src/prompt.rs holds, whatever the bytes that are typed or pasted.
use rustmux.Base.{
  if_cases, ◌||◌, ◌==◌, ap, length-append, ltb, sym, ◌∙◌, All, Bool-cases, [], arith, false, inl,
  inr, leb, length, not, refl, ◌&&◌, ◌++◌, ◌+◌, ◌<◌, ◌∷◌, ◌≡◌, ◌≤◌, ◌⊎◌, List, ℕ,
}
use rustmux.Prompt.Text.{
  first_char, Checked, within, complete, invalid, lead, checked, broken, more, boundary, incomplete,
  len_utf8, incomplete, after_byte, boundary, more, bytes_of, from_utf8, is_control, after_bytes,
  Expect,
}
use rustmux.Prompt.Editor.{
  PromptKind, is_command, fresh_prompt, feed, take_utf8, EditResult, opens, feed_utf8, feed_command,
  append, max_name_bytes, feed_escape, pop, WindowPrompt,
}
use rustmux.Reflow.Kept.{All-append}

-- The bytes that a scalar still needs.
abbrev pub remaining : Expect → ℕ
remaining boundary = 0
remaining (more n low high) = n
remaining broken = 0

-- The pending bytes are the beginning of one scalar.
pub record Pending (bytes : List ℕ) : Type 0 where
  pub begun : 0 < length bytes → 0 < remaining (after_bytes boundary bytes)
  pub short : length bytes + remaining (after_bytes boundary bytes) ≤ 4

abbrev pub Printable : ℕ → Type 0
Printable scalar = is_control scalar ≡ false

pub record IsValid (p : WindowPrompt) : Type 0 where
  pub bounded : bytes_of p.text ≤ max_name_bytes
  pub printable : All Printable p.text
  pub pending : Pending p.utf8
  pub escape_room : length p.escape < 16

after_bytes-append :
    (e : Expect) (bytes : List ℕ) (byte : ℕ)
    → after_bytes e (bytes ++ byte ∷ []) ≡ after_byte (after_bytes e bytes) byte
after_bytes-append e [] byte = refl
after_bytes-append e (b ∷ bytes) byte = after_bytes-append (after_byte e b) bytes byte

remaining-lead :
    (byte : ℕ)
    → checked (lead byte) ≡ incomplete
    → (0 < remaining (lead byte)) × (remaining (lead byte) ≤ 3)
remaining-lead byte h = ground arith

-- One byte more: a scalar begins, or the one before it needs a byte less.
remaining-after_byte :
    (e : Expect) (byte : ℕ)
    → (e ≡ boundary) ⊎ (0 < remaining e)
    → checked (after_byte e byte) ≡ incomplete
    → (0 < remaining (after_byte e byte))
      × (((remaining e ≡ 0) × (remaining (after_byte e byte) ≤ 3))
          ⊎ (remaining e ≡ remaining (after_byte e byte) + 1))
remaining-after_byte boundary byte k h = elim (Bool-cases (ltb byte 128)) [
  | inl ascii ↦ absurd (ground arith)
  | inr high ↦
      let (some_left, few) = remaining-lead byte (ground arith) in
      rw high (some_left, inl (refl, few))
]
remaining-after_byte (more n low high) byte k h = elim (Bool-cases (within low high byte)) [
  | inl good ↦ elim (Bool-cases (n == 1)) [
    | inl last_one ↦ absurd (ground (arith, good, last_one, h))
    | inr several ↦ elim k [
      | inl e ↦ absurd (cc)
      | inr some_left ↦ rw (good, several) (ground (arith, several), inr (ground (arith, several)))
    ]
  ]
  | inr bad ↦ absurd (ground (arith, bad, h))
]
remaining-after_byte broken byte k h = absurd (cc)

-- Bytes that are still incomplete with one more are pending.
Pending-append :
    (bytes : List ℕ) (byte : ℕ)
    → Pending bytes
    → from_utf8 (bytes ++ byte ∷ []) ≡ incomplete
    → Pending (bytes ++ byte ∷ [])
unfolding from_utf8
Pending-append bytes byte p h =
    let grown = after_bytes-append boundary bytes byte in
    let (left, kind) =
      remaining-after_byte (after_bytes boundary bytes) byte (at_start bytes p)
        (ap checked (sym grown) ∙ h) in
    record {
      begun = λ k. rw grown left;
      short =
          rw grown (ground (arith, length-append bytes (byte ∷ []), p.short, kind, empty bytes p));
    }
  where
    at_start :
        (xs : List ℕ)
        → Pending xs
        → (after_bytes boundary xs ≡ boundary) ⊎ (0 < remaining (after_bytes boundary xs))
    at_start [] q = inl refl
    at_start (x ∷ xs) q = inr (q.begun (omega arith))

    empty : (xs : List ℕ) → Pending xs → remaining (after_bytes boundary xs) ≡ 0 → length xs ≡ 0
    empty [] q e = refl
    empty (x ∷ xs) q e = absurd (omega (arith, q.begun (omega arith)))

bytes_of-append : (xs ys : List ℕ) → bytes_of (xs ++ ys) ≡ bytes_of xs + bytes_of ys
bytes_of-append [] ys = omega arith
bytes_of-append (x ∷ xs) ys = omega (arith, bytes_of-append xs ys)

bytes_of-pop : (xs : List ℕ) → bytes_of (pop xs) ≤ bytes_of xs
bytes_of-pop [] = omega arith
bytes_of-pop (x ∷ []) = omega arith
bytes_of-pop (x ∷ y ∷ xs) = omega (arith, bytes_of-pop (y ∷ xs))

All-pop : (P : ℕ → Type 0) (xs : List ℕ) → All P xs → All P (pop xs)
All-pop P [] h = tt
All-pop P (x ∷ []) h = tt
All-pop P (x ∷ y ∷ xs) h = (h.0, All-pop P (y ∷ xs) h.1)

Pending-nil : Pending []
Pending-nil = record { begun = λ h. absurd (omega arith); short = omega arith }

Pending-short : (bytes : List ℕ) → Pending bytes → length bytes < 4
Pending-short [] p = omega arith
Pending-short (b ∷ bytes) p = omega (arith, p.short, p.begun (omega arith))

append-IsValid : (p : WindowPrompt) (c : ℕ) → IsValid p → IsValid (append p c)
unfolding append
append-IsValid p c v =
    elim (Bool-cases (not (is_control c) && leb (bytes_of p.text + len_utf8 c) max_name_bytes)) [
      | inl fits ↦ rw fits (record {
        bounded = ground (arith, bytes_of-append p.text (c ∷ []));
        printable = All-append Printable p.text (c ∷ []) v.printable (ground arith, tt);
        pending = v.pending;
        escape_room = v.escape_room;
      })
      | inr full ↦ rw full v
    ]

feed_escape-IsValid : (p : WindowPrompt) (byte : ℕ) → IsValid p → IsValid (feed_escape p byte)
unfolding feed_escape
feed_escape-IsValid p byte v =
    if_cases IsValid (n == 2 && opens byte) (λ two. longer (ground (arith, two)))
      (λ later.
        if_cases IsValid (n == 2 && not (opens byte) || ltb 2 n && within 64 126 byte || leb 16 n)
          (λ done. record {
            bounded = v.bounded;
            printable = v.printable;
            pending = v.pending;
            escape_room = omega arith;
          })
          (λ goes_on. longer (ground (arith, goes_on))))
  where
    n : ℕ
    n = length (p.escape ++ byte ∷ [])

    longer :
        length (p.escape ++ byte ∷ []) < 16 → IsValid (record p { escape = p.escape ++ byte ∷ [] })
    longer h = record {
      bounded = v.bounded;
      printable = v.printable;
      pending = v.pending;
      escape_room = h;
    }

abbrev StillValid : WindowPrompt × EditResult → Type 0
StillValid out = IsValid out.0

feed_command-IsValid : (p : WindowPrompt) (byte : ℕ) → IsValid p → IsValid (feed_command p byte).0
unfolding feed_command
feed_command-IsValid p byte v =
    if_cases StillValid (byte == 13 || byte == 10) (λ h. v)
      (λ h.
        if_cases StillValid (byte == 3 || byte == 7) (λ h. v)
          (λ h.
            if_cases StillValid (byte == 8 || byte == 127)
              (λ h. record {
                bounded = omega (arith, v.bounded, bytes_of-pop p.text);
                printable = All-pop Printable p.text v.printable;
                pending = Pending-nil;
                escape_room = v.escape_room;
              })
              (λ h. record {
                bounded = omega arith;
                printable = tt;
                pending = Pending-nil;
                escape_room = v.escape_room;
              })))

clear_utf8 : (p : WindowPrompt) → IsValid p → IsValid (record p { utf8 = [] })
clear_utf8 p v = record {
  bounded = v.bounded;
  printable = v.printable;
  pending = Pending-nil;
  escape_room = v.escape_room;
}

take_utf8-IsValid :
    (c : Checked) (p : WindowPrompt) (bytes : List ℕ)
    → IsValid p
    → (c ≡ incomplete → Pending bytes)
    → IsValid (take_utf8 c p bytes)
take_utf8-IsValid complete p bytes v h =
    append-IsValid (record p { utf8 = [] }) (first_char bytes) (clear_utf8 p v)
take_utf8-IsValid invalid p bytes v h = clear_utf8 p v
take_utf8-IsValid incomplete p bytes v h = record {
  bounded = v.bounded;
  printable = v.printable;
  pending = h refl;
  escape_room = v.escape_room;
}

feed_utf8-IsValid : (p : WindowPrompt) (byte : ℕ) → IsValid p → IsValid (feed_utf8 p byte)
unfolding feed_utf8
feed_utf8-IsValid p byte v =
    take_utf8-IsValid (from_utf8 (p.utf8 ++ byte ∷ [])) p (p.utf8 ++ byte ∷ []) v
      (Pending-append p.utf8 byte v.pending)

feed-IsValid : (p : WindowPrompt) (byte now : ℕ) → IsValid p → IsValid (feed p byte now).0
unfolding feed
feed-IsValid p byte now v =
    if_cases StillValid (not (length p.escape == 0)) (λ h. feed_escape-IsValid p byte v)
      (λ idle.
        if_cases StillValid (byte == 27)
          (λ h. record {
            bounded = v.bounded;
            printable = v.printable;
            pending = Pending-nil;
            escape_room = ground (arith, idle, length-append p.escape (byte ∷ []));
          })
          (λ h.
            if_cases StillValid (not p.paste && is_command byte)
              (λ h. feed_command-IsValid p byte v)
              (λ h.
                if_cases StillValid (ltb byte 32 || byte == 127) (λ h. clear_utf8 p v)
                  (λ h.
                    if_cases StillValid (ltb byte 128)
                      (λ h. append-IsValid (record p { utf8 = [] }) byte (clear_utf8 p v))
                      (λ h. feed_utf8-IsValid p byte v)))))

-- A prompt fed with bytes, each at a time.
abbrev pub fed : WindowPrompt → List (ℕ × ℕ) → WindowPrompt
fed p [] = p
fed p ((byte, now) ∷ input) = fed (feed p byte now).0 input

fed-IsValid : (p : WindowPrompt) (input : List (ℕ × ℕ)) → IsValid p → IsValid (fed p input)
fed-IsValid p [] v = v
fed-IsValid p ((byte, now) ∷ input) v =
    fed-IsValid (feed p byte now).0 input (feed-IsValid p byte now v)

-- Whatever bytes reach a new prompt, and when, its text stays within 128 bytes of UTF-8 and free of control characters, the
-- bytes of a scalar that is not complete are fewer than four, and those of an escape sequence fewer than sixteen.
pub fed_bounds :
    (kind : PromptKind) (destinations : List ℕ) (input : List (ℕ × ℕ))
    → let p = fed (fresh_prompt kind destinations) input in
      (bytes_of p.text ≤ 128)
      × All (λ c. is_control c ≡ false) p.text
      × (length p.utf8 < 4)
      × (length p.escape < 16)
unfolding fresh_prompt
fed_bounds kind destinations input =
    let v = fed-IsValid (fresh_prompt kind destinations) input (record {
      bounded = omega arith;
      printable = tt;
      pending = Pending-nil;
      escape_room = omega arith;
    }) in
    (
      v.bounded,
      v.printable,
      Pending-short (fed (fresh_prompt kind destinations) input).utf8 v.pending,
      v.escape_room,
    )
