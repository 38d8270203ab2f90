-- ===== src/Clipboard/Observer.antt =====
-- `Observer` of src/clipboard.rs: a state machine over the bytes that a child writes. The base64
-- engines are a parameter.
use rustmux.Base.{
  Bool, Option, false, if◌then◌else◌, leb, length, ltb, none, not, some, true, ℕ, ◌*◌, ◌++◌, ◌+◌,
  ◌/◌, ◌==◌, ◌∷◌, [], ◌||◌, ◌&&◌,
}
use rustmux.Protocol.Codec.{Bytes}

abbrev pub max_text_bytes : ℕ
max_text_bytes = 32 * 1024

abbrev pub max_encoded_bytes : ℕ
max_encoded_bytes = (max_text_bytes + 2) / 3 * 4

abbrev pub max_control_bytes : ℕ
max_control_bytes = 3 + 12 + 1 + max_encoded_bytes

pub data State : Type 0 where
  ground_state escape_state intermediate csi : State
  string_state : Bool → Bool → State

pub record Observer : Type 0 where
  pub state : State
  pub enabled : Bool
  pub capture : Bool
  pub current : Bytes
  pub pending : Option Bytes

unfoldable pub configure : Observer → Bool → Observer
configure o enabled =
    if enabled
    then record o { enabled = true }
    else record o { enabled = false; capture = false; current = []; pending = none }

unfoldable pub take_pending : Observer → Observer × Option Bytes
take_pending o = (record o { pending = none }, o.pending)

-- `STANDARD`, `STANDARD_NO_PAD` and `STANDARD.encode` of the crate base64.
pub record Base64 : Type 0 where
  pub decode : Bytes → Option Bytes
  pub decode_no_pad : Bytes → Option Bytes
  pub encode : Bytes → Bytes

abbrev pub discard : Observer → Observer
discard o = record o { capture = false; current = [] }

-- `bytes.starts_with(prefix)`, and what follows the prefix.
abbrev pub strip_prefix : Bytes → Bytes → Option Bytes
strip_prefix [] bytes = some bytes
strip_prefix (p ∷ ps) [] = none
strip_prefix (p ∷ ps) (b ∷ bytes) = if p == b then strip_prefix ps bytes else none

abbrev pub is_some : {A : Type 0} → Option A → Bool
is_some none = false
is_some (some a) = true

-- The bytes before and after the first `;`.
abbrev pub split_separator : Bytes → Option (Bytes × Bytes)
split_separator [] = none
split_separator (b ∷ bytes) =
    if b == b';'
    then some ([], bytes)
    else elim (split_separator bytes) [ none ↦ none | some cut ↦ some (b ∷ cut.0, cut.1) ]

abbrev pub is_selection : ℕ → Bool
is_selection b = b == b'c' || b == b'p' || b == b'q' || b == b's' || leb b'0' b && leb b b'7'

abbrev pub all_selections : Bytes → Bool
all_selections [] = true
all_selections (b ∷ bytes) = is_selection b && all_selections bytes

abbrev pub is_query : Bytes → Bool
is_query (b ∷ []) = b == b'?'
is_query _ = false

abbrev pub or_else : Option Bytes → Option Bytes → Option Bytes
or_else (some a) b = some a
or_else none b = b

abbrev pub prefix_52 : Bytes
prefix_52 = b'5' ∷ b'2' ∷ b';' ∷ []

-- The bytes of a control that is captured: a byte that does not fit, or that cannot start a
-- clipboard write, ends the capture.
unfoldable pub capture_byte : Observer → ℕ → Observer
capture_byte o byte =
    let grown : Observer = record o { current = o.current ++ byte ∷ [] } in
    if length o.current == max_control_bytes
    then discard o
    else if leb (length grown.current) 3 && not (is_some (strip_prefix grown.current prefix_52))
    then discard grown
    else grown

unfoldable pub string_body : Observer → Bool → Bool → ℕ → Observer
unfolding capture_byte
string_body o osc escape byte =
    let kept = if escape then discard o else o in
    let next_escape = byte == 27 in
    let read = if kept.capture && not next_escape then capture_byte kept byte else kept in
    record read { state = string_state osc next_escape }

abbrev pub starts_string : ℕ → Bool
starts_string byte = byte == b']' || byte == b'P' || byte == b'_' || byte == b'^' || byte == b'X'

unfoldable pub escape_byte : Observer → ℕ → Observer
escape_byte o byte =
    if byte == b'['
    then record o { state = csi }
    else if starts_string byte
    then record o {
      current = [];
      capture = byte == b']' && o.enabled;
      state = string_state (byte == b']') false;
    }
    else if leb 32 byte && leb byte 47
    then record o { state = intermediate }
    else record o { state = ground_state }

-- The `match` at the end of the loop's body.
unfoldable pub plain_byte : Observer → ℕ → Observer
unfolding escape_byte
plain_byte o byte = elim o.state [
  | ground_state ↦ record o { state = ground_state }
  | escape_state ↦ escape_byte o byte
  | intermediate ↦
      if leb 48 byte && leb byte 126
      then record o { state = ground_state }
      else record o { state = intermediate }
  | csi ↦
      if leb 64 byte && leb byte 126
      then record o { state = ground_state }
      else record o { state = csi }
  | string_state osc escape ↦ o
]

unfoldable pub control_byte : Observer → ℕ → Observer
unfolding plain_byte
control_byte o byte =
    if byte == 27
    then record o { state = escape_state }
    else if ltb byte 32 || byte == 127
    then o
    else plain_byte o byte

module _ (base64 : Base64) where
  -- The write that `finish` queues, if the captured bytes are one.
  unfoldable pub write_of : Bytes → Option Bytes
  write_of current = elim (strip_prefix prefix_52 current) [
    | none ↦ none
    | some body ↦ elim (split_separator body) [
      | none ↦ none
      | some (selection, payload) ↦
          if ltb 12 (length selection)
            || not (all_selections selection)
            || ltb max_encoded_bytes (length payload)
            || is_query payload
          then none
          else elim (or_else (base64.decode payload) (base64.decode_no_pad payload)) [
            | none ↦ none
            | some text ↦
                if ltb max_text_bytes (length text)
                then none
                else some (
                    27 ∷ b']' ∷ (prefix_52 ++ (selection ++ b';' ∷ (base64.encode text ++ 7 ∷ []))))
          ]
    ]
  ]

  unfoldable pub finish : Observer → Observer
  unfolding write_of
  finish o =
      if not o.enabled
      then o
      else elim (write_of o.current) [ none ↦ o | some wire ↦ record o { pending = some wire } ]

  unfoldable pub string_byte : Observer → Bool → Bool → ℕ → Observer
  unfolding finish string_body
  string_byte o osc escape byte =
      let bell = osc && byte == 7 in
      let ended = if o.capture && (not bell || not escape) then finish o else o in
      if bell || escape && byte == b'\\'
      then record (discard ended) { state = ground_state }
      else string_body o osc escape byte

  unfoldable pub advance_byte : Observer → ℕ → Observer
  unfolding string_byte control_byte
  advance_byte o byte =
      if byte == 24 || byte == 26
      then record (discard o) { state = ground_state }
      else elim o.state [
        | string_state osc escape ↦ string_byte o osc escape byte
        | _ ↦ control_byte o byte
      ]

  unfoldable pub advance : Observer → Bytes → Observer
  unfolding advance_byte
  advance o [] = o
  advance o (byte ∷ bytes) = advance (advance_byte o byte) bytes
