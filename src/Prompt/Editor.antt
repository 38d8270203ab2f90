-- ===== src/Prompt/Editor.antt =====
-- `WindowPrompt` of src/prompt.rs and its byte machine. An `Instant` is a number of milliseconds.
use rustmux.Base.{
  [], false, if◌then◌else◌, leb, length, ltb, none, not, some, true, ◌&&◌, ◌++◌, ◌+◌, ◌-◌, ◌==◌,
  ◌||◌, ◌∷◌, List, Option, Bool, ℕ,
}
use rustmux.Prompt.Text.{
  Checked, first_char, complete, incomplete, invalid, len_utf8, bytes_of, from_utf8, within,
  is_control,
}

abbrev pub max_name_bytes : ℕ
max_name_bytes = 128

abbrev pub escape_delay : ℕ
escape_delay = 30

pub data EditResult : Type 0 where
  go_on save cancel : EditResult

pub data PromptKind : Type 0 where
  rename close close_pane move_pane : PromptKind

pub record WindowPrompt : Type 0 where
  pub kind : PromptKind
  pub text : List ℕ
  pub destinations : List ℕ
  pub utf8 : List ℕ
  pub escape : List ℕ
  pub escape_at : Option ℕ
  pub paste : Bool

-- `new` with the kind and the destinations of the other constructors.
unfoldable pub fresh_prompt : PromptKind → List ℕ → WindowPrompt
fresh_prompt kind destinations = record {
  kind = kind;
  text = [];
  destinations = destinations;
  utf8 = [];
  escape = [];
  escape_at = none;
  paste = false;
}

unfoldable pub append : WindowPrompt → ℕ → WindowPrompt
append p character =
    if not (is_control character) && leb (bytes_of p.text + len_utf8 character) max_name_bytes
    then record p { text = p.text ++ character ∷ [] }
    else p

-- `String::pop`
abbrev pub pop : List ℕ → List ℕ
pop [] = []
pop (c ∷ []) = []
pop (c ∷ d ∷ text) = c ∷ pop (d ∷ text)

abbrev pub list_eq : List ℕ → List ℕ → Bool
list_eq [] [] = true
list_eq [] (y ∷ ys) = false
list_eq (x ∷ xs) [] = false
list_eq (x ∷ xs) (y ∷ ys) = x == y && list_eq xs ys

abbrev due : Option ℕ → ℕ → Bool
due none now = false
due (some start) now = leb escape_delay (now - start)

unfoldable pub cancel_due : WindowPrompt → ℕ → Bool
cancel_due p now = not p.paste && list_eq p.escape (27 ∷ []) && due p.escape_at now

-- `b"\x1b[200~"` and `b"\x1b[201~"`
abbrev pub paste_start : List ℕ
paste_start = 27 ∷ 91 ∷ 50 ∷ 48 ∷ 48 ∷ 126 ∷ []

abbrev pub paste_end : List ℕ
paste_end = 27 ∷ 91 ∷ 50 ∷ 48 ∷ 49 ∷ 126 ∷ []

abbrev pub opens : ℕ → Bool
opens byte = byte == 91 || byte == 79

-- The first block of `feed`: an escape sequence is being read.
unfoldable pub feed_escape : WindowPrompt → ℕ → WindowPrompt
feed_escape p byte =
    let escape = p.escape ++ byte ∷ [] in
    let n = length escape in
    if n == 2 && opens byte
    then record p { escape = escape }
    else if n == 2 && not (opens byte) || ltb 2 n && within 64 126 byte || leb 16 n
    then record p {
      paste =
          if list_eq escape paste_end
          then false
          else if list_eq escape paste_start
          then true
          else p.paste;
      escape = [];
      escape_at = none;
    }
    else record p { escape = escape }

-- The bytes that the `match` outside a paste takes.
abbrev pub is_command : ℕ → Bool
is_command byte =
    byte == 13 || byte == 10 || byte == 3 || byte == 7 || byte == 8 || byte == 127 || byte == 21

unfoldable pub feed_command : WindowPrompt → ℕ → WindowPrompt × EditResult
feed_command p byte =
    if byte == 13 || byte == 10
    then (p, save)
    else if byte == 3 || byte == 7
    then (p, cancel)
    else if byte == 8 || byte == 127
    then (record p { utf8 = []; text = pop p.text }, go_on)
    else (record p { utf8 = []; text = [] }, go_on)

-- The `match` on what `from_utf8` says of the pending bytes.
abbrev pub take_utf8 : Checked → WindowPrompt → List ℕ → WindowPrompt
take_utf8 complete p bytes = append (record p { utf8 = [] }) (first_char bytes)
take_utf8 invalid p bytes = record p { utf8 = [] }
take_utf8 incomplete p bytes = record p { utf8 = bytes }

unfoldable pub feed_utf8 : WindowPrompt → ℕ → WindowPrompt
feed_utf8 p byte = let bytes = p.utf8 ++ byte ∷ [] in take_utf8 (from_utf8 bytes) p bytes

unfoldable pub feed : WindowPrompt → ℕ → ℕ → WindowPrompt × EditResult
unfolding append feed_escape feed_command feed_utf8
feed p byte now =
    if not (length p.escape == 0)
    then (feed_escape p byte, go_on)
    else if byte == 27
    then (record p { utf8 = []; escape = p.escape ++ byte ∷ []; escape_at = some now }, go_on)
    else if not p.paste && is_command byte
    then feed_command p byte
    else if ltb byte 32 || byte == 127
    then (record p { utf8 = [] }, go_on)
    else if ltb byte 128
    then (append (record p { utf8 = [] }) byte, go_on)
    else (feed_utf8 p byte, go_on)
