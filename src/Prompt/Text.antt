-- ===== src/Prompt/Text.antt =====
-- UTF-8 as `std::str::from_utf8` and `char` read and measure it, for src/prompt.rs. A `char` is its
-- scalar value.
use rustmux.Base.{
  [], get_elem?, if◌then◌else◌, leb, ltb, none, some, ◌%◌, ◌&&◌, ◌*◌, ◌+◌, ◌-◌, ◌==◌, ◌||◌, ◌∷◌,
  List, Bool, ℕ,
}

-- Between two bytes: at a boundary, before `n` more bytes of which the next is in a range, or past
-- an invalid one.
pub data Expect : Type 0 where
  boundary : Expect
  more : ℕ → ℕ → ℕ → Expect
  broken : Expect

abbrev pub within : ℕ → ℕ → ℕ → Bool
within low high byte = leb low byte && leb byte high

-- What a first byte of 128 or more announces.
abbrev pub lead : ℕ → Expect
lead byte =
    if within 194 223 byte
    then more 1 128 191
    else if byte == 224
    then more 2 160 191
    else if byte == 237
    then more 2 128 159
    else if within 225 239 byte
    then more 2 128 191
    else if byte == 240
    then more 3 144 191
    else if within 241 243 byte
    then more 3 128 191
    else if byte == 244
    then more 3 128 143
    else broken

abbrev pub after_byte : Expect → ℕ → Expect
after_byte boundary byte = if ltb byte 128 then boundary else lead byte
after_byte (more n low high) byte =
    if within low high byte then (if n == 1 then boundary else more (n - 1) 128 191) else broken
after_byte broken byte = broken

abbrev pub after_bytes : Expect → List ℕ → Expect
after_bytes expect [] = expect
after_bytes expect (byte ∷ bytes) = after_bytes (after_byte expect byte) bytes

-- `Ok`, an error without and one with an `error_len`.
pub data Checked : Type 0 where
  complete incomplete invalid : Checked

abbrev pub checked : Expect → Checked
checked boundary = complete
checked (more n low high) = incomplete
checked broken = invalid

unfoldable pub from_utf8 : List ℕ → Checked
from_utf8 bytes = checked (after_bytes boundary bytes)

abbrev pub byte_at : List ℕ → ℕ → ℕ
byte_at bytes i = elim (get_elem? bytes i) [ none ↦ 0 | some byte ↦ byte ]

-- The first scalar of complete bytes.
abbrev pub first_char : List ℕ → ℕ
first_char bytes =
    let a = byte_at bytes 0 in
    let b = byte_at bytes 1 % 64 in
    let c = byte_at bytes 2 % 64 in
    let d = byte_at bytes 3 % 64 in
    if ltb a 128
    then a
    else if ltb a 224
    then a % 32 * 64 + b
    else if ltb a 240
    then (a % 16 * 64 + b) * 64 + c
    else ((a % 8 * 64 + b) * 64 + c) * 64 + d

abbrev pub len_utf8 : ℕ → ℕ
len_utf8 scalar =
    if ltb scalar 128 then 1 else if ltb scalar 2048 then 2 else if ltb scalar 65536 then 3 else 4

-- `String::len`
abbrev pub bytes_of : List ℕ → ℕ
bytes_of [] = 0
bytes_of (scalar ∷ scalars) = len_utf8 scalar + bytes_of scalars

-- `char::is_control`
abbrev pub is_control : ℕ → Bool
is_control scalar = ltb scalar 32 || within 127 159 scalar
