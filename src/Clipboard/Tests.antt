-- ===== src/Clipboard/Tests.antt =====
-- Runs of the model of src/clipboard.rs, with an engine that leaves bytes as they are.
use rustmux.Base.{arith, none, refl, some, ◌∷◌, ◌≡◌, [], true, false}
use rustmux.Protocol.Codec.{Bytes}
use rustmux.Clipboard.Observer.{Observer, Base64, ground_state, advance}
use rustmux.Clipboard.Bounds.{advance-Quiet, Quiet}

abbrev identity : Base64
identity = record { decode = λ b. some b; decode_no_pad = λ b. none; encode = λ b. b }

abbrev idle : Observer
idle = record {
  state = ground_state;
  enabled = true;
  capture = false;
  current = [];
  pending = none;
}

abbrev copy : Bytes
copy = 27 ∷ b']' ∷ b'5' ∷ b'2' ∷ b';' ∷ b'c' ∷ b';' ∷ b'A' ∷ 7 ∷ []

advance_copies : advance identity idle copy ≡ record idle { pending = some copy }
unfolding advance
advance_copies = refl

advance-Quiet_example : Quiet (advance identity idle copy)
advance-Quiet_example = advance-Quiet identity idle copy (omega arith, (λ h. refl), (λ h. cc))
