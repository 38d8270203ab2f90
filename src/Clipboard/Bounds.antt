-- ===== src/Clipboard/Bounds.antt =====
-- What `Observer::advance` of src/clipboard.rs keeps of its buffers, whatever a child writes.
use rustmux.Base.{
  ltb, Bool, Bool-cases, Option, arith, false, if_cases, if◌then◌else◌, inl, inr, leb, length,
  length-append, none, not, refl, some, true, ℕ, ◌++◌, ◌==◌, ◌∷◌, ◌≡◌, ◌≤◌, [], ◌||◌, ◌&&◌,
}
use rustmux.Protocol.Codec.{Bytes}
use rustmux.Clipboard.Observer.{
  advance_byte, control_byte, plain_byte, prefix_52, strip_prefix, starts_string, is_some,
  string_byte, escape_byte, string_body, capture_byte, discard, max_control_bytes, Observer, State,
  Base64, ground_state, escape_state, intermediate, csi, string_state, finish, write_of, configure,
  advance,
}

-- The buffer is bounded, it is empty unless a control is captured, and nothing is captured or queued
-- while observation is off.
abbrev pub Quiet : Observer → Type 0
Quiet o =
    (length o.current ≤ max_control_bytes)
    × (o.capture ≡ false → o.current ≡ [])
    × (o.enabled ≡ false → (o.capture ≡ false) × (o.pending ≡ none))

discard-Quiet : (o : Observer) → Quiet o → Quiet (discard o)
discard-Quiet o (b, i, a) = (omega arith, λ _. refl, λ off. (refl, (a off).1))

queue : Observer → Option Bytes → Observer
queue o wire = elim wire [ none ↦ o | some w ↦ record o { pending = some w } ]

queue-Quiet :
    (o : Observer) (wire : Option Bytes) → o.enabled ≡ true → Quiet o → Quiet (queue o wire)
unfolding queue
queue-Quiet o none on q = q
queue-Quiet o (some w) on (b, i, a) = (b, i, λ off. cc)

capture_byte-Quiet :
    (o : Observer) (byte : ℕ) → o.capture ≡ true → Quiet o → Quiet (capture_byte o byte)
unfolding capture_byte
capture_byte-Quiet o byte on (b, i, a) =
    let grown : Observer = record o { current = o.current ++ byte ∷ [] } in
    elim (Bool-cases (length o.current == max_control_bytes)) [
      | inl full ↦ rw full (discard-Quiet o (b, i, a))
      | inr room ↦
          let long = length-append o.current (byte ∷ []) in
          let grown_quiet : Quiet grown = (ground (arith, long), λ off. cc, a) in
          rw room (
            if_cases Quiet
              (leb (length grown.current) 3 && not (is_some (strip_prefix grown.current prefix_52)))
              (λ _. (omega arith, λ _. refl, λ off. (refl, (a off).1))) (λ _. grown_quiet))
    ]

string_body-Quiet :
    (o : Observer) (osc escape : Bool) (byte : ℕ) → Quiet o → Quiet (string_body o osc escape byte)
unfolding string_body
string_body-Quiet o osc escape byte q =
    let kept = if escape then discard o else o in
    let kept_quiet = if_cases Quiet escape (λ _. discard-Quiet o q) (λ _. q) in
    if_cases Quiet (kept.capture && not (byte == 27))
      (λ on. capture_byte-Quiet kept byte (ground arith) kept_quiet) (λ _. kept_quiet)

escape_byte-Quiet : (o : Observer) (byte : ℕ) → Quiet o → Quiet (escape_byte o byte)
unfolding escape_byte
escape_byte-Quiet o byte (b, i, a) =
    if_cases Quiet (byte == b'[') (λ _. (b, i, a))
      λ _.
        if_cases Quiet (starts_string byte)
          (λ _. (omega arith, λ _. refl, λ off. (rw off (ground arith), (a off).1)))
          λ _. if_cases Quiet (leb 32 byte && leb byte 47) (λ _. (b, i, a)) (λ _. (b, i, a))

plain_step :
    (o : Observer) (byte : ℕ) (s : State) → o.state ≡ s → Quiet o → Quiet (plain_byte o byte)
unfolding plain_byte
plain_step o byte ground_state e q = rw e q
plain_step o byte escape_state e q = rw e (escape_byte-Quiet o byte q)
plain_step o byte intermediate e q =
    rw e (if_cases Quiet (leb 48 byte && leb byte 126) (λ _. q) (λ _. q))
plain_step o byte csi e q = rw e (if_cases Quiet (leb 64 byte && leb byte 126) (λ _. q) (λ _. q))
plain_step o byte (string_state osc escape) e q = rw e q

control_byte-Quiet : (o : Observer) (byte : ℕ) → Quiet o → Quiet (control_byte o byte)
unfolding control_byte
control_byte-Quiet o byte q =
    if_cases Quiet (byte == 27) (λ _. q)
      λ _.
        if_cases Quiet (ltb byte 32 || byte == 127) (λ _. q) λ _. plain_step o byte o.state refl q

module _ (base64 : Base64) where
  finish-Quiet : (o : Observer) → Quiet o → Quiet (finish base64 o)
  unfolding finish queue
  finish-Quiet o q = elim (Bool-cases o.enabled) [
    | inr off ↦ if_cases Quiet (not o.enabled) (λ _. q) (λ on. absurd (ground arith))
    | inl on ↦
        if_cases Quiet (not o.enabled) (λ _. q)
          (λ _. queue-Quiet o (write_of base64 o.current) on q)
  ]

  string_byte-Quiet :
      (o : Observer) (osc escape : Bool) (byte : ℕ)
      → Quiet o
      → Quiet (string_byte base64 o osc escape byte)
  unfolding string_byte
  string_byte-Quiet o osc escape byte q =
      let bell = osc && byte == 7 in
      let finishes = o.capture && (not bell || not escape) in
      let ended = if finishes then finish base64 o else o in
      let ended_quiet : Quiet ended = if_cases Quiet finishes (λ _. finish-Quiet o q) (λ _. q) in
      if_cases Quiet (bell || escape && byte == b'\\') (λ _. discard-Quiet ended ended_quiet)
        (λ _. string_body-Quiet o osc escape byte q)

  loop_step :
      (o : Observer) (byte : ℕ) (s : State)
      → o.state ≡ s
      → Quiet o
      → Quiet (advance_byte base64 o byte)
  unfolding advance_byte
  loop_step o byte s e q =
      if_cases Quiet (byte == 24 || byte == 26) (λ _. discard-Quiet o q) (λ _. by_state s e)
    where
      by_state :
          (s : State)
          → o.state ≡ s
          → Quiet (elim o.state [
            | string_state osc escape ↦ string_byte base64 o osc escape byte
            | _ ↦ control_byte o byte
          ])
      by_state ground_state e = rw e (control_byte-Quiet o byte q)
      by_state escape_state e = rw e (control_byte-Quiet o byte q)
      by_state intermediate e = rw e (control_byte-Quiet o byte q)
      by_state csi e = rw e (control_byte-Quiet o byte q)
      by_state (string_state osc escape) e = rw e (string_byte-Quiet o osc escape byte q)

  -- Whatever bytes a child writes, an observer whose buffer is bounded and empty unless it captures,
  -- and which neither captures nor queues while it is off, is such an observer again.
  pub advance-Quiet : (o : Observer) (bytes : Bytes) → Quiet o → Quiet (advance base64 o bytes)
  unfolding advance
  advance-Quiet o [] q = q
  advance-Quiet o (byte ∷ bytes) q =
      advance-Quiet (advance_byte base64 o byte) bytes (loop_step o byte o.state refl q)

configure-Quiet : (o : Observer) (on : Bool) → Quiet o → Quiet (configure o on)
unfolding configure
configure-Quiet o true (b, i, a) = (b, i, λ off. cc)
configure-Quiet o false (b, i, a) = (omega arith, λ _. refl, λ _. (refl, refl))
