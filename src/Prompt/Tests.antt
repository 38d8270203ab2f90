-- ===== src/Prompt/Tests.antt =====
-- Runs of the model of src/prompt.rs, and its theorems at a prompt that holds a letter.
use rustmux.Base.{All, [], arith, false, length, refl, ◌++◌, ◌<◌, ◌∷◌, ◌≡◌, ◌≤◌}
use rustmux.Prompt.Editor.{
  paste_start, feed_escape, feed_command, rename, fresh_prompt, feed, WindowPrompt,
}
use rustmux.Prompt.Bounds.{fed_bounds, fed}
use rustmux.Prompt.Typing.{fed-utf8_bytes, at_time, utf8_bytes}
use rustmux.Prompt.Text.{is_control, bytes_of}

abbrev letter : WindowPrompt
letter = record (fresh_prompt rename []) { text = 97 ∷ [] }

-- Outside a paste a backspace removes the last character; inside one it does nothing.
backspace : (feed letter 8 0).0.text ≡ []
unfolding feed feed_command fresh_prompt
backspace = refl

pasted : (fed letter (at_time 0 (paste_start ++ 8 ∷ []))).text ≡ 97 ∷ []
unfolding feed feed_escape fresh_prompt
pasted = refl

fed_bounds_example :
    let p = fed (fresh_prompt rename []) (at_time 0 (226 ∷ 130 ∷ 27 ∷ 91 ∷ [])) in
    (bytes_of p.text ≤ 128)
    × All (λ c. is_control c ≡ false) p.text
    × (length p.utf8 < 4)
    × (length p.escape < 16)
fed_bounds_example = fed_bounds rename [] (at_time 0 (226 ∷ 130 ∷ 27 ∷ 91 ∷ []))

-- The euro sign.
fed-utf8_bytes_example :
    fed letter (at_time 5 (226 ∷ 130 ∷ 172 ∷ [])) ≡ record letter { text = 97 ∷ 8364 ∷ [] }
unfolding fresh_prompt utf8_bytes
fed-utf8_bytes_example = fed-utf8_bytes letter 8364 5 refl refl refl refl (omega arith)
