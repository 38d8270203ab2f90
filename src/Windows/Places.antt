-- ===== src/Windows/Places.antt =====
-- Where each window stands after `move_window` of src/window.rs reordered the collection.
use rustmux.Base.{
  sym, Bool-cases, ap, false, inl, inr, some, true, ◌∙◌, Bool, List, [], arith, get_elem?,
  if◌then◌else◌, leb, length, none, refl, suc, zero, ◌++◌, ◌+◌, ◌-◌, ◌<◌, ◌==◌, ◌∷◌, ◌≡◌, ◌≤◌, ℕ,
}
use rustmux.Windows.Order.{reordered, second, last_first, swap_next}
use rustmux.Windows.Store.{Window}
use rustmux.Windows.Lists.{length-reordered}

-- The place that the element at `k` comes from when those at `i` and `i + 1` change places.
abbrev pub swap_place : ℕ → ℕ → ℕ
swap_place i k = if k == i then i + 1 else if k == i + 1 then i else k

-- The place that the window at `k` comes from when the window at `i` of `n` moves by one place to the
-- right or to the left: two neighbours change places, and at either end all of them turn by one.
abbrev pub place_before : ℕ → Bool → ℕ → ℕ → ℕ
place_before i right n k =
    if leb n k
    then k
    else if right
    then (if i + 1 == n then (if k == 0 then n - 1 else k - 1) else swap_place i k)
    else (if i == 0 then (if k + 1 == n then 0 else k + 1) else swap_place (i - 1) k)

swap_place-suc : (i k : ℕ) → suc (swap_place i k) ≡ swap_place (suc i) (suc k)
swap_place-suc i k = ground arith

module _ {A : Type 0} where
  get_elem?-swap_next :
      (i : ℕ) (xs : List A) (k : ℕ)
      → i + 1 < length xs
      → get_elem? (swap_next i xs) k ≡ get_elem? xs (swap_place i k)
  get_elem?-swap_next i [] k h = absurd (omega arith)
  get_elem?-swap_next i (x ∷ []) k h = absurd (omega arith)
  get_elem?-swap_next zero (x ∷ y ∷ xs) zero h = refl
  get_elem?-swap_next zero (x ∷ y ∷ xs) (suc zero) h = refl
  get_elem?-swap_next zero (x ∷ y ∷ xs) (suc (suc k)) h =
      let same : suc (suc k) ≡ swap_place 0 (suc (suc k)) = ground arith in
      ap (get_elem? (x ∷ y ∷ xs)) same
  get_elem?-swap_next (suc i) (x ∷ y ∷ xs) zero h =
      let same : 0 ≡ swap_place (suc i) 0 = ground arith in ap (get_elem? (x ∷ y ∷ xs)) same
  get_elem?-swap_next (suc i) (x ∷ y ∷ xs) (suc k) h =
      get_elem?-swap_next i (y ∷ xs) k (omega arith)
      ∙ ap (get_elem? (x ∷ y ∷ xs)) (swap_place-suc i k)

  get_elem?_past : (xs : List A) (k : ℕ) → length xs ≤ k → get_elem? xs k ≡ none
  get_elem?_past [] k h = refl
  get_elem?_past (x ∷ xs) zero h = absurd (omega arith)
  get_elem?_past (x ∷ xs) (suc k) h = get_elem?_past xs k (omega arith)

  get_elem?-second :
      (x : A) (xs : List A)
      → 0 < length xs
      → (get_elem? (second x xs) 0 ≡ get_elem? xs 0)
        × (get_elem? (second x xs) 1 ≡ some x)
        × ((k : ℕ) → get_elem? (second x xs) (suc (suc k)) ≡ get_elem? xs (suc k))
  get_elem?-second x [] h = absurd (omega arith)
  get_elem?-second x (z ∷ zs) h = (refl, refl, λ k. refl)

  length-second : (x : A) (xs : List A) → 0 < length (second x xs)
  length-second x [] = omega arith
  length-second x (z ∷ zs) = omega arith

  last_first-some : (x : A) (xs : List A) → 0 < length (last_first x xs)
  last_first-some x [] = omega arith
  last_first-some x (y ∷ ys) = length-second x (last_first y ys)

  -- The last comes first, the others follow.
  get_elem?-last_first :
      (x : A) (xs : List A)
      → (get_elem? (last_first x xs) 0 ≡ get_elem? (x ∷ xs) (length xs))
        × ((k : ℕ) → k < length xs → get_elem? (last_first x xs) (suc k) ≡ get_elem? (x ∷ xs) k)
  get_elem?-last_first x [] = (refl, λ k h. absurd (omega arith))
  get_elem?-last_first x (y ∷ ys) =
      let (front, next, rest) = get_elem?-second x (last_first y ys) (last_first-some y ys) in
      let (front', rest') = get_elem?-last_first y ys in (front ∙ front', at_next next rest rest')
    where
      at_next :
          get_elem? (second x (last_first y ys)) 1 ≡ some x
          → ((k : ℕ)
              → get_elem? (second x (last_first y ys)) (suc (suc k))
                ≡ get_elem? (last_first y ys) (suc k))
          → ((k : ℕ) → k < length ys → get_elem? (last_first y ys) (suc k) ≡ get_elem? (y ∷ ys) k)
          → (k : ℕ) → k < suc (length ys)
          → get_elem? (second x (last_first y ys)) (suc k) ≡ get_elem? (x ∷ y ∷ ys) k
      at_next next rest rest' zero h = next
      at_next next rest rest' (suc k) h = rest k ∙ rest' k (omega arith)

  get_elem?-snoc :
      (xs : List A) (x : A) (k : ℕ)
      → k < length xs + 1
      → get_elem? (xs ++ x ∷ []) k ≡ (if k == length xs then some x else get_elem? xs k)
  get_elem?-snoc [] x zero h = refl
  get_elem?-snoc [] x (suc k) h = absurd (omega arith)
  get_elem?-snoc (y ∷ xs) x zero h =
      let same : (0 == suc (length xs)) ≡ false = ground arith in rw same refl
  get_elem?-snoc (y ∷ xs) x (suc k) h = ground (arith, get_elem?-snoc xs x k)

  get_elem?-turn_right :
      (x : A) (xs : List A) (k : ℕ)
      → k < suc (length xs)
      → get_elem? (last_first x xs) k
        ≡ get_elem? (x ∷ xs) (if k == 0 then suc (length xs) - 1 else k - 1)
  get_elem?-turn_right x xs zero h =
      let same : length xs ≡ suc (length xs) - 1 = omega arith in
      (get_elem?-last_first x xs).0 ∙ ap (get_elem? (x ∷ xs)) same
  get_elem?-turn_right x xs (suc k) h =
      let same : k ≡ (if suc k == 0 then suc (length xs) - 1 else suc k - 1) = ground arith in
      (get_elem?-last_first x xs).1 k (omega arith) ∙ ap (get_elem? (x ∷ xs)) same

  get_elem?-turn_left :
      (x : A) (xs : List A) (k : ℕ)
      → k < suc (length xs)
      → get_elem? (xs ++ x ∷ []) k
        ≡ get_elem? (x ∷ xs) (if k + 1 == suc (length xs) then 0 else k + 1)
  get_elem?-turn_left x xs k h = elim (Bool-cases (k == length xs)) [
    | inl last ↦
        let same : 0 ≡ (if k + 1 == suc (length xs) then 0 else k + 1) = ground (arith, last) in
        get_elem?-snoc xs x k (omega arith) ∙ rw last (ap (get_elem? (x ∷ xs)) same)
    | inr inner ↦
        let same : suc k ≡ (if k + 1 == suc (length xs) then 0 else k + 1) =
          ground (arith, inner) in
        get_elem?-snoc xs x k (omega arith) ∙ rw inner (ap (get_elem? (x ∷ xs)) same)
  ]

module _ {T : Type 0} where
  -- The window that `reordered` puts at a place.
  pub get_elem?-reordered :
      (i : ℕ) (right : Bool) (xs : List (Window T)) (k : ℕ)
      → i < length xs
      → get_elem? (reordered i right xs) k ≡ get_elem? xs (place_before i right (length xs) k)
  get_elem?-reordered i right xs k h = elim (Bool-cases (leb (length xs) k)) [
    | inl past ↦ rw past (
        get_elem?_past (reordered i right xs) k (ground (arith, past, length-reordered i right xs))
        ∙ sym (get_elem?_past xs k (ground (arith, past))))
    | inr inside ↦ rw inside (at_place i right xs k h (ground (arith, inside)))
  ]
    where
      at_place :
          (i : ℕ) (right : Bool) (xs : List (Window T)) (k : ℕ)
          → i < length xs
          → k < length xs
          → get_elem? (reordered i right xs) k
            ≡ get_elem? xs (
                if right
                then (if i + 1 == length xs
                    then (if k == 0 then length xs - 1 else k - 1)
                    else swap_place i k)
                else (if i == 0
                    then (if k + 1 == length xs then 0 else k + 1)
                    else swap_place (i - 1) k))
      at_place i right [] k h s = absurd (omega arith)
      at_place i true (x ∷ xs) k h s = elim (Bool-cases (i + 1 == suc (length xs))) [
        | inl at_end ↦ rw at_end (get_elem?-turn_right x xs k s)
        | inr before ↦ rw before (get_elem?-swap_next i (x ∷ xs) k (ground (arith, before)))
      ]
      at_place i false (x ∷ xs) k h s = elim (Bool-cases (i == 0)) [
        | inl at_start ↦ rw at_start (get_elem?-turn_left x xs k s)
        | inr later ↦ rw later (get_elem?-swap_next (i - 1) (x ∷ xs) k (ground (arith, later)))
      ]
