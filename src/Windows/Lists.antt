-- ===== src/Windows/Lists.antt =====
-- The lists of windows of src/window.rs under insertion, removal and reordering.
use rustmux.Base.{
  ltb, some-injective, sym, Bool, if_cases, if◌then◌else◌, length-append, not, ◌&&◌, ◌-◌, ◌∙◌,
  Bool-cases, List, ap, arith, get_elem?, inl, inr, length, none, refl, some, suc, true, zero, ℕ,
  ◌++◌, ◌+◌, ◌<◌, ◌==◌, ◌∷◌, ◌≡◌, [], false,
}
use mathlib.Core.Path.{subst}
use rustmux.Base.Members.{Distinct, member}
use rustmux.Base.Counting.{count-append, count, SameCounts}
use rustmux.Windows.Store.{is_empty, index, remove_at, insert_at, Window, WindowId}
use rustmux.Windows.Valid.{ids}
use rustmux.Windows.Order.{reordered, rotate_right, rotate_left, second, swap_next, last_first}

module _ {T : Type 0} where
  pub length-ids : (xs : List (Window T)) → length (ids xs) ≡ length xs
  length-ids [] = refl
  length-ids (x ∷ xs) = ap suc (length-ids xs)

  pub ids-append : (xs ys : List (Window T)) → ids (xs ++ ys) ≡ ids xs ++ ids ys
  ids-append [] ys = refl
  ids-append (x ∷ xs) ys = ap (λ l. x.id ∷ l) (ids-append xs ys)

  pub count-insert_at :
      (t i : ℕ) (x : Window T) (xs : List (Window T))
      → count t (ids (insert_at i x xs)) ≡ count t (x.id ∷ ids xs)
  count-insert_at t zero x xs = refl
  count-insert_at t (suc i) x [] = refl
  count-insert_at t (suc i) x (y ∷ xs) = ground (arith, count-insert_at t i x xs)

  pub length-insert_at :
      (i : ℕ) (x : Window T) (xs : List (Window T)) → length (insert_at i x xs) ≡ length xs + 1
  length-insert_at zero x xs = omega arith
  length-insert_at (suc i) x [] = omega arith
  length-insert_at (suc i) x (y ∷ xs) = omega (arith, length-insert_at i x xs)

  pub count-remove_at :
      (t i : ℕ) (x : Window T) (xs : List (Window T))
      → get_elem? xs i ≡ some x
      → count t (x.id ∷ ids (remove_at i xs)) ≡ count t (ids xs)
  count-remove_at t i x [] e = absurd (cc)
  count-remove_at t zero x (y ∷ xs) e = ground arith
  count-remove_at t (suc i) x (y ∷ xs) e = ground (arith, count-remove_at t i x xs e)

  pub length-remove_at :
      (i : ℕ) (xs : List (Window T)) → i < length xs → length (remove_at i xs) + 1 ≡ length xs
  length-remove_at i [] h = absurd (omega arith)
  length-remove_at zero (x ∷ xs) h = omega arith
  length-remove_at (suc i) (x ∷ xs) h = omega (arith, length-remove_at i xs (omega arith))

  pub get_elem?_total :
      (i : ℕ) (xs : List (Window T)) → i < length xs → (x : Window T) × (get_elem? xs i ≡ some x)
  get_elem?_total i [] h = absurd (omega arith)
  get_elem?_total zero (x ∷ xs) h = (x, refl)
  get_elem?_total (suc i) (x ∷ xs) h = get_elem?_total i xs (omega arith)

  pub get_elem?-member :
      (i : ℕ) (x : Window T) (xs : List (Window T))
      → get_elem? xs i ≡ some x
      → member x.id (ids xs) ≡ true
  get_elem?-member i x [] e = absurd (cc)
  get_elem?-member zero x (y ∷ xs) e = ground arith
  get_elem?-member (suc i) x (y ∷ xs) e = ground (arith, get_elem?-member i x xs e)

  -- `index` finds exactly the identities that the list has, at a window of that identity.
  pub index_found :
      (id : WindowId) (xs : List (Window T))
      → member id (ids xs) ≡ true
      → (i : ℕ) × (x : Window T) × (index id xs ≡ some i)
        × (get_elem? xs i ≡ some x)
        × (x.id ≡ id)
        × (i < length xs)
  index_found id [] m = absurd (cc)
  index_found id (x ∷ xs) m = elim (Bool-cases (x.id == id)) [
    | inl here ↦ (0, x, rw here, refl, ground arith, omega arith)
    | inr there ↦
        let (i, y, e, at, same, small) = index_found id xs (ground arith) in
        (suc i, y, rw (there, e), at, same, omega arith)
  ]

  pub index_absent :
      (id : WindowId) (xs : List (Window T)) → member id (ids xs) ≡ false → index id xs ≡ none
  index_absent id [] m = refl
  index_absent id (x ∷ xs) m = elim (Bool-cases (x.id == id)) [
    | inl here ↦ absurd (ground arith)
    | inr there ↦ rw (there, index_absent id xs (ground arith))
  ]

  -- In a list of distinct identities a window is found at its place.
  pub index-get_elem? :
      (i : ℕ) (x : Window T) (xs : List (Window T))
      → Distinct (ids xs)
      → get_elem? xs i ≡ some x
      → index x.id xs ≡ some i
  index-get_elem? i x [] d e = absurd (cc)
  index-get_elem? zero x (y ∷ xs) d e = ground arith
  index-get_elem? (suc i) x (y ∷ xs) d e =
      ground (arith, index-get_elem? i x xs d.1 e, get_elem?-member i x xs e, d.0)

  count-second :
      (t : ℕ) (x : Window T) (xs : List (Window T))
      → count t (ids (second x xs)) ≡ count t (x.id ∷ ids xs)
  count-second t x [] = refl
  count-second t x (z ∷ zs) = ground arith

  length-second : (x : Window T) (xs : List (Window T)) → length (second x xs) ≡ length xs + 1
  length-second x [] = omega arith
  length-second x (z ∷ zs) = omega arith

  count-last_first :
      (t : ℕ) (x : Window T) (xs : List (Window T))
      → count t (ids (last_first x xs)) ≡ count t (ids (x ∷ xs))
  count-last_first t x [] = refl
  count-last_first t x (y ∷ ys) =
      count-second t x (last_first y ys) ∙ ground (arith, count-last_first t y ys)

  length-last_first :
      (x : Window T) (xs : List (Window T)) → length (last_first x xs) ≡ length xs + 1
  length-last_first x [] = omega arith
  length-last_first x (y ∷ ys) =
      omega (arith, length-second x (last_first y ys), length-last_first y ys)

  count-swap_next :
      (t i : ℕ) (xs : List (Window T)) → count t (ids (swap_next i xs)) ≡ count t (ids xs)
  count-swap_next t i [] = refl
  count-swap_next t i (x ∷ []) = refl
  count-swap_next t zero (x ∷ y ∷ xs) = ground arith
  count-swap_next t (suc i) (x ∷ y ∷ xs) = ground (arith, count-swap_next t i (y ∷ xs))

  length-swap_next : (i : ℕ) (xs : List (Window T)) → length (swap_next i xs) ≡ length xs
  length-swap_next i [] = refl
  length-swap_next i (x ∷ []) = refl
  length-swap_next zero (x ∷ y ∷ xs) = refl
  length-swap_next (suc i) (x ∷ y ∷ xs) = ap suc (length-swap_next i (y ∷ xs))

  count-rotate_left :
      (t : ℕ) (xs : List (Window T)) → count t (ids (rotate_left xs)) ≡ count t (ids xs)
  count-rotate_left t [] = refl
  count-rotate_left t (x ∷ xs) =
      ap (count t) (ids-append xs (x ∷ [])) ∙ count-append t (ids xs) (x.id ∷ []) ∙ ground arith

  count-rotate_right :
      (t : ℕ) (xs : List (Window T)) → count t (ids (rotate_right xs)) ≡ count t (ids xs)
  count-rotate_right t [] = refl
  count-rotate_right t (x ∷ xs) = count-last_first t x xs

  -- Reordering keeps the windows: the same identities, as often.
  pub reordered-SameCounts :
      (i : ℕ) (right : Bool) (xs : List (Window T))
      → SameCounts (ids (reordered i right xs)) (ids xs)
  reordered-SameCounts i right xs t =
      if_cases (λ ys. count t (ids ys) ≡ count t (ids xs)) (right && i + 1 == length xs)
        (λ _. count-rotate_right t xs)
        λ _.
          if_cases (λ ys. count t (ids ys) ≡ count t (ids xs)) (not right && i == 0)
            (λ _. count-rotate_left t xs) (λ _. count-swap_next t (if right then i else i - 1) xs)

  length-rotate_left : (xs : List (Window T)) → length (rotate_left xs) ≡ length xs
  length-rotate_left [] = refl
  length-rotate_left (x ∷ xs) = omega (arith, length-append xs (x ∷ []))

  length-rotate_right : (xs : List (Window T)) → length (rotate_right xs) ≡ length xs
  length-rotate_right [] = refl
  length-rotate_right (x ∷ xs) = omega (arith, length-last_first x xs)

  pub length-reordered :
      (i : ℕ) (right : Bool) (xs : List (Window T)) → length (reordered i right xs) ≡ length xs
  length-reordered i right xs =
      if_cases (λ ys. length ys ≡ length xs) (right && i + 1 == length xs)
        (λ _. length-rotate_right xs)
        λ _.
          if_cases (λ ys. length ys ≡ length xs) (not right && i == 0) (λ _. length-rotate_left xs)
            (λ _. length-swap_next (if right then i else i - 1) xs)

  pub index_small :
      (id : WindowId) (xs : List (Window T)) (i : ℕ) → index id xs ≡ some i → i < length xs
  index_small id [] i e = absurd (cc)
  index_small id (x ∷ xs) i e = elim (Bool-cases (member id (ids (x ∷ xs)))) [
    | inl m ↦
        let (j, y, e', at, same, small) = index_found id (x ∷ xs) m in
        subst (λ k. k < length (x ∷ xs)) (some-injective (sym e' ∙ e)) small
    | inr m ↦ absurd (cc (index_absent id (x ∷ xs) m))
  ]

  pub parent : (xs : List (Window T)) → is_empty xs ≡ false → 0 < length xs
  parent [] h = absurd (cc)
  parent (x ∷ xs) h = omega arith

  pub get_elem?-remove_at :
      (k i : ℕ) (xs : List (Window T))
      → get_elem? (remove_at i xs) k ≡ get_elem? xs (if ltb k i then k else k + 1)
  get_elem?-remove_at k i [] = refl
  get_elem?-remove_at k zero (x ∷ xs) =
      let e : suc k ≡ (if ltb k 0 then k else k + 1) = ground arith in ap (get_elem? (x ∷ xs)) e
  get_elem?-remove_at zero (suc i) (x ∷ xs) = ground arith
  get_elem?-remove_at (suc k) (suc i) (x ∷ xs) =
      let e : suc (if ltb k i then k else k + 1)
          ≡ (if ltb (suc k) (suc i) then suc k else suc k + 1) =
        ground arith in
      get_elem?-remove_at k i xs ∙ ap (get_elem? (x ∷ xs)) e

  pub index-member :
      (id : WindowId) (i : ℕ) (xs : List (Window T))
      → index id xs ≡ some i
      → member id (ids xs) ≡ true
  index-member id i xs e = elim (Bool-cases (member id (ids xs))) [
    | inl m ↦ m
    | inr m ↦ absurd (cc (index_absent id xs m))
  ]

  pub not_empty : (xs : List (Window T)) → 0 < length xs → is_empty xs ≡ false
  not_empty [] h = absurd (omega arith)
  not_empty (x ∷ xs) h = refl
