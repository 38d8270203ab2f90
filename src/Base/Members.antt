-- ===== src/Base/Members.antt =====
-- Lists of identities: membership as a test, distinctness, and the edits that trees and tables of
-- identities make.
use rustmux.Base.Tests.{◌==◌, if◌then◌else◌}
use rustmux.Base.Lists.{length}
use Prim.Native.Nat.{ℕ, suc, ◌+◌}
use mathlib.Core.Path.{◌≡◌, refl, ap, ◌∙◌}
use mathlib.Core.Bool.{Bool, true, false, ◌||◌}
use mathlib.Core.List.{List, [], ◌∷◌, ◌++◌, map}
use native.Mathlib.Omega.{arith}

abbrev pub member : ℕ → List ℕ → Bool
member t [] = false
member t (x ∷ xs) = x == t || member t xs

abbrev pub Distinct : List ℕ → Type 0
Distinct [] = Unit
Distinct (x ∷ xs) = (member x xs ≡ false) × Distinct xs

-- The first `t` is followed by a new element.
abbrev pub insert_after : ℕ → ℕ → List ℕ → List ℕ
insert_after t new [] = []
insert_after t new (x ∷ xs) = if x == t then t ∷ new ∷ xs else x ∷ insert_after t new xs

-- Without the first `t`.
abbrev pub erase : ℕ → List ℕ → List ℕ
erase t [] = []
erase t (x ∷ xs) = if x == t then xs else x ∷ erase t xs

-- The transposition of `a` and `b`.
abbrev pub transpose : ℕ → ℕ → ℕ → ℕ
transpose a b x = if x == a then b else if x == b then a else x

pub member-append : (t : ℕ) (xs ys : List ℕ) → member t (xs ++ ys) ≡ (member t xs || member t ys)
member-append t [] ys = refl
member-append t (x ∷ xs) ys = ground (arith, member-append t xs ys)

pub insert_after-append :
    (t new : ℕ) (xs ys : List ℕ)
    → insert_after t new (xs ++ ys)
      ≡ (if member t xs then insert_after t new xs ++ ys else xs ++ insert_after t new ys)
insert_after-append t new [] ys = refl
insert_after-append t new (x ∷ xs) ys = ground (arith, insert_after-append t new xs ys)

pub erase-append :
    (t : ℕ) (xs ys : List ℕ)
    → erase t (xs ++ ys) ≡ (if member t xs then erase t xs ++ ys else xs ++ erase t ys)
erase-append t [] ys = refl
erase-append t (x ∷ xs) ys = ground (arith, erase-append t xs ys)

pub erase_absent : (t : ℕ) (xs : List ℕ) → member t xs ≡ false → erase t xs ≡ xs
erase_absent t [] h = refl
erase_absent t (x ∷ xs) h = ground (arith, erase_absent t xs)

pub insert_after_absent :
    (t new : ℕ) (xs : List ℕ) → member t xs ≡ false → insert_after t new xs ≡ xs
insert_after_absent t new [] h = refl
insert_after_absent t new (x ∷ xs) h = ground (arith, insert_after_absent t new xs)

pub member-insert_after :
    (t new x : ℕ) (xs : List ℕ)
    → member t xs ≡ true
    → member x (insert_after t new xs) ≡ (new == x || member x xs)
member-insert_after t new x [] h = cc
member-insert_after t new x (y ∷ xs) h = ground (arith, member-insert_after t new x xs)

pub length-insert_after :
    (t new : ℕ) (xs : List ℕ) → member t xs ≡ true → length (insert_after t new xs) ≡ length xs + 1
length-insert_after t new [] h = cc
length-insert_after t new (y ∷ xs) h = ground (arith, length-insert_after t new xs)

pub Distinct-insert_after :
    (t new : ℕ) (xs : List ℕ)
    → member t xs ≡ true
    → member new xs ≡ false
    → Distinct xs
    → Distinct (insert_after t new xs)
Distinct-insert_after t new [] h f d = tt
Distinct-insert_after t new (x ∷ xs) h f d =
    ground (arith, Distinct-insert_after t new xs, member-insert_after t new x xs)

pub length-erase : (t : ℕ) (xs : List ℕ) → member t xs ≡ true → length (erase t xs) + 1 ≡ length xs
length-erase t [] h = cc
length-erase t (x ∷ xs) h = ground (arith, length-erase t xs)

pub member-erase :
    (t x : ℕ) (xs : List ℕ)
    → Distinct xs
    → member x (erase t xs) ≡ (if t == x then false else member x xs)
member-erase t x [] d = ground arith
member-erase t x (y ∷ xs) d = ground (arith, member-erase t x xs d.1, d.0)

pub Distinct-erase : (t : ℕ) (xs : List ℕ) → Distinct xs → Distinct (erase t xs)
Distinct-erase t [] d = tt
Distinct-erase t (x ∷ xs) d = ground (arith, Distinct-erase t xs d.1, member-erase t x xs d.1)

pub length-map {ℓ κ} :
    {A : Type ℓ} {B : Type κ} (f : A → B) (xs : List A) → length (map f xs) ≡ length xs
length-map f [] = refl
length-map f (x ∷ xs) = ap suc (length-map f xs)

-- A transposition is its own inverse, so it moves membership and keeps distinctness.
pub member-map-transpose :
    (a b x : ℕ) (xs : List ℕ) → member x (map (transpose a b) xs) ≡ member (transpose a b x) xs
member-map-transpose a b x [] = refl
member-map-transpose a b x (y ∷ xs) = ground (arith, member-map-transpose a b x xs)

transpose_twice : (a b x : ℕ) → transpose a b (transpose a b x) ≡ x
transpose_twice a b x = ground arith

pub Distinct-map-transpose :
    (a b : ℕ) (xs : List ℕ) → Distinct xs → Distinct (map (transpose a b) xs)
Distinct-map-transpose a b [] d = tt
Distinct-map-transpose a b (x ∷ xs) d = (
  member-map-transpose a b (transpose a b x) xs ∙ rw (transpose_twice a b x) d.0,
  Distinct-map-transpose a b xs d.1,
)

pub Distinct-append :
    (xs ys : List ℕ)
    → Distinct (xs ++ ys)
    → Distinct xs × Distinct ys × ((t : ℕ) → member t xs ≡ true → member t ys ≡ false)
Distinct-append [] ys d = (tt, d, λ t h. cc)
Distinct-append (x ∷ xs) ys d =
    let (p, q, apart) = Distinct-append xs ys d.1 in
    (
      (ground (arith, member-append x xs ys, d.0), p),
      q,
      λ t h. ground (arith, member-append x xs ys, d.0, apart t),
    )

pub Distinct-both :
    (xs ys : List ℕ)
    → Distinct xs
    → Distinct ys
    → ((t : ℕ) → member t ys ≡ true → member t xs ≡ false)
    → Distinct (xs ++ ys)
Distinct-both [] ys p q apart = q
Distinct-both (x ∷ xs) ys p q apart = (
  ground (arith, member-append x xs ys, p.0, apart x),
  Distinct-both xs ys p.1 q (λ t m. ground (arith, apart t m)),
)
