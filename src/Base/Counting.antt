-- ===== src/Base/Counting.antt =====
-- How often an identity occurs in a list: lists that differ in their order only agree on it.
use rustmux.Base.Tests.{◌==◌, ltb, if◌then◌else◌}
use rustmux.Base.Members.{member, Distinct}
use Prim.Native.Nat.{ℕ, suc, ◌+◌, ◌≤◌}
use mathlib.Core.Path.{◌≡◌, refl}
use mathlib.Core.List.{List, [], ◌∷◌, ◌++◌}
use native.Mathlib.Omega.{arith}

abbrev pub count : ℕ → List ℕ → ℕ
count t [] = 0
count t (x ∷ xs) = let rest = count t xs in if x == t then suc rest else rest

-- The same elements, as often.
abbrev pub SameCounts : List ℕ → List ℕ → Type 0
SameCounts xs ys = (t : ℕ) → count t xs ≡ count t ys

pub member-count : (t : ℕ) (xs : List ℕ) → member t xs ≡ ltb 0 (count t xs)
member-count t [] = refl
member-count t (x ∷ xs) = ground (arith, member-count t xs)

pub count-append : (t : ℕ) (xs ys : List ℕ) → count t (xs ++ ys) ≡ count t xs + count t ys
count-append t [] ys = omega arith
count-append t (x ∷ xs) ys = ground (arith, count-append t xs ys)

count-le-one : (xs : List ℕ) → Distinct xs → (t : ℕ) → count t xs ≤ 1
count-le-one [] d t = omega arith
count-le-one (x ∷ xs) d t = ground (arith, count-le-one xs d.1 t, member-count t xs, d.0)

Distinct-of_count : (xs : List ℕ) → ((t : ℕ) → count t xs ≤ 1) → Distinct xs
Distinct-of_count [] h = tt
Distinct-of_count (x ∷ xs) h =
    (ground (arith, h x, member-count x xs), Distinct-of_count xs (λ t. ground (arith, h t)))

pub member-SameCounts : (xs ys : List ℕ) → SameCounts xs ys → (t : ℕ) → member t xs ≡ member t ys
member-SameCounts xs ys same t = rw (member-count t xs, member-count t ys, same t)

pub Distinct-SameCounts : (xs ys : List ℕ) → SameCounts xs ys → Distinct ys → Distinct xs
Distinct-SameCounts xs ys same d =
    Distinct-of_count xs (λ t. ground (arith, same t, count-le-one ys d t))
