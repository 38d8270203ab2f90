-- ===== src/Base/Result.antt =====
-- `Result<T, E>`: a computation that may fail with an error of type `E`.
use mathlib.Core.Path.{ap, ◌≡◌, refl, subst}
use mathlib.Core.Logic.{◌≢◌}
use mathlib.Core.Bool.{Bool, true, false}
use mathlib.Core.Option.{Option, none, some}

pub data Result {ℓ} (E : Type 0) (A : Type ℓ) : Type ℓ where
  ok : A → Result E A
  err : E → Result E A

-- `?`: the rest of a function runs on the value, an error returns at once.
infixl 5 ◌>>=◌ ◌>>◌
abbrev pub ◌>>=◌ {ℓ κ} :
    {E : Type 0} {A : Type ℓ} {B : Type κ} → Result E A → (A → Result E B) → Result E B
err failure >>= rest = err failure
ok value >>= rest = rest value

abbrev pub ◌>>◌ {ℓ} : {E : Type 0} {B : Type ℓ} → Result E (Unit {0}) → Result E B → Result E B
check >> rest = check >>= λ done. rest

-- An early `return Err(e)`, taken when the test holds.
abbrev pub fail_if : {E : Type 0} → Bool → E → Result E (Unit {0})
fail_if true e = err e
fail_if false e = ok tt

-- `Option::ok_or`; also `expect` and `unwrap`, with the panic as the error.
abbrev pub ok_or {ℓ} : {E : Type 0} {A : Type ℓ} → Option A → E → Result E A
ok_or (some a) e = ok a
ok_or none e = err e

-- The first step of a chain that succeeds has succeeded.
pub >>=-eq-ok {ℓ κ} :
    {E : Type 0} {A : Type ℓ} {B : Type κ} (first : Result E A) (rest : A → Result E B) {out : B}
    → (first >>= rest) ≡ ok out
    → (value : A) × (first ≡ ok value) × (rest value ≡ ok out)
>>=-eq-ok (err failure) rest h = cc
>>=-eq-ok (ok value) rest h = (value, refl, h)

-- Every successful value satisfies `P`.
abbrev pub Ensures {ℓ κ} : {E : Type 0} {A : Type ℓ} → (A → Type κ) → Result E A → Type κ
Ensures P (ok a) = P a
Ensures P (err e) = Unit

pub ok-injective {ℓ} :
    {E : Type 0} {A : Type ℓ} {a b : A} → ◌≡◌ {A = Result E A} (ok a) (ok b) → a ≡ b
ok-injective h = cc

pub of_ensures {ℓ κ} :
    {E : Type 0} {A : Type ℓ} (P : A → Type κ) (r : Result E A) {a : A}
    → Ensures P r
    → r ≡ ok a
    → P a
of_ensures P (ok b) h e = subst P (ok-injective e) h
of_ensures P (err x) h e = absurd (cc)

-- A chain of steps ensures what its last step does.
pub Ensures->>= {ℓ κ μ} :
    {E : Type 0} {A : Type ℓ} {B : Type κ} (P : B → Type μ) (m : Result E A) (f : A → Result E B)
    → ((a : A) → m ≡ ok a → Ensures P (f a))
    → Ensures P (m >>= f)
Ensures->>= P (ok a) f h = h a refl
Ensures->>= P (err e) f h = tt

pub fail_if-true : {E : Type 0} (e : E) {b : Bool} → b ≡ true → fail_if b e ≡ err e
fail_if-true e h = rw h

pub fail_if-false : {E : Type 0} (e : E) {b : Bool} → b ≡ false → fail_if b e ≡ ok tt
fail_if-false e h = rw h

-- The value of a successful `ok_or`.
pub ok_or-eq-ok :
    {E : Type 0} {A : Type 0} (m : Option A) (e : E) {a : A} → ok_or m e ≡ ok a → m ≡ some a
ok_or-eq-ok none e h = absurd (cc)
ok_or-eq-ok (some b) e h = ap some (ok-injective h)

-- A guard that is passed is known to be false.
pub Ensures-fail_if {ℓ κ} :
    {E : Type 0} {A : Type ℓ} (P : A → Type κ) (b : Bool) (e : E) (rest : Result E A)
    → (b ≡ false → Ensures P rest)
    → Ensures P (fail_if b e >> rest)
Ensures-fail_if P true e rest h = tt
Ensures-fail_if P false e rest h = h refl

-- A result is not the error `bad`.
abbrev pub Avoids {ℓ} : {E : Type 0} {A : Type ℓ} → E → Result E A → Type 0
Avoids bad (ok a) = Unit
Avoids bad (err e) = e ≢ bad

pub Avoids->>= {ℓ κ} :
    {E : Type 0} {A : Type ℓ} {B : Type κ} (bad : E) (m : Result E A) (f : A → Result E B)
    → Avoids bad m
    → ((a : A) → m ≡ ok a → Avoids bad (f a))
    → Avoids bad (m >>= f)
Avoids->>= bad (ok a) f h rest = rest a refl
Avoids->>= bad (err e) f h rest = h

pub Avoids-fail_if {ℓ} :
    {E : Type 0} {A : Type ℓ} (bad : E) (b : Bool) (e : E) (rest : Result E A)
    → e ≢ bad
    → (b ≡ false → Avoids bad rest)
    → Avoids bad (fail_if b e >> rest)
Avoids-fail_if bad true e rest other h = other
Avoids-fail_if bad false e rest other h = h refl

pub Avoids-≢ {ℓ} : {E : Type 0} {A : Type ℓ} (bad : E) (r : Result E A) → Avoids bad r → r ≢ err bad
Avoids-≢ bad (ok a) h e = cc
Avoids-≢ bad (err x) h e = h (cc)

pub Avoids-ok_or {ℓ} :
    {E : Type 0} {A : Type ℓ} (bad : E) (m : Option A) (e : E) → e ≢ bad → Avoids bad (ok_or m e)
Avoids-ok_or bad none e other = other
Avoids-ok_or bad (some a) e other = tt
