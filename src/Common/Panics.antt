-- ===== src/Common/Panics.antt =====
-- What a Rust call can do that the source does not catch: return a value, or panic.

use mathlib.Core.Path.{◌≡◌, refl}
use mathlib.Core.Option.{Option, none, some}
use native.Mathlib.Omega.{arith}

pub data Run {ℓ} (A : Type ℓ) : Type ℓ where
  returns : A → Run A
  panics : Run A

infixl 5 ◌>>=◌
abbrev pub ◌>>=◌ {ℓ κ} : {A : Type ℓ} {B : Type κ} → Run A → (A → Run B) → Run B
returns a >>= f = f a
panics >>= f = panics

-- `expect`, and indexing: a missing value is a panic.
abbrev pub expect {ℓ} : {A : Type ℓ} → Option A → Run A
expect none = panics
expect (some a) = returns a

-- A composition that returns ran both parts.
pub bind_returns :
    {A B : Type 0} (r : Run A) (f : A → Run B) (b : B)
    → (r >>= f) ≡ returns b
    → (a : A) × (r ≡ returns a) × (f a ≡ returns b)
bind_returns (returns a) f b h = (a, refl, h)
bind_returns panics f b h = absurd (ground (arith, h))

pub expect-some : {A : Type 0} (o : Option A) (a : A) → expect o ≡ returns a → o ≡ some a
expect-some none a h = absurd (ground (arith, h))
expect-some (some b) a h = ground (arith, h)

pub returns_inj : {A : Type 0} (a b : A) → returns a ≡ returns b → a ≡ b
returns_inj a b h = cc

-- A run that does not panic.
abbrev pub Returns : {A : Type 0} → Run A → Type 0
Returns {A = A} r = (a : A) × (r ≡ returns a)

pub Returns-bind :
    {A B : Type 0} (r : Run A) (f : A → Run B)
    → Returns r
    → ((a : A) → Returns (f a))
    → Returns (r >>= f)
Returns-bind (returns a) f h k = k a
Returns-bind panics f (a, h) k = absurd (ground (arith, h))
