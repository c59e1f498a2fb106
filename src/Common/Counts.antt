-- ===== src/Common/Counts.antt =====
-- How often an index stands in a list, and reads with a default.
use Prim.Native.Nat.{ℕ, zero, suc, ◌+◌, ◌≤◌, ◌<◌}
use mathlib.Core.Path.{◌≡◌, refl, ap}
use mathlib.Core.Logic.{◌≢◌, inl, inr}
use mathlib.Core.Option.{some}
use mathlib.Core.List.{List, [], ◌∷◌, ◌++◌}
use native.Mathlib.Omega.{arith}
use torvyn.Common.Lists.{length, get_elem?, set, replicate}
use torvyn.Common.Tests.{◌==◌, if◌then◌else◌, ltb, Bool-cases}
use torvyn.Common.Indices.{AllBelow}

module _ {ℓ} {A : Type ℓ} where
  abbrev pub get_or : List A → ℕ → A → A
  get_or [] i d = d
  get_or (x ∷ xs) zero d = x
  get_or (x ∷ xs) (suc i) d = get_or xs i d

  pub get_or-set_self :
      (xs : List A) (i : ℕ) (v d : A) → i < length xs → get_or (set xs i v) i d ≡ v
  get_or-set_self [] i v d h = elim h [ ]
  get_or-set_self (x ∷ xs) zero v d h = refl
  get_or-set_self (x ∷ xs) (suc i) v d h = get_or-set_self xs i v d (omega arith)

  pub get_or-set_ne :
      (xs : List A) (i j : ℕ) (v d : A) → i ≢ j → get_or (set xs i v) j d ≡ get_or xs j d
  get_or-set_ne [] i j v d h = refl
  get_or-set_ne (x ∷ xs) zero zero v d h = absurd (h refl)
  get_or-set_ne (x ∷ xs) zero (suc j) v d h = refl
  get_or-set_ne (x ∷ xs) (suc i) zero v d h = refl
  get_or-set_ne (x ∷ xs) (suc i) (suc j) v d h = get_or-set_ne xs i j v d (λ e. h (ap suc e))

  pub get_elem?-get_or :
      (xs : List A) (i : ℕ) (d : A) → i < length xs → get_elem? xs i ≡ some (get_or xs i d)
  get_elem?-get_or [] i d h = elim h [ ]
  get_elem?-get_or (x ∷ xs) zero d h = refl
  get_elem?-get_or (x ∷ xs) (suc i) d h = get_elem?-get_or xs i d (omega arith)

  pub get_or-some : (xs : List A) (i : ℕ) (a d : A) → get_elem? xs i ≡ some a → get_or xs i d ≡ a
  get_or-some [] i a d h = ground (arith, h)
  get_or-some (x ∷ xs) zero a d h = ground (arith, h)
  get_or-some (x ∷ xs) (suc i) a d h = get_or-some xs i a d h

  pub get_or-replicate : (n i : ℕ) (d : A) → get_or (replicate n d) i d ≡ d
  get_or-replicate zero i d = refl
  get_or-replicate (suc n) zero d = refl
  get_or-replicate (suc n) (suc i) d = get_or-replicate n i d

pub lt-length_of_get_or : (xs : List ℕ) (i : ℕ) → 0 < get_or xs i 0 → i < length xs
lt-length_of_get_or [] i h = absurd (omega arith)
lt-length_of_get_or (x ∷ xs) zero h = omega arith
lt-length_of_get_or (x ∷ xs) (suc i) h = omega (arith, lt-length_of_get_or xs i h)

unfoldable pub count : ℕ → List ℕ → ℕ
count a [] = 0
count a (x ∷ xs) = let rest = count a xs in if x == a then suc rest else rest

pub count-append : (a : ℕ) (xs ys : List ℕ) → count a (xs ++ ys) ≡ count a xs + count a ys
unfolding count
count-append a [] ys = omega arith
count-append a (x ∷ xs) ys = ground (arith, count-append a xs ys)

pub count-AllBelow : (n a : ℕ) (xs : List ℕ) → AllBelow n xs → 0 < count a xs → a < n
unfolding count
count-AllBelow n a [] b h = absurd (omega arith)
count-AllBelow n a (x ∷ xs) (here, there) h = ground (arith, here, count-AllBelow n a xs there)

pub AllBelow-count : (n : ℕ) (xs : List ℕ) → ((a : ℕ) → 0 < count a xs → a < n) → AllBelow n xs
unfolding count
AllBelow-count n [] h = tt
AllBelow-count n (x ∷ xs) h =
    (ground (arith, h x), AllBelow-count n xs (λ a p. ground (arith, h a, p)))

-- The elements of the list below `n`, counted by value.
tally : ℕ → List ℕ → ℕ
tally zero xs = 0
tally (suc n) xs = tally n xs + count n xs

tally-nil : (n : ℕ) → tally n [] ≡ 0
unfolding tally count
tally-nil zero = refl
tally-nil (suc n) = omega (arith, tally-nil n)

tally-cons :
    (n x : ℕ) (xs : List ℕ) → tally n (x ∷ xs) ≡ (if ltb x n then suc (tally n xs) else tally n xs)
unfolding tally count
tally-cons zero x xs = ground arith
tally-cons (suc n) x xs = ground (arith, tally-cons n x xs)

tally-length : (n : ℕ) (xs : List ℕ) → AllBelow n xs → tally n xs ≡ length xs
tally-length n [] b = tally-nil n
tally-length n (x ∷ xs) (here, there) =
    ground (arith, here, tally-cons n x xs, tally-length n xs there)

tally-le : (n : ℕ) (xs : List ℕ) → ((a : ℕ) → count a xs ≤ 1) → tally n xs ≤ n
unfolding tally
tally-le zero xs h = omega arith
tally-le (suc n) xs h = omega (arith, tally-le n xs h, h n)

tally-full :
    (n : ℕ) (xs : List ℕ)
    → ((a : ℕ) → count a xs ≤ 1)
    → tally n xs ≡ n
    → (a : ℕ) → a < n
    → count a xs ≡ 1
unfolding tally
tally-full zero xs h full a lt = absurd (omega arith)
tally-full (suc n) xs h full a lt = elim (Bool-cases (a == n)) [
  | inl last ↦ ground (arith, last, full, tally-le n xs h, h n)
  | inr other ↦
      tally-full n xs h (omega (arith, tally-le n xs h, h n)) a (ground (arith, other, lt))
]

-- `n` indices below `n`, none of them twice, are all the indices below `n`.
pub count-full :
    (n : ℕ) (xs : List ℕ)
    → ((a : ℕ) → count a xs ≤ 1)
    → ((a : ℕ) → 0 < count a xs → a < n)
    → length xs ≡ n
    → (a : ℕ) → a < n
    → count a xs ≡ 1
count-full n xs h below l =
    tally-full n xs h (omega (arith, tally-length n xs (AllBelow-count n xs below), l))

tally-missing :
    (n : ℕ) (xs : List ℕ)
    → ((a : ℕ) → count a xs ≤ 1)
    → tally n xs ≢ n
    → (a : ℕ) × (a < n) × (count a xs ≡ 0)
unfolding tally
tally-missing zero xs h fewer = absurd (fewer refl)
tally-missing (suc n) xs h fewer = elim (Bool-cases (count n xs == 0)) [
  | inl missing ↦ (n, omega arith, ground (arith, missing))
  | inr found ↦
      let (a, lt, missing) = tally-missing n xs h (λ e. fewer (ground (arith, e, h n, found))) in
      (a, omega (arith, lt), missing)
]

-- Where fewer or more are listed, one of the indices below `n` is missing.
pub count-missing :
    (n : ℕ) (xs : List ℕ)
    → ((a : ℕ) → count a xs ≤ 1)
    → ((a : ℕ) → 0 < count a xs → a < n)
    → length xs ≢ n
    → (a : ℕ) × (a < n) × (count a xs ≡ 0)
count-missing n xs h below l =
    tally-missing n xs h (λ e. l (omega (arith, e, tally-length n xs (AllBelow-count n xs below))))
