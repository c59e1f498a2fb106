-- ===== src/Common/Indices.antt =====
-- Lists of distinct indices, such as a free list.
use Prim.Native.Nat.{ℕ, zero, suc, ◌+◌, ◌≤◌, ◌<◌}
use mathlib.Core.Path.{◌≡◌, refl, ap, subst}
use mathlib.Core.Logic.{◌≢◌, inl, inr}
use mathlib.Core.Option.{some}
use mathlib.Core.List.{List, [], ◌∷◌}
use native.Mathlib.Omega.{arith}
use torvyn.Common.Lists.{length, get_elem?}
use torvyn.Common.Tests.{◌==◌, ==_iff, if◌then◌else◌, Bool-cases}

abbrev pub Misses : ℕ → List ℕ → Type 0
Misses i [] = Unit {0}
Misses i (j ∷ free) = (i ≢ j) × Misses i free

abbrev pub Distinct : List ℕ → Type 0
Distinct [] = Unit {0}
Distinct (i ∷ free) = Misses i free × Distinct free

-- The `n` indices from `i` on.
abbrev pub range : ℕ → ℕ → List ℕ
range i zero = []
range i (suc n) = i ∷ range (i + 1) n

pub length-range : (i n : ℕ) → length (range i n) ≡ n
length-range i zero = refl
length-range i (suc n) = ap suc (length-range (i + 1) n)

pub Misses-range : (j i n : ℕ) → j < i → Misses j (range i n)
Misses-range j i zero h = tt
Misses-range j i (suc n) h = (omega arith, Misses-range j (i + 1) n (omega arith))

pub Distinct-range : (i n : ℕ) → Distinct (range i n)
Distinct-range i zero = tt
Distinct-range i (suc n) = (Misses-range i (i + 1) n (omega arith), Distinct-range (i + 1) n)

abbrev pub AllBelow : ℕ → List ℕ → Type 0
AllBelow n [] = Unit {0}
AllBelow n (i ∷ is) = (i < n) × AllBelow n is

pub AllBelow-range : (m i n : ℕ) → i + n ≤ m → AllBelow m (range i n)
AllBelow-range m i zero h = tt
AllBelow-range m i (suc n) h = (omega arith, AllBelow-range m (i + 1) n (omega arith))

without : ℕ → List ℕ → List ℕ
without k [] = []
without k (i ∷ is) = let rest = without k is in if i == k then rest else i ∷ rest

without-Misses : (k i : ℕ) (is : List ℕ) → Misses i is → Misses i (without k is)
unfolding without
without-Misses k i [] m = tt
without-Misses k i (j ∷ is) m = ground (arith, without-Misses k i is m.1)

without-Distinct : (k : ℕ) (is : List ℕ) → Distinct is → Distinct (without k is)
unfolding without
without-Distinct k [] d = tt
without-Distinct k (i ∷ is) d = ground (arith, without-Distinct k is d.1, without-Misses k i is d.0)

without-AllBelow : (k : ℕ) (is : List ℕ) → AllBelow (suc k) is → AllBelow k (without k is)
unfolding without
without-AllBelow k [] b = tt
without-AllBelow k (i ∷ is) b = ground (arith, without-AllBelow k is b.1)

length-without_missing : (k : ℕ) (is : List ℕ) → Misses k is → length (without k is) ≡ length is
unfolding without
length-without_missing k [] m = refl
length-without_missing k (i ∷ is) m = ground (arith, length-without_missing k is m.1)

length-without : (k : ℕ) (is : List ℕ) → Distinct is → length is ≤ suc (length (without k is))
unfolding without
length-without k [] d = omega arith
length-without k (i ∷ is) d = elim (Bool-cases (i == k)) [
  | inl same ↦ rw same (
      omega
        (arith, length-without_missing k is (subst (λ j. Misses j is) ((==_iff i k).0 same) d.0)))
  | inr other ↦ rw other (omega (arith, length-without k is d.1))
]

-- There are at most `n` distinct indices below `n`.
pub length-Distinct-le : (n : ℕ) (is : List ℕ) → Distinct is → AllBelow n is → length is ≤ n
length-Distinct-le zero [] d b = omega arith
length-Distinct-le zero (i ∷ is) d b = absurd (omega (arith, b.0))
length-Distinct-le (suc n) is d b = omega (
  arith,
  length-without n is d,
  length-Distinct-le n (without n is) (without-Distinct n is d) (without-AllBelow n is b),
)

-- The indices of the lists are below a bound.
abbrev pub AllIn : ℕ → List (List ℕ) → Type 0
AllIn n [] = Unit {0}
AllIn n (l ∷ lists) = AllBelow n l × AllIn n lists

list_inj : (a b : List ℕ) → some a ≡ some b → a ≡ b
list_inj a b h = cc

pub AllIn-get :
    (n i : ℕ) (lists : List (List ℕ)) (l : List ℕ)
    → AllIn n lists
    → get_elem? lists i ≡ some l
    → AllBelow n l
AllIn-get n i [] l a h = absurd (ground arith)
AllIn-get n zero (l' ∷ lists) l (here, there) h = subst (AllBelow n) (list_inj l' l h) here
AllIn-get n (suc i) (l' ∷ lists) l (here, there) h = AllIn-get n i lists l there h
