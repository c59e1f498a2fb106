-- ===== src/Common/Texts.antt =====
-- Texts as the lists of their bytes, with the tests that the source makes of strings, and tests on the
-- elements of a list.
use Prim.Native.Nat.{ℕ}
use Prim.Native.Char.{code}
use Prim.Native.String.{String}
use mathlib.Core.Path.{◌≡◌, refl, sym, ap}
use mathlib.Core.Logic.{◌↔◌, inl, inr}
use mathlib.Core.Bool.{Bool, true, false, ◌||◌, ◌&&◌}
use mathlib.Core.Option.{Option, none, some}
use mathlib.Core.List.{List, [], ◌∷◌, ◌++◌}
use native.Mathlib.Omega.{arith}
use torvyn.Common.Tests.{◌==◌, if◌then◌else◌, Bool-cases}

abbrev pub Text : Type 0
Text = List ℕ

abbrev pub codes : String → Text
codes String.[] = []
codes (String.◌∷◌ c s) = code c ∷ codes s

unfoldable pub same_text : Text → Text → Bool
same_text [] [] = true
same_text (a ∷ s) (b ∷ t) = a == b && same_text s t
same_text _ _ = false

unfoldable pub strip_prefix : Text → Text → Option Text
strip_prefix [] s = some s
strip_prefix (c ∷ p) [] = none
strip_prefix (c ∷ p) (d ∷ s) = let rest = strip_prefix p s in if c == d then rest else none

unfoldable pub ends_with : Text → Text → Bool
unfolding same_text
ends_with suffix [] = same_text suffix []
ends_with suffix (c ∷ s) = same_text suffix (c ∷ s) || ends_with suffix s

pub same_text_iff : (s t : Text) → (same_text s t ≡ true) ↔ (s ≡ t)
unfolding same_text
same_text_iff [] [] = ((λ h. refl), (λ h. refl))
same_text_iff [] (b ∷ t) = ground arith
same_text_iff (a ∷ s) [] = ground arith
same_text_iff (a ∷ s) (b ∷ t) = ground (arith, same_text_iff s t)

pub strip_prefix_iff : (p s rest : Text) → (strip_prefix p s ≡ some rest) ↔ (s ≡ p ++ rest)
unfolding strip_prefix
strip_prefix_iff [] s rest = ground arith
strip_prefix_iff (c ∷ p) [] rest = ground arith
strip_prefix_iff (c ∷ p) (d ∷ s) rest = ground (arith, strip_prefix_iff p s rest)

pub ends_with-split :
    (suffix s : Text) → ends_with suffix s ≡ true → (front : Text) × (s ≡ front ++ suffix)
unfolding ends_with
ends_with-split suffix [] h = ([], sym ((same_text_iff suffix []).0 h))
ends_with-split suffix (c ∷ s) h = elim (Bool-cases (same_text suffix (c ∷ s))) [
  | inl same ↦ ([], sym ((same_text_iff suffix (c ∷ s)).0 same))
  | inr other ↦
      let (front, at) = ends_with-split suffix s (ground (arith, h, other)) in
      (c ∷ front, ap (◌∷◌ c) at)
]

pub ends_with-append : (front suffix : Text) → ends_with suffix (front ++ suffix) ≡ true
unfolding ends_with same_text
ends_with-append [] [] = refl
ends_with-append [] (c ∷ suffix) = ground (arith, (same_text_iff suffix suffix).1 refl)
ends_with-append (c ∷ front) suffix = ground (arith, ends_with-append front suffix)

module _ {A : Type 0} where
  unfoldable pub any : (A → Bool) → List A → Bool
  any p [] = false
  any p (x ∷ xs) = p x || any p xs

  unfoldable pub all : (A → Bool) → List A → Bool
  all p [] = true
  all p (x ∷ xs) = p x && all p xs

  unfoldable pub filter : (A → Bool) → List A → List A
  filter p [] = []
  filter p (x ∷ xs) = let rest = filter p xs in if p x then x ∷ rest else rest

  pub any_mono :
      (p q : A → Bool) (xs : List A)
      → ((x : A) → p x ≡ true → q x ≡ true)
      → any p xs ≡ true
      → any q xs ≡ true
  unfolding any
  any_mono p q [] h a = a
  any_mono p q (x ∷ xs) h a = ground (arith, h x, any_mono p q xs h)
