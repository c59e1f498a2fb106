-- ===== src/Security/Capabilities/Parser/Pieces.antt =====
-- Texts that are joined and split again, for `from_str` of crates/torvyn-security/src/capability.rs.
use mathlib.Core.List.{append_assoc}
use torvyn.Common.{
  ℕ, ◌≡◌, refl, ap, ◌∙◌, Bool, true, false, not, ◌&&◌, none, some, List, [], ◌∷◌, ◌++◌, ◌==◌, leb,
  arith, Text, all,
}
use torvyn.Security.Capabilities.Display.{join}
use torvyn.Security.Capabilities.Parser.{split_once, split_last, split, onto_first}

-- The text does not hold a character.
abbrev pub Lacks : ℕ → Text → Type 0
Lacks c s = all (λ d. not (d == c)) s ≡ true

abbrev pub is_digit : ℕ → Bool
is_digit c = leb b'0' c && leb c b'9'

pub all_mono :
    (p q : ℕ → Bool) (s : Text)
    → ((c : ℕ) → p c ≡ true → q c ≡ true)
    → all p s ≡ true
    → all q s ≡ true
unfolding all
all_mono p q [] h a = refl
all_mono p q (c ∷ s) h a = ground (arith, h c, all_mono p q s h)

pub all-append : (p : ℕ → Bool) (s t : Text) → all p (s ++ t) ≡ (all p s && all p t)
unfolding all
all-append p [] t = refl
all-append p (c ∷ s) t = ground (arith, all-append p s t)

pub split_once-none : (c : ℕ) (s : Text) → Lacks c s → split_once c s ≡ none
unfolding split_once all
split_once-none c [] h = refl
split_once-none c (d ∷ s) h =
    let differs : (d == c) ≡ false = ground (arith, h) in
    let rest = split_once-none c s (ground (arith, h)) in rw (differs, rest) refl

pub split_once-append : (c : ℕ) (s t : Text) → Lacks c s → split_once c (s ++ c ∷ t) ≡ some (s, t)
unfolding split_once all
split_once-append c [] t h = let same : (c == c) ≡ true = ground arith in rw same refl
split_once-append c (d ∷ s) t h =
    let differs : (d == c) ≡ false = ground (arith, h) in
    let rest = split_once-append c s t (ground (arith, h)) in rw (differs, rest) refl

pub split_last-none : (c : ℕ) (s : Text) → Lacks c s → split_last c s ≡ none
unfolding split_last all
split_last-none c [] h = refl
split_last-none c (d ∷ s) h =
    let differs : (d == c) ≡ false = ground (arith, h) in
    let rest = split_last-none c s (ground (arith, h)) in rw (rest, split_last, differs) refl

pub split_last-append : (c : ℕ) (s t : Text) → Lacks c t → split_last c (s ++ c ∷ t) ≡ some (s, t)
unfolding split_last
split_last-append c [] t h =
    let same : (c == c) ≡ true = ground arith in
    let rest = split_last-none c t h in rw (rest, split_last, same) refl
split_last-append c (d ∷ s) t h = let rest = split_last-append c s t h in rw (rest, split_last) refl

split-none : (c : ℕ) (s : Text) → Lacks c s → split c s ≡ s ∷ []
unfolding split all onto_first
split-none c [] h = refl
split-none c (d ∷ s) h =
    let differs : (d == c) ≡ false = ground (arith, h) in
    let rest = split-none c s (ground (arith, h)) in rw (differs, rest) refl

split-append : (c : ℕ) (s t : Text) → Lacks c s → split c (s ++ c ∷ t) ≡ s ∷ split c t
unfolding split all onto_first
split-append c [] t h = let same : (c == c) ≡ true = ground arith in rw same refl
split-append c (d ∷ s) t h =
    let differs : (d == c) ≡ false = ground (arith, h) in
    let rest = split-append c s t (ground (arith, h)) in rw (differs, rest) refl

abbrev pub AllLack : ℕ → List Text → Type 0
AllLack c [] = Unit {0}
AllLack c (s ∷ texts) = Lacks c s × AllLack c texts

-- Texts without the separator come back from the text that joins them.
pub split-join :
    (c : ℕ) (s : Text) (texts : List Text)
    → AllLack c (s ∷ texts)
    → split c (join (c ∷ []) (s ∷ texts)) ≡ s ∷ texts
unfolding join
split-join c s [] h = split-none c s h.0
split-join c s (t ∷ texts) h =
    ap (split c) (append_assoc s (c ∷ []) (join (c ∷ []) (t ∷ texts)))
    ∙ split-append c s (join (c ∷ []) (t ∷ texts)) h.0
    ∙ ap (◌∷◌ s) (split-join c t texts h.1)
