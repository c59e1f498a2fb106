-- ===== src/Contracts/Compatibility/Breaks.antt =====
-- Which comparisons of crates/torvyn-contracts/src/compatibility.rs note a breaking change.
use torvyn.Common.{
  ◌≡◌, refl, ◌↔◌, inl, inr, true, false, Option, none, some, List, [], ◌∷◌, ◌++◌, arith, Text,
  same_text, same_text_iff, any, Bool-cases,
}
use torvyn.Contracts.Package.{Entries, find}
use torvyn.Contracts.Compatibility.{
  ChangeEntry, is_breaking, each, unless_there, if_there, each_name,
}
use torvyn.Contracts.Compatibility.Keeps.{AllEntries, Kept, IsThere, Among, AllAmong}

-- No change of the list is breaking.
abbrev pub IsCalm : List ChangeEntry → Type 0
IsCalm changes = any is_breaking changes ≡ false

pub IsCalm-append : (xs ys : List ChangeEntry) → IsCalm (xs ++ ys) ↔ (IsCalm xs × IsCalm ys)
unfolding any
IsCalm-append [] ys = (λ h. (refl, h), λ h. h.1)
IsCalm-append (x ∷ xs) ys = ground (arith, IsCalm-append xs ys)

module _ {V W : Type 0} (f : Text → V → Option W → List ChangeEntry) where
  pub each-IsCalm :
      (P : Text → V → Option W → Type 0)
      → ((k : Text) (v : V) (o : Option W) → IsCalm (f k v o) ↔ P k v o)
      → (m : Entries V) (other : Entries W)
      → IsCalm (each f m other) ↔ AllEntries (λ k v. P k v (find k other)) m
  unfolding each any
  each-IsCalm P h [] other = (λ _. tt, λ _. refl)
  each-IsCalm P h ((k, v) ∷ m) other =
      let split = IsCalm-append (f k v (find k other)) (each f m other) in
      let here = h k v (find k other) in
      let there = each-IsCalm P h m other in
      (
        λ calm. let (a, b) = split.0 calm in (here.0 a, there.0 b),
        λ all. split.1 (here.1 all.0, there.1 all.1),
      )

  pub each-silent :
      ((k : Text) (v : V) (o : Option W) → IsCalm (f k v o))
      → (m : Entries V) (other : Entries W) → IsCalm (each f m other)
  unfolding each any
  each-silent h [] other = refl
  each-silent h ((k, v) ∷ m) other =
      (IsCalm-append (f k v (find k other)) (each f m other)).1
        (h k v (find k other), each-silent h m other)

-- A value is as it has to be, where it is there.
abbrev pub IfThere : {V W : Type 0} → (V → W → Type 0) → V → Option W → Type 0
IfThere P v none = Unit {0}
IfThere P v (some w) = P v w

module _ {V W : Type 0} where
  pub unless_there-IsCalm :
      (entry : Text → ChangeEntry)
      → ((k : Text) → is_breaking (entry k) ≡ true)
      → (k : Text) (v : V) (o : Option W) → IsCalm (unless_there entry k v o) ↔ IsThere o
  unfolding unless_there any
  unless_there-IsCalm entry b k v none = (λ h. ground (arith, h, b k), λ h. absurd h)
  unless_there-IsCalm entry b k v (some w) = (λ h. tt, λ h. refl)

  pub unless_there-silent :
      (entry : Text → ChangeEntry)
      → ((k : Text) → is_breaking (entry k) ≡ false)
      → (k : Text) (v : V) (o : Option W) → IsCalm (unless_there entry k v o)
  unfolding unless_there any
  unless_there-silent entry b k v none = ground (arith, b k)
  unless_there-silent entry b k v (some w) = refl

  pub if_there-IsCalm :
      (f : Text → V → W → List ChangeEntry) (P : V → W → Type 0)
      → ((k : Text) (v : V) (w : W) → IsCalm (f k v w) ↔ P v w)
      → (k : Text) (v : V) (o : Option W) → IsCalm (if_there f k v o) ↔ IfThere P v o
  unfolding if_there any
  if_there-IsCalm f P h k v none = (λ _. tt, λ _. refl)
  if_there-IsCalm f P h k v (some w) = h k v w

  pub Kept-parts :
      (P : V → W → Type 0) (m : Entries V) (other : Entries W)
      → (AllEntries (λ k v. IsThere (find k other)) m
          × AllEntries (λ k v. IfThere P v (find k other)) m)
        ↔ AllEntries (λ k v. Kept P v (find k other)) m
  Kept-parts P [] other = (λ _. tt, λ _. (tt, tt))
  Kept-parts P ((k, v) ∷ m) other =
      let rest = Kept-parts P m other in
      (
        λ h. (both (find k other) h.0.0 h.1.0, rest.0 (h.0.1, h.1.1)),
        λ h.
            let (a, b) = rest.1 h.1 in
            ((there (find k other) h.0, a), (kept (find k other) h.0, b)),
      )
    where
      both : (o : Option W) → IsThere o → IfThere P v o → Kept P v o
      both none t i = absurd t
      both (some w) t i = i

      there : (o : Option W) → Kept P v o → IsThere o
      there none q = absurd q
      there (some w) q = tt

      kept : (o : Option W) → Kept P v o → IfThere P v o
      kept none q = absurd q
      kept (some w) q = q

any-Among :
    (name : Text) (others : List Text)
    → (any (λ other. same_text other name) others ≡ true) ↔ Among name others
unfolding any
any-Among name [] = (λ h. ground (arith, h), λ h. absurd h)
any-Among name (other ∷ others) =
    let here = same_text_iff other name in
    let there = any-Among name others in
    elim (Bool-cases (same_text other name)) [
      | inl same ↦ (λ h. inl (here.0 same), λ h. ground (arith, same))
      | inr differs ↦ (
        λ h. inr (there.0 (ground (arith, h, differs))),
        λ h. elim h [ inl e ↦ ground (arith, here.1 e) | inr a ↦ ground (arith, there.1 a) ],
      )
    ]

pub each_name-IsCalm :
    (entry : Text → ChangeEntry)
    → ((k : Text) → is_breaking (entry k) ≡ true)
    → (names others : List Text) → IsCalm (each_name entry names others) ↔ AllAmong names others
unfolding each_name any
each_name-IsCalm entry b [] others = (λ _. tt, λ _. refl)
each_name-IsCalm entry b (name ∷ names) others =
    let among = any-Among name others in
    let rest = each_name-IsCalm entry b names others in
    elim (Bool-cases (any (λ other. same_text other name) others)) [
      | inl found ↦ rw found ((λ h. (among.0 found, rest.0 h)), (λ h. rest.1 h.1))
      | inr missing ↦
          rw missing ((λ h. ground (arith, h, b name)), (λ h. ground (arith, among.1 h.0, missing)))
    ]

pub each_name-silent :
    (entry : Text → ChangeEntry)
    → ((k : Text) → is_breaking (entry k) ≡ false)
    → (names others : List Text) → IsCalm (each_name entry names others)
unfolding each_name any
each_name-silent entry b [] others = refl
each_name-silent entry b (name ∷ names) others =
    ground (arith, b name, each_name-silent entry b names others)
