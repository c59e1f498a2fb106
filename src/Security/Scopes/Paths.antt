-- ===== src/Security/Scopes/Paths.antt =====
-- The file scopes of crates/torvyn-security/src/capability.rs.
use torvyn.Common.{
  true, [], ◌∷◌, ◌++◌, length, ◌≡◌, refl, sym, ap, subst, ◌∙◌, ◌≢◌, ◌⊎◌, ◌↔◌, inl, inr, arith,
  Bool-cases, Option-cases, ◌&&◌, Text, codes, same_text, same_text_iff, strip_prefix,
  strip_prefix_iff,
}
use mathlib.Core.List.{append_assoc}
use torvyn.Security.Scopes.{PathScope, slash_at, starts_with, contains_path, contains_path_scope}

slash_at-append : (p rest : Text) → slash_at (p ++ rest) (length p) ≡ slash_at rest 0
unfolding slash_at
slash_at-append [] rest = refl
slash_at-append (c ∷ p) rest = slash_at-append p rest

slash_first : (s : Text) → slash_at s 0 ≡ true → (rest : Text) × (s ≡ b'/' ∷ rest)
unfolding slash_at
slash_first [] h = absurd (ground arith)
slash_first (c ∷ rest) h = (rest, ground arith)

below_iff :
    (root path : Text)
    → ((starts_with root path && slash_at path (length root)) ≡ true)
      ↔ ((rest : Text) × (path ≡ root ++ b'/' ∷ rest))
unfolding starts_with slash_at
below_iff root path = (
  (λ h. elim (Option-cases (strip_prefix root path)) [
    | inl none_found ↦ absurd (ground (arith, h, none_found))
    | inr (rest, found) ↦
        let at = (strip_prefix_iff root path rest).0 found in
        let slash : slash_at rest 0 ≡ true =
          sym (slash_at-append root rest)
          ∙ ap (λ t. slash_at t (length root)) (sym at)
          ∙ ground (arith, h) in
        let (more, split) = slash_first rest slash in
        (more, at ∙ ap (λ (t : Text). root ++ t) split)
  ]),
  (λ (rest, at).
      let found = (strip_prefix_iff root path (b'/' ∷ rest)).1 at in
      let slash : slash_at path (length root) ≡ true =
        ap (λ t. slash_at t (length root)) at ∙ slash_at-append root (b'/' ∷ rest) in
      ground (arith, found, slash)),
)

-- A path is in a scope exactly when the scope is the whole file system, or the path is the root of the
-- scope, or it goes on from the root behind a slash.
pub contains_path_iff :
    (scope : PathScope) (path : Text)
    → (contains_path scope path ≡ true) ↔ (
        (path ≡ scope.root)
        ⊎ ((scope.root ≡ codes "/") ⊎ ((rest : Text) × (path ≡ scope.root ++ b'/' ∷ rest))))
unfolding contains_path
contains_path_iff scope path = (
  (λ h. elim (Bool-cases (same_text path scope.root)) [
    | inl same ↦ inl ((same_text_iff path scope.root).0 same)
    | inr differs ↦ elim (Bool-cases (same_text scope.root (codes "/"))) [
      | inl whole ↦ inr (inl ((same_text_iff scope.root (codes "/")).0 whole))
      | inr part ↦ inr (inr ((below_iff scope.root path).0 (ground (arith, h, differs, part))))
    ]
  ]),
  (λ h. elim h [
    | inl same ↦ ground (arith, (same_text_iff path scope.root).1 same)
    | inr (inl whole) ↦ ground (arith, (same_text_iff scope.root (codes "/")).1 whole)
    | inr (inr below) ↦ ground (arith, (below_iff scope.root path).1 below)
  ]),
)

longer : (rest below : Text) → codes "/" ≢ b'/' ∷ rest ++ b'/' ∷ below
longer [] below h = ground (arith, h)
longer (c ∷ rest) below h = ground (arith, h)

root_is_whole :
    (s : PathScope) (rest : Text)
    → s.root ≡ b'/' ∷ rest
    → contains_path s (codes "/") ≡ true
    → s.root ≡ codes "/"
root_is_whole s rest absolute c = elim ((contains_path_iff s (codes "/")).0 c) [
  | inl same ↦ sym same
  | inr (inl whole) ↦ whole
  | inr (inr (below, at)) ↦
      absurd (longer rest below (at ∙ ap (λ (t : Text). t ++ b'/' ∷ below) absolute))
]

-- A file scope with an absolute root that contains another contains every path of it.
pub contains_path_scope_sound :
    (s other : PathScope) (path rest : Text)
    → s.root ≡ b'/' ∷ rest
    → contains_path_scope s other ≡ true
    → contains_path other path ≡ true
    → contains_path s path ≡ true
unfolding contains_path_scope
contains_path_scope_sound s other path rest absolute c h =
    elim ((contains_path_iff other path).0 h) [
      | inl same ↦ subst (λ t. contains_path s t ≡ true) (sym same) c
      | inr (inl whole) ↦ (contains_path_iff s path).1 (
          inr (inl (root_is_whole s rest absolute (subst (λ t. contains_path s t ≡ true) whole c))))
      | inr (inr (below, at)) ↦ elim ((contains_path_iff s other.root).0 c) [
        | inl same ↦
            (contains_path_iff s path).1
              (inr (inr (below, at ∙ ap (λ (t : Text). t ++ b'/' ∷ below) same)))
        | inr (inl all_of_it) ↦ (contains_path_iff s path).1 (inr (inl all_of_it))
        | inr (inr (between, deep)) ↦ (contains_path_iff s path).1 (
            inr (
              inr (
                between ++ b'/' ∷ below,
                at
                    ∙ ap (λ (t : Text). t ++ b'/' ∷ below) deep
                    ∙ append_assoc s.root (b'/' ∷ between) (b'/' ∷ below),
              )))
      ]
    ]
