-- ===== src/Reactor/Topology/Kahn.antt =====
-- What the loop of Kahn's algorithm in crates/torvyn-reactor/src/topology.rs computes.
use torvyn.Common.{
  ℕ, zero, suc, ◌+◌, ◌≤◌, ◌<◌, ◌≡◌, refl, ap, subst, ◌∙◌, inl, inr, some, List, [], ◌∷◌, ◌++◌, ◌==◌,
  if◌then◌else◌, arith, length, length-set, length-append, get_elem?, set, returns, index_cases,
}
use torvyn.Common.Counts.{
  get_or, get_or-set_self, get_or-set_ne, get_elem?-get_or, lt-length_of_get_or, count,
  count-append,
}
use torvyn.Reactor.Topology.{visit}
use torvyn.Reactor.Topology.Fuel.{total, total-set}

-- How many edges lead to a stage.
unfoldable pub incoming : ℕ → List (List ℕ) → ℕ
incoming v [] = 0
incoming v (targets ∷ live) = count v targets + incoming v live

pub incoming-set :
    (v u : ℕ) (targets : List ℕ) (live : List (List ℕ))
    → u < length live
    → incoming v (set live u targets) + count v (get_or live u [])
      ≡ incoming v live + count v targets
unfolding incoming
incoming-set v u targets [] h = elim h [ ]
incoming-set v zero targets (l ∷ live) h = omega arith
incoming-set v (suc u) targets (l ∷ live) h =
    omega (arith, incoming-set v u targets live (omega arith))

pub incoming-pos :
    (v : ℕ) (live : List (List ℕ))
    → 0 < incoming v live
    → (u : ℕ) × (0 < count v (get_or live u []))
unfolding incoming
incoming-pos v [] h = elim h [ ]
incoming-pos v (l ∷ live) h = elim (index_cases (count v l) 0) [
  | inl none_here ↦ let (u, p) = incoming-pos v live (omega arith) in (suc u, p)
  | inr here ↦ (0, omega arith)
]

pub incoming-count : (v u : ℕ) (live : List (List ℕ)) → count v (get_or live u []) ≤ incoming v live
unfolding incoming count
incoming-count v u [] = omega arith
incoming-count v zero (l ∷ live) = omega arith
incoming-count v (suc u) (l ∷ live) = omega (arith, incoming-count v u live)

-- One, for a stage that has edges here and none elsewhere.
unfoldable pub joins : ℕ → ℕ → ℕ
joins here elsewhere = if elsewhere == 0 then (if here == 0 then 0 else 1) else 0

queued_again :
    (v w : ℕ) (queue neighbors : List ℕ) (elsewhere : ℕ → ℕ)
    → count v (if count w neighbors + elsewhere w == 0 then queue ++ w ∷ [] else queue)
        + joins (count v neighbors) (elsewhere v)
      ≡ count v queue + joins (count v (w ∷ neighbors)) (elsewhere v)
unfolding joins count
queued_again v w queue neighbors elsewhere = elim (index_cases w v) [
  | inl same ↦ rw same (elim (index_cases (count v neighbors + elsewhere v) 0) [
    | inl last ↦ ground (arith, last, count-append v queue (v ∷ []))
    | inr more ↦ ground (arith, more)
  ])
  | inr other ↦ elim (index_cases (count w neighbors + elsewhere w) 0) [
    | inl last ↦ ground (arith, last, other, count-append v queue (w ∷ []))
    | inr more ↦ ground (arith, more, other)
  ]
]

-- Where the in-degrees count the edges from a stage and the edges from elsewhere, the visit does not
-- panic, leaves the count of those from elsewhere, and queues each stage that has no more, without
-- raising the bound on the loop.
pub visit-settles :
    (degrees queue neighbors : List ℕ) (elsewhere : ℕ → ℕ)
    → ((v : ℕ) → get_or degrees v 0 ≡ count v neighbors + elsewhere v)
    → (next : List ℕ × List ℕ) × (visit degrees queue neighbors ≡ returns next)
      × (length next.0 ≡ length degrees)
      × ((v : ℕ) → get_or next.0 v 0 ≡ elsewhere v)
      × ((v : ℕ) → count v next.1 ≡ count v queue + joins (count v neighbors) (elsewhere v))
      × (total next.0 + length next.1 ≤ total degrees + length queue)
unfolding visit count joins
visit-settles degrees queue [] elsewhere h =
    ((degrees, queue), refl, refl, λ v. omega (arith, h v), λ v. ground arith, omega arith)
visit-settles degrees queue (w ∷ neighbors) elsewhere h =
    let left : ℕ = count w neighbors + elsewhere w in
    let value : get_or degrees w 0 ≡ suc left = ground (arith, h w) in
    let inside = lt-length_of_get_or degrees w (omega (arith, value)) in
    let at : get_elem? degrees w ≡ some (suc left) =
      get_elem?-get_or degrees w 0 inside ∙ ap some value in
    let longer : List ℕ = if left == 0 then queue ++ w ∷ [] else queue in
    let lowered : (v : ℕ) → get_or (set degrees w left) v 0 ≡ count v neighbors + elsewhere v = λ v.
      elim (index_cases w v) [
        | inl same ↦
            subst (λ x. get_or (set degrees w left) x 0 ≡ count x neighbors + elsewhere x) same
              (get_or-set_self degrees w left 0 inside)
        | inr other ↦ get_or-set_ne degrees w v left 0 other ∙ ground (arith, other, h v)
      ] in
    let (next, run, len, settled, queued, bounded) =
      visit-settles (set degrees w left) longer neighbors elsewhere lowered in
    (
      next,
      rw at run,
      len ∙ length-set degrees w left,
      settled,
      λ v. queued v ∙ queued_again v w queue neighbors elsewhere,
      ground (arith, bounded, total-set degrees w (suc left) left at, length-append queue (w ∷ [])),
    )
