-- ===== src/Reactor/Topology/Validation/Visits.antt =====
-- The count of Kahn's algorithm in `validate` of crates/torvyn-reactor/src/topology.rs, and the
-- order that `topological_order` makes of the same arrays.
use torvyn.Common.{
  ℕ, zero, suc, ◌+◌, ◌<◌, ◌≡◌, refl, ap, subst, inl, inr, none, some, Option, List, [], ◌∷◌, ◌==◌,
  ltb, ◌&&◌, if◌then◌else◌, arith, length, get_elem?, returns, Option-cases, bind_returns,
  returns_inj, expect,
}
use torvyn.Common.Counts.{get_or, count}
use torvyn.Reactor.Topology.{roots, visit, kahn}
use torvyn.Reactor.Topology.Order.{IsPending}
use torvyn.Reactor.Topology.Validation.{Adjacency, count_visited}
use torvyn.Reactor.Topology.Validation.Entry.{IsCounted}

abbrev pub order_length : Option (List ℕ) → Option ℕ
order_length none = none
order_length (some order) = some (length order)

-- `validate` counts the stages that `topological_order` lists.
pub count_visited-kahn :
    (fuel : ℕ) (out_edges : List (List ℕ)) (degrees queue : List ℕ) (found : Option (List ℕ))
    → kahn fuel out_edges degrees queue ≡ returns found
    → count_visited fuel out_edges degrees queue ≡ returns (order_length found)
unfolding count_visited kahn
count_visited-kahn zero out_edges degrees queue found h =
    ap (λ (o : Option (List ℕ)). returns (order_length o)) (returns_inj none found h)
count_visited-kahn (suc fuel) out_edges degrees [] found h =
    ap (λ (o : Option (List ℕ)). returns (order_length o)) (returns_inj (some []) found h)
count_visited-kahn (suc fuel) out_edges degrees (node ∷ queue) found h =
    let (neighbors, at, h1) = bind_returns (expect (get_elem? out_edges node)) _ _ h in
    let (next, seen, h2) = bind_returns (visit degrees queue neighbors) _ _ h1 in
    let (rest, run, h3) = bind_returns (kahn fuel out_edges next.0 next.1) _ _ h2 in
    let counted = count_visited-kahn fuel out_edges next.0 next.1 rest run in
    rw (at, seen, counted)
      (elim (Option-cases rest) [
        | inl no_fuel ↦ ground (arith, h3, no_fuel)
        | inr (order, got) ↦ ground (arith, h3, got)
      ])

count-roots_low : (v idx : ℕ) (degrees : List ℕ) → v < idx → count v (roots idx degrees) ≡ 0
unfolding count roots
count-roots_low v idx [] h = refl
count-roots_low v idx (d ∷ degrees) h = ground (arith, count-roots_low v (suc idx) degrees)

count-roots_at :
    (idx k : ℕ) (degrees : List ℕ)
    → count (idx + k) (roots idx degrees)
      ≡ (if ltb k (length degrees) && get_or degrees k 0 == 0 then 1 else 0)
unfolding count roots
count-roots_at idx k [] = ground arith
count-roots_at idx zero (d ∷ degrees) = ground (arith, count-roots_low (idx + 0) (suc idx) degrees)
count-roots_at idx (suc k) (d ∷ degrees) =
    let e : suc idx + k ≡ idx + suc k = omega arith in
    ground (
      arith,
      subst
          (λ i.
            count i (roots (suc idx) degrees)
            ≡ (if ltb k (length degrees) && get_or degrees k 0 == 0 then 1 else 0))
          e (count-roots_at (suc idx) k degrees),
    )

pub count-roots :
    (v : ℕ) (degrees : List ℕ)
    → count v (roots 0 degrees)
      ≡ (if ltb v (length degrees) && get_or degrees v 0 == 0 then 1 else 0)
count-roots v degrees =
    subst
      (λ i.
        count i (roots 0 degrees)
        ≡ (if ltb v (length degrees) && get_or degrees v 0 == 0 then 1 else 0))
      (omega arith) (count-roots_at 0 v degrees)

pub roots-IsPending :
    (n : ℕ) (e : Adjacency)
    → IsCounted n e
    → IsPending e.edges.out_edges e.edges.out_edges e.edges.in_degree (roots 0 e.edges.in_degree)
roots-IsPending n e c = record {
  counted = c.counted;
  degrees_length = omega (arith, c.degrees_length, c.out_length);
  live_length = refl;
  once = λ v. ground (arith, count-roots v e.edges.in_degree);
  ready = λ v h. (
    ground (arith, h, count-roots v e.edges.in_degree),
    ground (arith, h, count-roots v e.edges.in_degree, c.degrees_length, c.out_length),
  );
  kept = λ v h. refl;
}
