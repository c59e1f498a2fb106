-- ===== src/Reactor/Topology/Validation/Ordered.antt =====
-- The order of a topology whose connections `validate` in crates/torvyn-reactor/src/topology.rs took.
use torvyn.Common.{
  ℕ, zero, suc, ◌+◌, ◌<◌, ◌≡◌, ◌≢◌, ap, subst, inl, inr, some, Option, List, [], ◌∷◌, arith, length,
  returns, index_cases,
}
use torvyn.Common.Counts.{
  get_or, get_or-replicate, lt-length_of_get_or, count, count-full, count-missing,
}
use torvyn.Reactor.Topology.{StreamConnection, FlowTopology, topological_order, roots, kahn}
use torvyn.Reactor.Topology.Fuel.{total, total-replicate, length-roots, add_connections-total}
use torvyn.Reactor.Topology.Order.{IsPending, Sorts}
use torvyn.Reactor.Topology.Validation.{Adjacency, no_edges}
use torvyn.Reactor.Topology.Validation.Entry.{HasEdge, Joins, IsConnected}
use torvyn.Reactor.Topology.Validation.Visits.{count-roots, roots-IsPending}
use torvyn.Reactor.Scheduling.Build.{AreJoined}
use torvyn.Reactor.Topology.Validation.Spec.{Walk, IsOrder}

pub Joins-lt :
    (n : ℕ) (connections : List StreamConnection) (u v : ℕ)
    → AreJoined n connections
    → Joins connections u v
    → (u < n) × (v < n)
unfolding AreJoined
Joins-lt n [] u v j (k, conn, at, f, t) = absurd (ground (arith, at))
Joins-lt n (c ∷ connections) u v (a, b, rest) (zero, conn, at, f, t) =
    (ground (arith, at, f, t, a, b), ground (arith, at, f, t, a, b))
Joins-lt n (c ∷ connections) u v (a, b, rest) (suc k, conn, at, f, t) =
    Joins-lt n connections u v rest (k, conn, at, f, t)

-- The checks after the arrays of a topology are filled.
module _ (t : FlowTopology) (e : Adjacency)
    (w : IsConnected (length t.stages) (no_edges (length t.stages)) t.connections e) where
  pub edge_of : (u v : ℕ) → HasEdge e.edges.out_edges u v → Joins t.connections u v
  unfolding count
  edge_of u v h = elim (w.only u v h) [
    | inl before ↦
        absurd (ground (arith, before, ap (count v) (get_or-replicate (length t.stages) u [])))
    | inr joins ↦ joins
  ]

  pub edge_in :
      (u v : ℕ) → Joins t.connections u v → HasEdge e.edges.out_edges u v × HasEdge e.in_edges v u
  edge_in u v (k, conn, at, f, to) =
      subst (λ x. HasEdge e.edges.out_edges x v × HasEdge e.in_edges v x) f
        (subst
          (λ x. HasEdge e.edges.out_edges conn.from_stage x × HasEdge e.in_edges x conn.from_stage)
          to (w.entered k conn at))

  pub pending :
      IsPending e.edges.out_edges e.edges.out_edges e.edges.in_degree (roots 0 e.edges.in_degree)
  pending = roots-IsPending (length t.stages) e w.counted

  -- The rounds that the loop is given are enough.
  pub enough_rounds :
      total e.edges.in_degree + length (roots 0 e.edges.in_degree)
      < suc (length t.stages + length t.connections)
  enough_rounds =
      let n = length t.stages in
      let (sum, len) = add_connections-total (no_edges n).edges t.connections e.edges w.same in
      omega
        (arith, sum, total-replicate n, w.counted.degrees_length, length-roots 0 e.edges.in_degree)

  pub found_order :
      (found : Option (List ℕ))
      → kahn
          (suc (length t.stages + length t.connections))
          e.edges.out_edges
          e.edges.in_degree
          (roots 0 e.edges.in_degree)
        ≡ returns found
      → topological_order t ≡ returns found
  unfolding topological_order
  found_order found run = rw w.same run

  module _ (order : List ℕ)
      (s : Sorts e.edges.out_edges e.edges.in_degree (roots 0 e.edges.in_degree) order) where
    order_within : (i : ℕ) → 0 < count i order → i < length t.stages
    order_within i h = elim (index_cases (get_or e.edges.in_degree i 0) 0) [
      | inl zero_degree ↦ omega (
        arith,
        (pending.ready i (omega (arith, s.listed i h, zero_degree))).1,
        w.counted.out_length,
      )
      | inr positive ↦ omega (
        arith,
        lt-length_of_get_or e.edges.in_degree i (omega (arith, positive)),
        w.counted.degrees_length,
      )
    ]

    pub full-IsOrder :
        topological_order t ≡ returns (some order)
        → length order ≡ length t.stages
        → IsOrder t order
    full-IsOrder found full =
        let listed = count-full (length t.stages) order s.once order_within full in
        record {
          found = found;
          listed = listed;
          within = order_within;
          sorted = λ u v j.
              s.sorted u v
                (omega
                  (arith, listed v (Joins-lt (length t.stages) t.connections u v w.joined j).1))
                (edge_in u v j).0;
        }

    stuck-Walk : (m v : ℕ) → v < length t.stages → count v order ≡ 0 → Walk t.connections m v
    stuck-Walk zero v lt z = tt
    stuck-Walk (suc m) v lt z =
        let (u, edge, z') =
          s.stuck v
            (ground
              (arith, z, lt, s.queued v, count-roots v e.edges.in_degree, w.counted.degrees_length))
            z in
        let j = edge_of u v edge in
        (u, j, stuck-Walk m u (Joins-lt (length t.stages) t.connections u v w.joined j).0 z')

    pub missing_walks :
        length order ≢ length t.stages
        → (m : ℕ) → (i : ℕ) × (i < length t.stages) × Walk t.connections m i
    missing_walks fewer m =
        let (i, lt, z) = count-missing (length t.stages) order s.once order_within fewer in
        (i, lt, stuck-Walk m i lt z)
