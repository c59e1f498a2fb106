-- ===== src/Reactor/Topology/Validation/Connect.antt =====
-- The loop of `validate` in crates/torvyn-reactor/src/topology.rs over the connections.
use torvyn.Common.{
  ℕ, suc, ◌+◌, ◌<◌, length, ◌≡◌, ◌≢◌, ◌⊎◌, refl, ◌∙◌, inl, inr, List, [], ◌∷◌, ◌==◌, leb, ◌||◌,
  arith, returns, Bool-cases,
}
use torvyn.Common.Counts.{get_or, get_elem?-get_or}
use torvyn.Reactor.Topology.{StreamConnection, add_connections}
use torvyn.Reactor.Topology.Validation.{
  TopologyError, contains_cycle, out_of_bounds, self_loop, Adjacency, linked, broken, connect,
}
use torvyn.Reactor.Scheduling.Build.{AreJoined}
use torvyn.Reactor.Topology.Validation.Entry.{
  IsCounted, IsConnected, entry, entry_bounded, add_connection-entry, entry-IsCounted,
  entry-IsConnected,
}

-- The loop over the connections refuses them, for another reason than a cycle, or fills the arrays.
pub connect-IsConnected :
    (n i : ℕ) (e : Adjacency) (connections : List StreamConnection)
    → IsCounted n e
    → ((v : ℕ) → get_or e.edges.in_degree v 0 + length connections < 4294967296)
    → ((reason : TopologyError) × (connect n i e connections ≡ returns (broken reason))
        × (reason ≢ contains_cycle))
      ⊎ ((e' : Adjacency) × (connect n i e connections ≡ returns (linked e'))
          × IsConnected n e connections e')
unfolding connect add_connections AreJoined entry
connect-IsConnected n i e [] c small = inr (
  e,
  refl,
  record {
    counted = c;
    joined = tt;
    same = refl;
    out_grow = λ u v h. h;
    in_grow = λ u v h. h;
    entered = λ k conn h. absurd (ground (arith, h));
    only = λ u v h. inl h;
  },
)
connect-IsConnected n i e (conn ∷ connections) c small =
    elim (Bool-cases (leb n conn.from_stage || leb n conn.to_stage)) [
      | inl outside ↦
          inl (out_of_bounds i conn.from_stage conn.to_stage n, rw outside refl, λ q. cc)
      | inr inside ↦ elim (Bool-cases (conn.from_stage == conn.to_stage)) [
        | inl loop ↦ inl (self_loop i conn.from_stage, rw (inside, loop) refl, λ q. cc)
        | inr no_loop ↦
            let from_in : conn.from_stage < n = ground (arith, inside) in
            let to_in : conn.to_stage < n = ground (arith, inside) in
            let fits : get_or e.edges.in_degree conn.to_stage 0 + 1 < 4294967296 =
              omega (arith, small conn.to_stage) in
            let next = entry n e conn c from_in to_in in
            let step : connect n i e (conn ∷ connections) ≡ connect n (suc i) next connections =
              rw
                (
                  inside,
                  no_loop,
                  add_connection-entry n e conn c from_in to_in fits,
                  get_elem?-get_or e.in_edges conn.to_stage [] (omega (arith, to_in, c.in_length)),
                )
                refl in
            elim (connect-IsConnected n (suc i) next connections
              (entry-IsCounted n e conn c from_in to_in)
              (entry_bounded n e conn c from_in to_in (length connections) small)) [
                | inl (reason, run, other) ↦ inl (reason, step ∙ run, other)
                | inr (e', run, w) ↦ inr (
                  e',
                  step ∙ run,
                  entry-IsConnected n e conn c from_in to_in connections e' fits w,
                )
              ]
      ]
    ]
