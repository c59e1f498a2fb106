-- ===== src/Reactor/Topology/Validation/Entry.antt =====
-- What a connection adds to the arrays of `validate` in crates/torvyn-reactor/src/topology.rs.
use native.Mathlib.Nat.{mod-eq_of_lt}
use torvyn.Common.{
  ℕ, zero, suc, ◌+◌, ◌<◌, ◌≡◌, ◌⊎◌, refl, sym, ap, subst, ◌∙◌, inl, inr, some, List, [], ◌∷◌, ◌++◌,
  ◌==◌, ◌&&◌, if◌then◌else◌, arith, length, length-set, length-replicate, get_elem?, set, replicate,
  returns, index_cases, Bool-cases,
}
use torvyn.Common.Counts.{
  get_or, get_or-set_self, get_or-set_ne, get_or-replicate, get_elem?-get_or, count, count-append,
}
use torvyn.Reactor.Topology.{StreamConnection, add_connection, add_connections}
use torvyn.Reactor.Topology.Kahn.{incoming, incoming-set}
use torvyn.Reactor.Topology.Validation.{Adjacency, no_edges}
use torvyn.Reactor.Scheduling.Build.{AreJoined}

-- An edge of the lists of ends, from one stage to another.
abbrev pub HasEdge : List (List ℕ) → ℕ → ℕ → Type 0
HasEdge edges u v = 0 < count v (get_or edges u [])

-- A connection of the list joins two stages.
abbrev pub Joins : List StreamConnection → ℕ → ℕ → Type 0
Joins connections u v =
    (k : ℕ) × (conn : StreamConnection) × (get_elem? connections k ≡ some conn)
    × (conn.from_stage ≡ u)
    × (conn.to_stage ≡ v)

count-push :
    (edges : List (List ℕ)) (u v a b : ℕ)
    → u < length edges
    → count b (get_or (set edges u (get_or edges u [] ++ v ∷ [])) a [])
      ≡ count b (get_or edges a []) + (if u == a && v == b then 1 else 0)
unfolding count
count-push edges u v a b h = elim (index_cases u a) [
  | inl same ↦
      subst
        (λ x.
          count b (get_or (set edges u (get_or edges u [] ++ v ∷ [])) x [])
          ≡ count b (get_or edges x []) + (if u == x && v == b then 1 else 0))
        same
        (rw (get_or-set_self edges u (get_or edges u [] ++ v ∷ []) [] h)
          (ground (arith, count-append b (get_or edges u []) (v ∷ []))))
  | inr other ↦
      ground (
        arith,
        other,
        ap (count b) (get_or-set_ne edges u a (get_or edges u [] ++ v ∷ []) [] other),
      )
]

-- The arrays have a place for each stage, and the in-degrees count the edges.
pub record IsCounted (n : ℕ) (e : Adjacency) : Type 0 where
  pub degrees_length : length e.edges.in_degree ≡ n
  pub out_length : length e.edges.out_edges ≡ n
  pub in_length : length e.in_edges ≡ n
  pub counted : (v : ℕ) → get_or e.edges.in_degree v 0 ≡ incoming v e.edges.out_edges

incoming-replicate : (n v : ℕ) → incoming v (replicate n []) ≡ 0
unfolding incoming count
incoming-replicate zero v = refl
incoming-replicate (suc n) v = omega (arith, incoming-replicate n v)

pub no_edges-IsCounted : (n : ℕ) → IsCounted n (no_edges n)
no_edges-IsCounted n = record {
  degrees_length = length-replicate n 0;
  out_length = length-replicate n [];
  in_length = length-replicate n [];
  counted = λ v. get_or-replicate n v 0 ∙ sym (incoming-replicate n v);
}

-- The arrays after the loop over the connections, from those before it.
pub record IsConnected (n : ℕ) (e : Adjacency) (connections : List StreamConnection)
    (e' : Adjacency) : Type 0 where
  pub counted : IsCounted n e'
  pub joined : AreJoined n connections
  pub same : add_connections e.edges connections ≡ returns e'.edges
  pub out_grow : (u v : ℕ) → HasEdge e.edges.out_edges u v → HasEdge e'.edges.out_edges u v
  pub in_grow : (u v : ℕ) → HasEdge e.in_edges u v → HasEdge e'.in_edges u v
  pub entered :
      (k : ℕ) (conn : StreamConnection)
      → get_elem? connections k ≡ some conn
      → HasEdge e'.edges.out_edges conn.from_stage conn.to_stage
        × HasEdge e'.in_edges conn.to_stage conn.from_stage
  pub only :
      (u v : ℕ)
      → HasEdge e'.edges.out_edges u v
      → HasEdge e.edges.out_edges u v ⊎ Joins connections u v

conn_inj : (c d : StreamConnection) → some c ≡ some d → c ≡ d
conn_inj c d h = cc

-- One connection between stages that exist.
module _ (n : ℕ) (e : Adjacency) (conn : StreamConnection) (c : IsCounted n e)
    (from_in : conn.from_stage < n) (to_in : conn.to_stage < n) where
  unfoldable pub entry : Adjacency
  entry = record {
    edges = record {
      in_degree =
          set e.edges.in_degree conn.to_stage (get_or e.edges.in_degree conn.to_stage 0 + 1);
      out_edges =
          set e.edges.out_edges conn.from_stage
            (get_or e.edges.out_edges conn.from_stage [] ++ conn.to_stage ∷ []);
    };
    in_edges =
        set e.in_edges conn.to_stage (get_or e.in_edges conn.to_stage [] ++ conn.from_stage ∷ []);
  }

  -- The in-degree of the target does not wrap.
  pub add_connection-entry :
      get_or e.edges.in_degree conn.to_stage 0 + 1 < 4294967296
      → add_connection e.edges conn ≡ returns entry.edges
  unfolding add_connection entry
  add_connection-entry small =
      rw
        (
          get_elem?-get_or e.edges.out_edges conn.from_stage []
              (omega (arith, from_in, c.out_length)),
          get_elem?-get_or e.edges.in_degree conn.to_stage 0
              (omega (arith, to_in, c.degrees_length)),
          mod-eq_of_lt small,
        )
        refl

  pub entry-IsCounted : IsCounted n entry
  unfolding entry count
  entry-IsCounted = record {
    degrees_length =
        length-set e.edges.in_degree conn.to_stage (get_or e.edges.in_degree conn.to_stage 0 + 1)
        ∙ c.degrees_length;
    out_length =
        length-set e.edges.out_edges conn.from_stage
          (get_or e.edges.out_edges conn.from_stage [] ++ conn.to_stage ∷ [])
        ∙ c.out_length;
    in_length =
        length-set e.in_edges conn.to_stage
          (get_or e.in_edges conn.to_stage [] ++ conn.from_stage ∷ [])
        ∙ c.in_length;
    counted = λ v.
        let more =
          incoming-set v conn.from_stage
            (get_or e.edges.out_edges conn.from_stage [] ++ conn.to_stage ∷ []) e.edges.out_edges
            (omega (arith, from_in, c.out_length)) in
        let longer =
          count-append v (get_or e.edges.out_edges conn.from_stage []) (conn.to_stage ∷ []) in
        elim (index_cases conn.to_stage v) [
          | inl here ↦
              subst (λ d. d ≡ incoming v entry.edges.out_edges)
                (sym (
                  subst (λ x. get_or entry.edges.in_degree x 0 ≡ get_or e.edges.in_degree x 0 + 1)
                    here
                    (get_or-set_self e.edges.in_degree conn.to_stage
                      (get_or e.edges.in_degree conn.to_stage 0 + 1) 0
                      (omega (arith, to_in, c.degrees_length)))))
                (ground (arith, here, more, longer, c.counted v))
          | inr other ↦
              get_or-set_ne e.edges.in_degree conn.to_stage v
                (get_or e.edges.in_degree conn.to_stage 0 + 1) 0 other
              ∙ ground (arith, other, more, longer, c.counted v)
        ];
  }

  -- A connection takes one from what is left of a bound on the in-degrees.
  pub entry_bounded :
      (more : ℕ)
      → ((v : ℕ) → get_or e.edges.in_degree v 0 + suc more < 4294967296)
      → (v : ℕ) → get_or entry.edges.in_degree v 0 + more < 4294967296
  unfolding entry
  entry_bounded more h v = elim (index_cases conn.to_stage v) [
    | inl here ↦
        subst (λ x. get_or entry.edges.in_degree x 0 + more < 4294967296) here
          (omega (
            arith,
            get_or-set_self e.edges.in_degree conn.to_stage
                (get_or e.edges.in_degree conn.to_stage 0 + 1) 0
                (omega (arith, to_in, c.degrees_length)),
            h conn.to_stage,
          ))
    | inr other ↦ omega (
      arith,
      get_or-set_ne e.edges.in_degree conn.to_stage v (get_or e.edges.in_degree conn.to_stage 0 + 1)
          0 other,
      h v,
    )
  ]

  out_count :
      (u v : ℕ)
      → count v (get_or entry.edges.out_edges u [])
        ≡ count v (get_or e.edges.out_edges u [])
          + (if conn.from_stage == u && conn.to_stage == v then 1 else 0)
  unfolding entry
  out_count u v =
      count-push e.edges.out_edges conn.from_stage conn.to_stage u v
        (omega (arith, from_in, c.out_length))

  in_count :
      (u v : ℕ)
      → count v (get_or entry.in_edges u [])
        ≡ count v (get_or e.in_edges u [])
          + (if conn.to_stage == u && conn.from_stage == v then 1 else 0)
  unfolding entry
  in_count u v =
      count-push e.in_edges conn.to_stage conn.from_stage u v (omega (arith, to_in, c.in_length))

  pub entry-IsConnected :
      (connections : List StreamConnection) (e' : Adjacency)
      → get_or e.edges.in_degree conn.to_stage 0 + 1 < 4294967296
      → IsConnected n entry connections e'
      → IsConnected n e (conn ∷ connections) e'
  unfolding add_connections AreJoined
  entry-IsConnected connections e' small w = record {
    counted = w.counted;
    joined = (from_in, to_in, w.joined);
    same = rw (add_connection-entry small) w.same;
    out_grow = λ u v h. w.out_grow u v (omega (arith, h, out_count u v));
    in_grow = λ u v h. w.in_grow u v (omega (arith, h, in_count u v));
    entered = λ k c' at. entered_at k c' at;
    only = λ u v h. elim (w.only u v h) [
      | inr (k, c', at, f, t) ↦ inr (suc k, c', at, f, t)
      | inl there ↦ elim (Bool-cases (conn.from_stage == u && conn.to_stage == v)) [
        | inl hit ↦ inr (0, conn, refl, ground (arith, hit), ground (arith, hit))
        | inr miss ↦ inl (ground (arith, there, miss, out_count u v))
      ]
    ];
  }
    where
      entered_at :
          (k : ℕ) (c' : StreamConnection)
          → get_elem? (conn ∷ connections) k ≡ some c'
          → HasEdge e'.edges.out_edges c'.from_stage c'.to_stage
            × HasEdge e'.in_edges c'.to_stage c'.from_stage
      entered_at zero c' at =
          subst
            (λ (x : StreamConnection).
              HasEdge e'.edges.out_edges x.from_stage x.to_stage
              × HasEdge e'.in_edges x.to_stage x.from_stage)
            (conn_inj conn c' at)
            (
              w.out_grow conn.from_stage conn.to_stage
                  (ground (arith, out_count conn.from_stage conn.to_stage)),
              w.in_grow conn.to_stage conn.from_stage
                  (ground (arith, in_count conn.to_stage conn.from_stage)),
            )
      entered_at (suc k) c' at = w.entered k c' at
