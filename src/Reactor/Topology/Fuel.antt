-- ===== src/Reactor/Topology/Fuel.antt =====
-- The total of the in-degrees in crates/torvyn-reactor/src/topology.rs bounds the loop of Kahn's algorithm.
use native.Mathlib.Nat.{mod-le}
use torvyn.Common.{
  ℕ, zero, suc, ◌+◌, ◌≤◌, ◌≡◌, refl, sym, ap, ◌∙◌, some, List, [], ◌∷◌, arith, length, length-set,
  get_elem?, set, replicate, returns, bind_returns, returns_inj, expect, expect-some,
}
use torvyn.Common.Word.{u32}
use torvyn.Reactor.Topology.{StreamConnection, Edges, add_connection, add_connections, roots}

abbrev pub total : List ℕ → ℕ
total [] = 0
total (n ∷ ns) = n + total ns

pub total-set :
    (ns : List ℕ) (i n m : ℕ) → get_elem? ns i ≡ some n → total (set ns i m) + n ≡ total ns + m
total-set [] i n m h = absurd (ground arith)
total-set (k ∷ ns) zero n m h = ground (arith, h)
total-set (k ∷ ns) (suc i) n m h = omega (arith, total-set ns i n m h)

pub total-replicate : (n : ℕ) → total (replicate n 0) ≡ 0
total-replicate zero = refl
total-replicate (suc n) = omega (arith, total-replicate n)

pub length-roots : (idx : ℕ) (degrees : List ℕ) → length (roots idx degrees) ≤ length degrees
unfolding roots
length-roots idx [] = omega arith
length-roots idx (d ∷ degrees) = ground (arith, length-roots (suc idx) degrees)

pub add_connections-total :
    (e : Edges) (connections : List StreamConnection) (e' : Edges)
    → add_connections e connections ≡ returns e'
    → (total e'.in_degree ≤ total e.in_degree + length connections)
      × (length e'.in_degree ≡ length e.in_degree)
unfolding add_connections add_connection
add_connections-total e [] e' h = ground (arith, h)
add_connections-total e (conn ∷ connections) e' h =
    let (next, step, rest) = bind_returns (add_connection e conn) _ _ h in
    let (targets, _, h1) = bind_returns (expect (get_elem? e.out_edges conn.from_stage)) _ _ step in
    let (degree, at, h2) = bind_returns (expect (get_elem? e.in_degree conn.to_stage)) _ _ h1 in
    let same = sym (ap (λ (r : Edges). r.in_degree) (returns_inj _ next h2)) in
    let grown =
      total-set e.in_degree conn.to_stage degree (u32 (degree + 1)) (expect-some _ degree at) in
    let (t, l) = add_connections-total next connections e' rest in
    (
      omega (arith, t, grown, ap total same, mod-le (degree + 1) 4294967296),
      l ∙ ap length same ∙ length-set e.in_degree conn.to_stage (u32 (degree + 1)),
    )
