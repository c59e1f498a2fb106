-- ===== src/Reactor/Topology/Order.antt =====
-- The order that Kahn's algorithm in crates/torvyn-reactor/src/topology.rs finds.
use torvyn.Common.{
  ℕ, zero, suc, ◌+◌, ◌≤◌, ◌<◌, ◌≡◌, ◌≢◌, ◌⊎◌, refl, sym, ap, subst, ◌∙◌, inl, inr, some, List, [],
  ◌∷◌, arith, length, length-set, set, returns, index_cases,
}
use torvyn.Common.Counts.{
  get_or, get_or-set_self, get_or-set_ne, get_elem?-get_or, lt-length_of_get_or, count,
}
use torvyn.Reactor.Topology.{kahn}
use torvyn.Reactor.Topology.Fuel.{total}
use torvyn.Reactor.Topology.Kahn.{
  incoming, incoming-set, incoming-pos, incoming-count, joins, visit-settles,
}

-- One stage stands in the order, and another after it.
abbrev pub Before : ℕ → ℕ → List ℕ → Type 0
Before u v [] = ⊥
Before u v (x ∷ order) = ((x ≡ u) × (0 < count v order)) ⊎ Before u v order

-- `live` has the edges of the stages that are still to be taken from the queue.
pub record IsPending (out live : List (List ℕ)) (degrees queue : List ℕ) : Type 0 where
  pub counted : (v : ℕ) → get_or degrees v 0 ≡ incoming v live
  pub degrees_length : length degrees ≡ length out
  pub live_length : length live ≡ length out
  pub once : (v : ℕ) → count v queue ≤ 1
  pub ready : (v : ℕ) → 0 < count v queue → (get_or degrees v 0 ≡ 0) × (v < length out)
  pub kept : (v : ℕ) → 0 < count v queue + get_or degrees v 0 → get_or live v [] ≡ get_or out v []

-- What the rest of the order has, from there.
pub record Sorts (live : List (List ℕ)) (degrees queue order : List ℕ) : Type 0 where
  pub once : (v : ℕ) → count v order ≤ 1
  pub listed : (v : ℕ) → 0 < count v order → 0 < count v queue + get_or degrees v 0
  pub queued : (v : ℕ) → 0 < count v queue → 0 < count v order
  pub sorted : (u v : ℕ) → 0 < count v order → 0 < count v (get_or live u []) → Before u v order
  pub stuck :
      (v : ℕ)
      → 0 < get_or degrees v 0
      → count v order ≡ 0
      → (u : ℕ) × (0 < count v (get_or live u [])) × (count u order ≡ 0)

Sorts-nil :
    (out live : List (List ℕ)) (degrees : List ℕ)
    → IsPending out live degrees []
    → Sorts live degrees [] []
unfolding count
Sorts-nil out live degrees p = record {
  once = λ v. omega arith;
  listed = λ v h. absurd (omega arith);
  queued = λ v h. absurd (omega arith);
  sorted = λ u v h e. absurd (omega arith);
  stuck = λ v h z. let (u, e) = incoming-pos v live (omega (arith, h, p.counted v)) in (u, e, refl);
}

-- A stage is taken from the queue.
module _ (out live : List (List ℕ)) (degrees : List ℕ) (node : ℕ) (queue : List ℕ)
    (p : IsPending out live degrees (node ∷ queue)) where
  after : List (List ℕ)
  after = set live node []

  node_ready : (get_or degrees node 0 ≡ 0) × (node < length out)
  unfolding count
  node_ready = p.ready node (ground arith)

  neighbors_kept : get_or live node [] ≡ get_or out node []
  unfolding count
  neighbors_kept = p.kept node (ground arith)

  degrees_split : (v : ℕ) → get_or degrees v 0 ≡ count v (get_or out node []) + incoming v after
  unfolding after count
  degrees_split v =
      let inside : node < length live = omega (arith, p.live_length, node_ready.1) in
      omega (arith, p.counted v, incoming-set v node [] live inside, ap (count v) neighbors_kept)

  after-ne : (u : ℕ) → node ≢ u → get_or after u [] ≡ get_or live u []
  unfolding after
  after-ne u h = get_or-set_ne live node u [] [] h

  after-node : get_or after node [] ≡ []
  unfolding after
  after-node = get_or-set_self live node [] [] (omega (arith, p.live_length, node_ready.1))

  module _ (next : List ℕ × List ℕ) (same_length : length next.0 ≡ length degrees)
      (settled : (v : ℕ) → get_or next.0 v 0 ≡ incoming v after)
      (queued_next : (v : ℕ)
        → count v next.1
          ≡ count v queue + joins (count v (get_or out node [])) (incoming v after)) where
    node_gone : (0 < count node next.1 + get_or next.0 node 0) → ⊥
    unfolding count joins
    node_gone h =
        ground
          (arith, h, settled node, queued_next node, degrees_split node, node_ready.0, p.once node)

    next-IsPending : IsPending out after next.0 next.1
    unfolding count joins after
    next-IsPending = record {
      counted = settled;
      degrees_length = same_length ∙ p.degrees_length;
      live_length = length-set live node [] ∙ p.live_length;
      once = λ v. ground (arith, queued_next v, p.once v, p.ready v, degrees_split v);
      ready = λ v h. (
        settled v ∙ ground (arith, h, queued_next v, p.ready v, degrees_split v),
        ground (
          arith,
          h,
          queued_next v,
          p.ready v,
          degrees_split v,
          lt-length_of_get_or degrees v,
          p.degrees_length,
        ),
      );
      kept = λ v h. elim (index_cases node v) [
        | inl same ↦
            absurd (subst (λ x. (0 < count x next.1 + get_or next.0 x 0) → ⊥) same node_gone h)
        | inr other ↦
            after-ne v other
            ∙ p.kept v (ground (arith, other, h, settled v, queued_next v, degrees_split v))
      ];
    }

    node_new : (order : List ℕ) → Sorts after next.0 next.1 order → count node order ≡ 0
    node_new order s = elim (index_cases (count node order) 0) [
      | inl missing ↦ missing
      | inr found ↦ absurd (node_gone (s.listed node (omega (arith, found))))
    ]

    next-Sorts :
        (order : List ℕ)
        → Sorts after next.0 next.1 order
        → Sorts live degrees (node ∷ queue) (node ∷ order)
    unfolding count joins
    next-Sorts order s = record {
      once = λ v. elim (index_cases node v) [
        | inl same ↦ subst (λ x. count x (node ∷ order) ≤ 1) same (ground (arith, node_new order s))
        | inr other ↦ ground (arith, other, s.once v)
      ];
      listed = λ v h. elim (index_cases node v) [
        | inl same ↦ ground (arith, same)
        | inr other ↦
            ground (arith, other, h, s.listed v, settled v, queued_next v, degrees_split v)
      ];
      queued = λ v h. elim (index_cases node v) [
        | inl same ↦ ground (arith, same)
        | inr other ↦ ground (arith, other, h, s.queued v, queued_next v)
      ];
      sorted = λ u v h e.
          let later : 0 < count v order = elim (index_cases node v) [
            | inl same ↦
                absurd (ground (arith, same, e, incoming-count v u live, p.counted v, node_ready.0))
            | inr other ↦ ground (arith, other, h)
          ] in
          elim (index_cases node u) [
            | inl same ↦ inl (same, later)
            | inr other ↦
                inr (s.sorted u v later (subst (λ l. 0 < count v l) (sym (after-ne u other)) e))
          ];
      stuck = λ v h z.
          let (u, e, y) =
            s.stuck v (ground (arith, h, z, settled v, queued_next v, degrees_split v, s.queued v))
              (ground (arith, z)) in
          elim (index_cases node u) [
            | inl same ↦ absurd (
                ground (
                  arith,
                  subst (λ x. 0 < count v (get_or after x [])) (sym same) e,
                  ap (count v) after-node,
                ))
            | inr other ↦
                (u, subst (λ l. 0 < count v l) (after-ne u other) e, ground (arith, y, other))
          ];
    }

pub kahn-Sorts :
    (fuel : ℕ) (out live : List (List ℕ)) (degrees queue : List ℕ)
    → IsPending out live degrees queue
    → total degrees + length queue < fuel
    → (order : List ℕ) × (kahn fuel out degrees queue ≡ returns (some order))
      × Sorts live degrees queue order
unfolding kahn
kahn-Sorts zero out live degrees queue p h = elim h [ ]
kahn-Sorts (suc fuel) out live degrees [] p h = ([], refl, Sorts-nil out live degrees p)
kahn-Sorts (suc fuel) out live degrees (node ∷ queue) p h =
    let neighbors = get_or out node [] in
    let at = get_elem?-get_or out node [] (node_ready out live degrees node queue p).1 in
    let (next, run, len, settled, queued, bounded) =
      visit-settles degrees queue neighbors (λ v. incoming v (after out live degrees node queue p))
        (degrees_split out live degrees node queue p) in
    let (order, found, s) =
      kahn-Sorts fuel out (after out live degrees node queue p) next.0 next.1
        (next-IsPending out live degrees node queue p next len settled queued)
        (omega (arith, h, bounded)) in
    (
      node ∷ order,
      rw (at, run, found) refl,
      next-Sorts out live degrees node queue p next len settled queued order s,
    )
