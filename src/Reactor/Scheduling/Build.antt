-- ===== src/Reactor/Scheduling/Build.antt =====
-- The index that `build` makes in crates/torvyn-reactor/src/scheduling.rs.
use torvyn.Common.{
  ℕ, zero, suc, ◌+◌, ◌≤◌, ◌<◌, ◌≡◌, refl, subst, ◌∙◌, List, [], ◌∷◌, ◌++◌, arith, length,
  length-set, length-replicate, get_elem?-lt, set, replicate, returns, some,
}
use torvyn.Common.Indices.{AllBelow, AllIn, AllIn-get}
use torvyn.Reactor.Topology.{StreamConnection, FlowTopology, topological_order}
use torvyn.Reactor.Scheduling.{StreamIndex, push_at, build_from, build}
use torvyn.Reactor.Scheduling.Wired.{IsWired}

-- The connections join stages that exist, as `validate` checks.
unfoldable pub AreJoined : ℕ → List StreamConnection → Type 0
AreJoined n [] = Unit {0}
AreJoined n (conn ∷ connections) =
    (conn.from_stage < n) × (conn.to_stage < n) × AreJoined n connections

AllBelow-push : (n i : ℕ) (l : List ℕ) → AllBelow n l → i < n → AllBelow n (l ++ i ∷ [])
AllBelow-push n i [] b h = (h, tt)
AllBelow-push n i (j ∷ l) (here, there) h = (here, AllBelow-push n i l there h)

AllBelow-mono : (n m : ℕ) (l : List ℕ) → n ≤ m → AllBelow n l → AllBelow m l
AllBelow-mono n m [] h b = tt
AllBelow-mono n m (i ∷ l) h (here, there) = (omega (arith, here, h), AllBelow-mono n m l h there)

AllIn-mono : (n m : ℕ) (lists : List (List ℕ)) → n ≤ m → AllIn n lists → AllIn m lists
AllIn-mono n m [] h b = tt
AllIn-mono n m (l ∷ lists) h (here, there) =
    (AllBelow-mono n m l h here, AllIn-mono n m lists h there)

AllIn-set :
    (n i : ℕ) (lists : List (List ℕ)) (l : List ℕ)
    → AllIn n lists
    → AllBelow n l
    → AllIn n (set lists i l)
AllIn-set n i [] l a b = tt
AllIn-set n zero (k ∷ lists) l (here, there) b = (b, there)
AllIn-set n (suc i) (k ∷ lists) l (here, there) b = (here, AllIn-set n i lists l there b)

AllIn-replicate : (n m : ℕ) → AllIn n (replicate m [])
AllIn-replicate n zero = tt
AllIn-replicate n (suc m) = (tt, AllIn-replicate n m)

push_at-AllIn :
    (lists : List (List ℕ)) (i stream_idx : ℕ)
    → i < length lists
    → AllIn stream_idx lists
    → (lists' : List (List ℕ)) × (push_at lists i stream_idx ≡ returns lists')
      × (length lists' ≡ length lists)
      × AllIn (suc stream_idx) lists'
unfolding push_at
push_at-AllIn lists i stream_idx h a =
    let (l, at) = get_elem?-lt lists i h in
    let a' = AllIn-mono stream_idx (suc stream_idx) lists (omega arith) a in
    (
      set lists i (l ++ stream_idx ∷ []),
      rw at refl,
      length-set lists i (l ++ stream_idx ∷ []),
      AllIn-set (suc stream_idx) i lists (l ++ stream_idx ∷ []) a' (
          AllBelow-push (suc stream_idx) stream_idx l (AllIn-get (suc stream_idx) i lists l a' at)
            (omega arith)),
    )

-- An index for `n` stages that names the streams below a number.
record Indexes (index : StreamIndex) (n streams : ℕ) : Type 0 where
  inputs_length : length index.inputs ≡ n
  outputs_length : length index.outputs ≡ n
  inputs_below : AllIn streams index.inputs
  outputs_below : AllIn streams index.outputs

build_from-Indexes :
    (stream_idx n : ℕ) (index : StreamIndex) (connections : List StreamConnection)
    → AreJoined n connections
    → Indexes index n stream_idx
    → (index' : StreamIndex) × (build_from stream_idx index connections ≡ returns index')
      × Indexes index' n (stream_idx + length connections)
unfolding build_from AreJoined
build_from-Indexes stream_idx n index [] j v =
    (index, refl, subst (λ k. Indexes index n k) (omega arith) v)
build_from-Indexes stream_idx n index (conn ∷ connections) (from, to, rest) v =
    let (outputs, run1, l1, a1) =
      push_at-AllIn index.outputs conn.from_stage stream_idx (omega (arith, from, v.outputs_length))
        v.outputs_below in
    let (inputs, run2, l2, a2) =
      push_at-AllIn index.inputs conn.to_stage stream_idx (omega (arith, to, v.inputs_length))
        v.inputs_below in
    let next : StreamIndex = record {
      inputs = inputs;
      outputs = outputs;
      producers = index.producers ++ conn.from_stage ∷ [];
    } in
    let (index', run, w) = build_from-Indexes (suc stream_idx) n next connections rest (record {
      inputs_length = l2 ∙ v.inputs_length;
      outputs_length = l1 ∙ v.outputs_length;
      inputs_below = a2;
      outputs_below = a1;
    }) in
    (index', rw (run1, run2) run, subst (λ k. Indexes index' n k) (omega arith) w)

-- Where the connections join stages that exist and the topology has an order of its stages, `build`
-- does not panic, and its index is one on which the policy does not panic either, with a stream for
-- each connection.
pub build-IsWired :
    (topology : FlowTopology) (order : List ℕ)
    → AreJoined (length topology.stages) topology.connections
    → topological_order topology ≡ returns (some order)
    → AllBelow (length topology.stages) order
    → (index : StreamIndex) × (build topology ≡ returns index)
      × IsWired topology index (length topology.connections)
unfolding build
build-IsWired topology order j ordered in_range =
    let n = length topology.stages in
    let empty : StreamIndex = record {
      inputs = replicate n [];
      outputs = replicate n [];
      producers = [];
    } in
    let (index, run, w) = build_from-Indexes 0 n empty topology.connections j (record {
      inputs_length = length-replicate n [];
      outputs_length = length-replicate n [];
      inputs_below = AllIn-replicate 0 n;
      outputs_below = AllIn-replicate 0 n;
    }) in
    (
      index,
      run,
      record {
        order = order;
        ordered = ordered;
        in_range = in_range;
        inputs_length = w.inputs_length;
        outputs_length = w.outputs_length;
        inputs_below = subst (λ k. AllIn k index.inputs) (omega arith) w.inputs_below;
        outputs_below = subst (λ k. AllIn k index.outputs) (omega arith) w.outputs_below;
      },
    )
