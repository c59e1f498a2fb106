-- ===== src/Reactor/Driver/Streams.antt =====
-- How crates/torvyn-reactor/src/flow_driver.rs moves elements in and out of the streams.
use torvyn.Common.{
  ℕ, ◌-◌, zero, suc, ◌+◌, ◌<◌, ◌≡◌, refl, sym, subst, ◌∙◌, true, false, some, List, [], ◌∷◌, arith,
  length, length-set, get_elem?, get_elem?-lt, set, returns,
}
use torvyn.Common.Indices.{AllBelow, AllIn}
use torvyn.Common.Word.{u64}
use torvyn.Reactor.Streams.{
  StreamElementRef, StreamState, consumer_has_input, replenish_demand, consume_demand,
}
use torvyn.Reactor.Streams.Credit.{
  AllSteady, AllSteady-at, AllSteady-put, complete-Steady, push-Steady, pop-Steady,
}
use torvyn.Reactor.Driver.{FlowDriver, emit, complete_producers, position, take_input}

-- The streams of a driver that is built without debug assertions are steady, and its index names streams
-- that exist.
pub record IsSound (d : FlowDriver) : Type 0 where
  pub steady : AllSteady 0 d.streams
  pub in_bounds : AllIn (length d.streams) d.stream_index.outputs
  pub release : d.debug_assertions ≡ false

-- A driver whose streams changed, and the rest of it that counts did not.
unfoldable pub Follows : FlowDriver → FlowDriver → Type 0
Follows d d' =
    IsSound d'
    × (length d'.streams ≡ length d.streams)
    × (d'.stream_index ≡ d.stream_index)
    × (d'.instances ≡ d.instances)

pub follow :
    (d d' : FlowDriver)
    → IsSound d
    → AllSteady 0 d'.streams
    → length d'.streams ≡ length d.streams
    → d'.stream_index ≡ d.stream_index
    → d'.instances ≡ d.instances
    → d'.debug_assertions ≡ d.debug_assertions
    → Follows d d'
unfolding Follows
follow d d' v steady same_length same_index same_instances same_build = (
  record {
    steady = steady;
    in_bounds =
        subst (λ index. AllIn (length d'.streams) index.outputs) (sym same_index)
          (subst (λ n. AllIn n d.stream_index.outputs) (sym same_length) v.in_bounds);
    release = same_build ∙ v.release;
  },
  same_length,
  same_index,
  same_instances,
)

pub follow_trans : (a b c : FlowDriver) → Follows a b → Follows b c → Follows a c
unfolding Follows
follow_trans a b c (v, l, i, k) (w, m, j, n) = (w, m ∙ l, j ∙ i, n ∙ k)

pub emit-Follows :
    (d : FlowDriver) (si : ℕ) (element : ℕ → StreamElementRef)
    → IsSound d
    → si < length d.streams
    → (d' : FlowDriver) × (emit d si element ≡ returns d') × Follows d d'
unfolding emit consume_demand
emit-Follows d si element v h =
    let (s, at) = get_elem?-lt d.streams si h in
    let w = AllSteady-at si d.streams s v.steady at in
    let (q, r, run, w') = push-Steady si s (element d.next_global_sequence) w in
    let d' : FlowDriver = record d {
      streams = set d.streams si (record s { demand = s.demand - 1; queue = q });
      next_global_sequence = u64 (d.next_global_sequence + 1);
    } in
    (
      d',
      rw (at, v.release, run) refl,
      follow d d' v (AllSteady-put si d.streams _ v.steady w') (length-set d.streams si _) refl refl
          refl,
    )

pub complete_producers-AllSteady :
    (streams : List StreamState) (indices : List ℕ)
    → AllSteady 0 streams
    → AllBelow (length streams) indices
    → (streams' : List StreamState) × (complete_producers streams indices ≡ returns streams')
      × AllSteady 0 streams'
      × (length streams' ≡ length streams)
unfolding complete_producers
complete_producers-AllSteady streams [] v b = (streams, refl, v, refl)
complete_producers-AllSteady streams (si ∷ indices) v (here, there) =
    let (s, at) = get_elem?-lt streams si here in
    let done : StreamState = record s { producer_complete = true } in
    let same = length-set streams si done in
    let (last, run, w, l) =
      complete_producers-AllSteady (set streams si done) indices
        (AllSteady-put si streams done v (complete-Steady si s (AllSteady-at si streams s v at)))
        (subst (λ n. AllBelow n indices) (sym same) there) in
    (last, rw at run, w, l ∙ same)

position_self :
    (i k : ℕ) (streams : List StreamState) (s : StreamState)
    → AllSteady i streams
    → get_elem? streams k ≡ some s
    → position i (i + k) streams ≡ some (i + k)
unfolding position AllSteady
position_self i k [] s v h = absurd (ground arith)
position_self i zero (t ∷ streams) s (here, there) h = ground (arith, here.named)
position_self i (suc k) (t ∷ streams) s (here, there) h =
    let rest : position (suc i) (i + suc k) streams ≡ some (i + suc k) =
      subst (λ j. position (suc i) j streams ≡ some j) (omega arith)
        (position_self (suc i) k streams s there h) in
    ground (arith, here.named, rest)

pub take_input-Follows :
    (d : FlowDriver) (id : ℕ) (s : StreamState)
    → IsSound d
    → get_elem? d.streams id ≡ some s
    → consumer_has_input s ≡ true
    → (d' : FlowDriver) × (e : StreamElementRef) × (take_input d id ≡ returns (d', e))
      × Follows d d'
unfolding take_input
take_input-Follows d id s v at h =
    let w = AllSteady-at id d.streams s v.steady at in
    let (q, e, run, w') = pop-Steady id s w h in
    let d' : FlowDriver = record d {
      streams = set d.streams id (replenish_demand (record s { queue = q }));
      current_element_sequence = some e.origin_sequence;
    } in
    let found : position 0 id d.streams ≡ some id =
      subst (λ j. position 0 j d.streams ≡ some j) (omega arith)
        (position_self 0 id d.streams s v.steady at) in
    (
      d',
      e,
      rw (found, at, run) refl,
      follow d d' v (AllSteady-put id d.streams _ v.steady w') (length-set d.streams id _) refl refl
          refl,
    )
