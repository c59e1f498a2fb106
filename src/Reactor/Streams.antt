-- ===== src/Reactor/Streams.antt =====
-- crates/torvyn-reactor/src/stream.rs and demand.rs: the state of a stream between two stages, and its
-- credits. The depth of the low watermark, a product of floating point numbers, is a field.
pub mod Credit
use torvyn.Common.{
  ℕ, ◌-◌, Bool, false, not, ◌&&◌, ◌==◌, ltb, if◌then◌else◌, List, Text, Run, returns, panics, ◌>>=◌,
}
use torvyn.Common.Word.{saturating_add}
use torvyn.Reactor.Queue.{BoundedQueue, PushResult, new, is_empty, is_full, push, pop}
use torvyn.Reactor.Backpressure.{BackpressureState, normal, is_active}

pub record ElementMeta : Type 0 where
  pub sequence : ℕ
  pub timestamp_ns : ℕ
  pub content_type : Text

pub record StreamElementRef : Type 0 where
  pub sequence : ℕ
  pub origin_sequence : ℕ
  pub buffer_handle : ℕ
  pub meta : ElementMeta

pub record StreamState : Type 0 where
  pub id : ℕ
  pub queue : BoundedQueue StreamElementRef
  pub backpressure : BackpressureState
  pub low_watermark_depth : ℕ
  pub demand : ℕ  -- u64
  pub producer_complete : Bool

unfoldable pub new_stream : ℕ → ℕ → ℕ → Run StreamState
unfolding new
new_stream id capacity low_watermark_depth = do
  queue ← new capacity
  returns (record {
    id = id;
    queue = queue;
    backpressure = normal;
    low_watermark_depth = low_watermark_depth;
    demand = capacity;
    producer_complete = false;
  })

unfoldable pub producer_can_produce : StreamState → Bool
unfolding is_full is_active
producer_can_produce s =
    not s.producer_complete
    && (ltb 0 s.demand && (not (is_full s.queue) && not (is_active s.backpressure)))

unfoldable pub consumer_has_input : StreamState → Bool
unfolding is_empty
consumer_has_input s = not (is_empty s.queue)

unfoldable pub is_complete : StreamState → Bool
unfolding is_empty
is_complete s = s.producer_complete && is_empty s.queue

unfoldable pub replenish_demand : StreamState → StreamState
replenish_demand s = record s { demand = saturating_add s.demand 1 }

-- A build with debug assertions checks that there is a credit.
unfoldable pub consume_demand : (debug_assertions : Bool) → StreamState → Run StreamState
consume_demand debug_assertions s =
    if debug_assertions && s.demand == 0
    then panics
    else returns (record s { demand = s.demand - 1 })
