-- ===== src/Resources/Accounting.antt =====
-- crates/torvyn-resources/src/accounting.rs: the ledger of the copies that each flow makes. An atomic
-- counter is its number, and wraps; the array of four counters is a function of the index. A snapshot
-- has the fields of the statistics. What `record_copy` hands to the event sink is returned.
pub mod Totals
mod Tests
use torvyn.Common.{ℕ, ◌+◌, none, some, List, [], ◌∷◌, ◌==◌, if◌then◌else◌}
use torvyn.Common.Map
use torvyn.Common.Map.{Map}
use torvyn.Common.Word.{u64}
use torvyn.Resources.Handle.{ResourceId}

pub data CopyReason : Type 0 where
  host_to_component component_to_host cross_component pool_return : CopyReason

unfoldable pub reason_index : CopyReason → ℕ
reason_index host_to_component = 0
reason_index component_to_host = 1
reason_index cross_component = 2
reason_index pool_return = 3

pub record FlowCopyStats : Type 0 where
  pub total_payload_bytes : ℕ
  pub total_metadata_bytes : ℕ
  pub total_copy_ops : ℕ
  pub copies_by_reason : ℕ → ℕ

abbrev pub no_copies : FlowCopyStats
no_copies = record {
  total_payload_bytes = 0;
  total_metadata_bytes = 0;
  total_copy_ops = 0;
  copies_by_reason = λ i. 0;
}

-- `FlowCopyStats::record`.
unfoldable pub record_stats : FlowCopyStats → ℕ → CopyReason → FlowCopyStats
unfolding reason_index
record_stats s byte_count reason = record s {
  total_payload_bytes = u64 (s.total_payload_bytes + byte_count);
  total_copy_ops = u64 (s.total_copy_ops + 1);
  copies_by_reason = λ i.
      if i == reason_index reason then u64 (s.copies_by_reason i + 1) else s.copies_by_reason i;
}

unfoldable pub record_metadata : FlowCopyStats → ℕ → FlowCopyStats
record_metadata s byte_count = record s {
  total_metadata_bytes = u64 (s.total_metadata_bytes + byte_count);
}

-- The arguments of `record_copy`.
pub record CopyEvent : Type 0 where
  pub flow_id : ℕ
  pub resource_id : ResourceId
  pub source : ℕ
  pub target : ℕ
  pub byte_count : ℕ
  pub reason : CopyReason

pub record CopyLedger : Type 0 where
  pub flows : Map FlowCopyStats

unfoldable pub register_flow : CopyLedger → ℕ → CopyLedger
register_flow l flow_id = elim (Map.lookup flow_id l.flows) [
  | none ↦ record { flows = Map.insert flow_id no_copies l.flows }
  | some _ ↦ l
]

unfoldable pub record_copy : CopyLedger → CopyEvent → CopyLedger × CopyEvent
unfolding record_stats
record_copy l c = (
  elim (Map.lookup c.flow_id l.flows) [
    | none ↦ l
    | some s ↦ record {
      flows = Map.insert c.flow_id (record_stats s c.byte_count c.reason) l.flows;
    }
  ],
  c,
)

unfoldable pub flow_stats : CopyLedger → ℕ → FlowCopyStats
flow_stats l flow_id = elim (Map.lookup flow_id l.flows) [ none ↦ no_copies | some s ↦ s ]

unfoldable pub remove_flow : CopyLedger → ℕ → CopyLedger × FlowCopyStats
unfolding flow_stats
remove_flow l flow_id = (record { flows = Map.remove flow_id l.flows }, flow_stats l flow_id)
