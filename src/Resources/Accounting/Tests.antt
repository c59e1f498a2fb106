-- ===== src/Resources/Accounting/Tests.antt =====
-- The theorem about the copy ledger at a ledger of one flow and two copies.
use torvyn.Common.{◌≡◌, refl, some, List, [], ◌∷◌, arith}
use torvyn.Common.Map
use torvyn.Resources.Accounting.{
  CopyLedger, CopyEvent, no_copies, host_to_component, component_to_host, flow_stats,
}
use torvyn.Resources.Accounting.Totals.{Counts, IsWord, record_all, record_all-Counts}

abbrev ledger : CopyLedger
ledger = record { flows = (1, no_copies) ∷ [] }

abbrev copies : List CopyEvent
copies =
    record {
      flow_id = 1;
      resource_id = record { index = 0; generation = 1 };
      source = 0;
      target = 5;
      byte_count = 100;
      reason = component_to_host;
    }
    ∷ record {
      flow_id = 2;
      resource_id = record { index = 1; generation = 1 };
      source = 5;
      target = 0;
      byte_count = 7;
      reason = host_to_component;
    }
    ∷ []

registered : Map.lookup 1 ledger.flows ≡ some no_copies
unfolding Map.lookup
registered = refl

no_copies-IsWord : IsWord no_copies
no_copies-IsWord = record {
  payload_fits = omega arith;
  ops_fit = omega arith;
  reasons_fit = λ i. omega arith;
}

record_all-Counts_example : Counts no_copies 1 copies (flow_stats (record_all ledger copies) 1)
record_all-Counts_example = record_all-Counts ledger 1 no_copies copies registered no_copies-IsWord
