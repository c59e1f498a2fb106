-- ===== src/Resources/Accounting/Totals.antt =====
-- What the copy ledger of crates/torvyn-resources/src/accounting.rs counts.
use torvyn.Common.{
  index_cases, Bool-cases, ℕ, ◌+◌, ◌≤◌, ◌≡◌, refl, ◌∙◌, sym, subst, some, List, [], ◌∷◌, ◌==◌,
  if◌then◌else◌, arith, inl, inr, Option-cases,
}
use torvyn.Common.Map
use torvyn.Common.Map.{lookup-insert, lookup-remove}
use torvyn.Common.Word.{u64, u64_max}
use torvyn.Resources.Accounting.{
  CopyReason, reason_index, FlowCopyStats, record_stats, CopyEvent, CopyLedger, record_copy,
  flow_stats,
}

-- The ledger after a sequence of copies.
abbrev pub record_all : CopyLedger → List CopyEvent → CopyLedger
record_all l [] = l
record_all l (c ∷ cs) = record_all (record_copy l c).0 cs

-- The bytes, the number, and the number for one reason, of the copies of a flow.
abbrev pub bytes_of : ℕ → List CopyEvent → ℕ
bytes_of f [] = 0
bytes_of f (c ∷ cs) = (if c.flow_id == f then c.byte_count else 0) + bytes_of f cs

abbrev pub copies_of : ℕ → List CopyEvent → ℕ
copies_of f [] = 0
copies_of f (c ∷ cs) = (if c.flow_id == f then 1 else 0) + copies_of f cs

abbrev pub copies_for : ℕ → ℕ → List CopyEvent → ℕ
copies_for f i [] = 0
copies_for f i (c ∷ cs) =
    (if c.flow_id == f then (if i == reason_index c.reason then 1 else 0) else 0)
    + copies_for f i cs

-- `s'` counts the copies of the flow `f` among `cs` on top of `s`, modulo 2^64.
pub record Counts (s : FlowCopyStats) (f : ℕ) (cs : List CopyEvent) (s' : FlowCopyStats)
    : Type 0 where
  pub payload : s'.total_payload_bytes ≡ u64 (s.total_payload_bytes + bytes_of f cs)
  pub ops : s'.total_copy_ops ≡ u64 (s.total_copy_ops + copies_of f cs)
  pub reasons : (i : ℕ) → s'.copies_by_reason i ≡ u64 (s.copies_by_reason i + copies_for f i cs)
  pub metadata : s'.total_metadata_bytes ≡ s.total_metadata_bytes

pub record IsWord (s : FlowCopyStats) : Type 0 where
  pub payload_fits : s.total_payload_bytes ≤ u64_max
  pub ops_fit : s.total_copy_ops ≤ u64_max
  pub reasons_fit : (i : ℕ) → s.copies_by_reason i ≤ u64_max

record_stats-IsWord :
    (s : FlowCopyStats) (byte_count : ℕ) (reason : CopyReason)
    → IsWord s
    → IsWord (record_stats s byte_count reason)
unfolding record_stats
record_stats-IsWord s byte_count reason v = record {
  payload_fits = omega arith;
  ops_fit = omega arith;
  reasons_fit = λ i. ground (arith, v.reasons_fit i);
}

lookup-record_copy :
    (l : CopyLedger) (c : CopyEvent) (f : ℕ) (s : FlowCopyStats)
    → Map.lookup f l.flows ≡ some s
    → Map.lookup f (record_copy l c).0.flows
      ≡ some (if c.flow_id == f then record_stats s c.byte_count c.reason else s)
unfolding record_copy
lookup-record_copy l c f s h = elim (index_cases c.flow_id f) [
  | inl same ↦
      let found = subst (λ k. Map.lookup k l.flows ≡ some s) (sym same) h in
      rw (found, record_copy)
        (lookup-insert c.flow_id f (record_stats s c.byte_count c.reason) l.flows ∙ ground arith)
  | inr other ↦ elim (Option-cases (Map.lookup c.flow_id l.flows)) [
    | inl absent ↦ rw (absent, record_copy) (h ∙ ground arith)
    | inr (d, found) ↦
        rw (found, record_copy)
          (lookup-insert c.flow_id f (record_stats d c.byte_count c.reason) l.flows
            ∙ ground (arith, h))
  ]
]

stats-of :
    (l : CopyLedger) (f : ℕ) (s : FlowCopyStats)
    → Map.lookup f l.flows ≡ some s
    → flow_stats l f ≡ s
unfolding flow_stats
stats-of l f s h = rw (h, flow_stats) refl

Counts-step :
    (s s' : FlowCopyStats) (f : ℕ) (c : CopyEvent) (cs : List CopyEvent)
    → Counts (if c.flow_id == f then record_stats s c.byte_count c.reason else s) f cs s'
    → Counts s f (c ∷ cs) s'
unfolding record_stats
Counts-step s s' f c cs v = elim (index_cases c.flow_id f) [
  | inl same ↦ record {
    payload = ground (arith, v.payload);
    ops = ground (arith, v.ops);
    reasons = λ i. ground (arith, v.reasons i);
    metadata = ground (arith, v.metadata);
  }
  | inr other ↦ record {
    payload = ground (arith, v.payload);
    ops = ground (arith, v.ops);
    reasons = λ i. ground (arith, v.reasons i);
    metadata = ground (arith, v.metadata);
  }
]

-- For a registered flow the ledger counts exactly the copies of that flow: their bytes, their number and
-- their number for each reason, each modulo 2^64, whatever other flows copy in between.
pub record_all-Counts :
    (l : CopyLedger) (f : ℕ) (s : FlowCopyStats) (cs : List CopyEvent)
    → Map.lookup f l.flows ≡ some s
    → IsWord s
    → Counts s f cs (flow_stats (record_all l cs) f)
record_all-Counts l f s [] h v =
    subst (λ x. Counts s f [] x) (sym (stats-of l f s h))
      (record {
        payload = omega arith;
        ops = omega arith;
        reasons = λ i. omega (arith, v.reasons_fit i);
        metadata = refl;
      })
record_all-Counts l f s (c ∷ cs) h v =
    let s' = if c.flow_id == f then record_stats s c.byte_count c.reason else s in
    let word : IsWord s' = elim (Bool-cases (c.flow_id == f)) [
      | inl same ↦ rw same (record_stats-IsWord s c.byte_count c.reason v)
      | inr other ↦ rw other v
    ] in
    Counts-step s (flow_stats (record_all (record_copy l c).0 cs) f) f c cs
      (record_all-Counts (record_copy l c).0 f s' cs (lookup-record_copy l c f s h) word)
