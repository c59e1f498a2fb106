-- ===== src/Resources/Manager/Keeping.antt =====
-- Which handles the clean-ups of crates/torvyn-resources/src/manager.rs leave with their entry.
use torvyn.Common.{
  ◌≡◌, refl, ◌↔◌, Bool-cases, false, List, [], ◌∷◌, arith, inl, inr, sym, ap, subst,
}
use torvyn.Resources.Handle.{ResourceId, ResourceEntry, ok, err, ResourceError}
use torvyn.Resources.Table.{ResourceTable, get}
use torvyn.Resources.Table.Invariant.{get-occupied}
use torvyn.Resources.Index.{has_id, same_id, same_id_iff}
use torvyn.Resources.Manager.Taking.{Taken, same-entry}

-- The second table holds what the first held, without the entries of `ids`.
abbrev pub LeavesOut : List ResourceId → (before after : ResourceTable) → Type 0
LeavesOut ids t t' =
    (id : ResourceId) (e : ResourceEntry)
    → (get t' id ≡ ok e) ↔ ((get t id ≡ ok e) × (has_id id ids ≡ false))

-- Two handles of one slot that reach an entry are one handle.
same-handle :
    (t : ResourceTable) (id id' : ResourceId) (e e' : ResourceEntry)
    → get t id ≡ ok e
    → get t id' ≡ ok e'
    → id.index ≡ id'.index
    → id ≡ id'
same-handle t id id' e e' h h' same =
    let eq = same-entry t id id' e e' h h' same in
    let gen = ap (λ (x : ResourceEntry). x.generation) eq in
    ground (arith, gen, (get-occupied t id e h).1, (get-occupied t id' e' h').1)

other-of_stale :
    (t : ResourceTable) (id i : ResourceId) (d : ResourceEntry) (er : ResourceError)
    → get t id ≡ err er
    → get t i ≡ ok d
    → has_id i (id ∷ []) ≡ false
unfolding has_id
other-of_stale t id i d er stale h = elim (Bool-cases (same_id id i)) [
  | inl same ↦
      let found = subst (λ k. get t k ≡ ok d) (sym ((same_id_iff id i).0 same)) h in
      absurd (ground (arith, stale, found))
  | inr other ↦ ground (arith, other)
]

pub nil-LeavesOut : (t : ResourceTable) → LeavesOut [] t t
unfolding has_id
nil-LeavesOut t id e = ((λ h. (h, refl)), (λ h. h.0))

pub cons-LeavesOut :
    (t t' t'' : ResourceTable) (i : ResourceId) (ids : List ResourceId)
    → LeavesOut (i ∷ []) t t'
    → LeavesOut ids t' t''
    → LeavesOut (i ∷ ids) t t''
unfolding has_id
cons-LeavesOut t t' t'' i ids step rest id e = (
  (λ h. ground (arith, (rest id e).0 h, (step id e).0 ((rest id e).0 h).0)),
  (λ h. (rest id e).1 ((step id e).1 (h.0, ground (arith, h.1)), ground (arith, h.1))),
)

pub stale-LeavesOut :
    (t : ResourceTable) (id : ResourceId) (er : ResourceError)
    → get t id ≡ err er
    → LeavesOut (id ∷ []) t t
stale-LeavesOut t id er stale i d = ((λ h. (h, other-of_stale t id i d er stale h)), (λ h. h.0))

pub Taken-LeavesOut :
    (t t' : ResourceTable) (id : ResourceId) (e : ResourceEntry)
    → get t id ≡ ok e
    → Taken t id e t'
    → LeavesOut (id ∷ []) t t'
unfolding has_id
Taken-LeavesOut t t' id e here taken i d = (
  (λ h.
      ((taken.nothing_new i d h).1, ground (arith, (taken.nothing_new i d h).0, same_id_iff id i))),
  (λ h.
      taken.others i d
        (λ same.
          ground (arith, h.1, (same_id_iff id i).1 (same-handle t id i e d here h.0 (sym same))))
        h.0),
)
