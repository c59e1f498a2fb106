-- ===== src/Resources/Ownership/Transitions.antt =====
-- What the calls of crates/torvyn-resources/src/ownership.rs do to an entry.
use torvyn.Common.{
  ℕ, zero, suc, ◌+◌, ◌-◌, ◌↔◌, ◌∙◌, ◌≤◌, ◌<◌, ◌≡◌, refl, ◌≢◌, true, arith, inl, inr,
}
use torvyn.Common.Word.{u32_max}
use torvyn.Types.ResourceState.{pooled, owned, borrowed, transit, can_transition_to}
use torvyn.Resources.Handle.{
  ResourceId, OwnerId, same_owner_iff, ResourceEntry, Result, ok, err, ◌>>=◌, ResourceError,
  Result-cases,
}
use torvyn.Resources.Ownership.{
  borrow_start, borrow_end, begin_transfer, complete_transfer, release_to_pool,
}

-- An entry is borrowed exactly while borrows are outstanding, and in transit exactly while it has no
-- owner.
pub record IsCoherent (e : ResourceEntry) : Type 0 where
  pub busy : e.state ≡ borrowed → 0 < e.borrow_count
  pub idle : e.state ≢ borrowed → e.borrow_count ≡ 0
  pub moving : e.state ≡ transit → e.owner ≡ OwnerId.transit
  pub held : e.owner ≡ OwnerId.transit → e.state ≡ transit
  pub countable : e.borrow_count ≤ u32_max

-- The five calls, with what each is given beside the handle and the entry.
pub data Call : Type 0 where
  starts_borrow ends_borrow : Call
  begins_transfer completes_transfer releases : OwnerId → Call

unfoldable pub call : Call → ResourceId → ResourceEntry → Result ResourceEntry
unfolding borrow_start borrow_end begin_transfer complete_transfer release_to_pool
call starts_borrow h e = borrow_start h e
call ends_borrow h e = borrow_end h e
call (begins_transfer caller) h e = begin_transfer h e caller
call (completes_transfer new_owner) h e = complete_transfer h e new_owner
call (releases caller) h e = release_to_pool h e caller

-- A call that succeeds makes a transition that the resource state machine allows.
pub call-can_transition_to :
    (c : Call) (h : ResourceId) (e : ResourceEntry) {e' : ResourceEntry}
    → call c h e ≡ ok e'
    → can_transition_to e.state e'.state ≡ true
unfolding call can_transition_to
call-can_transition_to starts_borrow h e p = ground arith
call-can_transition_to ends_borrow h e p = ground arith
call-can_transition_to (begins_transfer o) h e p = ground arith
call-can_transition_to (completes_transfer o) h e p = ground arith
call-can_transition_to (releases o) h e p = ground arith

-- What a call needs so that no count overflows and no entry is left owned by nobody.
abbrev pub IsSafe : Call → ResourceEntry → Type 0
IsSafe starts_borrow e = e.borrow_count < u32_max
IsSafe (completes_transfer o) e = o ≢ OwnerId.transit
IsSafe (begins_transfer o) e = Unit {0}
IsSafe (releases o) e = Unit {0}
IsSafe ends_borrow e = Unit {0}

-- A call that succeeds keeps an entry coherent, as long as no borrow count overflows and no transfer
-- is completed towards the owner that stands for nobody.
pub call-IsCoherent :
    (c : Call) (h : ResourceId) (e : ResourceEntry) {e' : ResourceEntry}
    → IsCoherent e
    → IsSafe c e
    → call c h e ≡ ok e'
    → IsCoherent e'
unfolding call
call-IsCoherent starts_borrow h e v s p = ground arith
call-IsCoherent ends_borrow h e v s p = ground arith
call-IsCoherent (begins_transfer o) h e v s p = ground arith
call-IsCoherent (completes_transfer o) h e v s p = ground arith
call-IsCoherent (releases o) h e v s p = ground (arith, same_owner_iff e.owner o)

abbrev pub IsFree : ResourceEntry → OwnerId → Type 0
IsFree e caller = (e.state ≡ owned) × (e.owner ≡ caller) × (e.borrow_count ≡ 0)

-- A buffer is released, or handed over, exactly by its owner and exactly while nobody borrows it; the
-- release pools it and the transfer leaves it with nobody until it is completed.
pub release_iff :
    (h : ResourceId) (e : ResourceEntry) (caller : OwnerId)
    → ((release_to_pool h e caller ≡ ok (record e { state = pooled })) ↔ IsFree e caller)
      × ((begin_transfer h e caller ≡ ok (record e { state = transit; owner = OwnerId.transit }))
          ↔ IsFree e caller)
unfolding release_to_pool begin_transfer
release_iff h e caller = (
  (
    λ p. ground (arith, same_owner_iff e.owner caller),
    λ f. ground (arith, same_owner_iff e.owner caller),
  ),
  (
    λ p. ground (arith, same_owner_iff e.owner caller),
    λ f. ground (arith, same_owner_iff e.owner caller),
  ),
)

-- The same call `n` times, until it fails.
abbrev pub repeat :
    ℕ → (ResourceEntry → Result ResourceEntry) → ResourceEntry → Result ResourceEntry
repeat zero f e = ok e
repeat (suc n) f e = f e >>= repeat n f

repeat-start :
    (h : ResourceId) (n : ℕ) (e : ResourceEntry)
    → e.state ≡ borrowed
    → e.borrow_count + n ≤ u32_max
    → repeat n (borrow_start h) e ≡ ok (record e { borrow_count = e.borrow_count + n })
unfolding borrow_start
repeat-start h zero e s b = ground arith
repeat-start h (suc n) e s b =
    ground
      (arith, repeat-start h n (record e { borrow_count = e.borrow_count + 1; state = borrowed }))

repeat-end :
    (h : ResourceId) (n : ℕ) (e : ResourceEntry)
    → e.state ≡ borrowed
    → e.borrow_count ≡ suc n
    → repeat (suc n) (borrow_end h) e ≡ ok (record e { borrow_count = 0; state = owned })
unfolding borrow_end
repeat-end h zero e s b = ground arith
repeat-end h (suc n) e s b =
    ground (arith, repeat-end h n (record e { borrow_count = e.borrow_count - 1 }))

-- Borrows nest: after any number of them that fits the count, as many ends give the entry back as it
-- was, and the last of them alone makes it free again.
pub borrows_nest :
    (h : ResourceId) (e : ResourceEntry) (n : ℕ)
    → e.state ≡ owned
    → e.borrow_count ≡ 0
    → n ≤ u32_max
    → (repeat n (borrow_start h) e >>= repeat n (borrow_end h)) ≡ ok e
unfolding borrow_start
borrows_nest h e zero s b m = refl
borrows_nest h e (suc n) s b m =
    rw
      (first, repeat-start h n (record e { borrow_count = 1; state = borrowed }) refl (omega arith))
      (repeat-end h n (record e { borrow_count = 1 + n; state = borrowed }) refl (omega arith)
        ∙ ground arith)
  where
    first : borrow_start h e ≡ ok (record e { borrow_count = 1; state = borrowed })
    first = ground arith

-- Else both calls fail, and with the same error.
pub refused_unless_free :
    (h : ResourceId) (e : ResourceEntry) (caller : OwnerId)
    → ¬ IsFree e caller
    → (er : ResourceError) × (release_to_pool h e caller ≡ err er)
      × (begin_transfer h e caller ≡ err er)
unfolding release_to_pool begin_transfer
refused_unless_free h e caller busy = elim (Result-cases (release_to_pool h e caller)) [
  | inl (e', p) ↦ absurd (busy (ground (arith, p, same_owner_iff e.owner caller)))
  | inr (er, p) ↦ (er, p, ground (arith, p))
]
