-- ===== src/Resources/Ownership/Tests.antt =====
-- The theorems about ownership and tiers at a concrete buffer.
use torvyn.Common.{◌≡◌, refl, ◌↔◌, false, [], arith}
use torvyn.Types.ResourceState.{pooled, owned, borrowed}
use torvyn.Resources.Handle.{ResourceId, ResourceEntry, OwnerId, PoolTier, ok}
use torvyn.Resources.Ownership.{release_to_pool}
use torvyn.Resources.Ownership.Transitions.{
  IsCoherent, IsFree, call, starts_borrow, call-IsCoherent, release_iff,
}

abbrev id : ResourceId
id = record { index = 3; generation = 1 }

-- Component 5 owns it.
abbrev entry : ResourceEntry
entry = record {
  generation = 1;
  state = owned;
  owner = OwnerId.component 5;
  borrow_count = 0;
  buffer_ptr = 4096;
  alloc_size = 320;
  payload_capacity = 256;
  payload_len = 0;
  pool_tier = PoolTier.small;
  is_fallback = false;
  read_only = false;
  content_type = [];
  flow_id = 1;
  created_at_ns = 0;
}

abbrev lent : ResourceEntry
lent = record entry { state = borrowed; borrow_count = 1 }

lent_run : call starts_borrow id entry ≡ ok lent
unfolding call
lent_run = refl

entry-IsCoherent : IsCoherent entry
entry-IsCoherent = ground arith

call-IsCoherent_example : IsCoherent lent
call-IsCoherent_example =
    call-IsCoherent starts_borrow id entry entry-IsCoherent (omega arith) lent_run

release_iff_example :
    (release_to_pool id entry (OwnerId.component 5) ≡ ok (record entry { state = pooled }))
    ↔ IsFree entry (OwnerId.component 5)
release_iff_example = (release_iff id entry (OwnerId.component 5)).0
