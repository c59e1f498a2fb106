-- ===== src/Resources/Ownership.antt =====
-- crates/torvyn-resources/src/ownership.rs: each function mutates an entry or fails. The
-- functions return the entry as it is afterwards; on every error path it is the entry as it was.
pub mod Transitions
mod Tests
use torvyn.Common.{ℕ, ◌+◌, ◌-◌, Bool, true, false, ltb, ◌==◌, if◌then◌else◌}
use torvyn.Common.Word.{u32}
use torvyn.Types.ResourceState.{ResourceState, pooled, owned, borrowed, leased, transit, freed}
use torvyn.Resources.Handle.{
  ResourceId, OwnerId, same_owner, ResourceEntry, ResourceError, stale_handle, not_owner,
  not_allocated, borrows_outstanding, Result, ok, err,
}

-- `borrow_count += 1` on `u32`, in a build without overflow checks.
add_borrow : ResourceEntry → ResourceEntry
add_borrow e = record e { borrow_count = u32 (e.borrow_count + 1); state = borrowed }

borrow_start_in : ResourceState → ResourceId → ResourceEntry → Result ResourceEntry
unfolding add_borrow
borrow_start_in owned h e = ok (add_borrow e)
borrow_start_in borrowed h e = ok (add_borrow e)
borrow_start_in pooled h e = err (not_allocated h)
borrow_start_in _ h e = err (stale_handle h)

unfoldable pub borrow_start : ResourceId → ResourceEntry → Result ResourceEntry
unfolding borrow_start_in
borrow_start h e = borrow_start_in e.state h e

drop_borrow : ResourceEntry → ResourceEntry
drop_borrow e =
    let left = e.borrow_count - 1 in
    record e { borrow_count = left; state = if left == 0 then owned else e.state }

borrow_end_in : ResourceState → ResourceId → ResourceEntry → Result ResourceEntry
unfolding drop_borrow
borrow_end_in borrowed h e =
    if e.borrow_count == 0 then err (stale_handle h) else ok (drop_borrow e)
borrow_end_in _ h e = err (stale_handle h)

unfoldable pub borrow_end : ResourceId → ResourceEntry → Result ResourceEntry
unfolding borrow_end_in
borrow_end h e = borrow_end_in e.state h e

-- The error of `begin_transfer` and `release_to_pool` in a state other than `owned`.
not_owned : ResourceState → ResourceId → ResourceEntry → ResourceError
not_owned borrowed h e = borrows_outstanding h e.borrow_count
not_owned pooled h e = not_allocated h
not_owned _ h e = stale_handle h

-- The three guards that both share.
guarded :
    ResourceState → ResourceId → ResourceEntry → OwnerId → ResourceEntry → Result ResourceEntry
unfolding not_owned
guarded owned h e caller e' =
    if same_owner e.owner caller
    then (if ltb 0 e.borrow_count then err (borrows_outstanding h e.borrow_count) else ok e')
    else err (not_owner h e.owner caller)
guarded s h e caller e' = err (not_owned s h e)

unfoldable pub begin_transfer : ResourceId → ResourceEntry → OwnerId → Result ResourceEntry
unfolding guarded
begin_transfer h e caller =
    guarded e.state h e caller (record e { state = transit; owner = OwnerId.transit })

complete_transfer_in : ResourceState → ResourceId → ResourceEntry → OwnerId → Result ResourceEntry
complete_transfer_in transit h e new_owner = ok (record e { state = owned; owner = new_owner })
complete_transfer_in _ h e new_owner = err (stale_handle h)

unfoldable pub complete_transfer : ResourceId → ResourceEntry → OwnerId → Result ResourceEntry
unfolding complete_transfer_in
complete_transfer h e new_owner = complete_transfer_in e.state h e new_owner

unfoldable pub release_to_pool : ResourceId → ResourceEntry → OwnerId → Result ResourceEntry
unfolding guarded
release_to_pool h e caller = guarded e.state h e caller (record e { state = pooled })
