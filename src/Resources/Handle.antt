-- ===== src/Resources/Handle.antt =====
-- crates/torvyn-resources/src/handle.rs and error.rs, with ResourceId of
-- crates/torvyn-types/src/identity.rs. A component or flow is its number; a buffer pointer is an
-- address. An error names owners where the source prints them.
pub mod Tiers
use torvyn.Common.{
  ℕ, ◌≡◌, refl, ◌↔◌, ◌⊎◌, inl, inr, Bool, true, false, Option, none, some, List, arith, leb, ◌==◌,
  if◌then◌else◌,
}
use torvyn.Types.ResourceState.{ResourceState}

pub record ResourceId : Type 0 where
  pub index : ℕ
  pub generation : ℕ

pub data OwnerId : Type 0 where
  host : OwnerId
  component : ℕ → OwnerId
  transit : OwnerId

-- `==` on owners, as derived.
unfoldable pub same_owner : OwnerId → OwnerId → Bool
same_owner host host = true
same_owner (component a) (component b) = a == b
same_owner transit transit = true
same_owner _ _ = false

pub same_owner_iff : (a b : OwnerId) → (same_owner a b ≡ true) ↔ (a ≡ b)
unfolding same_owner
same_owner_iff a b = ground arith

unfoldable pub component_id : OwnerId → Option ℕ
component_id (component id) = some id
component_id _ = none

pub data PoolTier : Type 0 where
  small medium large huge : PoolTier

abbrev pub capacity : PoolTier → ℕ
capacity small = 256
capacity medium = 4096
capacity large = 65536
capacity huge = 1048576

unfoldable pub for_capacity : ℕ → PoolTier
for_capacity requested =
    if leb requested (capacity small)
    then small
    else (if leb requested (capacity medium)
        then medium
        else (if leb requested (capacity large) then large else huge))

pub record ResourceEntry : Type 0 where
  pub generation : ℕ  -- u32
  pub state : ResourceState
  pub owner : OwnerId
  pub borrow_count : ℕ  -- u32
  pub buffer_ptr : ℕ
  pub alloc_size : ℕ
  pub payload_capacity : ℕ  -- u32
  pub payload_len : ℕ  -- u32
  pub pool_tier : PoolTier
  pub is_fallback : Bool
  pub read_only : Bool
  pub content_type : List ℕ
  pub flow_id : ℕ
  pub created_at_ns : ℕ

pub data Slot : Type 0 where
  occupied : ResourceEntry → Slot
  vacant : (next_free : ℕ) → (generation : ℕ) → Slot

unfoldable pub is_occupied : Slot → Bool
is_occupied (occupied e) = true
is_occupied (vacant n g) = false

unfoldable pub slot_generation : Slot → ℕ
slot_generation (occupied e) = e.generation
slot_generation (vacant n g) = g

pub data ResourceError : Type 0 where
  stale_handle : ResourceId → ResourceError
  not_owner : ResourceId → (expected actual : OwnerId) → ResourceError
  not_allocated : ResourceId → ResourceError
  borrows_outstanding : ResourceId → ℕ → ResourceError
  budget_exceeded : (component current requested budget : ℕ) → ResourceError
  allocation_failed : (capacity : ℕ) → ResourceError
  capacity_exceeded : ResourceId → (capacity attempted : ℕ) → ResourceError
  out_of_bounds : ResourceId → (offset size : ℕ) → ResourceError

-- error::Result of the crate.
pub data Result {ℓ} (A : Type ℓ) : Type ℓ where
  ok : A → Result A
  err : ResourceError → Result A

infixl 5 ◌>>=◌
abbrev pub ◌>>=◌ {ℓ κ} : {A : Type ℓ} {B : Type κ} → Result A → (A → Result B) → Result B
ok a >>= f = f a
err e >>= f = err e

pub Result-cases {ℓ} :
    {A : Type ℓ} (r : Result A) → ((a : A) × (r ≡ ok a)) ⊎ ((e : ResourceError) × (r ≡ err e))
Result-cases (ok a) = inl (a, refl)
Result-cases (err e) = inr (e, refl)
