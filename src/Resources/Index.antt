-- ===== src/Resources/Index.antt =====
-- The reverse indices of crates/torvyn-resources/src/manager.rs: from a component or a flow to its
-- buffers. A HashSet is a list without repetitions.
use torvyn.Common.{
  ◌≡◌, ◌↔◌, arith, ℕ, Bool, true, false, none, some, List, [], ◌∷◌, ◌==◌, ◌&&◌, if◌then◌else◌,
}
use torvyn.Common.Map
use torvyn.Common.Map.{Map}
use torvyn.Resources.Handle.{ResourceId, OwnerId, component}

unfoldable pub same_id : ResourceId → ResourceId → Bool
same_id a b = (a.index == b.index) && (a.generation == b.generation)

pub same_id_iff : (a b : ResourceId) → (same_id a b ≡ true) ↔ (a ≡ b)
unfolding same_id
same_id_iff a b = ground arith

unfoldable pub has_id : ResourceId → List ResourceId → Bool
has_id id [] = false
has_id id (i ∷ ids) = if same_id i id then true else has_id id ids

unfoldable pub add_id : ResourceId → List ResourceId → List ResourceId
unfolding has_id
add_id id ids = if has_id id ids then ids else id ∷ ids

unfoldable pub drop_id : ResourceId → List ResourceId → List ResourceId
drop_id id [] = []
drop_id id (i ∷ ids) = let rest = drop_id id ids in if same_id i id then rest else i ∷ rest

-- The reverse indices.
abbrev pub Index : Type 0
Index = Map (List ResourceId)

unfoldable pub ids_of : ℕ → Index → List ResourceId
ids_of key index = elim (Map.lookup key index) [ none ↦ [] | some ids ↦ ids ]

-- `entry(key).or_default().insert(id)`.
unfoldable pub index_add : ℕ → ResourceId → Index → Index
unfolding ids_of add_id
index_add key id index = Map.insert key (add_id id (ids_of key index)) index

-- `if let Some(set) = get_mut(&key) { set.remove(&id) }`.
unfoldable pub index_drop : ℕ → ResourceId → Index → Index
unfolding drop_id
index_drop key id index = elim (Map.lookup key index) [
  | none ↦ index
  | some ids ↦ Map.insert key (drop_id id ids) index
]

-- The two `if let OwnerId::Component(cid)` blocks on the component index.
unfoldable pub owner_add : OwnerId → ResourceId → Index → Index
unfolding index_add
owner_add (component c) id index = index_add c id index
owner_add _ id index = index

unfoldable pub owner_drop : OwnerId → ResourceId → Index → Index
unfolding index_drop
owner_drop (component c) id index = index_drop c id index
owner_drop _ id index = index
