-- ===== src/Topology/Types.antt =====
-- The dataclasses of compiler/topology.py. A dict is a list of its values in order, which carry
-- their keys; a weight is a Python float, of which only what `Weight` lists is used.
use nathra.Common.{ℕ, ◌≡◌, Bool, true, List}
use nathra.Topology.Names.{Name}

pub data Reloadability : Type 0 where
  pure process_local resource_owner abi_anchor : Reloadability

-- Weights are finite sums of positive numbers, so `>` on them is transitive.
pub record Weight (W : Type 0) : Type 0 where
  pub zero_weight : W
  pub add : W → W → W
  pub exceeds : W → W → Bool
  pub exceeds_trans : (a b c : W) → exceeds a b ≡ true → exceeds b c ≡ true → exceeds a c ≡ true

pub record FunctionInfo : Type 0 where
  pub name : Name
  pub is_export : Bool
  pub alloc_tags : List Name
  pub acquires_resources : List Name
  pub releases_resources : List Name

pub record ModuleData : Type 0 where
  pub name : Name
  pub functions : List FunctionInfo
  pub imports : List Name
  -- local name, (module, original name)
  pub from_imports : List (Name × (Name × Name))
  pub exports : List Name
  pub has_globals : Bool
  pub reloadability : Reloadability

pub record CallEdge (W : Type 0) : Type 0 where
  pub caller : Name
  pub callee : Name
  pub weight : W

pub record Cluster (W : Type 0) : Type 0 where
  pub id : ℕ
  pub functions : List Name
  pub modules : List Name
  pub reloadability : Reloadability
  pub total_weight : W
