-- ===== src/Topology/Overrides.antt =====
-- compiler/topology.py, `pin_together`, `keep_alive` and step 4, `_apply_overrides`.
pub mod Together
pub mod Pinned
pub mod Laws
use nathra.Common.{
  ℕ, zero, suc, ◌≡◌, Bool, true, false, Option, none, some, List, [], ◌∷◌, ◌++◌, ◌==◌,
  if◌then◌else◌,
}
use nathra.StrMap.Hash.{str_eq}
use nathra.Topology.Names.{Name, member, union, filter, get_or, set}
use nathra.Topology.Types.{Weight, Cluster}
use nathra.Topology.Clusters.{Index, assign_all, no_cluster, emptied, renumber, has_functions}

-- `d[key] = value`, on a dict in the order of its keys.
unfoldable pub dict_set : Name → Name → List (Name × Name) → List (Name × Name)
dict_set key value [] = (key, value) ∷ []
dict_set key value ((k, v) ∷ d) =
    if str_eq k key then (k, value) ∷ d else (k, v) ∷ dict_set key value d

unfoldable pub pin_all : Name → List Name → List (Name × Name) → List (Name × Name)
pin_all anchor [] pins = pins
pin_all anchor (name ∷ names) pins = pin_all anchor names (dict_set name anchor pins)

-- A call without names raises IndexError, here `none`.
unfoldable pub pin_together : List Name → List (Name × Name) → Option (List (Name × Name))
pin_together [] pins = none
pin_together (anchor ∷ names) pins = some (pin_all anchor names pins)

unfoldable pub keep_alive : Name → List Name → List Name
keep_alive m keep = if member m keep then keep else keep ++ m ∷ []

module _ {W : Type 0} (weight : Weight W) where
  -- The clusters, `func_to_ci`, and the pins that a warning says were not found.
  pub record Pinning : Type 0 where
    pub clusters : List (Cluster W)
    pub index : Index
    pub warnings : List (Name × Name)

  -- A function of two clusters is found in the later one.
  unfoldable pub index_from : ℕ → List (Cluster W) → Index → Index
  index_from i [] index = index
  index_from i (c ∷ cs) index = index_from (suc i) cs (assign_all index c.functions i)

  unfoldable pub func_to_ci : List (Cluster W) → Index
  func_to_ci cs = index_from 0 cs (λ _. none)

  unfoldable pub absorb : Cluster W → Cluster W → Cluster W
  absorb dst src = record dst {
    functions = dst.functions ++ src.functions;
    modules = union dst.modules src.modules;
  }

  unfoldable pub pin_clusters : Pinning → ℕ → ℕ → Pinning
  pin_clusters s ci_fn ci_anchor =
      let src = get_or s.clusters ci_fn (no_cluster weight) in
      let dst = get_or s.clusters ci_anchor (no_cluster weight) in
      record s {
        clusters = set (set s.clusters ci_anchor (absorb dst src)) ci_fn (emptied weight src);
        index = assign_all s.index src.functions ci_anchor;
      }

  unfoldable pub pin_one : Name → Name → Pinning → Pinning
  pin_one fn anchor s = elim (s.index fn) [
    | none ↦ record s { warnings = s.warnings ++ (fn, anchor) ∷ [] }
    | some ci_fn ↦ elim (s.index anchor) [
      | none ↦ record s { warnings = s.warnings ++ (fn, anchor) ∷ [] }
      | some ci_anchor ↦ if ci_fn == ci_anchor then s else pin_clusters s ci_fn ci_anchor
    ]
  ]

  unfoldable pub pin_each : List (Name × Name) → Pinning → Pinning
  pin_each [] s = s
  pin_each ((fn, anchor) ∷ pins) s = pin_each pins (pin_one fn anchor s)

  unfoldable pub pinned : List (Name × Name) → List (Cluster W) → Pinning
  pinned pins cs = pin_each pins (record { clusters = cs; index = func_to_ci cs; warnings = [] })

  unfoldable pub apply_overrides : List (Name × Name) → List (Cluster W) → List (Cluster W)
  apply_overrides [] cs = cs
  apply_overrides (pin ∷ pins) cs =
      renumber weight 0 (filter (has_functions weight) (pinned (pin ∷ pins) cs).clusters)
