-- ===== src/Topology/Clusters.antt =====
-- compiler/topology.py, step 3: `_build_clusters`. The dict of clusters is keyed by position.
pub mod Pick
pub mod Round
pub mod Totals
pub mod Loop
pub mod Uniform
pub mod Partition
use nathra.Common.{
  ℕ, zero, suc, ◌+◌, ◌*◌, ◌≡◌, refl, Bool, true, false, ◌&&◌, ◌||◌, not, Option, none, some, List,
  [], ◌∷◌, ◌++◌, map, ◌==◌, if◌then◌else◌, length,
}
use nathra.StrMap.Hash.{str_eq}
use nathra.Topology.Names.{Name, qualified, member, union, filter, nonempty, get_or, set}
use nathra.Topology.Types.{
  Reloadability, pure, process_local, resource_owner, abi_anchor, Weight, FunctionInfo, ModuleData,
  CallEdge, Cluster,
}

-- A dict from functions to clusters, which is only read by `get`.
abbrev pub Index : Type 0
Index = Name → Option ℕ

unfoldable pub assign_all : Index → List Name → ℕ → Index
assign_all index fs i f = if member f fs then some i else index f

unfoldable pub functions_of : ModuleData → List Name
functions_of m = map (λ (f : FunctionInfo). qualified m.name f.name) m.functions

abbrev same : Reloadability → Reloadability → Bool
same pure pure = true
same process_local process_local = true
same resource_owner resource_owner = true
same abi_anchor abi_anchor = true
same _ _ = false

-- `_compatible`
unfoldable pub compatible : Reloadability → Reloadability → Bool
compatible a b = if same a pure || same b pure then true else same a b

-- The first of `priority` that either of the two is.
unfoldable pub most_restrictive : Reloadability → Reloadability → Reloadability
most_restrictive a b =
    if same a resource_owner || same b resource_owner
    then resource_owner
    else if same a abi_anchor || same b abi_anchor
    then abi_anchor
    else if same a process_local || same b process_local
    then process_local
    else pure

module _ {W : Type 0} (weight : Weight W) where
  abbrev pub no_cluster : Cluster W
  no_cluster = record {
    id = 0;
    functions = [];
    modules = [];
    reloadability = pure;
    total_weight = weight.zero_weight;
  }

  -- The clusters while they are merged, with `func_to_cluster`.
  pub record Merging : Type 0 where
    pub clusters : List (Cluster W)
    pub index : Index

  unfoldable pub sum_of : (CallEdge W → Bool) → List (CallEdge W) → W → W
  sum_of p [] total = total
  sum_of p (e ∷ es) total = sum_of p es (if p e then weight.add total e.weight else total)

  -- `_inter_cluster_weight`, over the edges between the two clusters in either direction.
  unfoldable pub joins : Index → ℕ → ℕ → CallEdge W → Bool
  joins index c1 c2 e = elim (index e.caller) [
    | none ↦ false
    | some ec ↦ elim (index e.callee) [
      | none ↦ false
      | some ee ↦ (ec == c1 && ee == c2) || (ec == c2 && ee == c1)
    ]
  ]

  unfoldable pub inter_cluster_weight : List (CallEdge W) → Index → ℕ → ℕ → W
  inter_cluster_weight edges index c1 c2 = sum_of (joins index c1 c2) edges weight.zero_weight

  unfoldable pub active_from : ℕ → List (Cluster W) → List ℕ
  active_from i [] = []
  active_from i (c ∷ cs) =
      let rest = active_from (suc i) cs in if nonempty c.functions then i ∷ rest else rest

  pub record Best : Type 0 where
    pub best_pair : Option (ℕ × ℕ)
    pub best_weight : W

  unfoldable pub consider : List (CallEdge W) → Merging → ℕ → ℕ → Best → Best
  consider edges s c1 c2 best =
      let w = inter_cluster_weight edges s.index c1 c2 in
      if compatible (get_or s.clusters c1 no_cluster).reloadability
          (get_or s.clusters c2 no_cluster).reloadability
        && weight.exceeds w best.best_weight
      then record { best_pair = some (c1, c2); best_weight = w }
      else best

  unfoldable pub consider_row : List (CallEdge W) → Merging → ℕ → List ℕ → Best → Best
  consider_row edges s c1 [] best = best
  consider_row edges s c1 (c2 ∷ rest) best =
      consider_row edges s c1 rest (consider edges s c1 c2 best)

  unfoldable pub consider_all : List (CallEdge W) → Merging → List ℕ → Best → Best
  consider_all edges s [] best = best
  consider_all edges s (c1 ∷ rest) best =
      consider_all edges s rest (consider_row edges s c1 rest best)

  unfoldable pub best_merge : List (CallEdge W) → Merging → Best
  best_merge edges s =
      consider_all edges s (active_from 0 s.clusters)
        (record { best_pair = none; best_weight = weight.zero_weight })

  unfoldable pub merge_into : Cluster W → Cluster W → W → Cluster W
  merge_into a b w = record {
    id = a.id;
    functions = a.functions ++ b.functions;
    modules = union a.modules b.modules;
    reloadability = most_restrictive a.reloadability b.reloadability;
    total_weight = weight.add a.total_weight (weight.add b.total_weight w);
  }

  unfoldable pub emptied : Cluster W → Cluster W
  emptied b = record b { functions = []; modules = [] }

  unfoldable pub merge_pair : Merging → ℕ → ℕ → W → Merging
  merge_pair s c1 c2 w =
      let a = get_or s.clusters c1 no_cluster in
      let b = get_or s.clusters c2 no_cluster in
      record {
        clusters = set (set s.clusters c1 (merge_into a b w)) c2 (emptied b);
        index = assign_all s.index b.functions c1;
      }

  -- At most `max_merges` rounds.
  unfoldable pub merge_loop : List (CallEdge W) → ℕ → Merging → Merging
  merge_loop edges zero s = s
  merge_loop edges (suc max_merges) s = elim ((best_merge edges s).best_pair) [
    | none ↦ s
    | some (c1, c2) ↦ elim (weight.exceeds (best_merge edges s).best_weight weight.zero_weight) [
      | true ↦ merge_loop edges max_merges (merge_pair s c1 c2 (best_merge edges s).best_weight)
      | false ↦ s
    ]
  ]

  -- One cluster for each module.
  unfoldable pub module_cluster : List (CallEdge W) → ℕ → ModuleData → Cluster W
  module_cluster edges i m = record {
    id = i;
    functions = functions_of m;
    modules = m.name ∷ [];
    reloadability = m.reloadability;
    total_weight =
        sum_of
          (λ (e : CallEdge W). member e.caller (functions_of m) && member e.callee (functions_of m))
          edges weight.zero_weight;
  }

  unfoldable pub module_clusters : List (CallEdge W) → ℕ → List ModuleData → List (Cluster W)
  module_clusters edges i [] = []
  module_clusters edges i (m ∷ ms) = module_cluster edges i m ∷ module_clusters edges (suc i) ms

  unfoldable pub module_index : ℕ → List ModuleData → Index → Index
  module_index i [] index = index
  module_index i (m ∷ ms) index = module_index (suc i) ms (assign_all index (functions_of m) i)

  unfoldable pub start : List (CallEdge W) → List ModuleData → Merging
  start edges modules = record {
    clusters = module_clusters edges 0 modules;
    index = module_index 0 modules (λ _. none);
  }

  unfoldable pub merged : List (CallEdge W) → List ModuleData → Merging
  merged edges modules =
      merge_loop edges (length (start edges modules).clusters * 2) (start edges modules)

  unfoldable pub renumber : ℕ → List (Cluster W) → List (Cluster W)
  renumber i [] = []
  renumber i (c ∷ cs) = record c { id = i } ∷ renumber (suc i) cs

  abbrev pub has_functions : Cluster W → Bool
  has_functions c = nonempty c.functions

  unfoldable pub build_clusters : List (CallEdge W) → List ModuleData → List (Cluster W)
  build_clusters edges modules = renumber 0 (filter has_functions (merged edges modules).clusters)
