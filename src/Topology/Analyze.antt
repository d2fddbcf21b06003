-- ===== src/Topology/Analyze.antt =====
-- compiler/topology.py, step 5, `_compute_cross_cluster_edges`, and `analyze`.
pub mod Laws
use nathra.Common.{
  ℕ, Bool, true, false, not, Option, none, some, List, [], ◌∷◌, ◌++◌, map, ◌==◌, if◌then◌else◌,
}
use nathra.Topology.Names.{Name, filter}
use nathra.Topology.Types.{Weight, ModuleData, CallEdge, Cluster}
use nathra.Topology.Classify.{classify_modules, keep_alive_warnings, heap_violations}
use nathra.Topology.Clusters.{Index, build_clusters}
use nathra.Topology.Overrides.{Pinning, func_to_ci, pinned, apply_overrides}

-- The diagnostics, without their wording.
pub data Warning : Type 0 where
  kept_alive : Name → Warning
  pin_not_found : Name → Name → Warning

pub record TopologyReport (W : Type 0) : Type 0 where
  pub modules : List ModuleData
  pub clusters : List (Cluster W)
  pub cross_cluster_edges : List (CallEdge W)
  pub warnings : List Warning
  pub heap_violations : List (CallEdge W)

unfoldable pub crosses_to : ℕ → Option ℕ → Bool
crosses_to ci_caller none = false
crosses_to ci_caller (some ci_callee) = not (ci_caller == ci_callee)

unfoldable pub crosses : Option ℕ → Option ℕ → Bool
unfolding crosses_to
crosses none callee = false
crosses (some ci_caller) callee = crosses_to ci_caller callee

module _ {W : Type 0} (weight : Weight W) where
  unfoldable pub is_cross_edge : Index → CallEdge W → Bool
  is_cross_edge index e = crosses (index e.caller) (index e.callee)

  unfoldable pub cross_cluster_edges : List (Cluster W) → List (CallEdge W) → List (CallEdge W)
  cross_cluster_edges cs edges = filter (is_cross_edge (func_to_ci weight cs)) edges

  unfoldable pub pin_warnings : List (Name × Name) → List (Cluster W) → List Warning
  pin_warnings [] cs = []
  pin_warnings (pin ∷ pins) cs =
      map (λ (p : Name × Name). pin_not_found p.0 p.1) (pinned weight (pin ∷ pins) cs).warnings

  unfoldable pub analyze :
      List Name → List (Name × Name) → List ModuleData → List (CallEdge W) → TopologyReport W
  analyze keep pins modules edges =
      let classified = classify_modules keep modules in
      let merged = build_clusters weight edges classified in
      let clusters = apply_overrides weight pins merged in
      record {
        modules = classified;
        clusters = clusters;
        cross_cluster_edges = cross_cluster_edges clusters edges;
        warnings = map kept_alive (keep_alive_warnings keep modules) ++ pin_warnings pins merged;
        heap_violations = heap_violations classified edges;
      }
