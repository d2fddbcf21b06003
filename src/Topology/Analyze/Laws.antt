-- ===== src/Topology/Analyze/Laws.antt =====
-- compiler/topology.py, `analyze` and the plan of its report: no function is lost, and every call
-- between clusters is linked.
use nathra.Common.{ℕ, ◌≡◌, ◌≢◌, refl, ap, ◌∙◌, true, some, List, [], ◌∷◌, ◌++◌, map, arith, ==_iff}
use mathlib.Core.List.{Memᴰ}
use nathra.Wire.Result.{ok}
use nathra.Topology.Names.{Name, member, get_or}
use nathra.Topology.Member.{Memᴰ-filter}
use nathra.Topology.Types.{Weight, ModuleData, CallEdge, Cluster}
use nathra.Topology.Classify.{reloadability_of, classify_modules}
use nathra.Topology.Clusters.{functions_of}
use nathra.Topology.Clusters.Totals.{occurrences, count_of}
use nathra.Topology.Clusters.Partition.{all_functions, build_clusters-occurrences}
use nathra.Topology.Overrides.{func_to_ci}
use nathra.Topology.Overrides.Laws.{apply_overrides-occurrences}
use nathra.Topology.Analyze.{crosses_to, crosses, is_cross_edge, cross_cluster_edges, analyze}
use nathra.Topology.Plan.{BuildPlan, dev}
use nathra.Topology.Plan.Calls.{no_lib, member_pair, generate_build_plan}
use nathra.Topology.Plan.Tables.{called_from}
use nathra.Topology.Plan.Cross.{generate_build_plan-calls}

-- Classification changes no function.
classify_modules-functions :
    (keep : List Name) (all ms : List ModuleData)
    → all_functions
        (map (λ (m : ModuleData). record m { reloadability = reloadability_of keep all m }) ms)
      ≡ all_functions ms
unfolding all_functions functions_of
classify_modules-functions keep all [] = refl
classify_modules-functions keep all (m ∷ ms) =
    ap (λ fs. functions_of m ++ fs) (classify_modules-functions keep all ms)

module _ {W : Type 0} (weight : Weight W) where
  -- In the report of analyze every name stands in the clusters as often as it is a function of the
  -- modules: no function is lost and none stands in two clusters, whatever is pinned.
  pub analyze-occurrences :
      (keep : List Name) (pins : List (Name × Name)) (modules : List ModuleData)
      (edges : List (CallEdge W)) (f : Name)
      → occurrences weight f (analyze weight keep pins modules edges).clusters
        ≡ count_of f (all_functions modules)
  unfolding analyze classify_modules
  analyze-occurrences keep pins modules edges f =
      apply_overrides-occurrences weight pins _ f
      ∙ build_clusters-occurrences weight edges (classify_modules keep modules) f
      ∙ ap (count_of f) (classify_modules-functions keep modules modules)

  is_cross_edge-holds :
      (cs : List (Cluster W)) (e : CallEdge W) (i j : ℕ)
      → func_to_ci weight cs e.caller ≡ some i
      → func_to_ci weight cs e.callee ≡ some j
      → i ≢ j
      → is_cross_edge weight (func_to_ci weight cs) e ≡ true
  unfolding is_cross_edge crosses crosses_to
  is_cross_edge-holds cs e i j hi hj ne = rw (hi, hj) (grind (arith, ==_iff i j, ne))

  -- When analyze is given a call between functions that its report has in different clusters, the
  -- plan of a dev build of the report has the call: the library of the caller's cluster lists it as
  -- outgoing, that of the callee's cluster lists the callee as incoming, and the dispatch table has
  -- an entry of the callee that lists the caller's cluster.
  pub analyze-calls :
      (keep : List Name) (pins : List (Name × Name)) (modules : List ModuleData)
      (edges : List (CallEdge W)) (join : Name → Name → Name) (dir host : Name) (e : CallEdge W)
      (i j : ℕ)
      → Memᴰ e edges
      → func_to_ci weight (analyze weight keep pins modules edges).clusters e.caller ≡ some i
      → func_to_ci weight (analyze weight keep pins modules edges).clusters e.callee ≡ some j
      → i ≢ j
      → (plan : BuildPlan) × ((generate_build_plan weight join modules
              (analyze weight keep pins modules edges)
              dir
              host
              dev
            ≡ ok plan)
          × ((member_pair e.caller e.callee (get_or plan.shared_libs i no_lib).outgoing_calls
                ≡ true)
              × ((member e.callee (get_or plan.shared_libs j no_lib).incoming_calls ≡ true)
                  × (called_from e.callee i plan.dispatch_table ≡ true))))
  unfolding analyze cross_cluster_edges
  analyze-calls keep pins modules edges join dir host e i j m hi hj ne =
      let report = analyze weight keep pins modules edges in
      generate_build_plan-calls weight join modules report dir host e i j
        (Memᴰ-filter (is_cross_edge weight (func_to_ci weight report.clusters)) e m
          (is_cross_edge-holds report.clusters e i j hi hj ne))
        hi hj
