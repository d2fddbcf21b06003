-- ===== src/Tests/Topology.antt =====
-- A program of three modules: its report, its build plans, and the theorems on them.
use nathra.Common.{
  codes, ℕ, suc, ◌+◌, ◌≤◌, ◌≡◌, ◌≢◌, ◌↔◌, refl, ◌⊎◌, true, false, none, some, List, [], ◌∷◌, ◌++◌,
  arith, ltb, length,
}
use mathlib.Core.List.{Memᴰ}
use nathra.StrMap.Hash.{str_eq}
use nathra.Wire.Result.{ok}
use nathra.Topology.Names.{Name, member, union, any, all, filter, get_or, set}
use nathra.Topology.Types.{
  pure, process_local, resource_owner, Weight, FunctionInfo, ModuleData, CallEdge, Cluster,
}
use nathra.Topology.Modules.{
  acquire_names, FunctionSource, ModuleSource, scan_resources, function_info, set_function,
  add_functions, module_data, set_module, add_module,
}
use nathra.Topology.Modules.Laws.{function_info-leaks, reloadability_of-owner}
use nathra.Topology.Classify.{
  leaks, has_resources, imports_from, is_depended_on, reloadability_of, classify_modules,
}
use nathra.Topology.Clusters.{
  functions_of, assign_all, module_cluster, module_clusters, module_index, start, merged,
  build_clusters, merge_loop, best_merge, consider, consider_row, consider_all, active_from,
  inter_cluster_weight, sum_of, joins, compatible, merge_pair, merge_into, most_restrictive,
  emptied, renumber,
}
use nathra.Topology.Clusters.Pick.{IsActive}
use nathra.Topology.Clusters.Round.{gains}
use nathra.Topology.Clusters.Totals.{occurrences, count_of}
use nathra.Topology.Clusters.Partition.{all_functions, merged-gains}
use nathra.Topology.Clusters.Uniform.{build_clusters-Fits}
use nathra.Topology.Overrides.{index_from, func_to_ci, apply_overrides}
use nathra.Topology.Analyze.{TopologyReport, analyze}
use nathra.Topology.Analyze.Laws.{analyze-occurrences, analyze-calls}
use nathra.Topology.Plan.{BuildPlan, dev, pick_pinned}
use nathra.Topology.Plan.Calls.{no_lib, member_pair, generate_build_plan}
use nathra.Topology.Plan.Tables.{entries, called_from}
use nathra.Topology.Plan.Cross.{generate_build_plan-once}
use nathra.Topology.Plan.Pinned.{IsPick, pick_pinned-largest}
use nathra.Topology.Emit.Hosts.{reloadable_count, generate_build_plan-reloadable}

pub more : (a b c : ℕ) → ltb b a ≡ true → ltb c b ≡ true → ltb c a ≡ true
more a b c x y = ground (arith, x, y)

-- Weights that are natural numbers.
abbrev pub whole : Weight ℕ
whole = record {
  zero_weight = 0;
  add = λ a b. a + b;
  exceeds = λ a b. ltb b a;
  exceeds_trans = λ a b c x y. more a b c x y;
}

abbrev function : Name → List Name → FunctionSource
function name called = record { name = name; decorators = []; alloc_tags = []; called = called }

abbrev sources : Name → List Name → List Name → ModuleSource
sources name called globals = record {
  functions = function name called ∷ [];
  imports = [];
  from_imports = [];
  globals = globals;
}

-- `files` opens and closes a file, `state` has a global, `maths` has neither.
abbrev pub files_f : Name
files_f = codes "files.f"

abbrev pub state_g : Name
state_g = codes "state.g"

abbrev pub maths_h : Name
maths_h = codes "maths.h"

abbrev program : List ModuleData
program = add_module (codes "maths") (sources (codes "h") [] []) (
    add_module (codes "state") (sources (codes "g") [] (codes "count" ∷ [])) (
      add_module (codes "files")
        (sources (codes "f") (codes "file_open" ∷ codes "file_close" ∷ []) []) []))

abbrev call : Name → Name → ℕ → CallEdge ℕ
call a b w = record { caller = a; callee = b; weight = w }

abbrev calls : List (CallEdge ℕ)
calls = call files_f state_g 3 ∷ call state_g maths_h 5 ∷ []

abbrev report : TopologyReport ℕ
report = analyze whole [] [] program calls

abbrev pub join : Name → Name → Name
join a b = a ++ b'/' ∷ b

function_info-leaks_example :
    leaks (function_info (function (codes "f") (codes "file_open" ∷ codes "file_close" ∷ [])))
    ≡ any (λ x. member x acquire_names) (codes "file_open" ∷ codes "file_close" ∷ [])
function_info-leaks_example =
    function_info-leaks (function (codes "f") (codes "file_open" ∷ codes "file_close" ∷ []))

files_position : func_to_ci whole report.clusters files_f ≡ some 0
unfolding func_to_ci index_from analyze apply_overrides build_clusters renumber filter merged
    merge_loop start module_clusters classify_modules add_module set_module str_eq module_data
    add_functions reloadability_of active_from assign_all best_merge compatible consider
    consider_all consider_row emptied functions_of inter_cluster_weight joins merge_into merge_pair
    module_cluster module_index most_restrictive sum_of function_info scan_resources set_function
    all any get_or member set union has_resources leaks is_depended_on imports_from
files_position = refl

state_position : func_to_ci whole report.clusters state_g ≡ some 1
unfolding func_to_ci index_from analyze apply_overrides build_clusters renumber filter merged
    merge_loop start module_clusters classify_modules add_module set_module str_eq module_data
    add_functions reloadability_of active_from assign_all best_merge compatible consider
    consider_all consider_row emptied functions_of inter_cluster_weight joins merge_into merge_pair
    module_cluster module_index most_restrictive sum_of function_info scan_resources set_function
    all any get_or member set union has_resources leaks is_depended_on imports_from
state_position = refl

pub zero_one : ◌≢◌ {A = ℕ} 0 1
zero_one e = absurd (omega (arith, e))

analyze-occurrences_example :
    occurrences whole files_f (analyze whole [] [] program calls).clusters
    ≡ count_of files_f (all_functions program)
analyze-occurrences_example = analyze-occurrences whole [] [] program calls files_f

analyze-calls_example :
    (plan : BuildPlan) × ((generate_build_plan whole join program
          (analyze whole [] [] program calls)
          (codes "out")
          (codes "app")
          dev
        ≡ ok plan)
      × ((member_pair files_f state_g (get_or plan.shared_libs 0 no_lib).outgoing_calls ≡ true)
          × ((member state_g (get_or plan.shared_libs 1 no_lib).incoming_calls ≡ true)
              × (called_from state_g 0 plan.dispatch_table ≡ true))))
analyze-calls_example =
    analyze-calls whole [] [] program calls join (codes "out") (codes "app")
      (call files_f state_g 3) 0 1 (Memᴰ.head refl) files_position state_position zero_one

generate_build_plan-once_example :
    (plan : BuildPlan) × ((generate_build_plan whole join program report
          (codes "out")
          (codes "app")
          dev
        ≡ ok plan)
      × (entries state_g plan.dispatch_table ≤ 1))
generate_build_plan-once_example =
    generate_build_plan-once whole join program report (codes "out") (codes "app") state_g

generate_build_plan-reloadable_example :
    (plan : BuildPlan) × ((generate_build_plan whole join program report
          (codes "out")
          (codes "app")
          dev
        ≡ ok plan)
      × (length plan.shared_libs ≤ suc (reloadable_count plan.pinned_cluster plan.shared_libs)))
generate_build_plan-reloadable_example =
    generate_build_plan-reloadable whole join (codes "out") program report (codes "app")

pick_pinned-largest_example :
    IsPick whole join
      (analyze whole [] [] program calls).clusters
      (length (analyze whole [] [] program calls).clusters)
      (pick_pinned whole join
        (analyze whole [] [] program calls).clusters
        0
        (analyze whole [] [] program calls).clusters
        none)
pick_pinned-largest_example =
    pick_pinned-largest whole join (analyze whole [] [] program calls).clusters

abbrev files_module : ModuleData
files_module =
    module_data (codes "files")
      (sources (codes "f") (codes "file_open" ∷ codes "file_close" ∷ []) [])

reloadability_of-owner_example : (reloadability_of [] program files_module ≡ resource_owner) ↔ (
    Memᴰ files_module.name []
    ⊎ ((f : FunctionInfo) × (Memᴰ f files_module.functions
          × ((r : Name) × (Memᴰ r f.acquires_resources × (¬ Memᴰ r f.releases_resources))))))
reloadability_of-owner_example = reloadability_of-owner [] program files_module

-- The modules `state` and `maths` are merged; the cluster of `files` is active with theirs.
files-IsActive : IsActive whole (merged whole calls (classify_modules [] program)) 0
unfolding func_to_ci index_from analyze apply_overrides build_clusters renumber filter merged
    merge_loop start module_clusters classify_modules add_module set_module str_eq module_data
    add_functions reloadability_of active_from assign_all best_merge compatible consider
    consider_all consider_row emptied functions_of inter_cluster_weight joins merge_into merge_pair
    module_cluster module_index most_restrictive sum_of function_info scan_resources set_function
    all any get_or member set union has_resources leaks is_depended_on imports_from
files-IsActive = record { bound = omega arith; full = refl }

state-IsActive : IsActive whole (merged whole calls (classify_modules [] program)) 1
unfolding func_to_ci index_from analyze apply_overrides build_clusters renumber filter merged
    merge_loop start module_clusters classify_modules add_module set_module str_eq module_data
    add_functions reloadability_of active_from assign_all best_merge compatible consider
    consider_all consider_row emptied functions_of inter_cluster_weight joins merge_into merge_pair
    module_cluster module_index most_restrictive sum_of function_info scan_resources set_function
    all any get_or member set union has_resources leaks is_depended_on imports_from
state-IsActive = record { bound = omega arith; full = refl }

merged-gains_example :
    gains whole calls (merged whole calls (classify_modules [] program)) 0 1 ≡ false
merged-gains_example =
    merged-gains whole calls (classify_modules [] program) 0 1 (omega arith) files-IsActive
      state-IsActive

-- What is merged of the modules without resources.
abbrev maths_cluster : Cluster ℕ
maths_cluster = record {
  id = 1;
  functions = state_g ∷ maths_h ∷ [];
  modules = codes "state" ∷ codes "maths" ∷ [];
  reloadability = process_local;
  total_weight = 5;
}

maths_built : Memᴰ maths_cluster (build_clusters whole calls (classify_modules [] program))
unfolding func_to_ci index_from analyze apply_overrides build_clusters renumber filter merged
    merge_loop start module_clusters classify_modules add_module set_module str_eq module_data
    add_functions reloadability_of active_from assign_all best_merge compatible consider
    consider_all consider_row emptied functions_of inter_cluster_weight joins merge_into merge_pair
    module_cluster module_index most_restrictive sum_of function_info scan_resources set_function
    all any get_or member set union has_resources leaks is_depended_on imports_from
maths_built = Memᴰ.tail (Memᴰ.head refl)

build_clusters-Fits_example :
    (m : ModuleData) × (Memᴰ m (classify_modules [] program)
      × ((m.name ≡ codes "maths") × ((m.reloadability ≡ pure) ⊎ (m.reloadability ≡ process_local))))
build_clusters-Fits_example =
    build_clusters-Fits whole (classify_modules [] program) calls maths_cluster maths_built
      (codes "maths") (Memᴰ.tail (Memᴰ.head refl))
