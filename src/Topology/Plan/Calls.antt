-- ===== src/Topology/Plan/Calls.antt =====
-- compiler/topology.py, `generate_build_plan`: the calls between libraries, the whole plan, and
-- `_generate_abi_hashes`.
use nathra.Common.{
  codes, ℕ, ◌*◌, ◌%◌, ◌^◌, Bool, true, false, ◌&&◌, none, some, List, [], ◌∷◌, ◌++◌, ◌==◌,
  if◌then◌else◌,
}
use Prim.Native.Nat.{bit_xor}
use nathra.StrMap.Hash.{str_eq}
use nathra.Wire.Result.{Result, ok, bind}
use nathra.Wire.Bytes.{Bytes}
use nathra.Wire.Utf8.{encode}
use nathra.Topology.Names.{Name, member, get_or, set}
use nathra.Topology.Types.{Reloadability, pure, abi_anchor, Weight, ModuleData, CallEdge}
use nathra.Topology.Clusters.{Index}
use nathra.Topology.Overrides.{func_to_ci}
use nathra.Topology.Analyze.{TopologyReport}
use nathra.Topology.Plan.{
  BuildMode, dev, release, service, SharedLibTarget, DispatchEntry, BuildPlan, sorted, release_plan,
  pick_pinned, shared_libs_from,
}

unfoldable pub member_pair : Name → Name → List (Name × Name) → Bool
member_pair a b [] = false
member_pair a b ((x, y) ∷ ps) = if str_eq a x && str_eq b y then true else member_pair a b ps

unfoldable pub member_nat : ℕ → List ℕ → Bool
member_nat n [] = false
member_nat n (x ∷ xs) = if n == x then true else member_nat n xs

-- The plan while the calls are added: the libraries, the dispatch table and `seen_dispatch`.
pub record Linking : Type 0 where
  pub libs : List SharedLibTarget
  pub table : List DispatchEntry
  pub seen : List Name

-- A new entry: nothing is known of the types of the function.
abbrev pub dispatch_entry : Name → ℕ → ℕ → DispatchEntry
dispatch_entry callee ci_callee ci_caller = record {
  name = callee;
  ret_type = codes "void";
  param_types = [];
  source_cluster = ci_callee;
  callers = ci_caller ∷ [];
}

unfoldable pub with_caller : ℕ → DispatchEntry → DispatchEntry
with_caller caller e =
    if member_nat caller e.callers then e else record e { callers = e.callers ++ caller ∷ [] }

-- The first entry of the name gets the caller, if it has not got it.
unfoldable pub add_caller : Name → ℕ → List DispatchEntry → List DispatchEntry
add_caller callee caller [] = []
add_caller callee caller (e ∷ es) =
    if str_eq e.name callee then with_caller caller e ∷ es else e ∷ add_caller callee caller es

unfoldable pub add_outgoing : Name → Name → SharedLibTarget → SharedLibTarget
add_outgoing caller callee lib =
    if member_pair caller callee lib.outgoing_calls
    then lib
    else record lib { outgoing_calls = lib.outgoing_calls ++ (caller, callee) ∷ [] }

unfoldable pub add_incoming : Name → SharedLibTarget → SharedLibTarget
add_incoming callee lib =
    if member callee lib.incoming_calls
    then lib
    else record lib { incoming_calls = lib.incoming_calls ++ callee ∷ [] }

abbrev pub no_lib : SharedLibTarget
no_lib = record {
  name = [];
  cluster_id = 0;
  modules = [];
  c_files = [];
  reloadability = pure;
  outgoing_calls = [];
  incoming_calls = [];
  abi_hash = 0;
}

-- `change` mutates the library at an index.
unfoldable pub change_lib :
    (SharedLibTarget → SharedLibTarget) → ℕ → List SharedLibTarget → List SharedLibTarget
change_lib change i libs = set libs i (change (get_or libs i no_lib))

unfoldable pub link_call : ℕ → ℕ → Name → Name → Linking → Linking
link_call ci_caller ci_callee caller callee l =
    let libs =
      change_lib (add_incoming callee) ci_callee
        (change_lib (add_outgoing caller callee) ci_caller l.libs) in
    if member callee l.seen
    then record { libs = libs; table = add_caller callee ci_caller l.table; seen = l.seen }
    else record {
      libs = libs;
      table = l.table ++ dispatch_entry callee ci_callee ci_caller ∷ [];
      seen = callee ∷ l.seen;
    }

module _ {W : Type 0} (weight : Weight W) where
  unfoldable pub link_edge : Index → CallEdge W → Linking → Linking
  link_edge index e l = elim (index e.caller) [
    | none ↦ l
    | some ci_caller ↦ elim (index e.callee) [
      | none ↦ l
      | some ci_callee ↦ link_call ci_caller ci_callee e.caller e.callee l
    ]
  ]

  unfoldable pub link_edges : Index → List (CallEdge W) → Linking → Linking
  link_edges index [] l = l
  link_edges index (e ∷ es) l = link_edges index es (link_edge index e l)

-- FNV-1a on 32 bits.
unfoldable pub fnv32 : Bytes → ℕ → ℕ
fnv32 [] h = h
fnv32 (b ∷ bs) h = fnv32 bs (bit_xor h b * 0x01000193 % 2 ^ 32)

unfoldable pub hash_names : List Name → ℕ → Result ℕ
hash_names [] h = ok h
hash_names (x ∷ xs) h = bind (encode x) λ bs. hash_names xs (fnv32 bs h)

-- The exports of the module of a name; an unknown name has none.
unfoldable pub exports_of : List ModuleData → Name → List Name
exports_of [] name = []
exports_of (m ∷ ms) name = if str_eq m.name name then sorted m.exports else exports_of ms name

unfoldable pub export_names : List ModuleData → List Name → List Name
export_names ms [] = []
export_names ms (x ∷ xs) = exports_of ms x ++ export_names ms xs

unfoldable pub abi_hash_of : List ModuleData → SharedLibTarget → Result ℕ
abi_hash_of ms lib = hash_names (sorted (export_names ms lib.modules)) 0x811c9dc5

abbrev pub is_abi_anchor : Reloadability → Bool
is_abi_anchor abi_anchor = true
is_abi_anchor _ = false

unfoldable pub with_abi_hash : List ModuleData → SharedLibTarget → Result SharedLibTarget
with_abi_hash ms lib =
    if is_abi_anchor lib.reloadability
    then bind (abi_hash_of ms lib) (λ h. ok (record lib { abi_hash = h }))
    else ok lib

unfoldable pub generate_abi_hashes :
    List ModuleData → List SharedLibTarget → Result (List SharedLibTarget)
generate_abi_hashes ms [] = ok []
generate_abi_hashes ms (lib ∷ libs) =
    bind (with_abi_hash ms lib) λ l. bind (generate_abi_hashes ms libs) λ ls. ok (l ∷ ls)

-- `analyzer_modules` are those of the analyzer, which is asked for the plan with a report.
module _ {W : Type 0} (weight : Weight W) (join : Name → Name → Name) where
  unfoldable pub linked_plan : TopologyReport W → Name → Name → BuildMode → BuildPlan
  linked_plan report source_dir host mode =
      let libs = shared_libs_from weight join source_dir 0 report.clusters in
      let linking =
        link_edges weight (func_to_ci weight report.clusters) report.cross_cluster_edges
          (record { libs = libs; table = []; seen = [] }) in
      let pinned = pick_pinned weight join report.clusters 0 report.clusters none in
      record {
        shared_libs = linking.libs;
        host_exe = host;
        host_c_files = elim pinned [ none ↦ [] | some p ↦ (get_or linking.libs p no_lib).c_files ];
        dispatch_table = linking.table;
        pinned_cluster = pinned;
        mode = mode;
        lto = false;
      }

  unfoldable pub generate_build_plan :
      List ModuleData → TopologyReport W → Name → Name → BuildMode → Result BuildPlan
  generate_build_plan analyzer_modules report source_dir host release =
      ok (release_plan weight join report.clusters source_dir host)
  generate_build_plan analyzer_modules report source_dir host dev =
      ok (linked_plan report source_dir host dev)
  generate_build_plan analyzer_modules report source_dir host service =
      let plan = linked_plan report source_dir host service in
      bind (generate_abi_hashes analyzer_modules plan.shared_libs)
        λ libs. ok (record plan { shared_libs = libs })
