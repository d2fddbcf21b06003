-- ===== src/Tests/Plans.antt =====
-- Clusters, dispatch entries and exports by hand, and the theorems on them.
use nathra.Common.{codes, ℕ, ◌<◌, ◌^◌, ◌≡◌, refl, false, some, List, [], ◌∷◌, none, ◌++◌}
use mathlib.Core.List.{Memᴰ}
use nathra.StrMap.Hash.{str_eq}
use nathra.Wire.Result.{ok}
use nathra.Wire.Utf8.{encode, encode_char}
use nathra.Topology.Names.{Name, qualified, member, get_or}
use nathra.Topology.Types.{pure, resource_owner, abi_anchor, ModuleData, Cluster}
use nathra.Topology.Clusters.{assign_all, no_cluster}
use nathra.Topology.Overrides.{index_from, func_to_ci, apply_overrides}
use nathra.Topology.Overrides.Laws.{apply_overrides-together, apply_overrides-reloadability}
use nathra.Topology.Plan.{
  SharedLibTarget, BuildPlan, service, shared_libs_from, shared_lib, lib_name, pick_pinned,
  is_pinned, sorted, insert_name, name_le, mangle, decimal, decimal_within,
}
use nathra.Topology.Plan.Calls.{
  dispatch_entry, hash_names, fnv32, exports_of, export_names, abi_hash_of, with_abi_hash,
  generate_abi_hashes, linked_plan, link_edges, generate_build_plan,
}
use nathra.Topology.Plan.Abi.{concat, abi_hash_of-concat}
use nathra.Topology.Plan.Bound.{planned_hash, generate_build_plan-abi_hash}
use nathra.Topology.Analyze.{TopologyReport}
use nathra.Topology.Emit.{
  table_field, wrapper, join_by, newline, generate_dispatch_header, registration, register_cluster,
  register_line, reloadable, is_host, load_lines,
}
use nathra.Topology.Emit.Laws.{table_field-collision}
use nathra.Topology.Emit.Groups.{entries_of}
use nathra.Topology.Emit.Registers.{Contains, register_block, generate_dispatch_header-registers}
use nathra.Tests.Topology.{join, whole, files_f, state_g, maths_h, zero_one}

-- Two clusters of hand, one of which owns resources.
abbrev owner : Cluster ℕ
owner = record {
  id = 0;
  functions = files_f ∷ [];
  modules = codes "files" ∷ [];
  reloadability = resource_owner;
  total_weight = 0;
}

abbrev plain : Cluster ℕ
plain = record {
  id = 1;
  functions = maths_h ∷ [];
  modules = codes "maths" ∷ [];
  reloadability = pure;
  total_weight = 0;
}

owner_position : func_to_ci whole (owner ∷ plain ∷ []) files_f ≡ some 0
unfolding func_to_ci index_from assign_all member str_eq
owner_position = refl

plain_position : func_to_ci whole (owner ∷ plain ∷ []) maths_h ≡ some 1
unfolding func_to_ci index_from assign_all member str_eq
plain_position = refl

apply_overrides-together_example :
    (c : Cluster ℕ) × (Memᴰ c (apply_overrides whole ((files_f, maths_h) ∷ []) (owner ∷ plain ∷ []))
      × (Memᴰ files_f c.functions × Memᴰ maths_h c.functions))
apply_overrides-together_example =
    apply_overrides-together whole ((files_f, maths_h) ∷ []) (owner ∷ plain ∷ []) files_f maths_h
      owner plain (Memᴰ.head refl) (Memᴰ.head refl) (Memᴰ.head refl) (Memᴰ.tail (Memᴰ.head refl))
      (Memᴰ.head refl)

-- A cluster that owns resources is pinned into one that is pure.
apply_overrides-reloadability_example :
    (c : Cluster ℕ) × (Memᴰ c (apply_overrides whole ((files_f, maths_h) ∷ []) (owner ∷ plain ∷ []))
      × (Memᴰ files_f c.functions
          × (c.reloadability ≡ (get_or (owner ∷ plain ∷ []) 1 (no_cluster whole)).reloadability)))
apply_overrides-reloadability_example =
    apply_overrides-reloadability whole (owner ∷ plain ∷ []) files_f maths_h 0 1 owner_position
      plain_position zero_one

table_field-collision_example :
    table_field (dispatch_entry (qualified (codes "a_b") (codes "c")) 0 1)
    ≡ table_field (dispatch_entry (qualified (codes "a") (codes "b_c")) 1 0)
table_field-collision_example = table_field-collision (codes "a") (codes "b") (codes "c") 0 1 1 0

abbrev exporting : List Name → ModuleData
exporting names = record {
  name = codes "m";
  functions = [];
  imports = [];
  from_imports = [];
  exports = names;
  has_globals = false;
  reloadability = abi_anchor;
}

abbrev anchor_lib : SharedLibTarget
anchor_lib = record {
  name = codes "m";
  cluster_id = 0;
  modules = codes "m" ∷ [];
  c_files = [];
  reloadability = abi_anchor;
  outgoing_calls = [];
  incoming_calls = [];
  abi_hash = 0;
}

-- Exports `ab` and `c`, and exports `a` and `bc`.
same_text :
    concat (sorted (export_names (exporting (codes "ab" ∷ codes "c" ∷ []) ∷ []) anchor_lib.modules))
    ≡ concat
        (sorted (export_names (exporting (codes "a" ∷ codes "bc" ∷ []) ∷ []) anchor_lib.modules))
unfolding concat sorted insert_name name_le export_names exports_of str_eq
same_text = refl

abi_hash_of-concat_example :
    abi_hash_of (exporting (codes "ab" ∷ codes "c" ∷ []) ∷ []) anchor_lib
    ≡ abi_hash_of (exporting (codes "a" ∷ codes "bc" ∷ []) ∷ []) anchor_lib
abi_hash_of-concat_example =
    abi_hash_of-concat (exporting (codes "ab" ∷ codes "c" ∷ []) ∷ [])
      (exporting (codes "a" ∷ codes "bc" ∷ []) ∷ []) anchor_lib same_text

-- A plan for a service with one library, whose hash is that of `f`.
abbrev anchor_report : TopologyReport ℕ
anchor_report = record {
  modules = [];
  clusters =
      record {
        id = 0;
        functions = [];
        modules = codes "m" ∷ [];
        reloadability = abi_anchor;
        total_weight = 0;
      }
      ∷ [];
  cross_cluster_edges = [];
  warnings = [];
  heap_violations = [];
}

abbrev hashed_lib : SharedLibTarget
hashed_lib = record anchor_lib { c_files = codes "out/m.c" ∷ []; abi_hash = 3809224601 }

abbrev service_plan : BuildPlan
service_plan = record {
  shared_libs = hashed_lib ∷ [];
  host_exe = codes "app";
  host_c_files = codes "out/m.c" ∷ [];
  dispatch_table = [];
  pinned_cluster = some 0;
  mode = service;
  lto = false;
}

one_hash :
    generate_build_plan whole join
      (exporting (codes "f" ∷ []) ∷ [])
      anchor_report
      (codes "out")
      (codes "app")
      service
    ≡ ok service_plan
unfolding generate_build_plan linked_plan link_edges shared_libs_from shared_lib lib_name
    pick_pinned is_pinned func_to_ci get_or generate_abi_hashes with_abi_hash abi_hash_of hash_names
    fnv32 encode encode_char sorted insert_name name_le export_names exports_of str_eq
one_hash = refl

generate_build_plan-abi_hash_example :
    (planned_hash (exporting (codes "f" ∷ []) ∷ []) service hashed_lib ≡ ok 3809224601)
    × (hashed_lib.abi_hash < 2 ^ 32)
generate_build_plan-abi_hash_example =
    generate_build_plan-abi_hash whole join (exporting (codes "f" ∷ []) ∷ []) anchor_report
      (codes "out") (codes "app") service service_plan one_hash hashed_lib (Memᴰ.head refl)

-- A plan with an entry of cluster 1 before and after one of cluster 0.
abbrev three_entries : BuildPlan
three_entries = record service_plan {
  dispatch_table =
      dispatch_entry state_g 1 0 ∷ dispatch_entry files_f 0 1 ∷ dispatch_entry maths_h 1 0 ∷ [];
}

generate_dispatch_header-registers_example :
    (lines : List Name) × ((generate_dispatch_header three_entries ≡ join_by newline lines)
      × (Contains lines (register_block 0 (entries_of 0 three_entries.dispatch_table))
          × Memᴰ (dispatch_entry files_f 0 1) (entries_of 0 three_entries.dispatch_table)))
generate_dispatch_header-registers_example =
    generate_dispatch_header-registers three_entries (dispatch_entry files_f 0 1)
      (Memᴰ.tail (Memᴰ.head refl))

both_of_one :
    entries_of 1 three_entries.dispatch_table
    ≡ dispatch_entry state_g 1 0 ∷ dispatch_entry maths_h 1 0 ∷ []
unfolding entries_of
both_of_one = refl

abbrev quoted : Name → Name
quoted text = 34 ∷ text ++ 34 ∷ []

-- The C text of one entry of the dispatch table.
field_text : table_field (dispatch_entry state_g 1 0) ≡ codes "    void (*state_g)(void);"
unfolding table_field mangle
field_text = refl

wrapper_text :
    wrapper (dispatch_entry state_g 1 0)
    ≡ codes "static inline void state_g(void) {"
      ∷ codes "    nr_dispatch.state_g();"
      ∷ codes "}"
      ∷ []
      ∷ []
unfolding wrapper mangle str_eq join_by
wrapper_text = refl

registration_text :
    register_cluster (12, dispatch_entry state_g 12 0 ∷ [])
    ≡ codes "static inline void nr_dispatch_register_cluster_12(void) {"
      ∷ codes "    nr_dispatch.state_g = state_g_impl;"
      ∷ codes "}"
      ∷ []
      ∷ []
unfolding register_cluster registration mangle decimal decimal_within
registration_text = refl

-- The lines of a library that is not the host, and of one that is.
swappable_text :
    register_line none anchor_lib
    ≡ codes "    nr_reload_register(&_nr_rm, "
      ++ quoted (codes "m")
      ++ codes ", "
      ++ quoted (codes "libm.so")
      ++ codes ", 1);  /* swappable */"
unfolding register_line reloadable is_host decimal decimal_within
swappable_text = refl

pinned_text :
    load_lines (some 0) 0 (anchor_lib ∷ [])
    ≡ codes "    /* cluster 0 (m) is pinned — linked statically */" ∷ []
unfolding load_lines is_host decimal decimal_within
pinned_text = refl
