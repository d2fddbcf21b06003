-- ===== src/Topology/Emit.antt =====
-- compiler/topology.py, the C text of a build plan: the dispatch table, the reload manager and the
-- stubs for the state of process-local modules. A text is its lines, joined as Python's `join` does.
pub mod Laws
pub mod Groups
pub mod Registers
pub mod Hosts
use nathra.Common.{
  codes, ℕ, zero, suc, Bool, true, false, Option, none, some, List, [], ◌∷◌, ◌++◌, map, ◌==◌, ltb,
  if◌then◌else◌, length,
}
use nathra.StrMap.Hash.{str_eq}
use nathra.Topology.Names.{Name, nonempty}
use nathra.Topology.Types.{Reloadability, process_local}
use nathra.Topology.Plan.{SharedLibTarget, DispatchEntry, BuildPlan, decimal, mangle}

-- `sep.join(texts)`
unfoldable pub join_by : Name → List Name → Name
join_by sep [] = []
join_by sep (x ∷ []) = x
join_by sep (x ∷ y ∷ xs) = x ++ sep ++ join_by sep (y ∷ xs)

abbrev pub newline : Name
newline = 10 ∷ []

abbrev quote : Name
quote = 34 ∷ []

-- The parameters of a prototype, and the arguments of the call through the table.
abbrev declared_params : List (Name × Name) → Name
declared_params ps =
    if nonempty ps
    then join_by (codes ", ") (map (λ (p : Name × Name). p.1 ++ codes " " ++ p.0) ps)
    else codes "void"

abbrev call_args : List (Name × Name) → Name
call_args ps = join_by (codes ", ") (map (λ (p : Name × Name). p.0) ps)

unfoldable pub table_field : DispatchEntry → Name
table_field e =
    codes "    "
    ++ e.ret_type
    ++ codes " (*"
    ++ mangle e.name
    ++ codes ")("
    ++ declared_params e.param_types
    ++ codes ");"

unfoldable pub wrapper : DispatchEntry → List Name
wrapper e =
    let head =
      codes " " ++ mangle e.name ++ codes "(" ++ declared_params e.param_types ++ codes ") {" in
    let call =
      codes "nr_dispatch." ++ mangle e.name ++ codes "(" ++ call_args e.param_types ++ codes ");" in
    if str_eq e.ret_type (codes "void")
    then (codes "static inline void" ++ head) ∷ (codes "    " ++ call) ∷ codes "}" ∷ [] ∷ []
    else (codes "static inline " ++ e.ret_type ++ head)
      ∷ (codes "    return " ++ call)
      ∷ codes "}"
      ∷ []
      ∷ []

-- `sorted(by_cluster.items())`: the entries of each source cluster in the order of the table, by
-- growing cluster.
unfoldable pub add_to_cluster :
    DispatchEntry → List (ℕ × List DispatchEntry) → List (ℕ × List DispatchEntry)
add_to_cluster e [] = (e.source_cluster, e ∷ []) ∷ []
add_to_cluster e ((cid, es) ∷ groups) =
    let rest = add_to_cluster e groups in
    if e.source_cluster == cid
    then (cid, es ++ e ∷ []) ∷ groups
    else if ltb e.source_cluster cid
    then (e.source_cluster, e ∷ []) ∷ (cid, es) ∷ groups
    else (cid, es) ∷ rest

unfoldable pub by_cluster_from :
    List DispatchEntry → List (ℕ × List DispatchEntry) → List (ℕ × List DispatchEntry)
by_cluster_from [] groups = groups
by_cluster_from (e ∷ es) groups = by_cluster_from es (add_to_cluster e groups)

unfoldable pub by_cluster : List DispatchEntry → List (ℕ × List DispatchEntry)
by_cluster table = by_cluster_from table []

unfoldable pub registration : DispatchEntry → Name
registration e =
    codes "    nr_dispatch." ++ mangle e.name ++ codes " = " ++ mangle e.name ++ codes "_impl;"

unfoldable pub register_cluster : ℕ × List DispatchEntry → List Name
register_cluster (cid, es) =
    (codes "static inline void nr_dispatch_register_cluster_" ++ decimal cid ++ codes "(void) {")
      ∷ map registration es
    ++ codes "}" ∷ [] ∷ []

concat_map : {A : Type 0} → (A → List Name) → List A → List Name
concat_map f [] = []
concat_map f (x ∷ xs) = f x ++ concat_map f xs

-- The lines before the functions that register.
unfoldable pub declaration_lines : List DispatchEntry → List Name
unfolding concat_map
declaration_lines table =
    codes "/* Auto-generated by nathra topology — do not edit */"
      ∷ codes "#ifndef NATHRA_DISPATCH_H"
      ∷ codes "#define NATHRA_DISPATCH_H"
      ∷ []
      ∷ (codes "#include " ++ quote ++ codes "nathra_rt.h" ++ quote)
      ∷ []
      ∷ codes "/* Dispatch table struct */"
      ∷ codes "typedef struct {"
      ∷ map table_field table
    ++ codes "} NrDispatchTable;"
      ∷ []
      ∷ codes "/* Global dispatch table */"
      ∷ codes "extern NrDispatchTable nr_dispatch;"
      ∷ []
      ∷ codes "/* Inline wrappers — call these from application code */"
      ∷ concat_map wrapper table

unfoldable pub header_lines : List DispatchEntry → List Name
unfolding concat_map
header_lines table =
    declaration_lines table
    ++ codes "/* Registration — each .so calls this at load time */"
      ∷ concat_map register_cluster (by_cluster table)
    ++ codes "#endif /* NATHRA_DISPATCH_H */" ∷ [] ∷ []

unfoldable pub generate_dispatch_header : BuildPlan → Name
generate_dispatch_header plan =
    if nonempty plan.dispatch_table then join_by newline (header_lines plan.dispatch_table) else []

unfoldable pub generate_dispatch_impl : BuildPlan → Name
generate_dispatch_impl plan =
    if nonempty plan.dispatch_table
    then join_by newline (
        codes "/* Auto-generated by nathra topology — do not edit */"
        ∷ (codes "#include " ++ quote ++ codes "nathra_dispatch.h" ++ quote)
        ∷ []
        ∷ codes "NrDispatchTable nr_dispatch = {0};"
        ∷ []
        ∷ [])
    else []

-- `lib.cluster_id == self.pinned_cluster`
unfoldable pub is_host : Option ℕ → SharedLibTarget → Bool
is_host none lib = false
is_host (some p) lib = lib.cluster_id == p

unfoldable pub reloadable : Option ℕ → SharedLibTarget → ℕ
reloadable pinned lib = if is_host pinned lib then 0 else 1

unfoldable pub register_line : Option ℕ → SharedLibTarget → Name
register_line pinned lib =
    codes "    nr_reload_register(&_nr_rm, "
    ++ quote
    ++ lib.name
    ++ quote
    ++ codes ", "
    ++ quote
    ++ codes "lib"
    ++ lib.name
    ++ codes ".so"
    ++ quote
    ++ codes ", "
    ++ decimal (reloadable pinned lib)
    ++ codes ");  /* "
    ++ (if is_host pinned lib then codes "pinned" else codes "swappable")
    ++ codes " */"

unfoldable pub load_lines : Option ℕ → ℕ → List SharedLibTarget → List Name
load_lines pinned i [] = []
load_lines pinned i (lib ∷ libs) =
    (if is_host pinned lib
      then codes "    /* cluster "
        ++ decimal i
        ++ codes " ("
        ++ lib.name
        ++ codes ") is pinned — linked statically */"
      else codes "    nr_reload_load(&_nr_rm, "
        ++ decimal i
        ++ codes ");  /* "
        ++ lib.name
        ++ codes " */")
    ∷ load_lines pinned (suc i) libs

unfoldable pub generate_reload_init : BuildPlan → Name
generate_reload_init plan = join_by newline (
    codes "/* Auto-generated by nathra topology — do not edit */"
      ∷ (codes "#include " ++ quote ++ codes "nathra_rt.h" ++ quote)
      ∷ (if nonempty plan.dispatch_table
          then (codes "#include " ++ quote ++ codes "nathra_dispatch.h" ++ quote) ∷ []
          else [])
    ++ []
      ∷ codes "static NrReloadManager _nr_rm;"
      ∷ []
      ∷ codes "void nr_topology_init(void) {"
      ∷ (codes "    _nr_rm = nr_reload_manager_new("
          ++ decimal (length plan.shared_libs)
          ++ codes ");")
      ∷ map (register_line plan.pinned_cluster) plan.shared_libs
    ++ [] ∷ load_lines plan.pinned_cluster 0 plan.shared_libs
    ++ codes "}"
      ∷ []
      ∷ codes "void nr_topology_shutdown(void) {"
      ∷ codes "    nr_reload_manager_free(&_nr_rm);"
      ∷ codes "}"
      ∷ []
      ∷ codes "int32_t nr_topology_reload(const char* name) {"
      ∷ codes "    return nr_reload_by_name(&_nr_rm, name);"
      ∷ codes "}"
      ∷ []
      ∷ codes "int32_t nr_topology_reload_all(void) {"
      ∷ codes "    return nr_reload_all(&_nr_rm);"
      ∷ codes "}"
      ∷ []
      ∷ [])

unfoldable pub state_stubs : Name → List Name
state_stubs m =
    (codes "/* State migration for module '" ++ m ++ codes "' */")
    ∷ (codes "void nr_state_save_" ++ m ++ codes "(NrWriter* w) {")
    ∷ (codes "    /* TODO: serialize " ++ m ++ codes "'s globals into w */")
    ∷ codes "    (void)w;"
    ∷ codes "}"
    ∷ []
    ∷ (codes "void nr_state_load_" ++ m ++ codes "(NrReader* r) {")
    ∷ (codes "    /* TODO: deserialize " ++ m ++ codes "'s globals from r */")
    ∷ codes "    (void)r;"
    ∷ codes "}"
    ∷ []
    ∷ []

-- The modules that get stubs.
unfoldable pub stateful_modules : List SharedLibTarget → List Name
stateful_modules [] = []
stateful_modules (lib ∷ libs) = elim lib.reloadability [
  | process_local ↦ lib.modules ++ stateful_modules libs
  | _ ↦ stateful_modules libs
]

unfoldable pub generate_state_migration_stubs : BuildPlan → Name
unfolding concat_map
generate_state_migration_stubs plan =
    let ms = stateful_modules plan.shared_libs in
    if nonempty ms
    then join_by newline (
        codes "/* Auto-generated state migration stubs — edit as needed */"
        ∷ (codes "#include " ++ quote ++ codes "nathra_rt.h" ++ quote)
        ∷ []
        ∷ concat_map state_stubs ms)
    else []
