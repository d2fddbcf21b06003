-- ===== src/Topology/Modules.antt =====
-- compiler/topology.py, `add_module` and the names of the functions that acquire and release resources.
pub mod Laws
use nathra.Common.{codes, ℕ, Bool, true, false, List, [], ◌∷◌, ◌++◌, map, if◌then◌else◌}
use nathra.StrMap.Hash.{str_eq}
use nathra.Topology.Names.{Name, member, nonempty, filter}
use nathra.Topology.Types.{Reloadability, pure, FunctionInfo, ModuleData}

abbrev pub acquire_names : List Name
acquire_names =
    codes "file_open"
    ∷ codes "file_open_safe"
    ∷ codes "nr_file_open"
    ∷ codes "nr_file_open_safe"
    ∷ codes "thread_spawn"
    ∷ codes "nr_thread_spawn"
    ∷ codes "mutex_new"
    ∷ codes "nr_mutex_new"
    ∷ codes "cond_new"
    ∷ codes "nr_cond_new"
    ∷ codes "channel_new"
    ∷ codes "nr_channel_new"
    ∷ codes "pool_new"
    ∷ codes "nr_pool_new"
    ∷ []

abbrev pub release_names : List Name
release_names =
    codes "file_close"
    ∷ codes "nr_file_close"
    ∷ codes "thread_join"
    ∷ codes "nr_thread_join"
    ∷ codes "mutex_free"
    ∷ codes "nr_mutex_free"
    ∷ codes "cond_free"
    ∷ codes "nr_cond_free"
    ∷ codes "channel_free"
    ∷ codes "nr_channel_free"
    ∷ codes "pool_free"
    ∷ codes "nr_pool_free"
    ∷ []

abbrev pub export_decorator : Name
export_decorator = codes "export"

-- What `add_module` asks the compiler and `ast.walk` of a FunctionDef: its name, its decorators, its
-- entry of `func_alloc_tags`, and the names that it calls, in the order of the walk.
pub record FunctionSource : Type 0 where
  pub name : Name
  pub decorators : List Name
  pub alloc_tags : List Name
  pub called : List Name

-- What it asks of a compiled module.
pub record ModuleSource : Type 0 where
  pub functions : List FunctionSource
  pub imports : List Name
  pub from_imports : List (Name × (Name × Name))
  pub globals : List Name

unfoldable pub scan_resources : List Name → FunctionInfo → FunctionInfo
scan_resources [] fi = fi
scan_resources (fname ∷ called) fi = scan_resources called (
    if member fname acquire_names
    then record fi { acquires_resources = fi.acquires_resources ++ fname ∷ [] }
    else if member fname release_names
    then record fi { releases_resources = fi.releases_resources ++ fname ∷ [] }
    else fi)

unfoldable pub function_info : FunctionSource → FunctionInfo
function_info f = scan_resources f.called (record {
  name = f.name;
  is_export = member export_decorator f.decorators;
  alloc_tags = f.alloc_tags;
  acquires_resources = [];
  releases_resources = [];
})

-- `mod.functions[func.name] = fi`
unfoldable pub set_function : FunctionInfo → List FunctionInfo → List FunctionInfo
set_function fi [] = fi ∷ []
set_function fi (x ∷ xs) = if str_eq x.name fi.name then fi ∷ xs else x ∷ set_function fi xs

abbrev pub add_function : FunctionSource → ModuleData → ModuleData
add_function f m =
    let fi = function_info f in
    record m {
      functions = set_function fi m.functions;
      exports =
          if fi.is_export
          then if member f.name m.exports then m.exports else m.exports ++ f.name ∷ []
          else m.exports;
    }

unfoldable pub add_functions : List FunctionSource → ModuleData → ModuleData
add_functions [] m = m
add_functions (f ∷ fs) m = add_functions fs (add_function f m)

unfoldable pub module_data : Name → ModuleSource → ModuleData
module_data name src =
    let m = add_functions src.functions (record {
      name = name;
      functions = [];
      imports = [];
      from_imports = [];
      exports = [];
      has_globals = false;
      reloadability = pure;
    }) in
    record m {
      imports = src.imports;
      from_imports = src.from_imports;
      has_globals = nonempty src.globals;
    }

-- `self.modules[name] = mod`
unfoldable pub set_module : ModuleData → List ModuleData → List ModuleData
set_module m [] = m ∷ []
set_module m (x ∷ xs) = if str_eq x.name m.name then m ∷ xs else x ∷ set_module m xs

unfoldable pub add_module : Name → ModuleSource → List ModuleData → List ModuleData
add_module name src modules = set_module (module_data name src) modules
