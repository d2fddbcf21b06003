-- ===== src/Topology/Classify.antt =====
-- compiler/topology.py, steps 1 and 2: `_classify_modules` and `_detect_heap_violations`.
use nathra.Common.{
  Bool, ◌&&◌, ◌||◌, not, Option, none, some, List, [], ◌∷◌, ◌++◌, map, if◌then◌else◌,
}
use nathra.StrMap.Hash.{str_eq}
use nathra.Topology.Names.{Name, qualified, member, any, all, filter, nonempty}
use nathra.Topology.Types.{
  Reloadability, pure, process_local, resource_owner, abi_anchor, FunctionInfo, ModuleData,
  CallEdge,
}

-- The function acquires something and does not release all of it.
unfoldable pub leaks : FunctionInfo → Bool
leaks fi =
    not (all (λ r. member r fi.releases_resources) fi.acquires_resources)
    && nonempty fi.acquires_resources

unfoldable pub has_resources : ModuleData → Bool
has_resources m = any leaks m.functions

-- Another module imports it, or names from it.
unfoldable pub imports_from : Name → ModuleData → Bool
imports_from name other =
    not (str_eq other.name name)
    && (member name other.imports || any (λ (_, (src, _)). str_eq src name) other.from_imports)

unfoldable pub is_depended_on : List ModuleData → Name → Bool
is_depended_on modules name = any (imports_from name) modules

unfoldable pub reloadability_of : List Name → List ModuleData → ModuleData → Reloadability
reloadability_of keep modules m =
    if member m.name keep
    then resource_owner
    else if has_resources m
    then resource_owner
    else if m.has_globals
    then process_local
    else if is_depended_on modules m.name && nonempty m.exports
    then abi_anchor
    else pure

-- The classification of a module does not read that of another.
unfoldable pub classify_modules : List Name → List ModuleData → List ModuleData
classify_modules keep modules =
    map (λ (m : ModuleData). record m { reloadability = reloadability_of keep modules m }) modules

-- The modules that a warning says are pinned.
unfoldable pub keep_alive_warnings : List Name → List ModuleData → List Name
keep_alive_warnings keep modules =
    map (λ (m : ModuleData). m.name) (filter (λ (m : ModuleData). member m.name keep) modules)

abbrev producer_tag : Name
producer_tag = b'p' ∷ b'r' ∷ b'o' ∷ b'd' ∷ b'u' ∷ b'c' ∷ b'e' ∷ b'r' ∷ []

abbrev consumer_tag : Name
consumer_tag = b'c' ∷ b'o' ∷ b'n' ∷ b's' ∷ b'u' ∷ b'm' ∷ b'e' ∷ b'r' ∷ []

-- The qualified names of the functions with the tag.
unfoldable pub tagged_in : Name → Name → List FunctionInfo → List Name
tagged_in tag m fs =
    map (λ (f : FunctionInfo). qualified m f.name)
      (filter (λ (f : FunctionInfo). member tag f.alloc_tags) fs)

unfoldable pub tagged : Name → List ModuleData → List Name
tagged tag [] = []
tagged tag (m ∷ ms) = tagged_in tag m.name m.functions ++ tagged tag ms

-- `_func_to_module`: the last module that was added with the function.
unfoldable pub module_of : List ModuleData → Name → Option Name
module_of [] f = none
module_of (m ∷ ms) f = elim (module_of ms f) [
  | some later ↦ some later
  | none ↦
      if member f (map (λ (g : FunctionInfo). qualified m.name g.name) m.functions)
      then some m.name
      else none
]

abbrev unknown_module : Name
unknown_module = b'?' ∷ []

abbrev module_or_unknown : Option Name → Name
module_or_unknown none = unknown_module
module_or_unknown (some m) = m

unfoldable pub is_heap_violation : {W : Type 0} → List ModuleData → CallEdge W → Bool
is_heap_violation modules edge =
    member edge.callee (tagged consumer_tag modules)
    && (member edge.caller (tagged producer_tag modules)
        && not (
            str_eq (module_or_unknown (module_of modules edge.caller))
              (module_or_unknown (module_of modules edge.callee))))

unfoldable pub heap_violations :
    {W : Type 0} → List ModuleData → List (CallEdge W) → List (CallEdge W)
heap_violations modules edges = filter (is_heap_violation modules) edges
