-- ===== src/Topology/Plan.antt =====
-- compiler/topology.py, `generate_build_plan` and the ABI hashes.
pub mod Calls
pub mod Tables
pub mod Libs
pub mod Linked
pub mod Cross
pub mod Pinned
pub mod Abi
pub mod Bound
use nathra.Common.{
  ℕ, zero, suc, ◌+◌, ◌*◌, ◌/◌, ◌%◌, ◌^◌, Bool, true, false, ◌&&◌, ◌||◌, not, Option, none, some,
  List, [], ◌∷◌, ◌++◌, map, ◌==◌, ltb, if◌then◌else◌, length,
}
use Prim.Native.Nat.{bit_xor}
use nathra.StrMap.Hash.{str_eq}
use nathra.Wire.Result.{Result, ok, bind}
use nathra.Wire.Bytes.{Bytes}
use nathra.Wire.Utf8.{encode}
use nathra.Topology.Names.{Name, member, union, any, get_or, set}
use nathra.Topology.Types.{
  Reloadability, pure, process_local, resource_owner, abi_anchor, Weight, ModuleData, CallEdge,
  Cluster,
}
use nathra.Topology.Clusters.{Index, no_cluster}
use nathra.Topology.Overrides.{func_to_ci}
use nathra.Topology.Analyze.{TopologyReport}

pub data BuildMode : Type 0 where
  dev release service : BuildMode

pub record SharedLibTarget : Type 0 where
  pub name : Name
  pub cluster_id : ℕ
  pub modules : List Name
  pub c_files : List Name
  pub reloadability : Reloadability
  pub outgoing_calls : List (Name × Name)
  pub incoming_calls : List Name
  pub abi_hash : ℕ

-- `param_types` has pairs of a name and a C type.
pub record DispatchEntry : Type 0 where
  pub name : Name
  pub ret_type : Name
  pub param_types : List (Name × Name)
  pub source_cluster : ℕ
  pub callers : List ℕ

-- `pinned_cluster` is `none` for -1.
pub record BuildPlan : Type 0 where
  pub shared_libs : List SharedLibTarget
  pub host_exe : Name
  pub host_c_files : List Name
  pub dispatch_table : List DispatchEntry
  pub pinned_cluster : Option ℕ
  pub mode : BuildMode
  pub lto : Bool

-- `sorted`, by code points.
unfoldable pub name_le : Name → Name → Bool
name_le [] y = true
name_le (a ∷ x) [] = false
name_le (a ∷ x) (b ∷ y) =
    let rest = name_le x y in if ltb a b then true else if a == b then rest else false

unfoldable pub insert_name : Name → List Name → List Name
insert_name x [] = x ∷ []
insert_name x (y ∷ ys) = let rest = insert_name x ys in if name_le x y then x ∷ y ∷ ys else y ∷ rest

unfoldable pub sorted : List Name → List Name
sorted [] = []
sorted (x ∷ xs) = insert_name x (sorted xs)

-- `f"{n}"`: a number has at most as many digits as it has units, and one.
unfoldable pub decimal_within : ℕ → ℕ → Name → Name
decimal_within zero n digits = digits
decimal_within (suc fuel) n digits =
    let here = (b'0' + n % 10) ∷ digits in
    let rest = decimal_within fuel (n / 10) here in if n / 10 == 0 then here else rest

unfoldable pub decimal : ℕ → Name
decimal n = decimal_within (suc n) n []

unfoldable pub is_pinned : Reloadability → Bool
is_pinned resource_owner = true
is_pinned abi_anchor = true
is_pinned _ = false

unfoldable pub mangle : Name → Name
mangle [] = []
mangle (c ∷ name) = (if c == b'.' then b'_' else c) ∷ mangle name

-- `os.path.join` is a parameter.
module _ {W : Type 0} (weight : Weight W) (join : Name → Name → Name) where
  abbrev pub c_file : Name → Name → Name
  c_file source_dir m = join source_dir (m ++ b'.' ∷ b'c' ∷ [])

  unfoldable pub all_modules : List (Cluster W) → List Name → List Name
  all_modules [] ms = ms
  all_modules (c ∷ cs) ms = all_modules cs (union ms c.modules)

  unfoldable pub release_plan : List (Cluster W) → Name → Name → BuildPlan
  release_plan cs source_dir host =
      let ms = all_modules cs [] in
      let files = map (c_file source_dir) ms in
      record {
        shared_libs =
            record {
              name = host;
              cluster_id = 0;
              modules = sorted ms;
              c_files = files;
              reloadability = pure;
              outgoing_calls = [];
              incoming_calls = [];
              abi_hash = 0;
            }
            ∷ [];
        host_exe = host;
        host_c_files = files;
        dispatch_table = [];
        pinned_cluster = some 0;
        mode = release;
        lto = true;
      }

  -- The largest pinned cluster, the first of them if several are.
  unfoldable pub pick_pinned : List (Cluster W) → ℕ → List (Cluster W) → Option ℕ → Option ℕ
  pick_pinned all i [] best = best
  pick_pinned all i (c ∷ cs) best = pick_pinned all (suc i) cs (
      if is_pinned c.reloadability
      then elim best [
        | none ↦ some i
        | some b ↦
            if ltb (length (get_or all b (no_cluster weight)).functions) (length c.functions)
            then some i
            else some b
      ]
      else best)

  unfoldable pub lib_name : ℕ → List Name → Name
  lib_name i (m ∷ []) = m
  lib_name i _ = b'c' ∷ b'l' ∷ b'u' ∷ b's' ∷ b't' ∷ b'e' ∷ b'r' ∷ b'_' ∷ decimal i

  unfoldable pub shared_lib : Name → ℕ → Cluster W → SharedLibTarget
  shared_lib source_dir i c = record {
    name = lib_name i c.modules;
    cluster_id = i;
    modules = sorted c.modules;
    c_files = map (c_file source_dir) c.modules;
    reloadability = c.reloadability;
    outgoing_calls = [];
    incoming_calls = [];
    abi_hash = 0;
  }

  unfoldable pub shared_libs_from : Name → ℕ → List (Cluster W) → List SharedLibTarget
  shared_libs_from source_dir i [] = []
  shared_libs_from source_dir i (c ∷ cs) =
      shared_lib source_dir i c ∷ shared_libs_from source_dir (suc i) cs
