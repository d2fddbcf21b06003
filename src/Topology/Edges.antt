-- ===== src/Topology/Edges.antt =====
-- compiler/topology.py, `add_call_edges`.
use nathra.Common.{
  ◌≡◌, refl, subst, inl, inr, false, Option, none, some, List, [], ◌∷◌, ◌++◌, map, if◌then◌else◌,
}
use mathlib.Core.List.{Memᴰ}
use mathlib.Core.List.Memᴰ
use nathra.StrMap.Hash.{str_eq}
use nathra.Topology.Names.{Name, qualified, member}
use nathra.Topology.Types.{CallEdge}
use nathra.Topology.Modules.{FunctionSource, ModuleSource}

abbrev Imports : Type 0
Imports = List (Name × (Name × Name))

-- `from_imports[callee_name]`
unfoldable pub import_of : Name → Imports → Option (Name × Name)
import_of callee [] = none
import_of callee ((local_name, origin) ∷ imports) =
    if str_eq callee local_name then some origin else import_of callee imports

unfoldable pub function_names : List FunctionSource → List Name
function_names fs = map (λ (f : FunctionSource). f.name) fs

-- `one` is the weight 1.0.
module _ {W : Type 0} (one : W) where
  -- `intra_edges` is what the compiler's `_build_weighted_call_graph` returns.
  unfoldable pub intra_module_edges : Name → List ((Name × Name) × W) → List (CallEdge W)
  intra_module_edges m [] = []
  intra_module_edges m (((a, b), weight) ∷ intra_edges) =
      record { caller = qualified m a; callee = qualified m b; weight = weight }
      ∷ intra_module_edges m intra_edges

  abbrev pub imported_call : Name → Name → Name × Name → CallEdge W
  imported_call m f (src_mod, orig_name) = record {
    caller = qualified m f;
    callee = qualified src_mod orig_name;
    weight = one;
  }

  abbrev edge_to : Name → Name → Option (Name × Name) → List (CallEdge W)
  edge_to m f none = []
  edge_to m f (some origin) = imported_call m f origin ∷ []

  -- The names that one function calls.
  unfoldable pub imported_calls : Name → Name → List Name → Imports → List Name → List (CallEdge W)
  imported_calls m f mod_funcs imports [] = []
  imported_calls m f mod_funcs imports (callee ∷ called) =
      (if member callee mod_funcs then [] else edge_to m f (import_of callee imports))
      ++ imported_calls m f mod_funcs imports called

  unfoldable pub cross_module_edges :
      Name → List Name → Imports → List FunctionSource → List (CallEdge W)
  cross_module_edges m mod_funcs imports [] = []
  cross_module_edges m mod_funcs imports (f ∷ fs) =
      imported_calls m f.name mod_funcs imports f.called
      ++ cross_module_edges m mod_funcs imports fs

  unfoldable pub add_call_edges :
      Name → List ((Name × Name) × W) → ModuleSource → List (CallEdge W) → List (CallEdge W)
  add_call_edges m intra_edges src call_edges =
      call_edges
      ++ intra_module_edges m intra_edges
      ++ cross_module_edges m (function_names src.functions) src.from_imports src.functions

  imported_calls-Memᴰ :
      (m f : Name) (mod_funcs : List Name) (imports : Imports) (called : List Name) (callee : Name)
      (origin : Name × Name)
      → Memᴰ callee called
      → member callee mod_funcs ≡ false
      → import_of callee imports ≡ some origin
      → Memᴰ (imported_call m f origin) (imported_calls m f mod_funcs imports called)
  unfolding imported_calls
  imported_calls-Memᴰ m f mod_funcs imports [] callee origin n out known = absurd (Memᴰ.not-nil n)
  imported_calls-Memᴰ m f mod_funcs imports (x ∷ xs) callee origin n out known =
      elim (Memᴰ.cases_cons n) [
        | inl e ↦ Memᴰ.append_left (imported_calls m f mod_funcs imports xs) (
            subst
              (λ c.
                Memᴰ (imported_call m f origin)
                  (if member c mod_funcs then [] else edge_to m f (import_of c imports)))
              e (rw (out, known) (Memᴰ.head refl)))
        | inr t ↦
            Memᴰ.append_right _
              (imported_calls-Memᴰ m f mod_funcs imports xs callee origin t out known)
      ]

  cross_module_edges-Memᴰ :
      (m : Name) (mod_funcs : List Name) (imports : Imports) (fs : List FunctionSource)
      (f : FunctionSource) (e : CallEdge W)
      → Memᴰ f fs
      → Memᴰ e (imported_calls m f.name mod_funcs imports f.called)
      → Memᴰ e (cross_module_edges m mod_funcs imports fs)
  unfolding cross_module_edges
  cross_module_edges-Memᴰ m mod_funcs imports [] f e n h = absurd (Memᴰ.not-nil n)
  cross_module_edges-Memᴰ m mod_funcs imports (x ∷ xs) f e n h = elim (Memᴰ.cases_cons n) [
    | inl q ↦ Memᴰ.append_left (cross_module_edges m mod_funcs imports xs) (
        subst (λ (g : FunctionSource). Memᴰ e (imported_calls m g.name mod_funcs imports g.called))
          q h)
    | inr t ↦ Memᴰ.append_right _ (cross_module_edges-Memᴰ m mod_funcs imports xs f e t h)
  ]

  -- When a function calls a name that is imported from a module, and the name is no function of its
  -- own module, add_call_edges records a call of the imported function, under its own name and module.
  pub add_call_edges-imported :
      (m : Name) (intra_edges : List ((Name × Name) × W)) (src : ModuleSource)
      (call_edges : List (CallEdge W)) (f : FunctionSource) (callee : Name) (origin : Name × Name)
      → Memᴰ f src.functions
      → Memᴰ callee f.called
      → member callee (function_names src.functions) ≡ false
      → import_of callee src.from_imports ≡ some origin
      → Memᴰ (imported_call m f.name origin) (add_call_edges m intra_edges src call_edges)
  unfolding add_call_edges
  add_call_edges-imported m intra_edges src call_edges f callee origin n c out known =
      Memᴰ.append_right _ (
        cross_module_edges-Memᴰ m (function_names src.functions) src.from_imports src.functions f
          (imported_call m f.name origin) n
          (imported_calls-Memᴰ m f.name (function_names src.functions) src.from_imports f.called
            callee origin c out known))
