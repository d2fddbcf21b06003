-- ===== src/Topology/Clusters/Partition.antt =====
-- compiler/topology.py, `_build_clusters`: every function keeps its place in one cluster, and the
-- merging ends when nothing is left to gain.
use nathra.Common.{
  ℕ, suc, ◌≤◌, ◌<◌, ◌≡◌, refl, ◌∙◌, false, Bool-cases, inl, inr, List, [], ◌∷◌, ◌++◌, arith, length,
}
use nathra.Topology.Names.{Name, nonempty, filter}
use nathra.Topology.Types.{Weight, ModuleData, CallEdge, Cluster}
use nathra.Topology.Clusters.{
  functions_of, module_cluster, module_clusters, start, merged, renumber, has_functions,
  build_clusters,
}
use nathra.Topology.Clusters.Pick.{IsActive}
use nathra.Topology.Clusters.Round.{gains, best_merge-finds}
use nathra.Topology.Clusters.Totals.{
  total, count_of, count_of-append, occurrences, active_count, full,
}
use nathra.Topology.Clusters.Loop.{merge_loop-ends, merge_loop-occurrences}

-- The functions of all modules.
unfoldable pub all_functions : List ModuleData → List Name
all_functions [] = []
all_functions (m ∷ ms) = functions_of m ++ all_functions ms

no_count : (f : Name) (xs : List Name) → nonempty xs ≡ false → count_of f xs ≡ 0
unfolding count_of
no_count f [] h = refl
no_count f (x ∷ xs) h = absurd (cc h)

full-le : (xs : List Name) → full xs ≤ 1
full-le [] = omega arith
full-le (x ∷ xs) = omega arith

module _ {W : Type 0} (weight : Weight W) where
  start-occurrences :
      (f : Name) (edges : List (CallEdge W)) (i : ℕ) (ms : List ModuleData)
      → occurrences weight f (module_clusters weight edges i ms) ≡ count_of f (all_functions ms)
  unfolding occurrences total module_clusters module_cluster all_functions count_of
  start-occurrences f edges i [] = refl
  start-occurrences f edges i (m ∷ ms) = omega (
    arith,
    start-occurrences f edges (suc i) ms,
    count_of-append f (functions_of m) (all_functions ms),
  )

  -- A cluster without functions adds nothing.
  pub filter-occurrences :
      (f : Name) (cs : List (Cluster W))
      → occurrences weight f (filter (has_functions weight) cs) ≡ occurrences weight f cs
  unfolding occurrences total filter
  filter-occurrences f [] = refl
  filter-occurrences f (c ∷ cs) = elim (Bool-cases (nonempty c.functions)) [
    | inl e ↦ rw e (omega (arith, filter-occurrences f cs))
    | inr e ↦ rw e (omega (arith, filter-occurrences f cs, no_count f c.functions e))
  ]

  pub renumber-occurrences :
      (f : Name) (i : ℕ) (cs : List (Cluster W))
      → occurrences weight f (renumber weight i cs) ≡ occurrences weight f cs
  unfolding occurrences total renumber
  renumber-occurrences f i [] = refl
  renumber-occurrences f i (c ∷ cs) = omega (arith, renumber-occurrences f (suc i) cs)

  -- _build_clusters loses and doubles no function: every name occurs in the clusters together as
  -- often as among the functions of the modules.
  pub build_clusters-occurrences :
      (edges : List (CallEdge W)) (modules : List ModuleData) (f : Name)
      → occurrences weight f (build_clusters weight edges modules)
        ≡ count_of f (all_functions modules)
  unfolding build_clusters merged start
  build_clusters-occurrences edges modules f =
      renumber-occurrences f 0 _
      ∙ filter-occurrences f _
      ∙ merge_loop-occurrences weight edges f _ (start weight edges modules)
      ∙ start-occurrences f edges 0 modules

  active-length : (cs : List (Cluster W)) → active_count weight cs ≤ length cs
  unfolding active_count total
  active-length [] = omega arith
  active-length (c ∷ cs) = omega (arith, active-length cs, full-le c.functions)

  -- The safety cap of twice as many rounds as there are modules is never what ends the merging: in
  -- the clusters that the loop leaves, no two that have functions are compatible and joined by edges
  -- of a weight above zero.
  pub merged-gains :
      (edges : List (CallEdge W)) (modules : List ModuleData) (c1 c2 : ℕ)
      → c1 < c2
      → IsActive weight (merged weight edges modules) c1
      → IsActive weight (merged weight edges modules) c2
      → gains weight edges (merged weight edges modules) c1 c2 ≡ false
  unfolding merged
  merged-gains edges modules c1 c2 lt a1 a2 =
      best_merge-finds weight edges (merged weight edges modules) c1 c2 lt a1 a2 (
        merge_loop-ends weight edges _ (start weight edges modules)
          (omega (arith, active-length (start weight edges modules).clusters)))
