-- ===== src/Topology/Clusters/Loop.antt =====
-- compiler/topology.py, `_build_clusters`: the loop of the merges.
use nathra.Common.{
  ℕ, zero, suc, ◌+◌, ◌≤◌, ◌<◌, ◌≡◌, refl, sym, subst, ◌∙◌, true, none, some, List, [], ◌∷◌, ◌++◌,
  arith,
}
use nathra.Topology.Names.{Name, nonempty, get_or}
use nathra.Topology.Types.{Weight, CallEdge, Cluster}
use nathra.Topology.Clusters.{
  no_cluster, Merging, best_merge, merge_into, emptied, merge_pair, merge_loop,
}
use nathra.Topology.Clusters.Pick.{IsPair}
use nathra.Topology.Clusters.Round.{none_yet, picked, best_merge-IsSound}
use nathra.Topology.Clusters.Totals.{
  total-below, merge-total, merge-occurrences, occurrences, active_count, full,
}

one_if : (xs : List Name) → nonempty xs ≡ true → full xs ≡ 1
one_if [] h = absurd (cc h)
one_if (x ∷ xs) h = refl

full-append : (xs ys : List Name) → nonempty xs ≡ true → nonempty (xs ++ ys) ≡ true
full-append [] ys h = absurd (cc h)
full-append (x ∷ xs) ys h = refl

module _ {W : Type 0} (weight : Weight W) (edges : List (CallEdge W)) where
  -- What a round does: it ends the loop, or it merges a pair.
  loop-stops :
      (n : ℕ) (s : Merging weight)
      → (best_merge weight edges s).best_pair ≡ none
      → merge_loop weight edges (suc n) s ≡ s
  unfolding merge_loop
  loop-stops n s e = rw (e, merge_loop) refl

  loop-merges :
      (n : ℕ) (s : Merging weight) (c1 c2 : ℕ)
      → (best_merge weight edges s).best_pair ≡ some (c1, c2)
      → weight.exceeds (best_merge weight edges s).best_weight weight.zero_weight ≡ true
      → merge_loop weight edges (suc n) s
        ≡ merge_loop weight edges n
            (merge_pair weight s c1 c2 (best_merge weight edges s).best_weight)
  unfolding merge_loop
  loop-merges n s c1 c2 e p = rw (e, p, merge_loop) refl

  -- What every merge of a pair keeps, the loop keeps.
  pub merge_loop_rule {ℓ} :
      (P : Merging weight → Type ℓ)
      → ((s : Merging weight) (c1 c2 : ℕ) (w : W)
          → IsPair weight s c1 c2
          → P s
          → P (merge_pair weight s c1 c2 w))
      → (n : ℕ) (s : Merging weight) → P s
      → P (merge_loop weight edges n s)
  unfolding merge_loop
  merge_loop_rule P keep zero s p = p
  merge_loop_rule P keep (suc n) s p = elim (best_merge-IsSound weight edges s) [
    | none_yet e _ ↦ subst P (sym (loop-stops n s e)) p
    | picked c1 c2 e pair gain ↦
        subst P (sym (loop-merges n s c1 c2 e gain))
          (merge_loop_rule P keep n _ (keep s c1 c2 (best_merge weight edges s).best_weight pair p))
  ]

  -- A merge leaves one cluster less with functions.
  merge-active :
      (s : Merging weight) (c1 c2 : ℕ) (w : W)
      → IsPair weight s c1 c2
      → active_count weight (merge_pair weight s c1 c2 w).clusters + 1
        ≡ active_count weight s.clusters
  unfolding active_count merge_into emptied
  merge-active s c1 c2 w p =
      let d = no_cluster weight in
      omega (
        arith,
        merge-total weight (λ (c : Cluster W). full c.functions) s c1 c2 w p,
        one_if (get_or s.clusters c1 d).functions p.full1,
        one_if (get_or s.clusters c2 d).functions p.full2,
        one_if ((get_or s.clusters c1 d).functions ++ (get_or s.clusters c2 d).functions) (
            full-append (get_or s.clusters c1 d).functions (get_or s.clusters c2 d).functions
              p.full1),
      )

  pair-active :
      (s : Merging weight) (c1 c2 : ℕ) → IsPair weight s c1 c2 → 0 < active_count weight s.clusters
  unfolding active_count
  pair-active s c1 c2 p =
      let d = no_cluster weight in
      omega (
        arith,
        total-below (λ (c : Cluster W). full c.functions) s.clusters c2 d p.bound,
        one_if (get_or s.clusters c2 d).functions p.full2,
      )

  -- With as many rounds as there are clusters with functions, the loop ends by itself.
  pub merge_loop-ends :
      (n : ℕ) (s : Merging weight)
      → active_count weight s.clusters ≤ n
      → (best_merge weight edges (merge_loop weight edges n s)).best_pair ≡ none
  unfolding merge_loop
  merge_loop-ends zero s le = elim (best_merge-IsSound weight edges s) [
    | none_yet e _ ↦ e
    | picked c1 c2 e pair gain ↦ absurd (omega (arith, pair-active s c1 c2 pair))
  ]
  merge_loop-ends (suc n) s le = elim (best_merge-IsSound weight edges s) [
    | none_yet e _ ↦
        subst (λ t. (best_merge weight edges t).best_pair ≡ none) (sym (loop-stops n s e)) e
    | picked c1 c2 e pair gain ↦
        subst (λ t. (best_merge weight edges t).best_pair ≡ none)
          (sym (loop-merges n s c1 c2 e gain))
          (merge_loop-ends n _
            (omega (arith, merge-active s c1 c2 (best_merge weight edges s).best_weight pair)))
  ]

  pub merge_loop-occurrences :
      (f : Name) (n : ℕ) (s : Merging weight)
      → occurrences weight f (merge_loop weight edges n s).clusters
        ≡ occurrences weight f s.clusters
  merge_loop-occurrences f n s =
      merge_loop_rule (λ t. occurrences weight f t.clusters ≡ occurrences weight f s.clusters)
        (λ t c1 c2 w p h. merge-occurrences weight f t c1 c2 w p ∙ h) n s refl
