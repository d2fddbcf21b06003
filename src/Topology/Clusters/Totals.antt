-- ===== src/Topology/Clusters/Totals.antt =====
-- compiler/topology.py, `_build_clusters`: what a merge leaves as it was, summed over all clusters.
use nathra.Common.{
  ℕ, zero, suc, ◌+◌, ◌≤◌, ◌<◌, ◌≡◌, ◌≢◌, refl, ap, List, [], ◌∷◌, ◌++◌, arith, if◌then◌else◌,
  length,
}
use nathra.StrMap.Hash.{str_eq}
use nathra.Topology.Names.{Name, get_or, set}
use nathra.Topology.Types.{Weight, Cluster}
use nathra.Topology.Clusters.{no_cluster, Merging, merge_into, emptied, merge_pair}
use nathra.Topology.Clusters.Pick.{IsPair}

module _ {ℓ} {A : Type ℓ} where
  unfoldable pub total : (A → ℕ) → List A → ℕ
  total g [] = 0
  total g (x ∷ xs) = g x + total g xs

  pub total-set :
      (g : A → ℕ) (xs : List A) (i : ℕ) (v d : A)
      → i < length xs
      → total g (set xs i v) + g (get_or xs i d) ≡ total g xs + g v
  unfolding total set get_or
  total-set g [] i v d lt = absurd (omega arith)
  total-set g (x ∷ xs) zero v d lt = omega arith
  total-set g (x ∷ xs) (suc i) v d lt = omega (arith, total-set g xs i v d (omega arith))

  pub length-set : (xs : List A) (i : ℕ) (v : A) → length (set xs i v) ≡ length xs
  unfolding set
  length-set [] i v = refl
  length-set (x ∷ xs) zero v = refl
  length-set (x ∷ xs) (suc i) v = ap suc (length-set xs i v)

  pub get_or-set_other :
      (xs : List A) (i j : ℕ) (v d : A) → i ≢ j → get_or (set xs i v) j d ≡ get_or xs j d
  unfolding set get_or
  get_or-set_other [] i j v d ne = refl
  get_or-set_other (x ∷ xs) zero zero v d ne = absurd (ne refl)
  get_or-set_other (x ∷ xs) zero (suc j) v d ne = refl
  get_or-set_other (x ∷ xs) (suc i) zero v d ne = refl
  get_or-set_other (x ∷ xs) (suc i) (suc j) v d ne = get_or-set_other xs i j v d (omega arith)

  pub get_or-set_same :
      (xs : List A) (i : ℕ) (v d : A) → i < length xs → get_or (set xs i v) i d ≡ v
  unfolding set get_or
  get_or-set_same [] i v d lt = absurd (omega arith)
  get_or-set_same (x ∷ xs) zero v d lt = refl
  get_or-set_same (x ∷ xs) (suc i) v d lt = get_or-set_same xs i v d (omega arith)

  pub total-below :
      (g : A → ℕ) (xs : List A) (i : ℕ) (d : A) → i < length xs → g (get_or xs i d) ≤ total g xs
  unfolding total get_or
  total-below g [] i d lt = absurd (omega arith)
  total-below g (x ∷ xs) zero d lt = omega arith
  total-below g (x ∷ xs) (suc i) d lt = omega (arith, total-below g xs i d (omega arith))

-- How often a name occurs.
unfoldable pub count_of : Name → List Name → ℕ
count_of f [] = 0
count_of f (x ∷ xs) = (if str_eq f x then 1 else 0) + count_of f xs

pub count_of-append :
    (f : Name) (xs ys : List Name) → count_of f (xs ++ ys) ≡ count_of f xs + count_of f ys
unfolding count_of
count_of-append f [] ys = omega arith
count_of-append f (x ∷ xs) ys = omega (arith, count_of-append f xs ys)

abbrev pub full : List Name → ℕ
full [] = 0
full (_ ∷ _) = 1

module _ {W : Type 0} (weight : Weight W) where
  -- The occurrences of a function in all clusters.
  unfoldable pub occurrences : Name → List (Cluster W) → ℕ
  occurrences f cs = total (λ (c : Cluster W). count_of f c.functions) cs

  -- The clusters with functions.
  unfoldable pub active_count : List (Cluster W) → ℕ
  active_count cs = total (λ (c : Cluster W). full c.functions) cs

  -- A merge replaces two clusters: a sum over the clusters changes as those two do.
  pub merge-total :
      (g : Cluster W → ℕ) (s : Merging weight) (c1 c2 : ℕ) (w : W)
      → IsPair weight s c1 c2
      → total g (merge_pair weight s c1 c2 w).clusters
          + (g (get_or s.clusters c1 (no_cluster weight))
              + g (get_or s.clusters c2 (no_cluster weight)))
        ≡ total g s.clusters
          + (g (
                merge_into weight
                  (get_or s.clusters c1 (no_cluster weight))
                  (get_or s.clusters c2 (no_cluster weight))
                  w)
              + g (emptied weight (get_or s.clusters c2 (no_cluster weight))))
  unfolding merge_pair
  merge-total g s c1 c2 w p =
      let d = no_cluster weight in
      let v = merge_into weight (get_or s.clusters c1 d) (get_or s.clusters c2 d) w in
      let once = set s.clusters c1 v in
      let far : c1 ≢ c2 = λ e. absurd (omega (arith, e, p.order)) in
      omega (
        arith,
        total-set g s.clusters c1 v d (omega (arith, p.order, p.bound)),
        total-set g once c2 (emptied weight (get_or s.clusters c2 d)) d
            (omega (arith, p.bound, length-set s.clusters c1 v)),
        ap g (get_or-set_other s.clusters c1 c2 v d far),
      )

  pub merge-occurrences :
      (f : Name) (s : Merging weight) (c1 c2 : ℕ) (w : W)
      → IsPair weight s c1 c2
      → occurrences f (merge_pair weight s c1 c2 w).clusters ≡ occurrences f s.clusters
  unfolding occurrences merge_into emptied count_of
  merge-occurrences f s c1 c2 w p =
      let d = no_cluster weight in
      omega (
        arith,
        merge-total (λ (c : Cluster W). count_of f c.functions) s c1 c2 w p,
        count_of-append f (get_or s.clusters c1 d).functions (get_or s.clusters c2 d).functions,
      )
