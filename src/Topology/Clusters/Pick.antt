-- ===== src/Topology/Clusters/Pick.antt =====
-- compiler/topology.py, `_build_clusters`: the pair that a round picks.
use nathra.Common.{
  ℕ, zero, suc, ◌+◌, ◌≤◌, ◌<◌, ◌≡◌, subst, inl, inr, true, Bool-cases, List, [], ◌∷◌, arith, length,
}
use mathlib.Core.List.{Memᴰ}
use mathlib.Core.List.Memᴰ
use nathra.Topology.Names.{nonempty, get_or}
use nathra.Topology.Types.{Weight, Cluster}
use nathra.Topology.Clusters.{compatible, no_cluster, Merging, active_from}

-- The positions in ascending order, from a lower bound on.
pub data Ascending : ℕ → List ℕ → Type 0 where
  nil : {i : ℕ} → Ascending i []
  cons : {i x : ℕ} {xs : List ℕ} → i ≤ x → Ascending (suc x) xs → Ascending i (x ∷ xs)

Ascending-weaken : {i j : ℕ} {xs : List ℕ} → j ≤ i → Ascending i xs → Ascending j xs
Ascending-weaken le nil = nil
Ascending-weaken le (cons b a) = cons (omega arith) a

pub Ascending-bound : {i x : ℕ} {xs : List ℕ} → Ascending i xs → Memᴰ x xs → i ≤ x
Ascending-bound nil m = absurd (Memᴰ.not-nil m)
Ascending-bound (cons b a) (Memᴰ.head e) = omega (arith, e)
Ascending-bound (cons b a) (Memᴰ.tail m) = omega (arith, Ascending-bound a m)

module _ {W : Type 0} (weight : Weight W) where
  -- Two clusters with functions that may be merged, in order.
  pub record IsPair (s : Merging weight) (c1 c2 : ℕ) : Type 0 where
    pub order : c1 < c2
    pub bound : c2 < length s.clusters
    pub fits :
        compatible
          (get_or s.clusters c1 (no_cluster weight)).reloadability
          (get_or s.clusters c2 (no_cluster weight)).reloadability
        ≡ true
    pub full1 : nonempty (get_or s.clusters c1 (no_cluster weight)).functions ≡ true
    pub full2 : nonempty (get_or s.clusters c2 (no_cluster weight)).functions ≡ true

  pub record IsActive (s : Merging weight) (c : ℕ) : Type 0 where
    pub bound : c < length s.clusters
    pub full : nonempty (get_or s.clusters c (no_cluster weight)).functions ≡ true

  pub active_from-Ascending :
      (i : ℕ) (cs : List (Cluster W)) → Ascending i (active_from weight i cs)
  unfolding active_from
  active_from-Ascending i [] = nil
  active_from-Ascending i (c ∷ cs) = elim (Bool-cases (nonempty c.functions)) [
    | inl e ↦ rw e (cons (omega arith) (active_from-Ascending (suc i) cs))
    | inr e ↦ rw e (Ascending-weaken (omega arith) (active_from-Ascending (suc i) cs))
  ]

  -- Position c of the list stands at i + c.
  active_from-Memᴰ :
      (i : ℕ) (cs : List (Cluster W)) (c : ℕ)
      → c < length cs
      → nonempty (get_or cs c (no_cluster weight)).functions ≡ true
      → Memᴰ (c + i) (active_from weight i cs)
  unfolding active_from get_or
  active_from-Memᴰ i [] c lt full = absurd (omega arith)
  active_from-Memᴰ i (x ∷ xs) zero lt full = rw full (Memᴰ.head (omega arith))
  active_from-Memᴰ i (x ∷ xs) (suc c) lt full =
      let later = active_from-Memᴰ (suc i) xs c (omega arith) full in
      let moved : Memᴰ (suc c + i) (active_from weight (suc i) xs) =
        subst (λ k. Memᴰ k (active_from weight (suc i) xs)) (omega arith) later in
      elim (Bool-cases (nonempty x.functions)) [
        | inl e ↦ rw e (Memᴰ.tail moved)
        | inr e ↦ rw e moved
      ]

  shifted :
      (i : ℕ) (y : Cluster W) (ys : List (Cluster W)) (x : ℕ)
      → (c : ℕ) × ((x ≡ c + suc i)
          × ((c < length ys) × (nonempty (get_or ys c (no_cluster weight)).functions ≡ true)))
      → (c : ℕ) × ((x ≡ c + i)
          × ((c < suc (length ys))
              × (nonempty (get_or (y ∷ ys) c (no_cluster weight)).functions ≡ true)))
  unfolding get_or
  shifted i y ys x (c, (e, (lt, full))) = (suc c, (omega (arith, e), (omega arith, full)))

  Memᴰ-active_from :
      (i : ℕ) (cs : List (Cluster W)) (x : ℕ)
      → Memᴰ x (active_from weight i cs)
      → (c : ℕ) × ((x ≡ c + i)
          × ((c < length cs) × (nonempty (get_or cs c (no_cluster weight)).functions ≡ true)))
  unfolding active_from get_or
  Memᴰ-active_from i [] x m = absurd (Memᴰ.not-nil m)
  Memᴰ-active_from i (y ∷ ys) x m = elim (Bool-cases (nonempty y.functions)) [
    | inl e ↦ elim (Memᴰ.cases_cons (rw e at m)) [
      | inl h ↦ (zero, (omega (arith, h), (omega arith, e)))
      | inr t ↦ shifted i y ys x (Memᴰ-active_from (suc i) ys x t)
    ]
    | inr e ↦ shifted i y ys x (Memᴰ-active_from (suc i) ys x (rw e at m))
  ]

  pub Active-Memᴰ :
      (s : Merging weight) (c : ℕ) → IsActive s c → Memᴰ c (active_from weight 0 s.clusters)
  Active-Memᴰ s c a =
      subst (λ k. Memᴰ k (active_from weight 0 s.clusters)) (omega arith)
        (active_from-Memᴰ 0 s.clusters c a.bound a.full)

  pub Memᴰ-Active :
      (s : Merging weight) (c : ℕ) → Memᴰ c (active_from weight 0 s.clusters) → IsActive s c
  Memᴰ-Active s c m =
      let (k, (e, (lt, full))) = Memᴰ-active_from 0 s.clusters c m in
      subst (IsActive s) (omega (arith, e)) (record { bound = lt; full = full })
