-- ===== src/Topology/Clusters/Uniform.antt =====
-- compiler/topology.py, `_build_clusters`: the categories of the modules in a cluster.
use nathra.Common.{
  ℕ, zero, suc, ◌≡◌, refl, sym, subst, ◌∙◌, ◌⊎◌, inl, inr, true, Bool-cases, List, [], ◌∷◌, ◌++◌,
}
use mathlib.Core.List.{Memᴰ}
use mathlib.Core.List.Memᴰ
use nathra.Topology.Names.{Name, member, union, get_or, set}
use nathra.Topology.Types.{
  Reloadability, pure, process_local, resource_owner, abi_anchor, Weight, ModuleData, CallEdge,
  Cluster,
}
use nathra.Topology.Member.{filter-Memᴰ}
use nathra.Topology.Clusters.{
  compatible, most_restrictive, no_cluster, Merging, merge_into, emptied, merge_pair,
  module_cluster, module_clusters, start, merged, renumber, has_functions, build_clusters,
}
use nathra.Topology.Clusters.Pick.{IsPair}
use nathra.Topology.Clusters.Loop.{merge_loop_rule}

-- A category goes with another that is the same, or with any if it is pure.
abbrev pub GoesWith : Reloadability → Reloadability → Type 0
GoesWith r cluster = (r ≡ pure) ⊎ (r ≡ cluster)

most_restrictive-GoesWith :
    (a b : Reloadability)
    → compatible a b ≡ true
    → GoesWith a (most_restrictive a b) × GoesWith b (most_restrictive a b)
unfolding compatible most_restrictive
most_restrictive-GoesWith pure pure h = (inl refl, inr refl)
most_restrictive-GoesWith pure process_local h = (inl refl, inr refl)
most_restrictive-GoesWith pure resource_owner h = (inl refl, inr refl)
most_restrictive-GoesWith pure abi_anchor h = (inl refl, inr refl)
most_restrictive-GoesWith process_local pure h = (inr refl, inl refl)
most_restrictive-GoesWith process_local process_local h = (inr refl, inr refl)
most_restrictive-GoesWith process_local resource_owner h = absurd (cc h)
most_restrictive-GoesWith process_local abi_anchor h = absurd (cc h)
most_restrictive-GoesWith resource_owner pure h = (inr refl, inl refl)
most_restrictive-GoesWith resource_owner process_local h = absurd (cc h)
most_restrictive-GoesWith resource_owner resource_owner h = (inr refl, inr refl)
most_restrictive-GoesWith resource_owner abi_anchor h = absurd (cc h)
most_restrictive-GoesWith abi_anchor pure h = (inr refl, inl refl)
most_restrictive-GoesWith abi_anchor process_local h = absurd (cc h)
most_restrictive-GoesWith abi_anchor resource_owner h = absurd (cc h)
most_restrictive-GoesWith abi_anchor abi_anchor h = (inr refl, inr refl)

GoesWith-trans : (a b c : Reloadability) → GoesWith a b → GoesWith b c → GoesWith a c
GoesWith-trans a b c (inl e) h = inl e
GoesWith-trans a b c (inr e) (inl e') = inl (e ∙ e')
GoesWith-trans a b c (inr e) (inr e') = inr (e ∙ e')

union-Memᴰ : (x : Name) (xs ys : List Name) → Memᴰ x (union xs ys) → Memᴰ x xs ⊎ Memᴰ x ys
unfolding union
union-Memᴰ x xs [] m = inl m
union-Memᴰ x xs (y ∷ ys) m = elim (Bool-cases (member y xs)) [
  | inl e ↦ elim (union-Memᴰ x xs ys (rw e at m)) [ inl l ↦ inl l | inr r ↦ inr (Memᴰ.tail r) ]
  | inr e ↦ elim (union-Memᴰ x (xs ++ y ∷ []) ys (rw e at m)) [
    | inl l ↦ elim (Memᴰ.append_cases xs l) [
      | inl old ↦ inl old
      | inr new ↦ inr (Memᴰ.head (Memᴰ.eq_of_singleton new))
    ]
    | inr r ↦ inr (Memᴰ.tail r)
  ]
]

module _ {ℓ} {A : Type ℓ} where
  set-Memᴰ : (x v : A) (xs : List A) (i : ℕ) → Memᴰ x (set xs i v) → (x ≡ v) ⊎ Memᴰ x xs
  unfolding set
  set-Memᴰ x v [] i m = inr m
  set-Memᴰ x v (y ∷ ys) zero m = elim (Memᴰ.cases_cons m) [
    | inl e ↦ inl e
    | inr t ↦ inr (Memᴰ.tail t)
  ]
  set-Memᴰ x v (y ∷ ys) (suc i) m = elim (Memᴰ.cases_cons m) [
    | inl e ↦ inr (Memᴰ.head e)
    | inr t ↦ elim (set-Memᴰ x v ys i t) [ inl e ↦ inl e | inr s ↦ inr (Memᴰ.tail s) ]
  ]

  pub get_or-cases : (xs : List A) (i : ℕ) (d : A) → Memᴰ (get_or xs i d) xs ⊎ (get_or xs i d ≡ d)
  unfolding get_or
  get_or-cases [] i d = inr refl
  get_or-cases (x ∷ xs) zero d = inl (Memᴰ.head refl)
  get_or-cases (x ∷ xs) (suc i) d = elim (get_or-cases xs i d) [
    | inl m ↦ inl (Memᴰ.tail m)
    | inr e ↦ inr e
  ]

module _ {W : Type 0} (weight : Weight W) (modules : List ModuleData) where
  -- The module that a name stands for, of a category that goes with the cluster's.
  abbrev pub Fits : Name → Reloadability → Type 0
  Fits name r = (m : ModuleData) × (Memᴰ m modules × ((m.name ≡ name) × GoesWith m.reloadability r))

  pub record IsUniform (c : Cluster W) : Type 0 where
    pub fits : (name : Name) → Memᴰ name c.modules → Fits name c.reloadability

  abbrev AllUniform : Merging weight → Type 0
  AllUniform s = (c : Cluster W) → Memᴰ c s.clusters → IsUniform c

  Fits-widen : (name : Name) (r r' : Reloadability) → GoesWith r r' → Fits name r → Fits name r'
  Fits-widen name r r' g (m, (mem, (e, old))) =
      (m, (mem, (e, GoesWith-trans m.reloadability r r' old g)))

  merge_into-IsUniform :
      (a b : Cluster W) (w : W)
      → compatible a.reloadability b.reloadability ≡ true
      → IsUniform a
      → IsUniform b
      → IsUniform (merge_into weight a b w)
  unfolding merge_into
  merge_into-IsUniform a b w ok ua ub =
      let (ga, gb) = most_restrictive-GoesWith a.reloadability b.reloadability ok in
      record {
        fits = λ name m. elim (union-Memᴰ name a.modules b.modules m) [
          | inl l ↦ Fits-widen name _ _ ga (ua.fits name l)
          | inr r ↦ Fits-widen name _ _ gb (ub.fits name r)
        ];
      }

  get_or-IsUniform :
      (s : Merging weight) (i : ℕ)
      → AllUniform s
      → IsUniform (get_or s.clusters i (no_cluster weight))
  get_or-IsUniform s i all = elim (get_or-cases s.clusters i (no_cluster weight)) [
    | inl m ↦ all _ m
    | inr e ↦ subst IsUniform (sym e) (record { fits = λ name m. absurd (Memᴰ.not-nil m) })
  ]

  emptied-IsUniform : (c : Cluster W) → IsUniform (emptied weight c)
  unfolding emptied
  emptied-IsUniform c = record { fits = λ name m. absurd (Memᴰ.not-nil m) }

  merge_pair-AllUniform :
      (s : Merging weight) (c1 c2 : ℕ) (w : W)
      → IsPair weight s c1 c2
      → AllUniform s
      → AllUniform (merge_pair weight s c1 c2 w)
  unfolding merge_pair
  merge_pair-AllUniform s c1 c2 w p all c m = elim (set-Memᴰ c _ _ c2 m) [
    | inl e ↦ subst IsUniform (sym e) (emptied-IsUniform _)
    | inr m' ↦ elim (set-Memᴰ c _ s.clusters c1 m') [
      | inl e ↦ subst IsUniform (sym e) (
          merge_into-IsUniform _ _ w p.fits (get_or-IsUniform s c1 all) (get_or-IsUniform s c2 all))
      | inr old ↦ all c old
    ]
  ]

  module_clusters-IsUniform :
      (edges : List (CallEdge W)) (i : ℕ) (ms : List ModuleData)
      → ((m : ModuleData) → Memᴰ m ms → Memᴰ m modules)
      → (c : Cluster W) → Memᴰ c (module_clusters weight edges i ms)
      → IsUniform c
  unfolding module_clusters module_cluster
  module_clusters-IsUniform edges i [] sub c mem = absurd (Memᴰ.not-nil mem)
  module_clusters-IsUniform edges i (m ∷ ms) sub c mem = elim (Memᴰ.cases_cons mem) [
    | inl e ↦ subst IsUniform (sym e) (record {
      fits = λ name n. (m, (sub m (Memᴰ.head refl), (sym (Memᴰ.eq_of_singleton n), inr refl)));
    })
    | inr t ↦ module_clusters-IsUniform edges (suc i) ms (λ x n. sub x (Memᴰ.tail n)) c t
  ]

  renumber-IsUniform :
      (i : ℕ) (cs : List (Cluster W))
      → ((c : Cluster W) → Memᴰ c cs → IsUniform c)
      → (c : Cluster W) → Memᴰ c (renumber weight i cs)
      → IsUniform c
  unfolding renumber
  renumber-IsUniform i [] all c m = absurd (Memᴰ.not-nil m)
  renumber-IsUniform i (x ∷ xs) all c m = elim (Memᴰ.cases_cons m) [
    | inl e ↦
        let u = all x (Memᴰ.head refl) in
        subst IsUniform (sym e) (record { fits = λ name n. u.fits name n })
    | inr t ↦ renumber-IsUniform (suc i) xs (λ y n. all y (Memᴰ.tail n)) c t
  ]

  build_clusters-IsUniform :
      (edges : List (CallEdge W)) (c : Cluster W)
      → Memᴰ c (build_clusters weight edges modules)
      → IsUniform c
  unfolding build_clusters merged start
  build_clusters-IsUniform edges = renumber-IsUniform 0 _ λ c m.
      merge_loop_rule weight edges AllUniform merge_pair-AllUniform _ (start weight edges modules)
        (module_clusters-IsUniform edges 0 modules (λ x n. n)) c
        ((filter-Memᴰ (has_functions weight) c _ m).0)

  -- Every module name in a cluster that _build_clusters makes is the name of a module whose category
  -- is pure or that of the cluster.
  pub build_clusters-Fits :
      (edges : List (CallEdge W)) (c : Cluster W)
      → Memᴰ c (build_clusters weight edges modules)
      → (name : Name) → Memᴰ name c.modules
      → (m : ModuleData) × (Memᴰ m modules
          × ((m.name ≡ name) × ((m.reloadability ≡ pure) ⊎ (m.reloadability ≡ c.reloadability))))
  build_clusters-Fits edges c mem name n =
      let u = build_clusters-IsUniform edges c mem in u.fits name n
