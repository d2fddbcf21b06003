-- ===== src/Topology/Overrides/Laws.antt =====
-- compiler/topology.py, `_apply_overrides`: what becomes of the pinned functions, and of the others.
use nathra.Common.{
  ℕ, zero, suc, ◌+◌, ◌<◌, ◌≡◌, ◌≢◌, refl, sym, ap, subst, ◌∙◌, ◌⊎◌, inl, inr, true, Bool-cases,
  none, some, List, [], ◌∷◌, arith, length,
}
use mathlib.Core.List.{Memᴰ}
use mathlib.Core.List.Memᴰ
use mathlib.Core.Option.{some-injective}
use nathra.Topology.Names.{Name, member, nonempty, filter, get_or}
use nathra.Topology.Types.{Weight, Cluster}
use nathra.Topology.Member.{member-Memᴰ, Memᴰ-member, Memᴰ-filter}
use nathra.Topology.Clusters.{Index, assign_all, no_cluster, renumber, has_functions}
use nathra.Topology.Clusters.Totals.{occurrences}
use nathra.Topology.Clusters.Partition.{filter-occurrences, renumber-occurrences}
use nathra.Topology.Overrides.{
  Pinning, index_from, func_to_ci, pin_clusters, pin_each, pinned, apply_overrides,
}
use nathra.Topology.Overrides.Together.{
  at, IsIndexed, IsTogether, in_anchor, at_anchor, pin_clusters-length,
}
use nathra.Topology.Overrides.Pinned.{
  pin_each-IsTogether, pin_each-occurrences, pin_one-joins, absorb-reloadability,
}

module _ {ℓ} {A : Type ℓ} where
  get_or-Memᴰ : (xs : List A) (i : ℕ) (d : A) → i < length xs → Memᴰ (get_or xs i d) xs
  unfolding get_or
  get_or-Memᴰ [] i d lt = absurd (omega arith)
  get_or-Memᴰ (x ∷ xs) zero d lt = Memᴰ.head refl
  get_or-Memᴰ (x ∷ xs) (suc i) d lt = Memᴰ.tail (get_or-Memᴰ xs i d (omega arith))

full-Memᴰ : (f : Name) {xs : List Name} → Memᴰ f xs → nonempty xs ≡ true
full-Memᴰ f (Memᴰ.head e) = refl
full-Memᴰ f (Memᴰ.tail m) = refl

module _ {W : Type 0} (weight : Weight W) where
  assign_all-kept :
      (index : Index) (fs : List Name) (i : ℕ) (f : Name)
      → index f ≢ none
      → assign_all index fs i f ≢ none
  unfolding assign_all
  assign_all-kept index fs i f h e = grind (arith, h, e)

  assign_all-new :
      (index : Index) (fs : List Name) (i : ℕ) (f : Name)
      → Memᴰ f fs
      → assign_all index fs i f ≢ none
  unfolding assign_all
  assign_all-new index fs i f m e = grind (arith, Memᴰ-member f m, e)

  index_from-kept :
      (i : ℕ) (cs : List (Cluster W)) (index : Index) (f : Name)
      → index f ≢ none
      → index_from weight i cs index f ≢ none
  unfolding index_from
  index_from-kept i [] index f h = h
  index_from-kept i (c ∷ cs) index f h =
      index_from-kept (suc i) cs (assign_all index c.functions i) f
        (assign_all-kept index c.functions i f h)

  index_from-new :
      (i : ℕ) (cs : List (Cluster W)) (index : Index) (f : Name) (c : Cluster W)
      → Memᴰ c cs
      → Memᴰ f c.functions
      → index_from weight i cs index f ≢ none
  unfolding index_from
  index_from-new i [] index f c m n = absurd (Memᴰ.not-nil m)
  index_from-new i (x ∷ xs) index f c m n = elim (Memᴰ.cases_cons m) [
    | inl e ↦
        index_from-kept (suc i) xs (assign_all index x.functions i) f
          (assign_all-new index x.functions i f (subst (λ (y : Cluster W). Memᴰ f y.functions) e n))
    | inr t ↦ index_from-new (suc i) xs (assign_all index x.functions i) f c t n
  ]

  assign_all-cases :
      (index : Index) (fs : List Name) (i : ℕ) (f : Name) (k : ℕ)
      → assign_all index fs i f ≡ some k
      → ((k ≡ i) × Memᴰ f fs) ⊎ (index f ≡ some k)
  unfolding assign_all
  assign_all-cases index fs i f k h = elim (Bool-cases (member f fs)) [
    | inl e ↦ inl (sym (some-injective i k (rw e at h)), member-Memᴰ f fs e)
    | inr e ↦ inr (rw e at h)
  ]

  -- A position that the index names was there before, or holds the function.
  index_from-cases :
      (i : ℕ) (cs : List (Cluster W)) (index : Index) (f : Name) (k : ℕ)
      → index_from weight i cs index f ≡ some k
      → ((j : ℕ) × ((k ≡ j + i) × ((j < length cs) × Memᴰ f (at weight cs j).functions)))
        ⊎ (index f ≡ some k)
  unfolding index_from get_or
  index_from-cases i [] index f k h = inr h
  index_from-cases i (c ∷ cs) index f k h =
      elim (index_from-cases (suc i) cs (assign_all index c.functions i) f k h) [
        | inl (j, (e, (lt, m))) ↦ inl (suc j, (omega (arith, e), (omega arith, m)))
        | inr e ↦ elim (assign_all-cases index c.functions i f k e) [
          | inl (q, m) ↦ inl (zero, (omega (arith, q), (omega arith, m)))
          | inr old ↦ inr old
        ]
      ]

  pub func_to_ci-IsIndexed :
      (cs : List (Cluster W))
      → IsIndexed weight (record { clusters = cs; index = func_to_ci weight cs; warnings = [] })
  unfolding func_to_ci
  func_to_ci-IsIndexed cs = record {
    bound = λ f k h. (placed cs f k h).0;
    holds = λ f k h. (placed cs f k h).1;
  }
    where
      placed :
          (cs : List (Cluster W)) (f : Name) (k : ℕ)
          → func_to_ci weight cs f ≡ some k
          → (k < length cs) × Memᴰ f (at weight cs k).functions
      placed cs f k h = elim (index_from-cases 0 cs (λ _. none) f k h) [
        | inl (j, (e, (lt, m))) ↦
            let same : j ≡ k = omega (arith, e) in
            (
              subst (λ x. x < length cs) same lt,
              subst (λ x. Memᴰ f (at weight cs x).functions) same m,
            )
        | inr e ↦ absurd (cc e)
      ]

  -- A cluster with the functions is still there after empty ones are dropped and the rest renumbered.
  renumber-holds :
      (i : ℕ) (cs : List (Cluster W)) (c : Cluster W)
      → Memᴰ c cs
      → (c' : Cluster W) × (Memᴰ c' (renumber weight i cs)
          × ((c'.functions ≡ c.functions) × (c'.reloadability ≡ c.reloadability)))
  unfolding renumber
  renumber-holds i [] c m = absurd (Memᴰ.not-nil m)
  renumber-holds i (x ∷ xs) c m = elim (Memᴰ.cases_cons m) [
    | inl e ↦ (
      record x { id = i },
      (
        Memᴰ.head refl,
        (
          ap (λ (y : Cluster W). y.functions) (sym e),
          ap (λ (y : Cluster W). y.reloadability) (sym e),
        ),
      ),
    )
    | inr t ↦ let (c', (n, e)) = renumber-holds (suc i) xs c t in (c', (Memᴰ.tail n, e))
  ]

  finish-holds :
      (cs : List (Cluster W)) (f g : Name)
      → IsTogether weight f g cs
      → (c : Cluster W) × (Memᴰ c (renumber weight 0 (filter (has_functions weight) cs))
          × (Memᴰ f c.functions × Memᴰ g c.functions))
  finish-holds cs f g t =
      let c = at weight cs t.place in
      let here = get_or-Memᴰ cs t.place (no_cluster weight) t.bound in
      let kept = Memᴰ-filter (has_functions weight) c here (full-Memᴰ f t.first) in
      let (c', (m, (e, _))) = renumber-holds 0 _ c kept in
      (c', (m, (subst (λ fs. Memᴰ f fs) (sym e) t.first, subst (λ fs. Memᴰ g fs) (sym e) t.second)))

  -- When a function is pinned to an anchor and both stand in some cluster, _apply_overrides leaves a
  -- cluster that holds both, whatever the other pins are.
  pub apply_overrides-together :
      (pins : List (Name × Name)) (cs : List (Cluster W)) (fn anchor : Name) (c1 c2 : Cluster W)
      → Memᴰ (fn, anchor) pins
      → Memᴰ c1 cs
      → Memᴰ fn c1.functions
      → Memᴰ c2 cs
      → Memᴰ anchor c2.functions
      → (c : Cluster W) × (Memᴰ c (apply_overrides weight pins cs)
          × (Memᴰ fn c.functions × Memᴰ anchor c.functions))
  unfolding apply_overrides pinned func_to_ci
  apply_overrides-together [] cs fn anchor c1 c2 m m1 n1 m2 n2 = absurd (Memᴰ.not-nil m)
  apply_overrides-together (pin ∷ pins) cs fn anchor c1 c2 m m1 n1 m2 n2 =
      finish-holds _ fn anchor (
        pin_each-IsTogether weight fn anchor (pin ∷ pins)
          (record { clusters = cs; index = func_to_ci weight cs; warnings = [] }) m
          (func_to_ci-IsIndexed cs) (index_from-new 0 cs (λ _. none) fn c1 m1 n1)
          (index_from-new 0 cs (λ _. none) anchor c2 m2 n2))

  -- _apply_overrides loses and doubles no function: every name occurs in the clusters together as
  -- often as before.
  pub apply_overrides-occurrences :
      (pins : List (Name × Name)) (cs : List (Cluster W)) (f : Name)
      → occurrences weight f (apply_overrides weight pins cs) ≡ occurrences weight f cs
  unfolding apply_overrides pinned
  apply_overrides-occurrences [] cs f = refl
  apply_overrides-occurrences (pin ∷ pins) cs f =
      renumber-occurrences weight f 0 _
      ∙ filter-occurrences weight f _
      ∙ pin_each-occurrences weight (pin ∷ pins)
          (record { clusters = cs; index = func_to_ci weight cs; warnings = [] }) f
          (func_to_ci-IsIndexed cs)

  -- When one function is pinned to an anchor in another cluster, the cluster that holds the function
  -- afterwards has the category of the anchor's cluster, whatever that of the function's was.
  pub apply_overrides-reloadability :
      (cs : List (Cluster W)) (fn anchor : Name) (a b : ℕ)
      → func_to_ci weight cs fn ≡ some a
      → func_to_ci weight cs anchor ≡ some b
      → a ≢ b
      → (c : Cluster W) × (Memᴰ c (apply_overrides weight ((fn, anchor) ∷ []) cs)
          × (Memᴰ fn c.functions
              × (c.reloadability ≡ (get_or cs b (no_cluster weight)).reloadability)))
  unfolding apply_overrides pinned pin_each
  apply_overrides-reloadability cs fn anchor a b ea eb ne =
      let s : Pinning weight = record {
        clusters = cs;
        index = func_to_ci weight cs;
        warnings = [];
      } in
      let ok = func_to_ci-IsIndexed cs in
      let la = ok.bound fn a ea in
      let lb = ok.bound anchor b eb in
      let t = pin_clusters weight s a b in
      let here =
        get_or-Memᴰ t.clusters b (no_cluster weight)
          (subst (λ n. b < n) (sym (pin_clusters-length weight s a b la lb ne)) lb) in
      let fn_here = in_anchor weight s a b la lb ne fn (Memᴰ.append_right _ (ok.holds fn a ea)) in
      let (c', (m, (ef, er))) =
        renumber-holds 0 _ (at weight t.clusters b)
          (Memᴰ-filter (has_functions weight) _ here (full-Memᴰ fn fn_here)) in
      (
        c',
        (
          subst
              (λ (u : Pinning weight).
                Memᴰ c' (renumber weight 0 (filter (has_functions weight) u.clusters)))
              (sym (pin_one-joins weight fn anchor s a b ea eb ne)) m,
          (
            subst (λ fs. Memᴰ fn fs) (sym ef) fn_here,
            er
                ∙ ap (λ (c : Cluster W). c.reloadability) (at_anchor weight s a b la lb ne)
                ∙ absorb-reloadability weight (at weight cs b) (at weight cs a),
          ),
        ),
      )
