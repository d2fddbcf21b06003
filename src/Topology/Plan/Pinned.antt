-- ===== src/Topology/Plan/Pinned.antt =====
-- compiler/topology.py, `generate_build_plan`: the cluster that is linked into the host.
use nathra.Common.{
  ℕ, suc, ◌+◌, ◌≤◌, ◌<◌, ◌≡◌, sym, ap, subst, ◌∙◌, ◌⊎◌, inl, inr, true, false, Bool-cases, Option,
  none, some, List, [], ◌∷◌, arith, ltb, if◌then◌else◌, length,
}
use nathra.Topology.Names.{Name, get_or}
use nathra.Topology.Types.{Weight, Cluster}
use nathra.Topology.Clusters.{no_cluster}
use nathra.Topology.Plan.{is_pinned, pick_pinned}

module _ {W : Type 0} (weight : Weight W) (join : Name → Name → Name) (all : List (Cluster W)) where
  abbrev pub at : ℕ → Cluster W
  at k = get_or all k (no_cluster weight)

  unfoldable pub size : ℕ → ℕ
  size k = length (at k).functions

  -- The cluster is a pinned one, and none of the pinned ones before the bound is larger.
  pub record IsLargest (bound k : ℕ) : Type 0 where
    pub below : k < bound
    pub pinned : is_pinned (at k).reloadability ≡ true
    pub largest : (j : ℕ) → j < bound → is_pinned (at j).reloadability ≡ true → size j ≤ size k

  -- What was picked among the clusters before the bound.
  unfoldable pub IsPick : ℕ → Option ℕ → Type 0
  IsPick bound none = (j : ℕ) → j < bound → is_pinned (at j).reloadability ≡ false
  IsPick bound (some k) = IsLargest bound k

  before : {j i : ℕ} → j < suc i → (j ≡ i) ⊎ (j < i)
  before {j} {i} lt = elim (Bool-cases (ltb j i)) [
    | inl e ↦ inr (ground (arith, e))
    | inr e ↦ inl (ground (arith, e, lt))
  ]

  IsPick-unpinned :
      (i : ℕ) (best : Option ℕ)
      → is_pinned (at i).reloadability ≡ false
      → IsPick i best
      → IsPick (suc i) best
  unfolding IsPick
  IsPick-unpinned i none e ok = λ j lt. elim (before lt) [
    | inl q ↦ subst (λ k. is_pinned (at k).reloadability ≡ false) (sym q) e
    | inr l ↦ ok j l
  ]
  IsPick-unpinned i (some k) e ok = record {
    below = omega (arith, ok.below);
    pinned = ok.pinned;
    largest = λ j lt p. elim (before lt) [
      | inl q ↦ absurd (cc (p, subst (λ m. is_pinned (at m).reloadability ≡ false) (sym q) e))
      | inr l ↦ ok.largest j l p
    ];
  }

  IsPick-pinned :
      (i : ℕ) (best : Option ℕ)
      → is_pinned (at i).reloadability ≡ true
      → IsPick i best
      → IsPick
          (suc i)
          (elim best [ none ↦ some i | some b ↦ if ltb (size b) (size i) then some i else some b ])
  unfolding IsPick size
  IsPick-pinned i none e ok = record {
    below = omega arith;
    pinned = e;
    largest = λ j lt p. elim (before lt) [
      | inl q ↦ omega (arith, ap size q)
      | inr l ↦ absurd (cc (p, ok j l))
    ];
  }
  IsPick-pinned i (some b) e ok = elim (Bool-cases (ltb (size b) (size i))) [
    | inl more ↦ rw more (record {
      below = omega arith;
      pinned = e;
      largest = λ j lt p. elim (before lt) [
        | inl q ↦ omega (arith, ap size q)
        | inr l ↦ ground (arith, ok.largest j l p, more)
      ];
    })
    | inr less ↦ rw less (record {
      below = omega (arith, ok.below);
      pinned = ok.pinned;
      largest = λ j lt p. elim (before lt) [
        | inl q ↦ ground (arith, ap size q, less)
        | inr l ↦ ok.largest j l p
      ];
    })
  ]

  pick_pinned-IsPick :
      (i : ℕ) (rest : List (Cluster W)) (best : Option ℕ)
      → length all ≡ i + length rest
      → ((k : ℕ) → k < length rest → get_or rest k (no_cluster weight) ≡ at (i + k))
      → IsPick i best
      → IsPick (length all) (pick_pinned weight join all i rest best)
  unfolding pick_pinned get_or size
  pick_pinned-IsPick i [] best len rests ok = subst (λ n. IsPick n best) (omega (arith, len)) ok
  pick_pinned-IsPick i (c ∷ cs) best len rests ok =
      let here : c ≡ at i = rests 0 (omega arith) ∙ ap at (omega arith) in
      pick_pinned-IsPick (suc i) cs _ (omega (arith, len))
        (λ k lt. rests (suc k) (omega (arith, lt)) ∙ ap at (omega arith))
        (elim (Bool-cases (is_pinned c.reloadability)) [
          | inl e ↦ rw e (
              subst
                (λ (d : Cluster W). IsPick (suc i) (elim best [
                  | none ↦ some i
                  | some b ↦ if ltb (size b) (length d.functions) then some i else some b
                ]))
                (sym here)
                (IsPick-pinned i best
                  (subst (λ (d : Cluster W). is_pinned d.reloadability ≡ true) here e) ok))
          | inr e ↦ rw e (
              IsPick-unpinned i best
                (subst (λ (d : Cluster W). is_pinned d.reloadability ≡ false) here e) ok)
        ])

  -- The cluster that the plan links into the host is a pinned one, and none of the pinned clusters has
  -- more functions; there is none only if no cluster is pinned.
  pub pick_pinned-largest : IsPick (length all) (pick_pinned weight join all 0 all none)
  unfolding IsPick
  pick_pinned-largest =
      pick_pinned-IsPick 0 all none (omega arith) (λ k lt. ap at (omega arith))
        (λ j lt. absurd (omega (arith, lt)))
