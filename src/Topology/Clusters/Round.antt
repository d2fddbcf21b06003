-- ===== src/Topology/Clusters/Round.antt =====
-- compiler/topology.py, `_build_clusters`: a round picks a pair that may be merged and has a weight,
-- if there is one.
use nathra.Common.{
  ℕ, ◌<◌, ◌≡◌, ◌≢◌, refl, sym, ap, subst, inl, inr, Bool, true, false, Bool-cases, ◌&&◌, Option,
  none, some, List, [], ◌∷◌, arith,
}
use mathlib.Core.List.{Memᴰ}
use mathlib.Core.List.Memᴰ
use nathra.Topology.Names.{get_or}
use nathra.Topology.Types.{Weight, CallEdge}
use nathra.Topology.Clusters.{
  compatible, no_cluster, Merging, inter_cluster_weight, active_from, Best, consider, consider_row,
  consider_all, best_merge,
}
use nathra.Topology.Clusters.Pick.{
  Ascending, cons, Ascending-bound, IsPair, IsActive, Active-Memᴰ, Memᴰ-Active,
  active_from-Ascending,
}

pub both : (a b : Bool) → a && b ≡ true → (a ≡ true) × (b ≡ true)
both true b h = (refl, h)
both false b h = absurd (cc h)

module _ {W : Type 0} (weight : Weight W) (edges : List (CallEdge W)) (s : Merging weight) where
  -- What the scan knows of the best pair so far.
  pub data IsSound (best : Best weight) : Type 0 where
    none_yet : best.best_pair ≡ none → best.best_weight ≡ weight.zero_weight → IsSound best
    picked :
        (c1 c2 : ℕ)
        → best.best_pair ≡ some (c1, c2)
        → IsPair weight s c1 c2
        → weight.exceeds best.best_weight weight.zero_weight ≡ true
        → IsSound best

  -- The round would gain from merging the two.
  abbrev pub gains : ℕ → ℕ → Bool
  gains c1 c2 =
      compatible (get_or s.clusters c1 (no_cluster weight)).reloadability
        (get_or s.clusters c2 (no_cluster weight)).reloadability
      && weight.exceeds (inter_cluster_weight weight edges s.index c1 c2) weight.zero_weight

  exceeds-zero :
      (best : Best weight) (w : W)
      → IsSound best
      → weight.exceeds w best.best_weight ≡ true
      → weight.exceeds w weight.zero_weight ≡ true
  exceeds-zero best w (none_yet _ e) h = subst (λ x. weight.exceeds w x ≡ true) e h
  exceeds-zero best w (picked _ _ _ _ p) h =
      weight.exceeds_trans w best.best_weight weight.zero_weight h p

  abbrev takes : ℕ → ℕ → Best weight → Bool
  takes c1 c2 best =
      compatible (get_or s.clusters c1 (no_cluster weight)).reloadability
        (get_or s.clusters c2 (no_cluster weight)).reloadability
      && weight.exceeds (inter_cluster_weight weight edges s.index c1 c2) best.best_weight

  consider-taken :
      (c1 c2 : ℕ) (best : Best weight)
      → takes c1 c2 best ≡ true
      → consider weight edges s c1 c2 best ≡ record {
        best_pair = some (c1, c2);
        best_weight = inter_cluster_weight weight edges s.index c1 c2;
      }
  unfolding consider
  consider-taken c1 c2 best h = rw h refl

  consider-left :
      (c1 c2 : ℕ) (best : Best weight)
      → takes c1 c2 best ≡ false
      → consider weight edges s c1 c2 best ≡ best
  unfolding consider
  consider-left c1 c2 best h = rw h refl

  consider-IsSound :
      (c1 c2 : ℕ) (best : Best weight)
      → IsActive weight s c1
      → IsActive weight s c2
      → c1 < c2
      → IsSound best
      → IsSound (consider weight edges s c1 c2 best)
  consider-IsSound c1 c2 best a1 a2 lt ok = elim (Bool-cases (takes c1 c2 best)) [
    | inr e ↦ subst IsSound (sym (consider-left c1 c2 best e)) ok
    | inl e ↦
        let (fits, more) =
          both
            (compatible (get_or s.clusters c1 (no_cluster weight)).reloadability
              (get_or s.clusters c2 (no_cluster weight)).reloadability)
            (weight.exceeds (inter_cluster_weight weight edges s.index c1 c2) best.best_weight) e in
        subst IsSound (sym (consider-taken c1 c2 best e)) (
          picked c1 c2 refl
            (record { order = lt; bound = a2.bound; fits = fits; full1 = a1.full; full2 = a2.full })
            (exceeds-zero best _ ok more))
  ]

  consider_row-IsSound :
      (c1 : ℕ) (l : List ℕ) (best : Best weight)
      → IsActive weight s c1
      → ((x : ℕ) → Memᴰ x l → IsActive weight s x × (c1 < x))
      → IsSound best
      → IsSound (consider_row weight edges s c1 l best)
  unfolding consider_row
  consider_row-IsSound c1 [] best a1 h ok = ok
  consider_row-IsSound c1 (c2 ∷ l) best a1 h ok =
      let (a2, lt) = h c2 (Memᴰ.head refl) in
      consider_row-IsSound c1 l (consider weight edges s c1 c2 best) a1 (λ x m. h x (Memᴰ.tail m))
        (consider-IsSound c1 c2 best a1 a2 lt ok)

  consider_all-IsSound :
      {i : ℕ} (l : List ℕ) (best : Best weight)
      → Ascending i l
      → ((x : ℕ) → Memᴰ x l → IsActive weight s x)
      → IsSound best
      → IsSound (consider_all weight edges s l best)
  unfolding consider_all
  consider_all-IsSound [] best asc h ok = ok
  consider_all-IsSound (c1 ∷ l) best (cons le asc) h ok =
      consider_all-IsSound l (consider_row weight edges s c1 l best) asc (λ x m. h x (Memᴰ.tail m))
        (consider_row-IsSound c1 l best (h c1 (Memᴰ.head refl))
          (λ x m. (h x (Memᴰ.tail m), Ascending-bound asc m)) ok)

  pub best_merge-IsSound : IsSound (best_merge weight edges s)
  unfolding best_merge
  best_merge-IsSound =
      consider_all-IsSound (active_from weight 0 s.clusters) _
        (active_from-Ascending weight 0 s.clusters) (λ x m. Memᴰ-Active weight s x m)
        (none_yet refl refl)

  -- A pair once picked stays or is replaced.
  consider-keeps :
      (c1 c2 : ℕ) (best : Best weight)
      → best.best_pair ≢ none
      → (consider weight edges s c1 c2 best).best_pair ≢ none
  unfolding consider
  consider-keeps c1 c2 best h = grind (arith, h)

  consider_row-keeps :
      (c1 : ℕ) (l : List ℕ) (best : Best weight)
      → best.best_pair ≢ none
      → (consider_row weight edges s c1 l best).best_pair ≢ none
  unfolding consider_row
  consider_row-keeps c1 [] best h = h
  consider_row-keeps c1 (c2 ∷ l) best h =
      consider_row-keeps c1 l (consider weight edges s c1 c2 best) (consider-keeps c1 c2 best h)

  consider_all-keeps :
      (l : List ℕ) (best : Best weight)
      → best.best_pair ≢ none
      → (consider_all weight edges s l best).best_pair ≢ none
  unfolding consider_all
  consider_all-keeps [] best h = h
  consider_all-keeps (c1 ∷ l) best h =
      consider_all-keeps l (consider_row weight edges s c1 l best) (consider_row-keeps c1 l best h)

  some_pair : (p : ℕ × ℕ) {o : Option (ℕ × ℕ)} → o ≡ some p → o ≢ none
  some_pair p h e = cc (h, e)

  -- A pair that gains is taken, or another has been.
  consider-finds :
      (c1 c2 : ℕ) (best : Best weight)
      → IsSound best
      → gains c1 c2 ≡ true
      → (consider weight edges s c1 c2 best).best_pair ≢ none
  consider-finds c1 c2 best (picked a b e _ _) g h =
      consider-keeps c1 c2 best (some_pair (a, b) e) h
  consider-finds c1 c2 best (none_yet _ e) g h =
      let taken : takes c1 c2 best ≡ true = rw e g in
      let here = consider-taken c1 c2 best taken in
      some_pair (c1, c2) (ap (λ (b : Best weight). b.best_pair) here) h

  consider_row-finds :
      (c1 c2 : ℕ) (l : List ℕ) (best : Best weight)
      → IsActive weight s c1
      → ((x : ℕ) → Memᴰ x l → IsActive weight s x × (c1 < x))
      → IsSound best
      → Memᴰ c2 l
      → gains c1 c2 ≡ true
      → (consider_row weight edges s c1 l best).best_pair ≢ none
  unfolding consider_row
  consider_row-finds c1 c2 [] best a1 h ok m g = absurd (Memᴰ.not-nil m)
  consider_row-finds c1 c2 (c ∷ l) best a1 h ok m g =
      let (a2, lt) = h c (Memᴰ.head refl) in
      elim (Memᴰ.cases_cons m) [
        | inl e ↦
            consider_row-keeps c1 l (consider weight edges s c1 c best)
              (consider-finds c1 c best ok (subst (λ x. gains c1 x ≡ true) e g))
        | inr t ↦
            consider_row-finds c1 c2 l (consider weight edges s c1 c best) a1
              (λ x n. h x (Memᴰ.tail n)) (consider-IsSound c1 c best a1 a2 lt ok) t g
      ]

  consider_all-finds :
      {i : ℕ} (c1 c2 : ℕ) (l : List ℕ) (best : Best weight)
      → Ascending i l
      → ((x : ℕ) → Memᴰ x l → IsActive weight s x)
      → IsSound best
      → c1 < c2
      → Memᴰ c1 l
      → Memᴰ c2 l
      → gains c1 c2 ≡ true
      → (consider_all weight edges s l best).best_pair ≢ none
  unfolding consider_all
  consider_all-finds c1 c2 [] best asc h ok lt m1 m2 g = absurd (Memᴰ.not-nil m1)
  consider_all-finds c1 c2 (c ∷ l) best (cons le asc) h ok lt m1 m2 g =
      let row : (x : ℕ) → Memᴰ x l → IsActive weight s x × (c < x) =
        λ x n. (h x (Memᴰ.tail n), Ascending-bound asc n) in
      elim (Memᴰ.cases_cons m2) [
        | inl e2 ↦ elim (Memᴰ.cases_cons m1) [
          | inl e1 ↦ absurd (omega (arith, e1, e2, lt))
          | inr t1 ↦ absurd (omega (arith, e2, lt, Ascending-bound asc t1))
        ]
        | inr t2 ↦ elim (Memᴰ.cases_cons m1) [
          | inl e1 ↦ consider_all-keeps l (consider_row weight edges s c l best) (
              consider_row-finds c c2 l best (h c (Memᴰ.head refl)) row ok t2
                (subst (λ x. gains x c2 ≡ true) e1 g))
          | inr t1 ↦
              consider_all-finds c1 c2 l (consider_row weight edges s c l best) asc
                (λ x n. h x (Memᴰ.tail n))
                (consider_row-IsSound c l best (h c (Memᴰ.head refl)) row ok) lt t1 t2 g
        ]
      ]

  -- If the round picks nothing, no two clusters are worth merging.
  pub best_merge-finds :
      (c1 c2 : ℕ)
      → c1 < c2
      → IsActive weight s c1
      → IsActive weight s c2
      → (best_merge weight edges s).best_pair ≡ none
      → gains c1 c2 ≡ false
  unfolding best_merge
  best_merge-finds c1 c2 lt a1 a2 h = elim (Bool-cases (gains c1 c2)) [
    | inr e ↦ e
    | inl e ↦ absurd (
        consider_all-finds c1 c2 (active_from weight 0 s.clusters) _
          (active_from-Ascending weight 0 s.clusters) (λ x m. Memᴰ-Active weight s x m)
          (none_yet refl refl) lt (Active-Memᴰ weight s c1 a1) (Active-Memᴰ weight s c2 a2) e h)
  ]
