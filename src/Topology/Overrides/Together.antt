-- ===== src/Topology/Overrides/Together.antt =====
-- compiler/topology.py, `_apply_overrides`: pinned functions end in one cluster.
use nathra.Common.{
  ℕ, ◌<◌, ◌≡◌, ◌≢◌, sym, ap, subst, ◌∙◌, ◌⊎◌, inl, inr, false, Bool-cases, none, some, List, ◌++◌,
  arith, ◌==◌, if◌then◌else◌, length,
}
use mathlib.Core.List.{Memᴰ}
use mathlib.Core.List.Memᴰ
use mathlib.Core.Option.{some-injective}
use native.Mathlib.Decide.{ℕ_discrete}
use nathra.Topology.Names.{Name, member, get_or, set}
use nathra.Topology.Types.{Weight, Cluster}
use nathra.Topology.Member.{member-Memᴰ, Memᴰ-member}
use nathra.Topology.Clusters.{assign_all, no_cluster, emptied}
use nathra.Topology.Clusters.Totals.{length-set, get_or-set_other, get_or-set_same}
use nathra.Topology.Overrides.{Pinning, absorb, pin_clusters}

module _ {W : Type 0} (weight : Weight W) where
  abbrev pub at : List (Cluster W) → ℕ → Cluster W
  at cs i = get_or cs i (no_cluster weight)

  -- The index finds a function where it stands.
  pub record IsIndexed (s : Pinning weight) : Type 0 where
    pub bound : (f : Name) (i : ℕ) → s.index f ≡ some i → i < length s.clusters
    pub holds : (f : Name) (i : ℕ) → s.index f ≡ some i → Memᴰ f (at s.clusters i).functions

  pub record IsTogether (f g : Name) (cs : List (Cluster W)) : Type 0 where
    pub place : ℕ
    pub bound : place < length cs
    pub first : Memᴰ f (at cs place).functions
    pub second : Memᴰ g (at cs place).functions

  -- Where the functions of cluster i are after cluster a went into cluster b.
  pub moved : ℕ → ℕ → ℕ → ℕ
  moved a b i = if i == a then b else i

  pub moved_self : (a b : ℕ) → moved a b a ≡ b
  unfolding moved
  moved_self a b = ground arith

  pub moved_other : (a b i : ℕ) → i ≢ a → moved a b i ≡ i
  unfolding moved
  moved_other a b i ne = ground arith

  module _ (s : Pinning weight) (a b : ℕ) (la : a < length s.clusters) (lb : b < length s.clusters)
      (ne : a ≢ b) where
    pub at_anchor :
        at (pin_clusters weight s a b).clusters b
        ≡ absorb weight (at s.clusters b) (at s.clusters a)
    unfolding pin_clusters
    at_anchor =
        get_or-set_other (set s.clusters b (absorb weight (at s.clusters b) (at s.clusters a))) a b
          (emptied weight (at s.clusters a)) (no_cluster weight) ne
        ∙ get_or-set_same s.clusters b _ (no_cluster weight) lb

    at_other : (i : ℕ) → i ≢ a → i ≢ b → at (pin_clusters weight s a b).clusters i ≡ at s.clusters i
    unfolding pin_clusters
    at_other i na nb =
        get_or-set_other (set s.clusters b (absorb weight (at s.clusters b) (at s.clusters a))) a i
          (emptied weight (at s.clusters a)) (no_cluster weight) (λ e. na (sym e))
        ∙ get_or-set_other s.clusters b i _ (no_cluster weight) (λ e. nb (sym e))

    pub in_anchor :
        (f : Name)
        → Memᴰ f ((at s.clusters b).functions ++ (at s.clusters a).functions)
        → Memᴰ f (at (pin_clusters weight s a b).clusters b).functions
    unfolding absorb
    in_anchor f m = subst (λ (c : Cluster W). Memᴰ f c.functions) (sym at_anchor) m

    pub pin_clusters-keeps :
        (i : ℕ) (f : Name)
        → Memᴰ f (at s.clusters i).functions
        → Memᴰ f (at (pin_clusters weight s a b).clusters (moved a b i)).functions
    pin_clusters-keeps i f m = elim (ℕ_discrete i a) [
      | yes e ↦
          subst (λ k. Memᴰ f (at (pin_clusters weight s a b).clusters k).functions)
            (sym (ap (moved a b) e ∙ moved_self a b))
            (in_anchor f (
              Memᴰ.append_right (at s.clusters b).functions
                (subst (λ k. Memᴰ f (at s.clusters k).functions) e m)))
      | no na ↦
          subst (λ k. Memᴰ f (at (pin_clusters weight s a b).clusters k).functions)
            (sym (moved_other a b i na))
            (elim (ℕ_discrete i b) [
              | yes e ↦
                  subst (λ k. Memᴰ f (at (pin_clusters weight s a b).clusters k).functions) (sym e)
                    (in_anchor f (
                      Memᴰ.append_left (at s.clusters a).functions
                        (subst (λ k. Memᴰ f (at s.clusters k).functions) e m)))
              | no nb ↦ subst (λ (c : Cluster W). Memᴰ f c.functions) (sym (at_other i na nb)) m
            ])
    ]

    pub pin_clusters-length : length (pin_clusters weight s a b).clusters ≡ length s.clusters
    unfolding pin_clusters
    pin_clusters-length =
        length-set (set s.clusters b (absorb weight (at s.clusters b) (at s.clusters a))) a _
        ∙ length-set s.clusters b _

    pub moved-below :
        (i : ℕ) → i < length s.clusters → moved a b i < length (pin_clusters weight s a b).clusters
    unfolding moved
    moved-below i lt = rw pin_clusters-length (ground (arith, lt, lb))

    pub pin_clusters-IsTogether :
        {f g : Name}
        → IsTogether f g s.clusters
        → IsTogether f g (pin_clusters weight s a b).clusters
    pin_clusters-IsTogether {f} {g} t = record {
      place = moved a b t.place;
      bound = moved-below t.place t.bound;
      first = pin_clusters-keeps t.place f t.first;
      second = pin_clusters-keeps t.place g t.second;
    }

    -- What the index says afterwards.
    index-cases :
        (f : Name) (k : ℕ)
        → (pin_clusters weight s a b).index f ≡ some k
        → ((Memᴰ f (at s.clusters a).functions × (k ≡ b))
            ⊎ ((member f (at s.clusters a).functions ≡ false) × (s.index f ≡ some k)))
    unfolding pin_clusters assign_all
    index-cases f k h = elim (Bool-cases (member f (at s.clusters a).functions)) [
      | inl e ↦ inl (member-Memᴰ f _ e, sym (some-injective b k (rw e at h)))
      | inr e ↦ inr (e, rw e at h)
    ]

    pin_clusters-holds :
        (f : Name) (k : ℕ)
        → IsIndexed s
        → (pin_clusters weight s a b).index f ≡ some k
        → (k < length s.clusters) × Memᴰ f (at (pin_clusters weight s a b).clusters k).functions
    pin_clusters-holds f k ok h = elim (index-cases f k h) [
      | inl (m, e) ↦ (
        subst (λ x. x < length s.clusters) (sym e) lb,
        subst (λ x. Memᴰ f (at (pin_clusters weight s a b).clusters x).functions) (sym e)
            (in_anchor f (Memᴰ.append_right (at s.clusters b).functions m)),
      )
      | inr (out, h') ↦
          let m = ok.holds f k h' in
          let na : k ≢ a = λ e.
            absurd
              (cc (out, Memᴰ-member f (subst (λ x. Memᴰ f (at s.clusters x).functions) e m))) in
          (
            ok.bound f k h',
            subst (λ x. Memᴰ f (at (pin_clusters weight s a b).clusters x).functions)
                (moved_other a b k na) (pin_clusters-keeps k f m),
          )
    ]

    pub pin_clusters-IsIndexed : IsIndexed s → IsIndexed (pin_clusters weight s a b)
    pin_clusters-IsIndexed ok = record {
      bound = λ f k h.
          let (lt, _) = pin_clusters-holds f k ok h in
          subst (λ n. k < n) (sym pin_clusters-length) lt;
      holds = λ f k h. let (_, m) = pin_clusters-holds f k ok h in m;
    }

    -- A function that was in the index stays in it.
    pub pin_clusters-finds :
        (f : Name) → s.index f ≢ none → (pin_clusters weight s a b).index f ≢ none
    unfolding pin_clusters assign_all
    pin_clusters-finds f h e = grind (arith, h, e)
