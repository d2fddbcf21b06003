-- ===== src/Topology/Overrides/Pinned.antt =====
-- compiler/topology.py, `_apply_overrides`: the loop over the pins.
use nathra.Common.{
  ℕ, ◌<◌, ◌≡◌, ◌≢◌, refl, sym, ap, subst, ◌∙◌, ◌⊎◌, inl, inr, Bool-cases, none, some, List, [], ◌∷◌,
  ◌++◌, arith, ◌==◌, ==_iff, length,
}
use mathlib.Core.List.{Memᴰ}
use mathlib.Core.List.Memᴰ
use nathra.StrMap.Invariant.{Option-cases}
use nathra.Topology.Names.{Name, get_or, set}
use nathra.Topology.Types.{Weight, Cluster}
use nathra.Topology.Clusters.{no_cluster, emptied}
use nathra.Topology.Clusters.Totals.{
  total-set, length-set, get_or-set_other, count_of, count_of-append, occurrences,
}
use nathra.Topology.Overrides.{Pinning, absorb, pin_clusters, pin_one, pin_each}
use nathra.Topology.Overrides.Together.{
  at, IsIndexed, IsTogether, moved_self, moved_other, moved-below, pin_clusters-keeps,
  pin_clusters-IsTogether, pin_clusters-IsIndexed, pin_clusters-finds,
}

module _ {W : Type 0} (weight : Weight W) where
  warned : Pinning weight → Name → Name → Pinning weight
  warned s fn anchor = record s { warnings = s.warnings ++ (fn, anchor) ∷ [] }

  -- What one pin does.
  data PinCase (fn anchor : Name) (s : Pinning weight) : Type 0 where
    missing :
        ((s.index fn ≡ none) ⊎ (s.index anchor ≡ none))
        → pin_one weight fn anchor s ≡ warned s fn anchor
        → PinCase fn anchor s
    already :
        (a : ℕ)
        → s.index fn ≡ some a
        → s.index anchor ≡ some a
        → pin_one weight fn anchor s ≡ s
        → PinCase fn anchor s
    joined :
        (a b : ℕ)
        → s.index fn ≡ some a
        → s.index anchor ≡ some b
        → a ≢ b
        → pin_one weight fn anchor s ≡ pin_clusters weight s a b
        → PinCase fn anchor s

  pin_case : (fn anchor : Name) (s : Pinning weight) → PinCase fn anchor s
  unfolding pin_one warned
  pin_case fn anchor s = elim (Option-cases (s.index fn)) [
    | inl e ↦ missing (inl e) (rw (e, pin_one) refl)
    | inr (a, e) ↦ elim (Option-cases (s.index anchor)) [
      | inl e' ↦ missing (inr e') (rw (e, e', pin_one) refl)
      | inr (b, e') ↦ elim (Bool-cases (a == b)) [
        | inl q ↦
            let eq : a ≡ b = (==_iff a b).0 q in
            already a e (e' ∙ ap (λ x. some x) (sym eq)) (rw (e, e', q, pin_one) refl)
        | inr q ↦
            joined a b e e' (λ eq. absurd (cc (q, (==_iff a b).1 eq))) (rw (e, e', q, pin_one) refl)
      ]
    ]
  ]

  pin_clusters-occurrences :
      (f : Name) (s : Pinning weight) (a b : ℕ)
      → a < length s.clusters
      → b < length s.clusters
      → a ≢ b
      → occurrences weight f (pin_clusters weight s a b).clusters ≡ occurrences weight f s.clusters
  unfolding occurrences pin_clusters absorb emptied count_of
  pin_clusters-occurrences f s a b la lb ne =
      let d = no_cluster weight in
      let g = λ (c : Cluster W). count_of f c.functions in
      let v = absorb weight (get_or s.clusters b d) (get_or s.clusters a d) in
      let once = set s.clusters b v in
      omega (
        arith,
        total-set g s.clusters b v d lb,
        total-set g once a (emptied weight (get_or s.clusters a d)) d
            (omega (arith, la, length-set s.clusters b v)),
        ap g (get_or-set_other s.clusters b a v d (λ e. ne (sym e))),
        count_of-append f (get_or s.clusters b d).functions (get_or s.clusters a d).functions,
      )

  pub pin_one-joins :
      (fn anchor : Name) (s : Pinning weight) (a b : ℕ)
      → s.index fn ≡ some a
      → s.index anchor ≡ some b
      → a ≢ b
      → pin_one weight fn anchor s ≡ pin_clusters weight s a b
  unfolding pin_one
  pin_one-joins fn anchor s a b e e' ne = elim (Bool-cases (a == b)) [
    | inl q ↦ absurd (ne ((==_iff a b).0 q))
    | inr q ↦ rw (e, e', q, pin_one) refl
  ]

  pub absorb-reloadability :
      (dst src : Cluster W) → (absorb weight dst src).reloadability ≡ dst.reloadability
  unfolding absorb
  absorb-reloadability dst src = refl

  -- What a later state keeps of an earlier one.
  record Keeps (s s' : Pinning weight) : Type 0 where
    indexed : IsIndexed weight s → IsIndexed weight s'
    together :
        (f g : Name)
        → IsIndexed weight s
        → IsTogether weight f g s.clusters
        → IsTogether weight f g s'.clusters
    same_count :
        (f : Name)
        → IsIndexed weight s
        → occurrences weight f s'.clusters ≡ occurrences weight f s.clusters
    finds : (f : Name) → IsIndexed weight s → s.index f ≢ none → s'.index f ≢ none

  warned-Keeps : (s : Pinning weight) (fn anchor : Name) → Keeps s (warned s fn anchor)
  unfolding warned
  warned-Keeps s fn anchor = record {
    indexed = λ ok. record { bound = λ f i h. ok.bound f i h; holds = λ f i h. ok.holds f i h };
    together = λ f g ok t. t;
    same_count = λ f ok. refl;
    finds = λ f ok h. h;
  }

  pin_one-Keeps : (fn anchor : Name) (s : Pinning weight) → Keeps s (pin_one weight fn anchor s)
  pin_one-Keeps fn anchor s = elim (pin_case fn anchor s) [
    | missing _ e ↦ subst (Keeps s) (sym e) (warned-Keeps s fn anchor)
    | already a _ _ e ↦ subst (Keeps s) (sym e) (record {
      indexed = λ ok. ok;
      together = λ f g ok t. t;
      same_count = λ f ok. refl;
      finds = λ f ok h. h;
    })
    | joined a b ea eb ne e ↦ subst (Keeps s) (sym e) (record {
      indexed =
          λ ok. pin_clusters-IsIndexed weight s a b (ok.bound fn a ea) (ok.bound anchor b eb) ne ok;
      together = λ f g ok t.
          pin_clusters-IsTogether weight s a b (ok.bound fn a ea) (ok.bound anchor b eb) ne t;
      same_count =
          λ f ok. pin_clusters-occurrences f s a b (ok.bound fn a ea) (ok.bound anchor b eb) ne;
      finds = λ f ok h.
          pin_clusters-finds weight s a b (ok.bound fn a ea) (ok.bound anchor b eb) ne f h;
    })
  ]

  -- A pin of two functions that are found brings them together.
  pin_one-IsTogether :
      (fn anchor : Name) (s : Pinning weight)
      → IsIndexed weight s
      → s.index fn ≢ none
      → s.index anchor ≢ none
      → IsTogether weight fn anchor (pin_one weight fn anchor s).clusters
  pin_one-IsTogether fn anchor s ok ff fa = elim (pin_case fn anchor s) [
    | missing (inl e) _ ↦ absurd (ff e)
    | missing (inr e) _ ↦ absurd (fa e)
    | already a ea eb e ↦
        subst (λ (t : Pinning weight). IsTogether weight fn anchor t.clusters) (sym e)
          (record {
            place = a;
            bound = ok.bound fn a ea;
            first = ok.holds fn a ea;
            second = ok.holds anchor a eb;
          })
    | joined a b ea eb ne e ↦
        let la = ok.bound fn a ea in
        let lb = ok.bound anchor b eb in
        subst (λ (t : Pinning weight). IsTogether weight fn anchor t.clusters) (sym e)
          (record {
            place = b;
            bound =
                subst (λ k. k < length (pin_clusters weight s a b).clusters)
                  (moved_other weight a b b (λ q. ne (sym q)))
                  (moved-below weight s a b la lb ne b lb);
            first =
                subst (λ k. Memᴰ fn (at weight (pin_clusters weight s a b).clusters k).functions)
                  (moved_self weight a b)
                  (pin_clusters-keeps weight s a b la lb ne a fn (ok.holds fn a ea));
            second =
                subst
                  (λ k. Memᴰ anchor (at weight (pin_clusters weight s a b).clusters k).functions)
                  (moved_other weight a b b (λ q. ne (sym q)))
                  (pin_clusters-keeps weight s a b la lb ne b anchor (ok.holds anchor b eb));
          })
  ]

  pin_each-Keeps :
      (pins : List (Name × Name)) (s : Pinning weight) → Keeps s (pin_each weight pins s)
  unfolding pin_each
  pin_each-Keeps [] s = record {
    indexed = λ ok. ok;
    together = λ f g ok t. t;
    same_count = λ f ok. refl;
    finds = λ f ok h. h;
  }
  pin_each-Keeps ((fn, anchor) ∷ pins) s =
      let first = pin_one-Keeps fn anchor s in
      let rest = pin_each-Keeps pins (pin_one weight fn anchor s) in
      record {
        indexed = λ ok. rest.indexed (first.indexed ok);
        together = λ f g ok t. rest.together f g (first.indexed ok) (first.together f g ok t);
        same_count = λ f ok. rest.same_count f (first.indexed ok) ∙ first.same_count f ok;
        finds = λ f ok h. rest.finds f (first.indexed ok) (first.finds f ok h);
      }

  pub pin_each-IsTogether :
      (fn anchor : Name) (pins : List (Name × Name)) (s : Pinning weight)
      → Memᴰ (fn, anchor) pins
      → IsIndexed weight s
      → s.index fn ≢ none
      → s.index anchor ≢ none
      → IsTogether weight fn anchor (pin_each weight pins s).clusters
  unfolding pin_each
  pin_each-IsTogether fn anchor [] s m ok ff fa = absurd (Memᴰ.not-nil m)
  pin_each-IsTogether fn anchor ((f, a) ∷ pins) s m ok ff fa =
      let step = pin_one-Keeps f a s in
      elim (Memᴰ.cases_cons m) [
        | inl e ↦
            let here = pin_one-IsTogether fn anchor s ok ff fa in
            let there : IsTogether weight fn anchor (pin_one weight f a s).clusters =
              subst
                (λ (p : Name × Name).
                  IsTogether weight fn anchor (pin_one weight p.0 p.1 s).clusters)
                e here in
            let rest = pin_each-Keeps pins (pin_one weight f a s) in
            rest.together fn anchor (step.indexed ok) there
        | inr t ↦
            pin_each-IsTogether fn anchor pins (pin_one weight f a s) t (step.indexed ok)
              (step.finds fn ok ff) (step.finds anchor ok fa)
      ]

  pub pin_each-occurrences :
      (pins : List (Name × Name)) (s : Pinning weight) (f : Name)
      → IsIndexed weight s
      → occurrences weight f (pin_each weight pins s).clusters ≡ occurrences weight f s.clusters
  pin_each-occurrences pins s f ok = let k = pin_each-Keeps pins s in k.same_count f ok
