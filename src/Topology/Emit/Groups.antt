-- ===== src/Topology/Emit/Groups.antt =====
-- compiler/topology.py, `generate_dispatch_header`: the groups of the dispatch entries by their source
-- cluster.
use nathra.Common.{
  ℕ, suc, ◌≤◌, ◌<◌, ◌≡◌, refl, sym, ap, subst, ◌∙◌, inl, inr, Bool-cases, List, [], ◌∷◌, ◌++◌, ◌==◌,
  ==_iff, ltb, arith, append-nil, append_assoc, if◌then◌else◌, ◌≢◌,
}
use native.Mathlib.Decide.{ℕ_discrete}
use mathlib.Core.List.{Memᴰ}
use mathlib.Core.List.Memᴰ
use nathra.Topology.Plan.{DispatchEntry}
use nathra.Topology.Emit.{add_to_cluster, by_cluster_from, by_cluster}

-- The entries of a cluster, in the order of the table.
unfoldable pub entries_of : ℕ → List DispatchEntry → List DispatchEntry
entries_of c [] = []
entries_of c (e ∷ es) = if e.source_cluster == c then e ∷ entries_of c es else entries_of c es

-- The clusters of the groups grow, and none is below k.
data Ascending : ℕ → List (ℕ × List DispatchEntry) → Type 0 where
  done : (k : ℕ) → Ascending k []
  next :
      (k c : ℕ) (es : List DispatchEntry) (groups : List (ℕ × List DispatchEntry))
      → k ≤ c
      → Ascending (suc c) groups
      → Ascending k ((c, es) ∷ groups)

unfoldable pub group_of : ℕ → List (ℕ × List DispatchEntry) → List DispatchEntry
group_of c [] = []
group_of c ((d, es) ∷ groups) = let rest = group_of c groups in if d == c then es else rest

group_of-below :
    (k c : ℕ) (groups : List (ℕ × List DispatchEntry))
    → Ascending k groups
    → c < k
    → group_of c groups ≡ []
unfolding group_of
group_of-below k c groups (done _) lt = refl
group_of-below k c groups (next _ d es gs le a) lt =
    let rest = group_of-below (suc d) c gs a (omega arith) in grind (arith, rest)

add_to_cluster-Ascending :
    (e : DispatchEntry) (k : ℕ) (groups : List (ℕ × List DispatchEntry))
    → Ascending k groups
    → k ≤ e.source_cluster
    → Ascending k (add_to_cluster e groups)
unfolding add_to_cluster
add_to_cluster-Ascending e k groups (done _) le = next k _ _ [] le (done _)
add_to_cluster-Ascending e k groups (next _ d es gs ld a) le =
    elim (Bool-cases (e.source_cluster == d)) [
      | inl q ↦ rw q (next k d _ gs ld a)
      | inr q ↦ elim (Bool-cases (ltb e.source_cluster d)) [
        | inl l ↦ rw (q, l) (next k _ _ _ le (next _ d es gs (ground (arith, l)) a))
        | inr l ↦
            rw (q, l)
              (next k d es _ ld (add_to_cluster-Ascending e (suc d) gs a (ground (arith, q, l))))
      ]
    ]

-- The entries that an entry adds to a cluster.
own : DispatchEntry → ℕ → List DispatchEntry
own e c = if e.source_cluster == c then e ∷ [] else []

own-here : (e : DispatchEntry) (c : ℕ) → e.source_cluster ≡ c → own e c ≡ e ∷ []
unfolding own
own-here e c h = ground (arith, h)

own-elsewhere : (e : DispatchEntry) (c : ℕ) → e.source_cluster ≢ c → own e c ≡ []
unfolding own
own-elsewhere e c h = ground (arith, h)

group_of-here :
    (c : ℕ) (es : List DispatchEntry) (groups : List (ℕ × List DispatchEntry))
    → group_of c ((c, es) ∷ groups) ≡ es
unfolding group_of
group_of-here c es groups = ground arith

group_of-later :
    (c d : ℕ) (es : List DispatchEntry) (groups : List (ℕ × List DispatchEntry))
    → d ≢ c
    → group_of c ((d, es) ∷ groups) ≡ group_of c groups
unfolding group_of
group_of-later c d es groups ne = ground (arith, ne)

group_of-own :
    (e : DispatchEntry) (c : ℕ)
    → group_of c ((e.source_cluster, e ∷ []) ∷ []) ≡ group_of c [] ++ own e c
unfolding group_of own
group_of-own e c = elim (Bool-cases (e.source_cluster == c)) [
  | inl h ↦ rw h refl
  | inr h ↦ rw h refl
]

-- A group in front of those of larger clusters.
first_group :
    (e : DispatchEntry) (c d : ℕ) (es : List DispatchEntry) (groups : List (ℕ × List DispatchEntry))
    → e.source_cluster < d
    → Ascending (suc d) groups
    → group_of c ((e.source_cluster, e ∷ []) ∷ (d, es) ∷ groups)
      ≡ group_of c ((d, es) ∷ groups) ++ own e c
first_group e c d es groups lt a = elim (ℕ_discrete e.source_cluster c) [
  | yes h ↦
      let none_there =
        group_of-below d e.source_cluster ((d, es) ∷ groups) (next d d es groups (omega arith) a)
          lt in
      subst
        (λ b.
          group_of b ((e.source_cluster, e ∷ []) ∷ (d, es) ∷ groups)
          ≡ group_of b ((d, es) ∷ groups) ++ own e b)
        h
        (rw
          (
            group_of-here e.source_cluster (e ∷ []) ((d, es) ∷ groups),
            none_there,
            own-here e e.source_cluster refl,
          )
          refl)
  | no ne ↦
      group_of-later c e.source_cluster (e ∷ []) ((d, es) ∷ groups) ne
      ∙ sym (append-nil (group_of c ((d, es) ∷ groups)))
      ∙ ap (λ l. group_of c ((d, es) ∷ groups) ++ l) (sym (own-elsewhere e c ne))
]

-- The group of a cluster gets the entries of the cluster, in order.
group_of-add :
    (e : DispatchEntry) (c k : ℕ) (groups : List (ℕ × List DispatchEntry))
    → Ascending k groups
    → group_of c (add_to_cluster e groups) ≡ group_of c groups ++ own e c
unfolding add_to_cluster
group_of-add e c k groups (done _) = group_of-own e c
group_of-add e c k groups (next _ d es gs ld a) = elim (Bool-cases (e.source_cluster == d)) [
  | inl q ↦
      let same = (==_iff e.source_cluster d).0 q in
      rw q (elim (ℕ_discrete d c) [
        | yes h ↦
            cc (h, group_of-here d (es ++ e ∷ []) gs, group_of-here d es gs, own-here e d same)
        | no h ↦ cc (
          group_of-later c d (es ++ e ∷ []) gs h,
          group_of-later c d es gs h,
          own-elsewhere e c (λ x. h (sym same ∙ x)),
          append-nil (group_of c gs),
        )
      ])
  | inr q ↦
      let rest = group_of-add e c (suc d) gs a in
      elim (Bool-cases (ltb e.source_cluster d)) [
        | inl l ↦ rw (q, l) (first_group e c d es gs (ground (arith, l)) a)
        | inr l ↦
            rw (q, l)
              (elim (ℕ_discrete d c) [
                | yes h ↦ cc (
                  h,
                  group_of-here d es (add_to_cluster e gs),
                  group_of-here d es gs,
                  own-elsewhere e d (λ x. absurd (cc (q, (==_iff e.source_cluster d).1 x))),
                  append-nil es,
                )
                | no h ↦ cc (
                  group_of-later c d es (add_to_cluster e gs) h,
                  group_of-later c d es gs h,
                  rest,
                )
              ])
      ]
]

entries_of-own :
    (e : DispatchEntry) (es : List DispatchEntry) (c : ℕ)
    → entries_of c (e ∷ es) ≡ own e c ++ entries_of c es
unfolding entries_of own
entries_of-own e es c = elim (Bool-cases (e.source_cluster == c)) [
  | inl h ↦ rw h refl
  | inr h ↦ rw h refl
]

group_of-by_cluster :
    (c : ℕ) (table : List DispatchEntry) (groups : List (ℕ × List DispatchEntry))
    → Ascending 0 groups
    → group_of c (by_cluster_from table groups) ≡ group_of c groups ++ entries_of c table
unfolding by_cluster_from entries_of
group_of-by_cluster c [] groups a = sym (append-nil (group_of c groups))
group_of-by_cluster c (e ∷ es) groups a =
    group_of-by_cluster c es (add_to_cluster e groups)
      (add_to_cluster-Ascending e 0 groups a (omega arith))
    ∙ ap (λ l. l ++ entries_of c es) (group_of-add e c 0 groups a)
    ∙ append_assoc (group_of c groups) (own e c) (entries_of c es)
    ∙ ap (λ l. group_of c groups ++ l) (sym (entries_of-own e es c))

pub own_group :
    (c : ℕ) (table : List DispatchEntry) → group_of c (by_cluster table) ≡ entries_of c table
unfolding by_cluster group_of
own_group c table = group_of-by_cluster c table [] (done 0)

pub group_of-Memᴰ :
    (c : ℕ) (e : DispatchEntry) (groups : List (ℕ × List DispatchEntry))
    → Memᴰ e (group_of c groups)
    → Memᴰ (c, group_of c groups) groups
unfolding group_of
group_of-Memᴰ c e [] m = absurd (Memᴰ.not-nil m)
group_of-Memᴰ c e ((d, es) ∷ groups) m = elim (Bool-cases (d == c)) [
  | inl h ↦ rw h (Memᴰ.head (cc ((==_iff d c).0 h)))
  | inr h ↦ rw h (Memᴰ.tail (group_of-Memᴰ c e groups (rw h at m)))
]

pub entries_of-Memᴰ :
    (e : DispatchEntry) (table : List DispatchEntry)
    → Memᴰ e table
    → Memᴰ e (entries_of e.source_cluster table)
unfolding entries_of
entries_of-Memᴰ e [] m = absurd (Memᴰ.not-nil m)
entries_of-Memᴰ e (x ∷ xs) m = elim (Memᴰ.cases_cons m) [
  | inl q ↦
      subst (λ y. Memᴰ e (entries_of e.source_cluster (y ∷ xs))) q
        (rw ((==_iff e.source_cluster e.source_cluster).1 refl, entries_of) (Memᴰ.head refl))
  | inr t ↦ elim (Bool-cases (x.source_cluster == e.source_cluster)) [
    | inl h ↦ rw h (Memᴰ.tail (entries_of-Memᴰ e xs t))
    | inr h ↦ rw h (entries_of-Memᴰ e xs t)
  ]
]
