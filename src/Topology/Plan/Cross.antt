-- ===== src/Topology/Plan/Cross.antt =====
-- compiler/topology.py, `generate_build_plan`: what the plan says of each call between clusters.
use nathra.Common.{
  ℕ, suc, ◌≤◌, ◌<◌, ◌≡◌, refl, sym, subst, ◌∙◌, inl, inr, Bool, true, some, List, [], ◌∷◌, arith,
  if◌then◌else◌, length,
}
use mathlib.Core.List.{Memᴰ}
use mathlib.Core.List.Memᴰ
use nathra.StrMap.Invariant.{Option-cases}
use nathra.Wire.Result.{ok}
use nathra.Topology.Names.{Name, member, get_or}
use nathra.Topology.Types.{Weight, ModuleData, CallEdge, Cluster}
use nathra.Topology.Clusters.{Index}
use nathra.Topology.Overrides.{func_to_ci}
use nathra.Topology.Overrides.Laws.{func_to_ci-IsIndexed}
use nathra.Topology.Plan.{BuildPlan, dev, shared_libs_from}
use nathra.Topology.Analyze.{TopologyReport}
use nathra.Topology.Plan.Calls.{
  Linking, no_lib, member_pair, link_call, link_edge, link_edges, linked_plan, generate_build_plan,
}
use nathra.Topology.Plan.Tables.{entries, called_from}
use nathra.Topology.Plan.Libs.{calls_out, called_in}
use nathra.Topology.Plan.Linked.{
  Extends, IsSeen, link_call-Extends, link_call-IsSeen, link_call-has_out, link_call-has_inc,
  link_call-called,
}

Extends-refl : (l : Linking) → Extends l l
Extends-refl l = record { size = refl; out = λ i a b h. h; inc = λ i f h. h; table = λ f c h. h }

Extends-trans : (a b c : Linking) → Extends a b → Extends b c → Extends a c
Extends-trans a b c p q = record {
  size = q.size ∙ p.size;
  out = λ i x y h. q.out i x y (p.out i x y h);
  inc = λ i f h. q.inc i f (p.inc i f h);
  table = λ f k h. q.table f k (p.table f k h);
}

-- A call that is in the lists of both libraries and in the dispatch table.
pub record IsLinked (l : Linking) (i j : ℕ) (caller callee : Name) : Type 0 where
  pub out : calls_out l i caller callee ≡ true
  pub inc : called_in l j callee ≡ true
  pub table : called_from callee i l.table ≡ true

IsLinked-Extends :
    (l l' : Linking) (i j : ℕ) (a f : Name)
    → Extends l l'
    → IsLinked l i j a f
    → IsLinked l' i j a f
IsLinked-Extends l l' i j a f x h = record {
  out = x.out i a f h.out;
  inc = x.inc j f h.inc;
  table = x.table f i h.table;
}

module _ {W : Type 0} (weight : Weight W) where
  shared_libs_from-length :
      (join : Name → Name → Name) (dir : Name) (i : ℕ) (cs : List (Cluster W))
      → length (shared_libs_from weight join dir i cs) ≡ length cs
  unfolding shared_libs_from
  shared_libs_from-length join dir i [] = refl
  shared_libs_from-length join dir i (c ∷ cs) =
      omega (arith, shared_libs_from-length join dir (suc i) cs)

  module _ (index : Index) where
    -- Every position of the index is one of a library.
    IsBounded : Linking → Type 0
    IsBounded l = (f : Name) (i : ℕ) → index f ≡ some i → i < length l.libs

    IsBounded-Extends : (l l' : Linking) → Extends l l' → IsBounded l → IsBounded l'
    unfolding IsBounded
    IsBounded-Extends l l' x b f i e = omega (arith, x.size, b f i e)

    record Step (l l' : Linking) : Type 0 where
      more : Extends l l'
      seen : IsSeen l'

    Step-trans : (a b c : Linking) → Step a b → Step b c → Step a c
    Step-trans a b c p q = record { more = Extends-trans a b c p.more q.more; seen = q.seen }

    link_edge-found :
        (e : CallEdge W) (l : Linking) (i j : ℕ)
        → index e.caller ≡ some i
        → index e.callee ≡ some j
        → link_edge weight index e l ≡ link_call i j e.caller e.callee l
    unfolding link_edge
    link_edge-found e l i j hi hj = rw (hi, hj, link_edge) refl

    link_edge-Step :
        (e : CallEdge W) (l : Linking)
        → IsBounded l
        → IsSeen l
        → Step l (link_edge weight index e l)
    unfolding link_edge IsBounded
    link_edge-Step e l b s =
        let same : Step l l = record { more = Extends-refl l; seen = s } in
        elim (Option-cases (index e.caller)) [
          | inl h ↦ rw (h, link_edge) same
          | inr (i, hi) ↦ elim (Option-cases (index e.callee)) [
            | inl h ↦ rw (hi, h, link_edge) same
            | inr (j, hj) ↦
                subst (λ l'. Step l l') (sym (link_edge-found e l i j hi hj))
                  (record {
                    more =
                        link_call-Extends i j e.caller e.callee l (b e.caller i hi)
                          (b e.callee j hj);
                    seen =
                        link_call-IsSeen i j e.caller e.callee l (b e.caller i hi) (b e.callee j hj)
                          s;
                  })
          ]
        ]

    link_edge-IsLinked :
        (e : CallEdge W) (l : Linking) (i j : ℕ)
        → IsBounded l
        → IsSeen l
        → index e.caller ≡ some i
        → index e.callee ≡ some j
        → IsLinked (link_edge weight index e l) i j e.caller e.callee
    unfolding IsBounded
    link_edge-IsLinked e l i j b s hi hj =
        let li = b e.caller i hi in
        let lj = b e.callee j hj in
        subst (λ l'. IsLinked l' i j e.caller e.callee) (sym (link_edge-found e l i j hi hj))
          (record {
            out = link_call-has_out i j e.caller e.callee l li lj;
            inc = link_call-has_inc i j e.caller e.callee l li lj;
            table = link_call-called i j e.caller e.callee l li lj s;
          })

    link_edges-Step :
        (es : List (CallEdge W)) (l : Linking)
        → IsBounded l
        → IsSeen l
        → Step l (link_edges weight index es l)
    unfolding link_edges
    link_edges-Step [] l b s = record { more = Extends-refl l; seen = s }
    link_edges-Step (e ∷ es) l b s =
        let first = link_edge-Step e l b s in
        Step-trans l _ _ first
          (link_edges-Step es _ (IsBounded-Extends l _ first.more b) first.seen)

    link_edges-IsLinked :
        (es : List (CallEdge W)) (l : Linking) (e : CallEdge W) (i j : ℕ)
        → IsBounded l
        → IsSeen l
        → Memᴰ e es
        → index e.caller ≡ some i
        → index e.callee ≡ some j
        → IsLinked (link_edges weight index es l) i j e.caller e.callee
    unfolding link_edges
    link_edges-IsLinked [] l e i j b s m hi hj = absurd (Memᴰ.not-nil m)
    link_edges-IsLinked (x ∷ xs) l e i j b s m hi hj =
        let first = link_edge-Step x l b s in
        let b' = IsBounded-Extends l _ first.more b in
        elim (Memᴰ.cases_cons m) [
          | inl q ↦
              let mine =
                subst
                  (λ (y : CallEdge W). IsLinked (link_edge weight index y l) i j e.caller e.callee)
                  q (link_edge-IsLinked e l i j b s hi hj) in
              IsLinked-Extends _ _ i j e.caller e.callee
                (link_edges-Step xs (link_edge weight index x l) b' first.seen).more mine
          | inr t ↦ link_edges-IsLinked xs (link_edge weight index x l) e i j b' first.seen t hi hj
        ]

  -- The plan before any call is linked.
  unlinked : (Name → Name → Name) → Name → List (Cluster W) → Linking
  unlinked join dir cs = record {
    libs = shared_libs_from weight join dir 0 cs;
    table = [];
    seen = [];
  }

  unlinked-IsSeen :
      (join : Name → Name → Name) (dir : Name) (cs : List (Cluster W))
      → IsSeen (unlinked join dir cs)
  unfolding unlinked member entries
  unlinked-IsSeen join dir cs = record { once = λ f. refl }

  unlinked-IsBounded :
      (join : Name → Name → Name) (dir : Name) (cs : List (Cluster W))
      → IsBounded (func_to_ci weight cs) (unlinked join dir cs)
  unfolding unlinked IsBounded
  unlinked-IsBounded join dir cs f i e =
      let b = (func_to_ci-IsIndexed weight cs).bound f i e in
      omega (arith, shared_libs_from-length join dir 0 cs, b)

  -- For a call of the report between two clusters, in the plan of a dev build: the library of the
  -- caller's cluster lists the call as outgoing, that of the callee's cluster lists the callee as
  -- incoming, and the dispatch table has an entry of the callee that lists the caller's cluster.
  pub generate_build_plan-calls :
      (join : Name → Name → Name) (ms : List ModuleData) (report : TopologyReport W)
      (dir host : Name) (e : CallEdge W) (i j : ℕ)
      → Memᴰ e report.cross_cluster_edges
      → func_to_ci weight report.clusters e.caller ≡ some i
      → func_to_ci weight report.clusters e.callee ≡ some j
      → (plan : BuildPlan) × ((generate_build_plan weight join ms report dir host dev ≡ ok plan)
          × ((member_pair e.caller e.callee (get_or plan.shared_libs i no_lib).outgoing_calls
                ≡ true)
              × ((member e.callee (get_or plan.shared_libs j no_lib).incoming_calls ≡ true)
                  × (called_from e.callee i plan.dispatch_table ≡ true))))
  unfolding generate_build_plan linked_plan unlinked
  generate_build_plan-calls join ms report dir host e i j m hi hj =
      let l =
        link_edges-IsLinked (func_to_ci weight report.clusters) report.cross_cluster_edges
          (unlinked join dir report.clusters) e i j (unlinked-IsBounded join dir report.clusters)
          (unlinked-IsSeen join dir report.clusters) m hi hj in
      (linked_plan weight join report dir host dev, (refl, (l.out, (l.inc, l.table))))

  -- The dispatch table of a plan for a dev build has one entry of a name at most.
  pub generate_build_plan-once :
      (join : Name → Name → Name) (ms : List ModuleData) (report : TopologyReport W)
      (dir host f : Name)
      → (plan : BuildPlan) × ((generate_build_plan weight join ms report dir host dev ≡ ok plan)
          × (entries f plan.dispatch_table ≤ 1))
  unfolding generate_build_plan linked_plan unlinked
  generate_build_plan-once join ms report dir host f =
      let s =
        link_edges-Step (func_to_ci weight report.clusters) report.cross_cluster_edges
          (unlinked join dir report.clusters) (unlinked-IsBounded join dir report.clusters)
          (unlinked-IsSeen join dir report.clusters) in
      (linked_plan weight join report dir host dev, (refl, at_most _ _ (s.seen.once f)))
    where
      at_most : (n : ℕ) (b : Bool) → n ≡ (if b then 1 else 0) → n ≤ 1
      at_most n b h = ground (arith, h)
