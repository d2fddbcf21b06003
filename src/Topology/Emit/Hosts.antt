-- ===== src/Topology/Emit/Hosts.antt =====
-- compiler/topology.py, `generate_reload_init`: which libraries are not reloadable.
use nathra.Common.{
  ℕ, zero, suc, ◌+◌, ◌≤◌, ◌<◌, ◌≡◌, refl, ap, ◌∙◌, inl, inr, Bool-cases, Option, none, some, List,
  [], ◌∷◌, arith, ◌==◌, ==_iff, if◌then◌else◌, length,
}
use nathra.StrMap.Invariant.{Option-cases}
use nathra.Wire.Result.{ok}
use nathra.Topology.Names.{Name, get_or, set}
use nathra.Topology.Types.{Weight, ModuleData, CallEdge, Cluster}
use nathra.Topology.Clusters.{Index}
use nathra.Topology.Overrides.{func_to_ci}
use nathra.Topology.Analyze.{TopologyReport}
use nathra.Topology.Plan.{
  SharedLibTarget, BuildPlan, dev, shared_lib, shared_libs_from, pick_pinned,
}
use nathra.Topology.Plan.Calls.{
  Linking, no_lib, add_outgoing, add_incoming, change_lib, link_call, link_edge, link_edges,
  linked_plan, generate_build_plan,
}
use nathra.Topology.Plan.Linked.{libs_after, link_call-libs}
use nathra.Topology.Emit.{is_host, reloadable}

-- How many libraries the reload manager is told not to reload.
unfoldable pub host_count : Option ℕ → List SharedLibTarget → ℕ
host_count pinned [] = 0
host_count pinned (lib ∷ libs) = (if is_host pinned lib then 1 else 0) + host_count pinned libs

is_host-id :
    (pinned : Option ℕ) (x y : SharedLibTarget)
    → x.cluster_id ≡ y.cluster_id
    → is_host pinned x ≡ is_host pinned y
unfolding is_host
is_host-id none x y e = refl
is_host-id (some p) x y e = ap (λ c. c == p) e

host_count-set :
    (pinned : Option ℕ) (libs : List SharedLibTarget) (i : ℕ) (v : SharedLibTarget)
    → v.cluster_id ≡ (get_or libs i no_lib).cluster_id
    → host_count pinned (set libs i v) ≡ host_count pinned libs
unfolding host_count get_or set
host_count-set pinned [] i v e = refl
host_count-set pinned (x ∷ xs) zero v e =
    ap {B = ℕ} (λ b. (if b then 1 else 0) + host_count pinned xs) (is_host-id pinned v x e)
host_count-set pinned (x ∷ xs) (suc i) v e =
    ap (λ n. (if is_host pinned x then 1 else 0) + n) (host_count-set pinned xs i v e)

add_outgoing-id :
    (a f : Name) (lib : SharedLibTarget) → (add_outgoing a f lib).cluster_id ≡ lib.cluster_id
unfolding add_outgoing
add_outgoing-id a f lib = ground arith

add_incoming-id :
    (f : Name) (lib : SharedLibTarget) → (add_incoming f lib).cluster_id ≡ lib.cluster_id
unfolding add_incoming
add_incoming-id f lib = ground arith

link_call-host :
    (pinned : Option ℕ) (i j : ℕ) (a f : Name) (l : Linking)
    → host_count pinned (link_call i j a f l).libs ≡ host_count pinned l.libs
unfolding change_lib libs_after
link_call-host pinned i j a f l =
    ap (host_count pinned) (link_call-libs i j a f l)
    ∙ host_count-set pinned _ j _ (add_incoming-id f _)
    ∙ host_count-set pinned l.libs i _ (add_outgoing-id a f _)

-- The libraries that the reload manager is told to reload.
unfoldable pub reloadable_count : Option ℕ → List SharedLibTarget → ℕ
reloadable_count pinned [] = 0
reloadable_count pinned (lib ∷ libs) = reloadable pinned lib + reloadable_count pinned libs

reloadable_count-host :
    (pinned : Option ℕ) (libs : List SharedLibTarget)
    → reloadable_count pinned libs + host_count pinned libs ≡ length libs
unfolding reloadable_count host_count reloadable
reloadable_count-host pinned [] = refl
reloadable_count-host pinned (lib ∷ libs) = ground (arith, reloadable_count-host pinned libs)

module _ {W : Type 0} (weight : Weight W) where
  link_edge-host :
      (pinned : Option ℕ) (index : Index) (e : CallEdge W) (l : Linking)
      → host_count pinned (link_edge weight index e l).libs ≡ host_count pinned l.libs
  unfolding link_edge
  link_edge-host pinned index e l = elim (Option-cases (index e.caller)) [
    | inl h ↦ rw (h, link_edge) refl
    | inr (i, hi) ↦ elim (Option-cases (index e.callee)) [
      | inl h ↦ rw (hi, h, link_edge) refl
      | inr (j, hj) ↦ rw (hi, hj, link_edge) (link_call-host pinned i j e.caller e.callee l)
    ]
  ]

  link_edges-host :
      (pinned : Option ℕ) (index : Index) (es : List (CallEdge W)) (l : Linking)
      → host_count pinned (link_edges weight index es l).libs ≡ host_count pinned l.libs
  unfolding link_edges
  link_edges-host pinned index [] l = refl
  link_edges-host pinned index (e ∷ es) l =
      link_edges-host pinned index es (link_edge weight index e l) ∙ link_edge-host pinned index e l

  module _ (join : Name → Name → Name) (dir : Name) where
    host_count-later :
        (p i : ℕ) (cs : List (Cluster W))
        → p < i
        → host_count (some p) (shared_libs_from weight join dir i cs) ≡ 0
    unfolding host_count shared_libs_from is_host shared_lib
    host_count-later p i [] lt = refl
    host_count-later p i (c ∷ cs) lt =
        ground (arith, host_count-later p (suc i) cs (omega (arith, lt)), lt)

    host_count-libs :
        (p i : ℕ) (cs : List (Cluster W))
        → host_count (some p) (shared_libs_from weight join dir i cs) ≤ 1
    unfolding host_count shared_libs_from is_host shared_lib
    host_count-libs p i [] = omega arith
    host_count-libs p i (c ∷ cs) = elim (Bool-cases (i == p)) [
      | inl e ↦
          rw e (omega (arith, host_count-later p (suc i) cs (omega (arith, (==_iff i p).0 e))))
      | inr e ↦ rw e (omega (arith, host_count-libs p (suc i) cs))
    ]

    host_count-none :
        (i : ℕ) (cs : List (Cluster W))
        → host_count none (shared_libs_from weight join dir i cs) ≡ 0
    unfolding host_count shared_libs_from is_host
    host_count-none i [] = refl
    host_count-none i (c ∷ cs) = omega (arith, host_count-none (suc i) cs)

    host_count-one :
        (pinned : Option ℕ) (cs : List (Cluster W))
        → host_count pinned (shared_libs_from weight join dir 0 cs) ≤ 1
    host_count-one none cs = omega (arith, host_count-none 0 cs)
    host_count-one (some p) cs = host_count-libs p 0 cs

    -- In a plan for a dev build the reload manager is told that all libraries but one at most are
    -- reloadable, whatever their categories.
    pub generate_build_plan-reloadable :
        (ms : List ModuleData) (report : TopologyReport W) (host : Name)
        → (plan : BuildPlan) × ((generate_build_plan weight join ms report dir host dev ≡ ok plan)
            × (length plan.shared_libs
                ≤ suc (reloadable_count plan.pinned_cluster plan.shared_libs)))
    unfolding generate_build_plan linked_plan
    generate_build_plan-reloadable ms report host =
        let plan = linked_plan weight join report dir host dev in
        let pinned = pick_pinned weight join report.clusters 0 report.clusters none in
        let libs = shared_libs_from weight join dir 0 report.clusters in
        let l : Linking = record { libs = libs; table = []; seen = [] } in
        (
          plan,
          (
            refl,
            omega (
              arith,
              reloadable_count-host plan.pinned_cluster plan.shared_libs,
              link_edges-host pinned (func_to_ci weight report.clusters) report.cross_cluster_edges
                  l,
              host_count-one pinned report.clusters,
            ),
          ),
        )
