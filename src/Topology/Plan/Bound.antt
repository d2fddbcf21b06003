-- ===== src/Topology/Plan/Bound.antt =====
-- compiler/topology.py, the ABI hashes of the libraries of a plan.
use nathra.Common.{
  ℕ, zero, suc, ◌^◌, ◌<◌, ◌≡◌, refl, sym, ap, subst, ◌∙◌, inl, inr, Bool-cases, List, [], ◌∷◌,
  arith, if◌then◌else◌,
}
use mathlib.Core.List.{Memᴰ}
use mathlib.Core.List.Memᴰ
use nathra.StrMap.Invariant.{Option-cases}
use nathra.Wire.Result.{Result, ok, bind-eq-ok, ok-injective}
use nathra.Topology.Names.{Name, get_or, set}
use nathra.Topology.Types.{Weight, ModuleData, CallEdge, Cluster}
use nathra.Topology.Clusters.{Index}
use nathra.Topology.Analyze.{TopologyReport}
use nathra.Topology.Plan.{
  BuildMode, dev, release, service, SharedLibTarget, BuildPlan, release_plan, shared_lib,
  shared_libs_from,
}
use nathra.Topology.Plan.Calls.{
  Linking, add_outgoing, add_incoming, no_lib, change_lib, link_call, link_edge, link_edges,
  is_abi_anchor, abi_hash_of, with_abi_hash, generate_abi_hashes, linked_plan, generate_build_plan,
}
use nathra.Topology.Plan.Abi.{abi_hash_of-bound}

-- No library has a hash yet.
Unhashed : List SharedLibTarget → Type 0
Unhashed libs = (lib : SharedLibTarget) → Memᴰ lib libs → lib.abi_hash ≡ 0

get_or-Unhashed :
    (libs : List SharedLibTarget) (i : ℕ) → Unhashed libs → (get_or libs i no_lib).abi_hash ≡ 0
unfolding get_or Unhashed
get_or-Unhashed [] i h = refl
get_or-Unhashed (x ∷ xs) zero h = h x (Memᴰ.head refl)
get_or-Unhashed (x ∷ xs) (suc i) h = get_or-Unhashed xs i (λ k m. h k (Memᴰ.tail m))

set-Unhashed :
    (libs : List SharedLibTarget) (i : ℕ) (v : SharedLibTarget)
    → v.abi_hash ≡ 0
    → Unhashed libs
    → Unhashed (set libs i v)
unfolding set Unhashed
set-Unhashed [] i v z h lib m = absurd (Memᴰ.not-nil m)
set-Unhashed (x ∷ xs) zero v z h lib m = elim (Memᴰ.cases_cons m) [
  | inl e ↦ ap (λ (k : SharedLibTarget). k.abi_hash) e ∙ z
  | inr t ↦ h lib (Memᴰ.tail t)
]
set-Unhashed (x ∷ xs) (suc i) v z h lib m = elim (Memᴰ.cases_cons m) [
  | inl e ↦ h lib (Memᴰ.head e)
  | inr t ↦ set-Unhashed xs i v z (λ k n. h k (Memᴰ.tail n)) lib t
]

add_outgoing-abi_hash :
    (a b : Name) (lib : SharedLibTarget) → (add_outgoing a b lib).abi_hash ≡ lib.abi_hash
unfolding add_outgoing
add_outgoing-abi_hash a b lib = ground arith

add_incoming-abi_hash :
    (f : Name) (lib : SharedLibTarget) → (add_incoming f lib).abi_hash ≡ lib.abi_hash
unfolding add_incoming
add_incoming-abi_hash f lib = ground arith

change_lib-Unhashed :
    (change : SharedLibTarget → SharedLibTarget) (i : ℕ) (libs : List SharedLibTarget)
    → ((lib : SharedLibTarget) → (change lib).abi_hash ≡ lib.abi_hash)
    → Unhashed libs
    → Unhashed (change_lib change i libs)
unfolding change_lib
change_lib-Unhashed change i libs keep h =
    set-Unhashed libs i _ (keep (get_or libs i no_lib) ∙ get_or-Unhashed libs i h) h

link_call-Unhashed :
    (i j : ℕ) (f g : Name) (l : Linking) → Unhashed l.libs → Unhashed (link_call i j f g l).libs
unfolding link_call
link_call-Unhashed i j f g l h =
    let both =
      change_lib-Unhashed (add_incoming g) j _ (add_incoming-abi_hash g)
        (change_lib-Unhashed (add_outgoing f g) i l.libs (add_outgoing-abi_hash f g) h) in
    grind (arith, both)

module _ {W : Type 0} (weight : Weight W) where
  link_edge-Unhashed :
      (index : Index) (e : CallEdge W) (l : Linking)
      → Unhashed l.libs
      → Unhashed (link_edge weight index e l).libs
  unfolding link_edge
  link_edge-Unhashed index e l h = elim (Option-cases (index e.caller)) [
    | inl q ↦ rw (q, link_edge) h
    | inr (i, q) ↦ elim (Option-cases (index e.callee)) [
      | inl r ↦ rw (q, r, link_edge) h
      | inr (j, r) ↦ rw (q, r, link_edge) (link_call-Unhashed i j e.caller e.callee l h)
    ]
  ]

  link_edges-Unhashed :
      (index : Index) (es : List (CallEdge W)) (l : Linking)
      → Unhashed l.libs
      → Unhashed (link_edges weight index es l).libs
  unfolding link_edges
  link_edges-Unhashed index [] l h = h
  link_edges-Unhashed index (e ∷ es) l h =
      link_edges-Unhashed index es (link_edge weight index e l) (link_edge-Unhashed index e l h)

-- What the hash of a library of a plan is to be: that of the exports of its modules for an anchor in
-- a plan for a service, and 0 otherwise.
unfoldable pub planned_hash : List ModuleData → BuildMode → SharedLibTarget → Result ℕ
planned_hash ms service lib = if is_abi_anchor lib.reloadability then abi_hash_of ms lib else ok 0
planned_hash ms _ lib = ok 0

with_abi_hash-planned :
    (ms : List ModuleData) (lib lib' : SharedLibTarget)
    → lib.abi_hash ≡ 0
    → with_abi_hash ms lib ≡ ok lib'
    → planned_hash ms service lib' ≡ ok lib'.abi_hash
unfolding with_abi_hash planned_hash abi_hash_of
with_abi_hash-planned ms lib lib' z e = elim (Bool-cases (is_abi_anchor lib.reloadability)) [
  | inl q ↦
      let (h, eh, e') = bind-eq-ok (abi_hash_of ms lib) _ (rw q at e) in
      subst (λ (k : SharedLibTarget). planned_hash ms service k ≡ ok k.abi_hash) (ok-injective e')
        (rw q eh)
  | inr q ↦
      subst (λ (k : SharedLibTarget). planned_hash ms service k ≡ ok k.abi_hash)
        (ok-injective (rw q at e)) (rw q (ap ok (sym z)))
]

generate_abi_hashes-planned :
    (ms : List ModuleData) (libs libs' : List SharedLibTarget)
    → Unhashed libs
    → generate_abi_hashes ms libs ≡ ok libs'
    → (lib : SharedLibTarget) → Memᴰ lib libs'
    → planned_hash ms service lib ≡ ok lib.abi_hash
unfolding generate_abi_hashes Unhashed
generate_abi_hashes-planned ms [] libs' h e lib m =
    absurd (Memᴰ.not-nil (subst (λ ls. Memᴰ lib ls) (sym (ok-injective e)) m))
generate_abi_hashes-planned ms (x ∷ xs) libs' h e lib m =
    let (l, el, e') = bind-eq-ok (with_abi_hash ms x) _ e in
    let (ls, els, e'') = bind-eq-ok (generate_abi_hashes ms xs) _ e' in
    elim (Memᴰ.cases_cons (subst (λ k. Memᴰ lib k) (sym (ok-injective e'')) m)) [
      | inl q ↦
          subst (λ (k : SharedLibTarget). planned_hash ms service k ≡ ok k.abi_hash) (sym q)
            (with_abi_hash-planned ms x l (h x (Memᴰ.head refl)) el)
      | inr t ↦ generate_abi_hashes-planned ms xs ls (λ k n. h k (Memᴰ.tail n)) els lib t
    ]

planned_hash-bound :
    (ms : List ModuleData) (mode : BuildMode) (lib : SharedLibTarget) (h : ℕ)
    → planned_hash ms mode lib ≡ ok h
    → h < 2 ^ 32
unfolding planned_hash
planned_hash-bound ms service lib h e = elim (Bool-cases (is_abi_anchor lib.reloadability)) [
  | inl q ↦ abi_hash_of-bound ms lib h (rw q at e)
  | inr q ↦ subst (λ k. k < 2 ^ 32) (ok-injective (rw q at e)) (omega arith)
]
planned_hash-bound ms dev lib h e = subst (λ k. k < 2 ^ 32) (ok-injective e) (omega arith)
planned_hash-bound ms release lib h e = subst (λ k. k < 2 ^ 32) (ok-injective e) (omega arith)

module _ {W : Type 0} (weight : Weight W) (join : Name → Name → Name) where
  shared_libs_from-Unhashed :
      (source_dir : Name) (i : ℕ) (cs : List (Cluster W))
      → Unhashed (shared_libs_from weight join source_dir i cs)
  unfolding shared_libs_from shared_lib Unhashed
  shared_libs_from-Unhashed source_dir i [] lib m = absurd (Memᴰ.not-nil m)
  shared_libs_from-Unhashed source_dir i (c ∷ cs) lib m = elim (Memᴰ.cases_cons m) [
    | inl e ↦ ap (λ (k : SharedLibTarget). k.abi_hash) e
    | inr t ↦ shared_libs_from-Unhashed source_dir (suc i) cs lib t
  ]

  linked_plan-Unhashed :
      (report : TopologyReport W) (source_dir host : Name) (mode : BuildMode)
      → Unhashed (linked_plan weight join report source_dir host mode).shared_libs
  unfolding linked_plan
  linked_plan-Unhashed report source_dir host mode =
      link_edges-Unhashed weight _ report.cross_cluster_edges _
        (shared_libs_from-Unhashed source_dir 0 report.clusters)

  generate_build_plan-planned :
      (ms : List ModuleData) (report : TopologyReport W) (source_dir host : Name) (mode : BuildMode)
      (plan : BuildPlan)
      → generate_build_plan weight join ms report source_dir host mode ≡ ok plan
      → (lib : SharedLibTarget) → Memᴰ lib plan.shared_libs
      → planned_hash ms mode lib ≡ ok lib.abi_hash
  unfolding generate_build_plan planned_hash Unhashed release_plan
  generate_build_plan-planned ms report source_dir host dev plan e lib m = ap ok (
      sym (
        linked_plan-Unhashed report source_dir host dev lib
          (subst (λ (p : BuildPlan). Memᴰ lib p.shared_libs) (sym (ok-injective e)) m)))
  generate_build_plan-planned ms report source_dir host release plan e lib m =
      elim (Memᴰ.cases_cons
        (subst (λ (p : BuildPlan). Memᴰ lib p.shared_libs) (sym (ok-injective e)) m)) [
          | inl q ↦ ap (λ (k : SharedLibTarget). ok k.abi_hash) (sym q)
          | inr t ↦ absurd (Memᴰ.not-nil t)
        ]
  generate_build_plan-planned ms report source_dir host service plan e lib m =
      let plan0 = linked_plan weight join report source_dir host service in
      let (libs, el, e') = bind-eq-ok (generate_abi_hashes ms plan0.shared_libs) _ e in
      generate_abi_hashes-planned ms plan0.shared_libs libs
        (linked_plan-Unhashed report source_dir host service) el lib
        (subst (λ (p : BuildPlan). Memᴰ lib p.shared_libs) (sym (ok-injective e')) m)

  -- Every library of a plan that generate_build_plan returns, in any mode, has as its ABI hash the
  -- FNV-1a hash of the exports of its modules if it is an anchor and the mode is service, and 0
  -- otherwise; the hash is a number of 32 bits.
  pub generate_build_plan-abi_hash :
      (ms : List ModuleData) (report : TopologyReport W) (source_dir host : Name) (mode : BuildMode)
      (plan : BuildPlan)
      → generate_build_plan weight join ms report source_dir host mode ≡ ok plan
      → (lib : SharedLibTarget) → Memᴰ lib plan.shared_libs
      → (planned_hash ms mode lib ≡ ok lib.abi_hash) × (lib.abi_hash < 2 ^ 32)
  generate_build_plan-abi_hash ms report source_dir host mode plan e lib m =
      let planned = generate_build_plan-planned ms report source_dir host mode plan e lib m in
      (planned, planned_hash-bound ms mode lib lib.abi_hash planned)
