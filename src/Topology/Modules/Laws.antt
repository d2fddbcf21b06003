-- ===== src/Topology/Modules/Laws.antt =====
-- compiler/topology.py, `add_module` and `_classify_modules`: which modules own resources.
use nathra.Common.{
  ◌≡◌, ◌≢◌, ◌↔◌, refl, sym, ap, subst, ◌∙◌, ◌⊎◌, inl, inr, Bool, true, false, Bool-cases, ◌||◌, not,
  List, [], ◌∷◌, ◌++◌, arith,
}
use mathlib.Core.List.{Memᴰ}
use nathra.StrMap.Hash.{str_eq, str_eq_sound}
use nathra.Topology.Names.{Name, member, nonempty, any, all}
use nathra.Topology.Types.{resource_owner, FunctionInfo, ModuleData}
use nathra.Topology.Member.{
  any-Memᴰ, Memᴰ-any, not_all-Memᴰ, Memᴰ-not_all, member-Memᴰ, Memᴰ-member,
}
use nathra.Topology.Classify.{leaks, has_resources, reloadability_of}
use nathra.Topology.Modules.{
  acquire_names, release_names, FunctionSource, scan_resources, function_info,
}

apart : all (λ y. not (member y release_names)) acquire_names ≡ true
unfolding all member str_eq
apart = refl

-- No function that releases a resource is one that acquires one.
acquire-release : (x : Name) → member x acquire_names ≡ true → member x release_names ≡ false
acquire-release x h = elim (Bool-cases (member x release_names)) [
  | inr e ↦ e
  | inl e ↦ absurd (
      cc (
        Memᴰ-not_all (λ y. not (member y release_names)) x (member-Memᴰ x acquire_names h)
            (ap not e),
        apart,
      ))
]

acquires : Name → Bool
acquires x = member x acquire_names

-- The function acquires and releases only what the two sets name.
record IsScanned (fi : FunctionInfo) : Type 0 where
  acquired : (x : Name) → member x fi.acquires_resources ≡ true → member x acquire_names ≡ true
  released : (x : Name) → member x fi.releases_resources ≡ true → member x release_names ≡ true

member-append_last :
    (x y : Name) (xs : List Name) → member x (xs ++ y ∷ []) ≡ (member x xs || str_eq x y)
unfolding member
member-append_last x y [] = ground arith
member-append_last x y (z ∷ xs) = ground (arith, member-append_last x y xs)

-- A name of a set more leaves all of them names of the set.
append-within :
    (set xs : List Name) (y : Name)
    → ((x : Name) → member x xs ≡ true → member x set ≡ true)
    → member y set ≡ true
    → (x : Name) → member x (xs ++ y ∷ []) ≡ true
    → member x set ≡ true
append-within set xs y all_in here x h = elim (Bool-cases (str_eq x y)) [
  | inl e ↦ subst (λ z. member z set ≡ true) (sym (str_eq_sound x y e)) here
  | inr e ↦ all_in x (grind (arith, member-append_last x y xs, e, h))
]

none_in : (set : List Name) (x : Name) → member x [] ≡ true → member x set ≡ true
unfolding member
none_in set x h = absurd (cc h)

nonempty-append : (xs : List Name) (y : Name) → nonempty (xs ++ y ∷ []) ≡ true
nonempty-append [] y = refl
nonempty-append (x ∷ xs) y = refl

scan-IsScanned :
    (called : List Name) (fi : FunctionInfo) → IsScanned fi → IsScanned (scan_resources called fi)
unfolding scan_resources
scan-IsScanned [] fi ok = ok
scan-IsScanned (y ∷ called) fi ok = elim (Bool-cases (member y acquire_names)) [
  | inl e ↦ rw e (
      scan-IsScanned called _ (record {
        acquired = append-within acquire_names fi.acquires_resources y ok.acquired e;
        released = ok.released;
      }))
  | inr e ↦ elim (Bool-cases (member y release_names)) [
    | inl r ↦
        rw (e, r)
          (scan-IsScanned called _ (record {
            acquired = ok.acquired;
            released = append-within release_names fi.releases_resources y ok.released r;
          }))
    | inr r ↦ rw (e, r) (scan-IsScanned called fi ok)
  ]
]

scan-nonempty :
    (called : List Name) (fi : FunctionInfo)
    → nonempty (scan_resources called fi).acquires_resources
      ≡ (nonempty fi.acquires_resources || any acquires called)
unfolding scan_resources any acquires
scan-nonempty [] fi = ground arith
scan-nonempty (y ∷ called) fi = elim (Bool-cases (member y acquire_names)) [
  | inl e ↦
      rw (e, scan_resources)
        (scan-nonempty called _ ∙ ground (arith, nonempty-append fi.acquires_resources y))
  | inr e ↦ elim (Bool-cases (member y release_names)) [
    | inl r ↦ rw (e, r, scan_resources) (scan-nonempty called _)
    | inr r ↦ rw (e, r, scan_resources) (scan-nonempty called fi)
  ]
]

nonempty-Memᴰ : (xs : List Name) → nonempty xs ≡ true → (x : Name) × Memᴰ x xs
nonempty-Memᴰ [] h = absurd (cc h)
nonempty-Memᴰ (x ∷ xs) h = (x, Memᴰ.head refl)

-- What is acquired is not all released, if there is any.
scanned-left :
    (fi : FunctionInfo)
    → IsScanned fi
    → nonempty fi.acquires_resources ≡ true
    → all (λ r. member r fi.releases_resources) fi.acquires_resources ≡ false
scanned-left fi ok h =
    let (x, m) = nonempty-Memᴰ fi.acquires_resources h in
    Memᴰ-not_all (λ r. member r fi.releases_resources) x m
      (elim (Bool-cases (member x fi.releases_resources)) [
        | inr e ↦ e
        | inl e ↦ absurd (cc (acquire-release x (ok.acquired x (Memᴰ-member x m)), ok.released x e))
      ])

scanned-leaks : (fi : FunctionInfo) → IsScanned fi → leaks fi ≡ nonempty fi.acquires_resources
unfolding leaks
scanned-leaks fi ok = elim (Bool-cases (nonempty fi.acquires_resources)) [
  | inl e ↦ rw (e, scanned-left fi ok e) refl
  | inr e ↦ rw e (ground arith)
]

-- A function that add_module reads counts as one that keeps a resource exactly when it calls a
-- function that acquires one, whatever it calls to release it.
pub function_info-leaks :
    (f : FunctionSource) → leaks (function_info f) ≡ any (λ x. member x acquire_names) f.called
unfolding function_info acquires
function_info-leaks f =
    scanned-leaks _ (
      scan-IsScanned f.called _
        (record { acquired = none_in acquire_names; released = none_in release_names }))
    ∙ scan-nonempty f.called _

leaks-keeps :
    (f : FunctionInfo)
    → leaks f ≡ true
    → (r : Name) × (Memᴰ r f.acquires_resources × (¬ Memᴰ r f.releases_resources))
unfolding leaks
leaks-keeps f h =
    let (r, (m, e)) =
      not_all-Memᴰ (λ r. member r f.releases_resources) f.acquires_resources (ground (arith, h)) in
    (r, (m, λ n. absurd (cc (Memᴰ-member r n, e))))

Memᴰ-nonempty : (x : Name) {xs : List Name} → Memᴰ x xs → nonempty xs ≡ true
Memᴰ-nonempty x (Memᴰ.head e) = refl
Memᴰ-nonempty x (Memᴰ.tail m) = refl

keeps-leaks :
    (f : FunctionInfo) (r : Name)
    → Memᴰ r f.acquires_resources
    → (¬ Memᴰ r f.releases_resources)
    → leaks f ≡ true
unfolding leaks
keeps-leaks f r m n = elim (Bool-cases (member r f.releases_resources)) [
  | inl e ↦ absurd (n (member-Memᴰ r f.releases_resources e))
  | inr e ↦ rw (Memᴰ-not_all (λ r. member r f.releases_resources) r m e, Memᴰ-nonempty r m) refl
]

reloadability_of-other :
    (keep : List Name) (modules : List ModuleData) (m : ModuleData)
    → member m.name keep ≡ false
    → has_resources m ≡ false
    → reloadability_of keep modules m ≢ resource_owner
unfolding reloadability_of
reloadability_of-other keep modules m k h e = ground (arith, k, h, e)

reloadability_of-resources :
    (keep : List Name) (modules : List ModuleData) (m : ModuleData)
    → (member m.name keep || has_resources m) ≡ true
    → reloadability_of keep modules m ≡ resource_owner
unfolding reloadability_of
reloadability_of-resources keep modules m h = ground (arith, h)

-- _classify_modules makes a module a resource owner exactly when keep_alive names it, or one of its
-- functions acquires a resource that it does not release.
pub reloadability_of-owner :
    (keep : List Name) (modules : List ModuleData) (m : ModuleData)
    → (reloadability_of keep modules m ≡ resource_owner) ↔ (
        Memᴰ m.name keep
        ⊎ ((f : FunctionInfo) × (Memᴰ f m.functions
              × ((r : Name) × (Memᴰ r f.acquires_resources × (¬ Memᴰ r f.releases_resources))))))
unfolding has_resources
reloadability_of-owner keep modules m = (owner, owned)
  where
    owner :
        reloadability_of keep modules m ≡ resource_owner
        → Memᴰ m.name keep
          ⊎ ((f : FunctionInfo) × (Memᴰ f m.functions
                × ((r : Name) × (Memᴰ r f.acquires_resources × (¬ Memᴰ r f.releases_resources)))))
    owner h = elim (Bool-cases (member m.name keep)) [
      | inl e ↦ inl (member-Memᴰ m.name keep e)
      | inr e ↦ elim (Bool-cases (has_resources m)) [
        | inl l ↦ let (f, (n, q)) = any-Memᴰ leaks m.functions l in inr (f, (n, leaks-keeps f q))
        | inr l ↦ absurd (reloadability_of-other keep modules m e l h)
      ]
    ]

    owned :
        Memᴰ m.name keep
          ⊎ ((f : FunctionInfo) × (Memᴰ f m.functions
                × ((r : Name) × (Memᴰ r f.acquires_resources × (¬ Memᴰ r f.releases_resources)))))
        → reloadability_of keep modules m ≡ resource_owner
    owned (inl n) = reloadability_of-resources keep modules m (ground (arith, Memᴰ-member m.name n))
    owned (inr (f, (n, (r, (a, b))))) =
        reloadability_of-resources keep modules m
          (ground (arith, Memᴰ-any leaks f n (keeps-leaks f r a b)))
