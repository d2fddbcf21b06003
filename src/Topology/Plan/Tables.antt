-- ===== src/Topology/Plan/Tables.antt =====
-- compiler/topology.py, `generate_build_plan`: the dispatch table and the lists of calls.
use nathra.Common.{
  ℕ, ◌+◌, ◌≡◌, ◌≢◌, refl, ap, inl, inr, Bool, true, false, Bool-cases, ◌&&◌, List, [], ◌∷◌, ◌++◌,
  arith, if◌then◌else◌,
}
use nathra.StrMap.Hash.{str_eq, str_eq_refl}
use nathra.Topology.Names.{Name, member}
use nathra.Topology.Plan.{DispatchEntry}
use nathra.Topology.Plan.Calls.{member_pair, member_nat, dispatch_entry, with_caller, add_caller}

-- The entries of a name, and whether one of them lists the caller.
unfoldable pub entries : Name → List DispatchEntry → ℕ
entries f [] = 0
entries f (e ∷ es) = (if str_eq e.name f then 1 else 0) + entries f es

unfoldable pub called_from : Name → ℕ → List DispatchEntry → Bool
called_from f c [] = false
called_from f c (e ∷ es) =
    if str_eq e.name f && member_nat c e.callers then true else called_from f c es

pub member_pair-append :
    (a b : Name) (ps : List (Name × Name)) (p : Name × Name)
    → member_pair a b ps ≡ true
    → member_pair a b (ps ++ p ∷ []) ≡ true
unfolding member_pair
member_pair-append a b [] p h = absurd (cc h)
member_pair-append a b ((x, y) ∷ ps) p h = ground (arith, member_pair-append a b ps p, h)

pub member_pair-last :
    (a b : Name) (ps : List (Name × Name)) → member_pair a b (ps ++ (a, b) ∷ []) ≡ true
unfolding member_pair
member_pair-last a b [] = ground (arith, str_eq_refl a, str_eq_refl b)
member_pair-last a b ((x, y) ∷ ps) = ground (arith, member_pair-last a b ps)

pub member-append :
    (f g : Name) (fs : List Name) → member f fs ≡ true → member f (fs ++ g ∷ []) ≡ true
unfolding member
member-append f g [] h = absurd (cc h)
member-append f g (x ∷ fs) h = ground (arith, member-append f g fs, h)

pub member-last : (f : Name) (fs : List Name) → member f (fs ++ f ∷ []) ≡ true
unfolding member
member-last f [] = ground (arith, str_eq_refl f)
member-last f (x ∷ fs) = ground (arith, member-last f fs)

member_nat-append :
    (n k : ℕ) (ns : List ℕ) → member_nat n ns ≡ true → member_nat n (ns ++ k ∷ []) ≡ true
unfolding member_nat
member_nat-append n k [] h = absurd (cc h)
member_nat-append n k (x ∷ ns) h = ground (arith, member_nat-append n k ns, h)

member_nat-last : (n : ℕ) (ns : List ℕ) → member_nat n (ns ++ n ∷ []) ≡ true
unfolding member_nat
member_nat-last n [] = ground arith
member_nat-last n (x ∷ ns) = ground (arith, member_nat-last n ns)

-- The dispatch table.
pub entries-append :
    (f : Name) (es : List DispatchEntry) (e : DispatchEntry)
    → entries f (es ++ e ∷ []) ≡ entries f es + (if str_eq e.name f then 1 else 0)
unfolding entries
entries-append f [] e = omega arith
entries-append f (x ∷ es) e = omega (arith, entries-append f es e)

with_caller-name : (c : ℕ) (e : DispatchEntry) → (with_caller c e).name ≡ e.name
unfolding with_caller
with_caller-name c e = ground arith

with_caller-keeps :
    (c k : ℕ) (e : DispatchEntry)
    → member_nat k e.callers ≡ true
    → member_nat k (with_caller c e).callers ≡ true
unfolding with_caller
with_caller-keeps c k e h = elim (Bool-cases (member_nat c e.callers)) [
  | inl q ↦ rw q h
  | inr q ↦ rw q (member_nat-append k c e.callers h)
]

with_caller-has : (c : ℕ) (e : DispatchEntry) → member_nat c (with_caller c e).callers ≡ true
unfolding with_caller
with_caller-has c e = elim (Bool-cases (member_nat c e.callers)) [
  | inl q ↦ rw q q
  | inr q ↦ rw q (member_nat-last c e.callers)
]

pub add_caller-entries :
    (f callee : Name) (c : ℕ) (es : List DispatchEntry)
    → entries f (add_caller callee c es) ≡ entries f es
unfolding entries add_caller
add_caller-entries f callee c [] = refl
add_caller-entries f callee c (e ∷ es) = elim (Bool-cases (str_eq e.name callee)) [
  | inl q ↦
      rw q (ap {B = ℕ} (λ n. (if str_eq n f then 1 else 0) + entries f es) (with_caller-name c e))
  | inr q ↦ rw q (omega (arith, add_caller-entries f callee c es))
]

pub called_from-append :
    (f : Name) (c : ℕ) (es : List DispatchEntry) (e : DispatchEntry)
    → called_from f c es ≡ true
    → called_from f c (es ++ e ∷ []) ≡ true
unfolding called_from
called_from-append f c [] e h = absurd (cc h)
called_from-append f c (x ∷ es) e h = ground (arith, called_from-append f c es e, h)

pub called_from-last :
    (f : Name) (c j : ℕ) (es : List DispatchEntry)
    → called_from f c (es ++ dispatch_entry f j c ∷ []) ≡ true
unfolding called_from member_nat
called_from-last f c j [] = ground (arith, str_eq_refl f)
called_from-last f c j (x ∷ es) = ground (arith, called_from-last f c j es)

pub add_caller-keeps :
    (f callee : Name) (c k : ℕ) (es : List DispatchEntry)
    → called_from f k es ≡ true
    → called_from f k (add_caller callee c es) ≡ true
unfolding called_from add_caller
add_caller-keeps f callee c k [] h = absurd (cc h)
add_caller-keeps f callee c k (e ∷ es) h = elim (Bool-cases (str_eq e.name callee)) [
  | inl q ↦ rw q (ground (arith, with_caller-name c e, with_caller-keeps c k e, h))
  | inr q ↦ rw q (ground (arith, add_caller-keeps f callee c k es, h))
]

pub add_caller-adds :
    (callee : Name) (c : ℕ) (es : List DispatchEntry)
    → entries callee es ≢ 0
    → called_from callee c (add_caller callee c es) ≡ true
unfolding called_from add_caller entries
add_caller-adds callee c [] h = absurd (h refl)
add_caller-adds callee c (e ∷ es) h = elim (Bool-cases (str_eq e.name callee)) [
  | inl q ↦ rw q (ground (arith, with_caller-name c e, with_caller-has c e, q))
  | inr q ↦ rw q (ground (arith, add_caller-adds callee c es, q, h))
]
