-- ===== src/Topology/Plan/Libs.antt =====
-- compiler/topology.py, `generate_build_plan`: the calls listed with the libraries.
use nathra.Common.{ℕ, ◌<◌, ◌≡◌, sym, subst, inl, inr, Bool, true, Bool-cases, List, arith, length}
use native.Mathlib.Decide.{ℕ_discrete}
use nathra.Topology.Names.{Name, member, get_or, set}
use nathra.Topology.Clusters.Totals.{length-set, get_or-set_other, get_or-set_same}
use nathra.Topology.Plan.{SharedLibTarget}
use nathra.Topology.Plan.Calls.{
  member_pair, Linking, add_outgoing, add_incoming, no_lib, change_lib,
}
use nathra.Topology.Plan.Tables.{member_pair-append, member_pair-last, member-append, member-last}

abbrev pub calls_out : Linking → ℕ → Name → Name → Bool
calls_out l i a b = member_pair a b (get_or l.libs i no_lib).outgoing_calls

abbrev pub called_in : Linking → ℕ → Name → Bool
called_in l i f = member f (get_or l.libs i no_lib).incoming_calls

-- A property of the calls of a library that a change keeps, the change of one library keeps.
pub change_lib-keeps :
    (P : SharedLibTarget → Bool) (change : SharedLibTarget → SharedLibTarget) (i j : ℕ)
    (libs : List SharedLibTarget)
    → ((lib : SharedLibTarget) → P lib ≡ true → P (change lib) ≡ true)
    → j < length libs
    → P (get_or libs i no_lib) ≡ true
    → P (get_or (change_lib change j libs) i no_lib) ≡ true
unfolding change_lib
change_lib-keeps P change i j libs keep lt h = elim (ℕ_discrete i j) [
  | yes e ↦
      subst (λ k. P (get_or (set libs j (change (get_or libs j no_lib))) k no_lib) ≡ true) (sym e)
        (subst (λ lib. P lib ≡ true) (sym (get_or-set_same libs j _ no_lib lt))
          (keep _ (subst (λ k. P (get_or libs k no_lib) ≡ true) e h)))
  | no ne ↦
      subst (λ lib. P lib ≡ true) (sym (get_or-set_other libs j i _ no_lib (λ e. ne (sym e)))) h
]

pub change_lib-here :
    (change : SharedLibTarget → SharedLibTarget) (j : ℕ) (libs : List SharedLibTarget)
    → j < length libs
    → get_or (change_lib change j libs) j no_lib ≡ change (get_or libs j no_lib)
unfolding change_lib
change_lib-here change j libs lt = get_or-set_same libs j _ no_lib lt

pub change_lib-length :
    (change : SharedLibTarget → SharedLibTarget) (j : ℕ) (libs : List SharedLibTarget)
    → length (change_lib change j libs) ≡ length libs
unfolding change_lib
change_lib-length change j libs = length-set libs j _

pub add_outgoing-out :
    (a b x y : Name) (lib : SharedLibTarget)
    → member_pair a b lib.outgoing_calls ≡ true
    → member_pair a b (add_outgoing x y lib).outgoing_calls ≡ true
unfolding add_outgoing
add_outgoing-out a b x y lib h = elim (Bool-cases (member_pair x y lib.outgoing_calls)) [
  | inl e ↦ rw e h
  | inr e ↦ rw e (member_pair-append a b lib.outgoing_calls (x, y) h)
]

pub add_outgoing-has :
    (x y : Name) (lib : SharedLibTarget)
    → member_pair x y (add_outgoing x y lib).outgoing_calls ≡ true
unfolding add_outgoing
add_outgoing-has x y lib = elim (Bool-cases (member_pair x y lib.outgoing_calls)) [
  | inl e ↦ rw e e
  | inr e ↦ rw e (member_pair-last x y lib.outgoing_calls)
]

pub add_outgoing-inc :
    (x y : Name) (lib : SharedLibTarget)
    → (add_outgoing x y lib).incoming_calls ≡ lib.incoming_calls
unfolding add_outgoing
add_outgoing-inc x y lib = ground arith

pub add_incoming-inc :
    (f g : Name) (lib : SharedLibTarget)
    → member f lib.incoming_calls ≡ true
    → member f (add_incoming g lib).incoming_calls ≡ true
unfolding add_incoming
add_incoming-inc f g lib h = elim (Bool-cases (member g lib.incoming_calls)) [
  | inl e ↦ rw e h
  | inr e ↦ rw e (member-append f g lib.incoming_calls h)
]

pub add_incoming-has :
    (g : Name) (lib : SharedLibTarget) → member g (add_incoming g lib).incoming_calls ≡ true
unfolding add_incoming
add_incoming-has g lib = elim (Bool-cases (member g lib.incoming_calls)) [
  | inl e ↦ rw e e
  | inr e ↦ rw e (member-last g lib.incoming_calls)
]

pub add_incoming-out :
    (g : Name) (lib : SharedLibTarget) → (add_incoming g lib).outgoing_calls ≡ lib.outgoing_calls
unfolding add_incoming
add_incoming-out g lib = ground arith
