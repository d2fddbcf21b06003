-- ===== src/Topology/Plan/Linked.antt =====
-- compiler/topology.py, `generate_build_plan`: every call between clusters is linked.
use nathra.Common.{
  ℕ, ◌<◌, ◌≡◌, refl, sym, ap, subst, ◌∙◌, inl, inr, Bool, true, false, Bool-cases, List, [], ◌∷◌,
  ◌++◌, arith, if◌then◌else◌, length,
}
use nathra.StrMap.Hash.{str_eq, str_eq_refl, str_eq_sound}
use nathra.Topology.Names.{Name, member, get_or}
use nathra.Topology.Plan.{SharedLibTarget, DispatchEntry}
use nathra.Topology.Plan.Calls.{
  member_pair, Linking, dispatch_entry, add_outgoing, add_incoming, no_lib, change_lib, link_call,
}
use nathra.Topology.Plan.Tables.{
  entries, called_from, entries-append, add_caller-entries, called_from-append, called_from-last,
  add_caller-keeps, add_caller-adds,
}
use nathra.Topology.Plan.Libs.{
  calls_out, called_in, change_lib-keeps, change_lib-here, change_lib-length, add_outgoing-out,
  add_outgoing-has, add_outgoing-inc, add_incoming-inc, add_incoming-has, add_incoming-out,
}

str_eq_comm : (f g : Name) → str_eq f g ≡ str_eq g f
str_eq_comm f g = elim (Bool-cases (str_eq f g)) [
  | inl e ↦ elim (Bool-cases (str_eq g f)) [
    | inl e' ↦ e ∙ sym e'
    | inr e' ↦ absurd (grind (arith, str_eq_sound f g e, str_eq_refl g, e'))
  ]
  | inr e ↦ elim (Bool-cases (str_eq g f)) [
    | inl e' ↦ absurd (grind (arith, str_eq_sound g f e', str_eq_refl f, e))
    | inr e' ↦ e ∙ sym e'
  ]
]

-- An entry for a name not seen before.
entries-new :
    (f g : Name) (i j : ℕ) (table : List DispatchEntry) (seen : List Name)
    → ((h : Name) → entries h table ≡ (if member h seen then 1 else 0))
    → member f seen ≡ false
    → entries g (table ++ dispatch_entry f j i ∷ []) ≡ (if member g (f ∷ seen) then 1 else 0)
unfolding member
entries-new f g i j table seen once new =
    entries-append g table _ ∙ elim (Bool-cases (str_eq f g)) [
      | inl e ↦
          rw
            (
              once g,
              sym (str_eq_comm f g),
              e,
              subst (λ h. member h seen ≡ false) (str_eq_sound f g e) new,
            )
            refl
      | inr e ↦ rw (once g, sym (str_eq_comm f g), e) (omega arith)
    ]

-- What the later of two plans has of the earlier.
pub record Extends (l l' : Linking) : Type 0 where
  pub size : length l'.libs ≡ length l.libs
  pub out : (i : ℕ) (a b : Name) → calls_out l i a b ≡ true → calls_out l' i a b ≡ true
  pub inc : (i : ℕ) (f : Name) → called_in l i f ≡ true → called_in l' i f ≡ true
  pub table : (f : Name) (c : ℕ) → called_from f c l.table ≡ true → called_from f c l'.table ≡ true

-- The names seen are those of the table, each of one entry.
pub record IsSeen (l : Linking) : Type 0 where
  pub once : (f : Name) → entries f l.table ≡ (if member f l.seen then 1 else 0)

-- The libraries after a call.
unfoldable pub libs_after : ℕ → ℕ → Name → Name → List SharedLibTarget → List SharedLibTarget
libs_after i j a f libs = change_lib (add_incoming f) j (change_lib (add_outgoing a f) i libs)

pub link_call-libs :
    (i j : ℕ) (a f : Name) (l : Linking) → (link_call i j a f l).libs ≡ libs_after i j a f l.libs
unfolding link_call libs_after
link_call-libs i j a f l = elim (Bool-cases (member f l.seen)) [
  | inl e ↦ rw (e, link_call) refl
  | inr e ↦ rw (e, link_call) refl
]

module _ (i j : ℕ) (a f : Name) (l : Linking) (li : i < length l.libs)
    (lj : j < length l.libs) where
  lj' : j < length (change_lib (add_outgoing a f) i l.libs)
  lj' = omega (arith, change_lib-length (add_outgoing a f) i l.libs)

  -- Both changes keep what a test on the calls of a library finds.
  libs_after-keeps :
      (P : SharedLibTarget → Bool)
      → ((lib : SharedLibTarget) → P lib ≡ true → P (add_outgoing a f lib) ≡ true)
      → ((lib : SharedLibTarget) → P lib ≡ true → P (add_incoming f lib) ≡ true)
      → (k : ℕ) → P (get_or l.libs k no_lib) ≡ true
      → P (get_or (link_call i j a f l).libs k no_lib) ≡ true
  unfolding libs_after
  libs_after-keeps P out inc k h =
      subst (λ ls. P (get_or ls k no_lib) ≡ true) (sym (link_call-libs i j a f l))
        (change_lib-keeps P (add_incoming f) k j _ inc lj'
          (change_lib-keeps P (add_outgoing a f) k i l.libs out li h))

  link_call-out :
      (k : ℕ) (x y : Name) → calls_out l k x y ≡ true → calls_out (link_call i j a f l) k x y ≡ true
  link_call-out k x y =
      libs_after-keeps (λ lib. member_pair x y lib.outgoing_calls)
        (λ lib h. add_outgoing-out x y a f lib h)
        (λ lib h. subst (λ cs. member_pair x y cs ≡ true) (sym (add_incoming-out f lib)) h) k

  link_call-inc :
      (k : ℕ) (g : Name) → called_in l k g ≡ true → called_in (link_call i j a f l) k g ≡ true
  link_call-inc k g =
      libs_after-keeps (λ lib. member g lib.incoming_calls)
        (λ lib h. subst (λ cs. member g cs ≡ true) (sym (add_outgoing-inc a f lib)) h)
        (λ lib h. add_incoming-inc g f lib h) k

  pub link_call-has_out : calls_out (link_call i j a f l) i a f ≡ true
  unfolding libs_after
  link_call-has_out =
      subst (λ ls. member_pair a f (get_or ls i no_lib).outgoing_calls ≡ true)
        (sym (link_call-libs i j a f l))
        (change_lib-keeps (λ lib. member_pair a f lib.outgoing_calls) (add_incoming f) i j _
          (λ lib h. subst (λ cs. member_pair a f cs ≡ true) (sym (add_incoming-out f lib)) h) lj'
          (subst (λ (lib : SharedLibTarget). member_pair a f lib.outgoing_calls ≡ true)
            (sym (change_lib-here (add_outgoing a f) i l.libs li))
            (add_outgoing-has a f (get_or l.libs i no_lib))))

  pub link_call-has_inc : called_in (link_call i j a f l) j f ≡ true
  unfolding libs_after
  link_call-has_inc =
      subst (λ ls. member f (get_or ls j no_lib).incoming_calls ≡ true)
        (sym (link_call-libs i j a f l))
        (subst (λ (lib : SharedLibTarget). member f lib.incoming_calls ≡ true)
          (sym (change_lib-here (add_incoming f) j _ lj')) (add_incoming-has f _))

  link_call-table :
      (g : Name) (c : ℕ)
      → called_from g c l.table ≡ true
      → called_from g c (link_call i j a f l).table ≡ true
  unfolding link_call
  link_call-table g c h = elim (Bool-cases (member f l.seen)) [
    | inl e ↦ rw (e, link_call) (add_caller-keeps g f i c l.table h)
    | inr e ↦ rw (e, link_call) (called_from-append g c l.table _ h)
  ]

  pub link_call-Extends : Extends l (link_call i j a f l)
  unfolding libs_after
  link_call-Extends = record {
    size =
        ap length (link_call-libs i j a f l)
        ∙ change_lib-length (add_incoming f) j _
        ∙ change_lib-length (add_outgoing a f) i l.libs;
    out = link_call-out;
    inc = link_call-inc;
    table = link_call-table;
  }

  pub link_call-called : IsSeen l → called_from f i (link_call i j a f l).table ≡ true
  unfolding link_call
  link_call-called ok = elim (Bool-cases (member f l.seen)) [
    | inl e ↦
        rw (e, link_call)
          (add_caller-adds f i l.table (λ z. absurd (grind (arith, ok.once f, e, z))))
    | inr e ↦ rw (e, link_call) (called_from-last f i j l.table)
  ]

  pub link_call-IsSeen : IsSeen l → IsSeen (link_call i j a f l)
  unfolding link_call
  link_call-IsSeen ok = record {
    once = λ g. elim (Bool-cases (member f l.seen)) [
      | inl e ↦ rw (e, link_call) (add_caller-entries g f i l.table ∙ ok.once g)
      | inr e ↦ rw (e, link_call) (entries-new f g i j l.table l.seen ok.once e)
    ];
  }
