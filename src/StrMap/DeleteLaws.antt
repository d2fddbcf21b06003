-- ===== src/StrMap/DeleteLaws.antt =====
-- What `strmap_delete` of native/src/strmap.py promises.
use nathra.Common.{
  ℕ, ◌+◌, ◌<◌, ◌≡◌, refl, sym, ap, subst, ◌∙◌, inl, inr, Bool-cases, Option, none, some, arith,
  if◌then◌else◌,
}
use mathlib.Core.Option.{map}
use nathra.Wire.Bytes.{Bytes}
use nathra.StrMap.Hash.{str_eq, str_eq_sound}
use nathra.StrMap.Table.{StrMap, delete_slot, strmap_delete, strmap_get, strmap_has, null}
use nathra.StrMap.Locate.{locate, strmap_has-locate, strmap_delete-locate}
use nathra.StrMap.Invariant.{IsWellFormed, Option-cases, search, locate-search, search-counted}
use nathra.StrMap.Entry.{entry, strmap_get-entry, strmap_has-entry}
use nathra.StrMap.Delete.{buried, entry-buried, entry-buried_self, buried-IsWellFormed}

-- The outcome by what `locate` finds.
delete-absent : (m : StrMap) (key : Bytes) → locate m key ≡ none → strmap_delete m key ≡ (0, m)
delete-absent m key e = rw (strmap_delete-locate m key, e) refl

delete-present :
    (m : StrMap) (key : Bytes) {i : ℕ}
    → locate m key ≡ some i
    → strmap_delete m key ≡ (1, buried m i)
unfolding delete_slot buried
delete-present m key e = rw (strmap_delete-locate m key, e) refl

entry-absent :
    (m : StrMap) (key : Bytes)
    → IsWellFormed m
    → locate m key ≡ none
    → (key' : Bytes) → entry m key' ≡ (if str_eq key key' then none else entry m key')
unfolding entry
entry-absent m key wf e key' = elim (Bool-cases (str_eq key key')) [
  | inl t ↦ rw t (
      subst (λ k. entry m k ≡ none) (str_eq_sound key key' t)
        (ap (λ o. map m.values o) (sym (locate-search m key wf) ∙ e)))
  | inr f ↦ rw f refl
]

entry-delete :
    (m : StrMap) (key : Bytes)
    → IsWellFormed m
    → (key' : Bytes)
    → entry (strmap_delete m key).1 key' ≡ (if str_eq key key' then none else entry m key')
entry-delete m key wf key' = elim (Option-cases (locate m key)) [
  | inl e ↦ rw (delete-absent m key e) (entry-absent m key wf e key')
  | inr (i, e) ↦
      rw (delete-present m key e) (entry-buried m key wf (sym (locate-search m key wf) ∙ e) key')
]

-- strmap_delete keeps a map well formed.
pub strmap_delete-IsWellFormed :
    (m : StrMap) (key : Bytes) → IsWellFormed m → IsWellFormed (strmap_delete m key).1
strmap_delete-IsWellFormed m key wf = elim (Option-cases (locate m key)) [
  | inl e ↦ subst (λ r. IsWellFormed r.1) (sym (delete-absent m key e)) wf
  | inr (i, e) ↦
      subst (λ r. IsWellFormed r.1) (sym (delete-present m key e))
        (buried-IsWellFormed m key wf (sym (locate-search m key wf) ∙ e))
]

-- After strmap_delete on a well-formed map, strmap_get returns NULL for the deleted key and what it
-- returned before for every other key.
pub strmap_get-delete :
    (m : StrMap) (key : Bytes)
    → IsWellFormed m
    → (key' : Bytes)
    → strmap_get (strmap_delete m key).1 key'
      ≡ (if str_eq key key' then null else strmap_get m key')
strmap_get-delete m key wf key' =
    rw
      (
        strmap_get-entry (strmap_delete m key).1 key' (strmap_delete-IsWellFormed m key wf),
        strmap_get-entry m key' wf,
        entry-delete m key wf key',
      )
      (ground arith)

has-locate :
    (m : StrMap) (key : Bytes) {o : Option ℕ}
    → locate m key ≡ o
    → strmap_has m key ≡ elim o [ none ↦ 0 | some _ ↦ 1 ]
has-locate m key e = strmap_has-locate m key ∙ ap (λ x. elim x [ none ↦ 0 | some _ ↦ 1 ]) e

buried-count : (m : StrMap) (i : ℕ) → 0 < m.count → (buried m i).count + 1 ≡ m.count
unfolding buried
buried-count m i lt = omega arith

-- On a well-formed map strmap_delete returns what strmap_has said of the key, and takes that from
-- the count; strmap_has says 0 of the key afterwards.
pub strmap_delete-reports :
    (m : StrMap) (key : Bytes)
    → IsWellFormed m
    → ((strmap_delete m key).0 ≡ strmap_has m key)
      × (((strmap_delete m key).1.count + strmap_has m key ≡ m.count)
          × (strmap_has (strmap_delete m key).1 key ≡ 0))
strmap_delete-reports m key wf = elim (Option-cases (locate m key)) [
  | inl e ↦
      let gone : strmap_has m key ≡ 0 = has-locate m key e in
      rw (delete-absent m key e, gone) (refl, (omega arith, refl))
  | inr (i, e) ↦
      let at : search m key ≡ some i = sym (locate-search m key wf) ∙ e in
      let here : strmap_has m key ≡ 1 = has-locate m key e in
      let gone : strmap_has (buried m i) key ≡ 0 =
        strmap_has-entry (buried m i) key (buried-IsWellFormed m key wf at)
        ∙ ap (λ o. elim o [ none ↦ 0 | some _ ↦ 1 ]) (entry-buried_self m key wf at) in
      rw (delete-present m key e, here, gone)
        (refl, (buried-count m i (search-counted m key wf at), refl))
]
