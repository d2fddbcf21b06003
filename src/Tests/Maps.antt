-- ===== src/Tests/Maps.antt =====
-- Small maps and sets, and the theorems on them.
use nathra.Common.{
  ℕ, Option, List, ◌+◌, ◌*◌, ◌<◌, ◌≤◌, ◌^◌, ◌≡◌, ◌≢◌, refl, inl, inr, none, some, [], ◌∷◌, arith,
  if◌then◌else◌,
}
use mathlib.Core.Option.{bind}
use nathra.Wire.Bytes.{Bytes}
use nathra.StrMap.Hash.{str_hash, hash_bytes, str_eq}
use nathra.StrMap.Probe.{inspect, find_slot, update, tombstone}
use nathra.StrMap.Machine.{times}
use nathra.StrMap.Table.{
  StrMap, null, allocated, strmap_new, strmap_find_slot, write_slot, store, strmap_set_within,
  strmap_set, strmap_get, strmap_has, strmap_delete, get_loop, view,
}
use nathra.StrMap.Invariant.{IsWellFormed}
use nathra.StrMap.Set.{
  StrSet, strset_new, allocated_set, set_view, add_slot, write_key, add_key, strset_add,
  strset_add_within, strset_has, strset_delete, has_key_loop, delete_key_loop, delete_key,
}
use nathra.StrMap.SetLaws.{as_map, strset_delete-as_map}
use nathra.StrMap.SetAdd.{IsClean}
use nathra.StrMap.SetInsert.{
  strset_new-IsClean, strset_add-succeeds, strset_add-IsClean, strset_has-add,
}
use nathra.StrMap.SetDuplicate.{first_slot, strset_add-duplicate}
use nathra.StrMap.Laws.{
  strmap_new-IsWellFormed, strmap_set-succeeds, strmap_set-IsWellFormed, strmap_get-set,
  strmap_has-set,
}
use nathra.StrMap.DeleteLaws.{strmap_delete-IsWellFormed, strmap_get-delete, strmap_delete-reports}

abbrev hello : Bytes
hello = 104 ∷ 101 ∷ 108 ∷ 108 ∷ 111 ∷ []

abbrev world : Bytes
world = 119 ∷ 111 ∷ 114 ∷ 108 ∷ 100 ∷ []

abbrev no_items : StrMap
no_items = strmap_new 16

no_items-IsWellFormed : IsWellFormed no_items
no_items-IsWellFormed = (strmap_new-IsWellFormed 16 0 (inl (omega arith)) hello).0

strmap_new-IsWellFormed_example :
    IsWellFormed (strmap_new 32) × (strmap_get (strmap_new 32) hello ≡ null)
strmap_new-IsWellFormed_example = strmap_new-IsWellFormed 32 5 (inr refl) hello

-- `hello` stands in slot 11 of a table of 16.
abbrev one_item : StrMap
one_item = write_slot no_items 11 hello 42

set_hello : strmap_set no_items hello 42 ≡ some one_item
unfolding strmap_set strmap_set_within times store strmap_find_slot view inspect find_slot str_hash
    hash_bytes strmap_new allocated bind
set_hello = refl

one_item-IsWellFormed : IsWellFormed one_item
one_item-IsWellFormed = strmap_set-IsWellFormed no_items hello 42 no_items-IsWellFormed set_hello

-- `world` stands in slot 3.
abbrev two_items : StrMap
two_items = write_slot one_item 3 world 99

set_world : strmap_set one_item world 99 ≡ some two_items
unfolding strmap_set strmap_set_within times store strmap_find_slot view inspect find_slot str_hash
    hash_bytes strmap_new allocated bind write_slot update str_eq
set_world = refl

one_item_small : one_item.cap ≤ 2 ^ 28
unfolding write_slot strmap_new allocated
one_item_small = omega arith

strmap_set-succeeds_example : strmap_set one_item world 99 ≢ none
strmap_set-succeeds_example =
    strmap_set-succeeds one_item world 99 one_item-IsWellFormed one_item_small

strmap_set-IsWellFormed_example : IsWellFormed two_items
strmap_set-IsWellFormed_example =
    strmap_set-IsWellFormed one_item world 99 one_item-IsWellFormed set_world

strmap_get-set_example :
    strmap_get two_items hello ≡ (if str_eq world hello then 99 else strmap_get one_item hello)
strmap_get-set_example = strmap_get-set one_item world 99 one_item-IsWellFormed set_world hello

strmap_has-set_example :
    strmap_has two_items world ≡ (if str_eq world world then 1 else strmap_has one_item world)
strmap_has-set_example = strmap_has-set one_item world 99 one_item-IsWellFormed set_world world

strmap_delete-IsWellFormed_example : IsWellFormed (strmap_delete one_item hello).1
strmap_delete-IsWellFormed_example = strmap_delete-IsWellFormed one_item hello one_item-IsWellFormed

strmap_get-delete_example :
    strmap_get (strmap_delete one_item hello).1 hello
    ≡ (if str_eq hello hello then null else strmap_get one_item hello)
strmap_get-delete_example = strmap_get-delete one_item hello one_item-IsWellFormed hello

strmap_delete-reports_example :
    ((strmap_delete one_item hello).0 ≡ strmap_has one_item hello)
    × (((strmap_delete one_item hello).1.count + strmap_has one_item hello ≡ one_item.count)
        × (strmap_has (strmap_delete one_item hello).1 hello ≡ 0))
strmap_delete-reports_example = strmap_delete-reports one_item hello one_item-IsWellFormed

-- Both values are read back.
reads_back : (strmap_get two_items hello ≡ 42) × (strmap_get two_items world ≡ 99)
unfolding strmap_get get_loop view inspect str_hash hash_bytes strmap_new allocated write_slot
    update str_eq
reads_back = (refl, refl)

-- `a` and `q` both start at slot 12. `a` is deleted, and `q` stands behind its tombstone.
abbrev a : Bytes
a = 97 ∷ []

abbrev q : Bytes
q = 113 ∷ []

abbrev behind_tombstone : StrSet
behind_tombstone = (strset_delete (write_key (write_key (strset_new 16) 12 a) 13 q) a).1

q_is_in : strset_has behind_tombstone q ≡ 1
unfolding strset_has has_key_loop strset_delete delete_key_loop delete_key set_view inspect str_hash
    hash_bytes strset_new allocated_set write_key update str_eq
q_is_in = refl

first_is_tombstone : behind_tombstone.states (first_slot behind_tombstone q) ≡ tombstone
unfolding strset_delete delete_key_loop delete_key set_view inspect str_hash hash_bytes strset_new
    allocated_set write_key update str_eq
first_is_tombstone = refl

is_light : behind_tombstone.count * 4 < behind_tombstone.cap * 3
unfolding strset_delete delete_key_loop delete_key set_view inspect str_hash hash_bytes strset_new
    allocated_set write_key update str_eq
is_light = omega arith

add_q : strset_add behind_tombstone q ≡ some (write_key behind_tombstone 12 q)
unfolding strset_add strset_add_within times add_key add_slot bind strset_delete delete_key_loop
    delete_key set_view inspect str_hash hash_bytes strset_new allocated_set write_key update str_eq
add_q = refl

strset_add-duplicate_example :
    ((write_key behind_tombstone 12 q).count ≡ behind_tombstone.count + 1)
    × (strset_has (strset_delete (write_key behind_tombstone 12 q) q).1 q ≡ 1)
strset_add-duplicate_example =
    strset_add-duplicate behind_tombstone q is_light q_is_in first_is_tombstone add_q

strset_delete-as_map_example :
    (strset_has behind_tombstone q ≡ strmap_has (as_map behind_tombstone) q)
    × (((strset_delete behind_tombstone q).0 ≡ (strmap_delete (as_map behind_tombstone) q).0)
        × (as_map (strset_delete behind_tombstone q).1
            ≡ (strmap_delete (as_map behind_tombstone) q).1))
strset_delete-as_map_example = strset_delete-as_map behind_tombstone q

one_key : strset_add (strset_new 16) a ≡ some (write_key (strset_new 16) 12 a)
unfolding strset_add strset_add_within times add_key add_slot bind set_view inspect str_hash
    hash_bytes strset_new allocated_set write_key update str_eq
one_key = refl

no_keys_small : (strset_new 16).cap ≤ 2 ^ 28
unfolding strset_new allocated_set
no_keys_small = omega arith

strset_add-succeeds_example : strset_add (strset_new 16) a ≢ none
strset_add-succeeds_example = strset_add-succeeds (strset_new 16) a strset_new-IsClean no_keys_small

strset_add-IsClean_example : IsClean (write_key (strset_new 16) 12 a)
strset_add-IsClean_example = strset_add-IsClean (strset_new 16) a strset_new-IsClean one_key

strset_has-add_example :
    strset_has (write_key (strset_new 16) 12 a) q
    ≡ (if str_eq a q then 1 else strset_has (strset_new 16) q)
strset_has-add_example = strset_has-add (strset_new 16) a strset_new-IsClean one_key q

-- With a capacity of 20 the mask is 19, and from a hash without bit 4 the probes stay in four slots.
abbrev add_all : List ℕ → StrSet → Option StrSet
add_all [] s = some s
add_all (c ∷ cs) s = bind (strset_add s (c ∷ [])) (add_all cs)

fifth_key_is_lost :
    bind
      (add_all (97 ∷ 98 ∷ 101 ∷ 103 ∷ 105 ∷ []) (strset_new 20))
      (λ s. some (strset_has s (105 ∷ [])))
    ≡ some 0
unfolding bind strset_add strset_add_within times add_key add_slot strset_has has_key_loop set_view
    inspect str_hash hash_bytes strset_new allocated_set write_key update str_eq
fifth_key_is_lost = refl

abbrev set_all : List ℕ → StrMap → Option StrMap
set_all [] m = some m
set_all (c ∷ cs) m = bind (strmap_set m (c ∷ []) 1) (set_all cs)

fifth_write_is_out_of_range : set_all (97 ∷ 98 ∷ 101 ∷ 103 ∷ 105 ∷ []) (strmap_new 20) ≡ none
unfolding bind strmap_set strmap_set_within times store strmap_find_slot find_slot write_slot view
    inspect str_hash hash_bytes strmap_new allocated update str_eq
fifth_write_is_out_of_range = refl
