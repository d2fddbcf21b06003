-- ===== src/Topology/Member.antt =====
-- What the tests of compiler/topology.py on lists and sets of names decide.
use nathra.Common.{◌≡◌, refl, inl, inr, Bool, true, false, Bool-cases, List, [], ◌∷◌, arith}
use mathlib.Core.List.{Memᴰ}
use mathlib.Core.List.Memᴰ
use nathra.StrMap.Hash.{str_eq, str_eq_refl, str_eq_sound}
use nathra.Topology.Names.{Name, member, any, all, filter}

module _ {ℓ} {A : Type ℓ} where
  pub any-Memᴰ :
      (p : A → Bool) (xs : List A) → any p xs ≡ true → (x : A) × (Memᴰ x xs × (p x ≡ true))
  unfolding any
  any-Memᴰ p [] h = absurd (cc h)
  any-Memᴰ p (x ∷ xs) h = elim (Bool-cases (p x)) [
    | inl e ↦ (x, (Memᴰ.head refl, e))
    | inr e ↦ let (y, (m, q)) = any-Memᴰ p xs (rw e at h) in (y, (Memᴰ.tail m, q))
  ]

  pub Memᴰ-any : (p : A → Bool) (x : A) {xs : List A} → Memᴰ x xs → p x ≡ true → any p xs ≡ true
  unfolding any
  Memᴰ-any p x (Memᴰ.head e) q = grind (arith, e, q)
  Memᴰ-any p x (Memᴰ.tail m) q = grind (arith, Memᴰ-any p x m q)

  pub not_all-Memᴰ :
      (p : A → Bool) (xs : List A) → all p xs ≡ false → (x : A) × (Memᴰ x xs × (p x ≡ false))
  unfolding all
  not_all-Memᴰ p [] h = absurd (cc h)
  not_all-Memᴰ p (x ∷ xs) h = elim (Bool-cases (p x)) [
    | inr e ↦ (x, (Memᴰ.head refl, e))
    | inl e ↦ let (y, (m, q)) = not_all-Memᴰ p xs (rw e at h) in (y, (Memᴰ.tail m, q))
  ]

  pub Memᴰ-not_all :
      (p : A → Bool) (x : A) {xs : List A} → Memᴰ x xs → p x ≡ false → all p xs ≡ false
  unfolding all
  Memᴰ-not_all p x (Memᴰ.head e) q = grind (arith, e, q)
  Memᴰ-not_all p x (Memᴰ.tail m) q = grind (arith, Memᴰ-not_all p x m q)

  pub Memᴰ-filter :
      (p : A → Bool) (x : A) {xs : List A} → Memᴰ x xs → p x ≡ true → Memᴰ x (filter p xs)
  unfolding filter
  Memᴰ-filter p x (Memᴰ.head e) q = rw (← e, q) (Memᴰ.head refl)
  Memᴰ-filter p x (Memᴰ.tail {x = y} m) q = elim (Bool-cases (p y)) [
    | inl e ↦ rw e (Memᴰ.tail (Memᴰ-filter p x m q))
    | inr e ↦ rw e (Memᴰ-filter p x m q)
  ]

  pub filter-Memᴰ :
      (p : A → Bool) (x : A) (xs : List A) → Memᴰ x (filter p xs) → Memᴰ x xs × (p x ≡ true)
  unfolding filter
  filter-Memᴰ p x [] m = absurd (Memᴰ.not-nil m)
  filter-Memᴰ p x (y ∷ ys) m = elim (Bool-cases (p y)) [
    | inl e ↦ elim (Memᴰ.cases_cons (rw e at m)) [
      | inl h ↦ (Memᴰ.head h, rw h e)
      | inr t ↦ let (s, q) = filter-Memᴰ p x ys t in (Memᴰ.tail s, q)
    ]
    | inr e ↦ let (s, q) = filter-Memᴰ p x ys (rw e at m) in (Memᴰ.tail s, q)
  ]

pub member-Memᴰ : (x : Name) (xs : List Name) → member x xs ≡ true → Memᴰ x xs
unfolding member
member-Memᴰ x [] h = absurd (cc h)
member-Memᴰ x (y ∷ ys) h = elim (Bool-cases (str_eq x y)) [
  | inl e ↦ Memᴰ.head (str_eq_sound x y e)
  | inr e ↦ Memᴰ.tail (member-Memᴰ x ys (rw e at h))
]

pub Memᴰ-member : (x : Name) {xs : List Name} → Memᴰ x xs → member x xs ≡ true
unfolding member
Memᴰ-member x (Memᴰ.head e) = grind (arith, e, str_eq_refl x)
Memᴰ-member x (Memᴰ.tail m) = grind (arith, Memᴰ-member x m)
