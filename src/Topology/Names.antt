-- ===== src/Topology/Names.antt =====
-- Names, sets of names and lists by position, as compiler/topology.py uses them.
use nathra.Common.{ℕ, zero, suc, Bool, true, false, ◌&&◌, ◌||◌, List, [], ◌∷◌, ◌++◌, if◌then◌else◌}
use nathra.StrMap.Hash.{str_eq}

-- A string by its code points.
abbrev pub Name : Type 0
Name = List ℕ

-- `f"{module}.{function}"`
abbrev pub qualified : Name → Name → Name
qualified m f = m ++ b'.' ∷ f

-- `x in xs`, for a list or a set of names.
unfoldable pub member : Name → List Name → Bool
member x [] = false
member x (y ∷ ys) = if str_eq x y then true else member x ys

-- `a |= b`
unfoldable pub union : List Name → List Name → List Name
union xs [] = xs
union xs (y ∷ ys) = if member y xs then union xs ys else union (xs ++ y ∷ []) ys

module _ {ℓ} {A : Type ℓ} where
  unfoldable pub any : (A → Bool) → List A → Bool
  any p [] = false
  any p (x ∷ xs) = p x || any p xs

  unfoldable pub all : (A → Bool) → List A → Bool
  all p [] = true
  all p (x ∷ xs) = p x && all p xs

  unfoldable pub filter : (A → Bool) → List A → List A
  filter p [] = []
  filter p (x ∷ xs) = let rest = filter p xs in if p x then x ∷ rest else rest

  abbrev pub nonempty : List A → Bool
  nonempty [] = false
  nonempty (_ ∷ _) = true

  unfoldable pub get_or : List A → ℕ → A → A
  get_or [] i d = d
  get_or (x ∷ xs) zero d = x
  get_or (x ∷ xs) (suc i) d = get_or xs i d

  unfoldable pub set : List A → ℕ → A → List A
  set [] i v = []
  set (x ∷ xs) zero v = v ∷ xs
  set (x ∷ xs) (suc i) v = x ∷ set xs i v
