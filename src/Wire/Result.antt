-- ===== src/Wire/Result.antt =====
-- Outcomes of the serializer and the deserializer: a value or the exception that is raised.
use nathra.Common.{ℕ, String, List, ◌≡◌, refl}

pub data Error : Type 0 where
  -- `struct.error`: a number out of the range of its format, or too few bytes left
  struct_error : Error
  -- `IndexError` of `self.data[self.pos]`
  index_error : Error
  -- `UnicodeEncodeError` and `UnicodeDecodeError`
  unicode_error : Error
  -- the `ValueError`s, each with what its message shows
  unsupported_node : String → Error
  unknown_operator : Error
  unsupported_constant : Error
  unknown_field_kind : ℕ → Error
  unknown_tag : ℕ → Error
  bad_magic : List ℕ → Error
  -- an attribute that the value does not have
  attribute_error : Error
  -- the abort of the native reader past the end of its buffer
  read_past_end : Error
  -- no outcome of the program: a model's loop spent its fuel
  out_of_fuel : Error

pub data Result {ℓ} (A : Type ℓ) : Type ℓ where
  ok : A → Result A
  err : Error → Result A

abbrev pub bind {ℓ κ} : {A : Type ℓ} {B : Type κ} → Result A → (A → Result B) → Result B
bind (ok a) f = f a
bind (err e) f = err e

-- A run that ends well has run each of its parts well.
pub bind-eq-ok {ℓ κ} :
    {A : Type ℓ} {B : Type κ} (m : Result A) (f : A → Result B) {b : B}
    → bind m f ≡ ok b
    → (a : A) × (m ≡ ok a) × (f a ≡ ok b)
bind-eq-ok (ok a) f h = (a, refl, h)
bind-eq-ok (err e) f h = cc

pub ok-injective {ℓ} : {A : Type ℓ} {a b : A} → ok a ≡ ok b → a ≡ b
ok-injective h = cc
