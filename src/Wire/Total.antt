-- ===== src/Wire/Total.antt =====
-- Readers that end: on an input of at most `n` bytes the outcome is a value and a rest no longer
-- than the input, or an exception of the program; never a loop of the model out of fuel.
use nathra.Common.{
  ℕ, zero, suc, ◌≤◌, ◌≢◌, Bool, true, false, [], ◌∷◌, arith, ltb, if◌then◌else◌, length,
  length-drop, Bool-cases, inl, inr,
}
use nathra.Wire.Result.{Result, Error, ok, err, bind, out_of_fuel, struct_error}
use nathra.Wire.Bytes.{Bytes}
use nathra.Wire.Monad.{
  when◌then◌otherwise◌, Reader, ◌>>=◌, pure, fail, read_u8, read_exact, read_u16, read_i32,
  read_i64, read_f64, read_slice,
}

pub data Settles {ℓ} {A : Type ℓ} (m : ℕ) : Result (A × Bytes) → Type ℓ where
  returned : {a : A} {rest : Bytes} → length rest ≤ m → Settles m (ok (a, rest))
  raised : {e : Error} → e ≢ out_of_fuel → Settles m (err e)

pub record Total {ℓ} {A : Type ℓ} (n : ℕ) (r : Reader A) : Type ℓ where
  pub settles : (bs : Bytes) → length bs ≤ n → Settles (length bs) (r bs)

Settles-wider {ℓ} :
    {A : Type ℓ} {m₁ m₂ : ℕ} {y : Result (A × Bytes)} → Settles m₁ y → m₁ ≤ m₂ → Settles m₂ y
Settles-wider (returned l) le = returned (omega arith)
Settles-wider (raised ne) le = raised ne

module _ {ℓ} {A : Type ℓ} where
  pub Settles-ne : {m : ℕ} {r : Result (A × Bytes)} → Settles m r → r ≢ err out_of_fuel
  Settles-ne (returned h) = cc
  Settles-ne (raised h) = λ e. h (cc)

  Settles-bind {κ} :
      {B : Type κ} (m : ℕ) {x : Result (A × Bytes)} (k : A → Reader B)
      → Settles m x
      → ((a : A) (rest : Bytes) → length rest ≤ m → Settles (length rest) (k a rest))
      → Settles m (bind x λ (a, rest). k a rest)
  Settles-bind m k (returned {a} {rest} h) next = Settles-wider (next a rest h) h
  Settles-bind m k (raised h) next = raised h

  pub Total-bind {κ} :
      {B : Type κ} {n : ℕ} {r : Reader A} (k : A → Reader B)
      → Total n r
      → ((a : A) → Total n (k a))
      → Total n (r >>= k)
  unfolding ◌>>=◌
  Total-bind k h next = record {
    settles = λ bs l.
        Settles-bind (length bs) k (h.settles bs l)
          (λ a rest le. let t = next a in t.settles rest (omega arith));
  }

  pub Total-pure : {n : ℕ} (a : A) → Total n (pure a)
  unfolding pure
  Total-pure a = record { settles = λ bs l. returned (omega arith) }

  pub Total-fail : {n : ℕ} (e : Error) → e ≢ out_of_fuel → Total n (fail {A = A} e)
  unfolding fail
  Total-fail e h = record { settles = λ bs l. raised h }

  pub Total-if :
      {n : ℕ} {x y : Reader A} (b : Bool)
      → Total n x
      → Total n y
      → Total n (when b then x otherwise y)
  unfolding when◌then◌otherwise◌
  Total-if true hx hy = hx
  Total-if false hx hy = hy

  -- A byte that is read is one byte less for what follows, and there may be none.
  pub Total-u8_first :
      {n : ℕ} (k : ℕ → Reader A) → ((v : ℕ) → Total n (k v)) → Total (suc n) (read_u8 >>= k)
  unfolding ◌>>=◌ read_u8
  Total-u8_first {n} k h = record { settles = λ bs l. first bs l }
    where
      first :
          (bs : Bytes) → length bs ≤ suc n → Settles (length bs) (bind (read_u8 bs) λ (a, s). k a s)
      first [] l = raised (cc)
      first (b ∷ bs) l = let t = h b in Settles-wider (t.settles bs (omega arith)) (omega arith)

  pub Total-u8_none : (k : ℕ → Reader A) → Total zero (read_u8 >>= k)
  unfolding ◌>>=◌ read_u8
  Total-u8_none k = record { settles = λ bs l. none_left bs l }
    where
      none_left :
          (bs : Bytes) → length bs ≤ zero → Settles (length bs) (bind (read_u8 bs) λ (a, s). k a s)
      none_left [] l = raised (cc)
      none_left (b ∷ bs) l = absurd (omega arith)

module _ {ℓ} {A : Type ℓ} where
  pub Total-map {κ} :
      {B : Type κ} {n : ℕ} {r : Reader A} (g : A → B) → Total n r → Total n (r >>= λ x. pure (g x))
  Total-map g h = Total-bind _ h λ x. Total-pure (g x)

pub Total-u8 : {n : ℕ} → Total n read_u8
unfolding read_u8
Total-u8 = record { settles = λ bs l. go bs }
  where
    go : (bs : Bytes) → Settles (length bs) (read_u8 bs)
    go [] = raised (cc)
    go (b ∷ bs) = returned (omega arith)

pub Total-slice : {n : ℕ} (k : ℕ) → Total n (read_slice k)
unfolding read_slice
Total-slice k = record { settles = λ bs l. returned (omega (arith, length-drop k bs)) }

pub Total-exact : {n : ℕ} (e : Error) (k : ℕ) → e ≢ out_of_fuel → Total n (read_exact e k)
unfolding read_exact
Total-exact e k ne = record {
  settles = λ bs l. elim (Bool-cases (ltb (length bs) k)) [
    | inl t ↦ rw t (raised ne)
    | inr t ↦ rw t (returned (omega (arith, length-drop k bs)))
  ];
}

pub Total-u16 : {n : ℕ} → Total n read_u16
unfolding read_u16
Total-u16 = Total-map _ (Total-exact struct_error 2 (cc))

pub Total-i32 : {n : ℕ} → Total n read_i32
unfolding read_i32
Total-i32 = Total-map _ (Total-exact struct_error 4 (cc))

pub Total-i64 : {n : ℕ} → Total n read_i64
unfolding read_i64
Total-i64 = Total-map _ (Total-exact struct_error 8 (cc))

pub Total-f64 : {n : ℕ} → Total n read_f64
unfolding read_f64
Total-f64 = Total-map _ (Total-exact struct_error 8 (cc))
