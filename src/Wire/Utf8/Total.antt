-- ===== src/Wire/Utf8/Total.antt =====
-- The decoder ends on every input: a round takes a byte at least.
use nathra.Common.{
  ℕ, zero, suc, ◌≤◌, ◌≡◌, ◌≢◌, Bool, true, false, [], ◌∷◌, arith, if◌then◌else◌, length,
}
use nathra.Wire.Result.{Result, ok, err, bind, out_of_fuel, unicode_error, Error}
use nathra.Wire.Bytes.{Bytes}
use nathra.Wire.Total.{Settles, returned, raised}
use nathra.Wire.Utf8.{
  PyStr, decode_char, decode_loop, decode, tail_one, tail_two, tail_three, accept_two, accept_three,
}

refused : {m : ℕ} → Settles {A = ℕ} m (err unicode_error)
refused = raised (cc)

Settles-if :
    {m : ℕ} {x y : Result (ℕ × Bytes)} (b : Bool)
    → Settles m x
    → Settles m y
    → Settles m (if b then x else y)
Settles-if true hx hy = hx
Settles-if false hx hy = hy

tail_one-Settles : (b : ℕ) (bs : Bytes) → Settles (length bs) (tail_one b bs)
unfolding tail_one
tail_one-Settles b [] = refused
tail_one-Settles b (x ∷ bs) = Settles-if _ (returned (omega arith)) (refused)

tail_two-Settles : (b : ℕ) (bs : Bytes) → Settles (length bs) (tail_two b bs)
unfolding tail_two accept_two
tail_two-Settles b [] = refused
tail_two-Settles b (x ∷ []) = refused
tail_two-Settles b (x ∷ y ∷ bs) =
    Settles-if _ (Settles-if _ (returned (omega arith)) (refused)) (refused)

tail_three-Settles : (b : ℕ) (bs : Bytes) → Settles (length bs) (tail_three b bs)
unfolding tail_three accept_three
tail_three-Settles b [] = refused
tail_three-Settles b (x ∷ []) = refused
tail_three-Settles b (x ∷ y ∷ []) = refused
tail_three-Settles b (x ∷ y ∷ z ∷ bs) =
    Settles-if _ (Settles-if _ (returned (omega arith)) (refused)) (refused)

decode_char-Settles : (b : ℕ) (bs : Bytes) → Settles (length bs) (decode_char b bs)
unfolding decode_char
decode_char-Settles b bs = Settles-if _ (returned (omega arith)) (
    Settles-if _ (refused) (
      Settles-if _ (tail_one-Settles b bs)
        (Settles-if _ (tail_two-Settles b bs) (Settles-if _ (tail_three-Settles b bs) (refused)))))

err-injective : {e e' : Error} → ◌≡◌ {A = Result PyStr} (err e) (err e') → e ≡ e'
err-injective p = cc

decode_round :
    (m fuel : ℕ) (x : Result (ℕ × Bytes))
    → Settles m x
    → m ≤ fuel
    → ((rest : Bytes) → length rest ≤ fuel → decode_loop fuel rest ≢ err out_of_fuel)
    → bind x (λ (c, rest). bind (decode_loop fuel rest) λ s. ok (c ∷ s)) ≢ err out_of_fuel
decode_round m fuel (ok (c, rest)) (returned l) le ih =
    λ e. ih rest (omega arith) (lost (decode_loop fuel rest) e)
  where
    lost : (y : Result PyStr) → bind y (λ s. ok (c ∷ s)) ≡ err out_of_fuel → y ≡ err out_of_fuel
    lost (ok s) h = cc
    lost (err e) h = h
decode_round m fuel (err e) (raised h) le ih = λ q. h (err-injective q)

decode_loop-ends :
    (fuel : ℕ) (bs : Bytes) → length bs ≤ fuel → decode_loop fuel bs ≢ err out_of_fuel
unfolding decode_loop
decode_loop-ends zero [] h = cc
decode_loop-ends (suc fuel) [] h = cc
decode_loop-ends zero (b ∷ bs) h = absurd (omega arith)
decode_loop-ends (suc fuel) (b ∷ bs) h =
    decode_round (length bs) fuel (decode_char b bs) (decode_char-Settles b bs) (omega arith)
      (decode_loop-ends fuel)

pub decode-ends : (bs : Bytes) → decode bs ≢ err out_of_fuel
unfolding decode
decode-ends bs = decode_loop-ends (length bs) bs (omega arith)
