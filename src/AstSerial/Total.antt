-- ===== src/AstSerial/Total.antt =====
-- compiler/ast_serial.py: `deserialize` ends on every input, well formed or not.
use nathra.Common.{
  ℕ, zero, suc, ◌≡◌, ◌≢◌, List, [], ◌∷◌, String, ℤ, pos, negsuc, arith, length, take, drop,
  length-drop, Bool-cases, inl, inr,
}
use nathra.Wire.Result.{
  Result, ok, err, bind, out_of_fuel, Error, unknown_field_kind, unknown_tag, bad_magic,
}
use nathra.Wire.Bytes.{Bytes}
use nathra.Wire.Monad.{Reader, ◌>>=◌, pure, read_slice}
use nathra.Wire.Utf8.{PyStr, decode}
use nathra.Wire.Utf8.Total.{decode-ends}
use nathra.Wire.Total.{
  Settles, returned, raised, Total, Settles-ne, Total-bind, Total-pure, Total-fail, Total-map,
  Total-if, Total-u8, Total-u8_first, Total-u8_none, Total-u16, Total-i32, Total-i64, Total-f64,
  Total-slice,
}
use nathra.AstSerial.Value.{Value, none_value, nil, cons, list, str, end}
use nathra.AstSerial.Reader.{
  decode_str, read_str, read_times, read_count, read_field_of, read_field, set_fields, read_ops,
  read_constant_of, read_constant,
}
use nathra.AstSerial.ReadNode.{
  read_part_fields, read_expr_fields, read_fields, read_node, deserialize, same_bytes, mpya,
}

decode_str-Total : (n : ℕ) (bytes : Bytes) → Total n (decode_str bytes)
unfolding decode_str
decode_str-Total n bytes = record { settles = λ rest l. go rest (decode bytes) (decode-ends bytes) }
  where
    go :
        (rest : Bytes) (r : Result PyStr)
        → r ≢ err out_of_fuel
        → Settles (length rest) (bind r λ s. ok (str s, rest))
    go rest (ok s) h = returned (omega arith)
    go rest (err e) h = raised (λ q. h (err_of q))
      where
        err_of : {e' : Error} → e ≡ e' → ◌≡◌ {A = Result PyStr} (err e) (err e')
        err_of p = cc

read_str-Total : (n : ℕ) → Total n read_str
unfolding read_str
read_str-Total n = Total-bind _ Total-i32 next
  where
    next :
        (z : ℤ)
        → Total n (elim z [ negsuc _ ↦ pure none_value | pos k ↦ read_slice k >>= decode_str ])
    next (negsuc k) = Total-pure none_value
    next (pos k) = Total-bind _ (Total-slice k) (decode_str-Total n)

module _ (n : ℕ) (self : Reader Value) (h : Total n self) where
  read_times-Total : (count : ℕ) → Total n (read_times self count)
  unfolding read_times
  read_times-Total zero = Total-pure nil
  read_times-Total (suc count) = Total-bind _ h λ v. Total-map (cons v) (read_times-Total count)

  read_count-Total : (z : ℤ) → Total n (read_count self z)
  unfolding read_count
  read_count-Total (negsuc _) = Total-pure _
  read_count-Total (pos count) = Total-map list (read_times-Total count)

  read_field-Total : Total n (read_field self)
  unfolding read_field read_field_of
  read_field-Total = Total-bind _ Total-u8 λ kind. Total-if _ (Total-pure none_value) (
      Total-if _ h (
        Total-if _ (Total-bind _ Total-i32 read_count-Total) (
          Total-if _ (read_str-Total n) (
            Total-if _ (Total-map _ Total-i64) (
              Total-if _ (Total-map _ Total-f64) (
                Total-if _ (Total-map _ Total-u8) (
                  Total-if _ (Total-map _ Total-u8)
                    (Total-fail (unknown_field_kind kind) (cc)))))))))

  read_constant-Total : Total n (read_constant self)
  unfolding read_constant read_constant_of
  read_constant-Total = Total-bind _ Total-u8 λ kind.
      Total-if _ (Total-map _ h)
        (Total-if _ (Total-pure _) (Total-if _ (Total-pure _) (Total-pure _)))

read_ops-Total : (n : ℕ) → Total n read_ops
unfolding read_ops
read_ops-Total n =
    Total-bind _ Total-u8
      λ count. Total-map list (read_times-Total n _ (Total-map _ Total-u8) count)

-- Every reader of a list of fields is total.
abbrev AllTotal : ℕ → List (String × Reader Value) → Type 0
AllTotal n [] = Unit {0}
AllTotal n ((_, r) ∷ steps) = Total n r × AllTotal n steps

fields-Total :
    {n : ℕ} (steps : List (String × Reader Value)) → AllTotal n steps → Total n (set_fields steps)
unfolding set_fields
fields-Total [] h = Total-pure end
fields-Total ((k, r) ∷ steps) (h, t) = Total-bind _ h λ v. Total-map _ (fields-Total steps t)

module _ (n : ℕ) (self : Reader Value) (hs : Total n self) where
  hf : Total n (read_field self)
  hf = read_field-Total n self hs

  ops : Total n read_ops
  ops = read_ops-Total n

  part_fields-Total : (tag : ℕ) → Total n (read_part_fields self (read_field self) tag)
  unfolding read_part_fields
  part_fields-Total tag = Total-if _ (fields-Total _ (hf, (hf, (hf, tt)))) (
      Total-if _ (fields-Total _ (hs, (hf, tt))) (
        Total-if _ (fields-Total _ (hf, (hf, (hf, tt)))) (
          Total-if _ (fields-Total _ (hf, (hf, tt))) (
            Total-if _ (fields-Total _ (hf, (hf, tt))) (
              Total-if _ (fields-Total _ (hf, (hf, tt))) (
                Total-if _ (fields-Total _ (hf, (hf, tt))) (Total-fail (unknown_tag tag) (cc))))))))

  expr_fields-Total : (tag : ℕ) → Total n (read_expr_fields self (read_field self) tag)
  unfolding read_expr_fields
  expr_fields-Total tag = Total-if _ (read_constant-Total n _ hf) (
      Total-if _ (fields-Total _ (hf, tt)) (
        Total-if _ (fields-Total _ (hf, (hf, (hf, tt)))) (
          Total-if _ (fields-Total _ (hf, (hf, tt))) (
            Total-if _ (fields-Total _ (hf, (hf, tt))) (
              Total-if _ (fields-Total _ (hf, (hf, (hf, tt)))) (
                Total-if _ (fields-Total _ (hf, (hf, tt))) (
                  Total-if _ (fields-Total _ (hf, (hf, tt))) (
                    Total-if _ (fields-Total _ (hf, (ops, (hf, tt)))) (
                      Total-if _ (fields-Total _ (hf, (hf, (hf, tt)))) (
                        Total-if _ (fields-Total _ (hf, tt)) (
                          Total-if _ (fields-Total _ (hf, (hf, tt))) (
                            Total-if _ (fields-Total _ (hf, tt)) (
                              Total-if _ (fields-Total _ (hf, (hf, (hf, tt)))) (
                                Total-if _ (fields-Total _ (hf, (hf, tt)))
                                  (part_fields-Total tag)))))))))))))))

  fields_of-Total : (tag : ℕ) → Total n (read_fields self (read_field self) tag)
  unfolding read_fields
  fields_of-Total tag = Total-if _ (fields-Total _ (hf, tt)) (
      Total-if _ (fields-Total _ (hf, (hs, (hf, (hf, (hf, tt)))))) (
        Total-if _ (fields-Total _ (hf, (hf, (hf, (hf, (hf, tt)))))) (
          Total-if _ (fields-Total _ (hf, tt)) (
            Total-if _ (fields-Total _ (hf, tt)) (
              Total-if _ (fields-Total _ (hf, tt)) (
                Total-if _ (fields-Total _ (hf, (hf, (hf, tt)))) (
                  Total-if _ (fields-Total _ (hf, (hf, tt))) (
                    Total-if _ (fields-Total _ (hf, (hf, (hf, tt)))) (
                      Total-if _ (fields-Total _ (hf, (hf, tt))) (
                        Total-if _ (fields-Total _ (hf, (hf, tt))) (
                          Total-if _ (fields-Total _ (hf, (hf, (hf, tt)))) (
                            Total-if _ (fields-Total _ (hf, (hf, (hf, tt)))) (
                              Total-if _ (fields-Total _ (hf, (hf, tt))) (
                                Total-if _ (Total-pure end) (
                                  Total-if _ (fields-Total _ (hf, tt)) (
                                    Total-if _ (fields-Total _ (hf, (hf, tt))) (
                                      Total-if _ (fields-Total _ (hf, (hf, tt))) (
                                        Total-if _ (fields-Total _ (hf, (hf, (hf, tt)))) (
                                          Total-if _ (fields-Total _ (hf, tt)) (
                                            Total-if _ (fields-Total _ (hf, tt)) (
                                              Total-if _ (fields-Total _ (hf, (hf, tt)))
                                                (expr_fields-Total tag))))))))))))))))))))))

-- Fuel of one more than the bytes is enough.
read_node-Total : (n : ℕ) → Total n (read_node (suc n))
unfolding read_node
read_node-Total zero = Total-u8_none _
read_node-Total (suc n) = Total-u8_first _ λ tag.
    Total-bind _ Total-u16
      λ lineno. Total-map _ (fields_of-Total n (read_node (suc n)) (read_node-Total n) tag)

deserialize_of :
    (r : Result (Value × Bytes)) → r ≢ err out_of_fuel → bind r (λ (v, _). ok v) ≢ err out_of_fuel
deserialize_of (ok (v, rest)) h = cc
deserialize_of (err e) h = λ q. h (err_of (err_injective q))
  where
    err_injective : ◌≡◌ {A = Result Value} (err e) (err out_of_fuel) → e ≡ out_of_fuel
    err_injective p = cc

    err_of : e ≡ out_of_fuel → ◌≡◌ {A = Result (Value × Bytes)} (err e) (err out_of_fuel)
    err_of p = cc

-- The deserializer ends on every input, well formed or not: the fuel it is given is never spent.
pub deserialize-ends : (bytes : Bytes) → deserialize bytes ≢ err out_of_fuel
unfolding deserialize
deserialize-ends bytes = elim (Bool-cases (same_bytes (take 4 bytes) mpya)) [
  | inl e ↦ rw e (
      deserialize_of _
        (Settles-ne (whole.settles (drop 4 bytes) (omega (arith, length-drop 4 bytes)))))
  | inr e ↦ rw e bad
]
  where
    whole : Total (length bytes) (read_node (suc (length bytes)))
    whole = read_node-Total (length bytes)

    bad : ◌≢◌ {A = Result Value} (err (bad_magic (take 4 bytes))) (err out_of_fuel)
    bad = cc
