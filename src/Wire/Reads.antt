-- ===== src/Wire/Reads.antt =====
-- What it means that a reader reads back what a writer wrote, and the rules by which such facts
-- are put together. The bound on the length is what pays for the fuel of the node reader.
use nathra.Common.{
  ℕ, zero, suc, ◌<◌, ◌∷◌, ◌+◌, ◌≤◌, ◌^◌, ◌≡◌, refl, Bool, true, false, [], ◌++◌, append_assoc,
  append-nil, ap, subst, arith, ltb, ltb→lt, if◌then◌else◌, length, length-append, take-append,
  drop-append, ℤ, Bool-cases, inl, inr,
}
use nathra.Wire.Result.{struct_error, Result, Error, ok, err, bind, bind-eq-ok, ok-injective}
use nathra.Wire.Bytes.{
  Bytes, le_bytes, le_value, of_twos, length-le_bytes, le_value-le_bytes, of_twos-to_twos,
  to_twos-lt,
}
use nathra.Wire.Monad.{
  Put, Reader, ◌>>◌, ◌>>=◌, pure, write_u8, write_u16, write_i32, write_i64, write_f64, write_bytes,
  read_u8, read_exact, read_u16, read_i32, read_i64, read_f64, read_slice,
}

-- Whenever `p` writes at most `n` bytes, `r` takes exactly these and returns `a`.
pub record Reads {ℓ} {A : Type ℓ} (n : ℕ) (p : Put) (r : Reader A) (a : A) : Type ℓ where
  pub back :
      (bs : Bytes) → p ≡ ok bs → length bs ≤ n → (rest : Bytes) → r (bs ++ rest) ≡ ok (a, rest)

module _ {ℓ} {A : Type ℓ} where
  pub Reads-pure : {n : ℕ} {a : A} → Reads n (ok []) (pure a) a
  unfolding pure
  Reads-pure {a} = record { back = λ bs h _ rest. rw (← ok-injective h) }

  -- A reader of no bytes after the writer's last.
  pub Reads-map {κ} :
      {B : Type κ} {n : ℕ} {p : Put} {r : Reader A} {a : A} (g : A → B)
      → Reads n p r a
      → Reads n p (r >>= λ x. pure (g x)) (g a)
  unfolding ◌>>=◌ pure
  Reads-map g h = record { back = λ bs e k rest. rw (h.back bs e k rest) }

  pub Reads-seq {κ} :
      {B : Type κ} {n : ℕ} {p q : Put} {r : Reader A} {a : A} {b : B} (k : A → Reader B)
      → Reads n p r a
      → Reads n q (k a) b
      → Reads n (p >> q) (r >>= k) b
  unfolding ◌>>◌ ◌>>=◌
  Reads-seq {n} {p} {q} {r} {b} k first second = record {
    back = λ bs h bound rest.
        let (xs, hx, h₂) = bind-eq-ok p _ h in
        let (ys, hy, h₃) = bind-eq-ok q _ h₂ in
        let whole : length xs + length ys ≤ n = rw (← length-append xs ys, ok-injective h₃) bound in
        subst (λ z. bind (r (z ++ rest)) (λ (a, s). k a s) ≡ ok (b, rest)) (ok-injective h₃)
          (rw (append_assoc xs ys rest, first.back xs hx (omega arith) (ys ++ rest))
            (second.back ys hy (omega arith) rest));
  }

  pub Reads-weaken :
      {n m : ℕ} {p : Put} {r : Reader A} {a : A} → m ≤ n → Reads n p r a → Reads m p r a
  Reads-weaken le h = record { back = λ bs e k rest. h.back bs e (omega arith) rest }

  -- A fact about what is written may be used.
  pub Reads-if_ok :
      {n : ℕ} {p : Put} {r : Reader A} {a : A}
      → ((bs : Bytes) → p ≡ ok bs → Reads n p r a)
      → Reads n p r a
  Reads-if_ok h = record { back = λ bs e k rest. (h bs e).back bs e k rest }

module _ {ℓ} {A : Type ℓ} where
  -- After the writer's last byte the reader only computes.
  pub Reads-then {κ} :
      {B : Type κ} {n : ℕ} {p : Put} {r : Reader A} {a : A} {b : B} (k : A → Reader B)
      → Reads n p r a
      → ((rest : Bytes) → k a rest ≡ ok (b, rest))
      → Reads n p (r >>= k) b
  unfolding ◌>>=◌
  Reads-then k h done = record { back = λ bs e l rest. rw (h.back bs e l rest) (done rest) }

  -- What the writer computed first may be taken as computed.
  pub Reads-computed {κ} :
      {X : Type κ} {n : ℕ} {r : Reader A} {a : A} (m : Result X) (f : X → Put)
      → ((x : X) → m ≡ ok x → Reads n (f x) r a)
      → Reads n (bind m f) r a
  Reads-computed (ok x) f h = h x refl
  Reads-computed (err e) f h = record { back = λ bs q _ rest. cc }

  -- A writer that fails is read back by anything.
  pub Reads-err : {n : ℕ} {r : Reader A} {a : A} {e : Error} → Reads n (err e) r a
  Reads-err = record { back = λ bs q _ rest. cc }

pub >>-nil : (p : Put) → p >> ok [] ≡ p
unfolding ◌>>◌
>>-nil (ok bs) = ap ok (append-nil bs)
>>-nil (err e) = refl

pub Reads-u8 : {n : ℕ} (v : ℕ) → Reads n (write_u8 v) read_u8 v
unfolding write_u8 read_u8
Reads-u8 v = record {
  back = λ bs h _ rest. elim (Bool-cases (ltb v 256)) [
    | inl e ↦ rw (← ok-injective (rw e at h))
    | inr e ↦ absurd (no_write _ e h)
  ];
}
  where
    no_write : (bs : Bytes) → ltb v 256 ≡ false → write_u8 v ≡ ok bs → ⊥
    no_write bs e h = ground arith

read_exact-append :
    (e : Error) (n : ℕ) (xs rest : Bytes)
    → length xs ≡ n
    → read_exact e n (xs ++ rest) ≡ ok (xs, rest)
unfolding read_exact
read_exact-append e n xs rest h =
    subst (λ m. read_exact e m (xs ++ rest) ≡ ok (xs, rest)) h
      (rw (long, take-append xs rest, drop-append xs rest))
  where
    long : ltb (length (xs ++ rest)) (length xs) ≡ false
    long = ground (arith, length-append xs rest)

-- The packed numbers: `n` bytes that a test guards, decoded by `g`.
Reads-packed {ℓ} :
    {A : Type ℓ} {m : ℕ} (short : Error) (n v : ℕ) (fits : Bool) (e : Error) (g : ℕ → A) {a : A}
    → (fits ≡ true → g (le_value (le_bytes n v)) ≡ a)
    → Reads m
        (if fits then ok (le_bytes n v) else err e)
        (read_exact short n >>= λ bs. pure (g (le_value bs)))
        a
unfolding ◌>>=◌ pure
Reads-packed short n v true e g back = record {
  back = λ bs h _ rest. rw (
    ← ok-injective h,
    read_exact-append short n (le_bytes n v) rest (length-le_bytes n v),
    back refl,
  );
}
Reads-packed short n v false e g back = record { back = λ bs h _ rest. cc }

-- `short` is what the reader does when bytes are missing, which never shows here.
module _ (short : Error) {n : ℕ} where
  pub Reads-two :
      (v : ℕ) → Reads n (write_u16 v) (read_exact short 2 >>= λ bs. pure (le_value bs)) v
  unfolding write_u16
  Reads-two v = Reads-packed short 2 v _ _ (λ x. x) (λ h. le_value-le_bytes 2 v (ltb→lt _ _ h))

  pub Reads-eight :
      (v : ℕ) → Reads n (write_f64 v) (read_exact short 8 >>= λ bs. pure (le_value bs)) v
  unfolding write_f64
  Reads-eight v = Reads-packed short 8 v _ _ (λ x. x) (λ h. le_value-le_bytes 8 v (ltb→lt _ _ h))

  pub Reads-signed_four :
      (v : ℤ)
      → Reads n
          (write_i32 v)
          (read_exact short 4 >>= λ bs. pure (of_twos (2 ^ 31 + 2 ^ 31) (le_value bs)))
          v
  unfolding write_i32
  Reads-signed_four v =
      Reads-packed short 4 _ _ _ (of_twos (2 ^ 31 + 2 ^ 31))
        λ h. rw (le_value-le_bytes 4 _ (to_twos-lt (2 ^ 31) v h)) (of_twos-to_twos (2 ^ 31) v h)

  pub Reads-signed_eight :
      (v : ℤ)
      → Reads n
          (write_i64 v)
          (read_exact short 8 >>= λ bs. pure (of_twos (2 ^ 63 + 2 ^ 63) (le_value bs)))
          v
  unfolding write_i64
  Reads-signed_eight v =
      Reads-packed short 8 _ _ _ (of_twos (2 ^ 63 + 2 ^ 63))
        λ h. rw (le_value-le_bytes 8 _ (to_twos-lt (2 ^ 63) v h)) (of_twos-to_twos (2 ^ 63) v h)

  pub Reads-one : (v : ℕ) → Reads n (write_u8 v) (read_exact short 1 >>= λ bs. pure (le_value bs)) v
  unfolding write_u8 le_bytes
  Reads-one v =
      rw (one v) (Reads-packed short 1 v _ _ (λ x. x) (λ h. le_value-le_bytes 1 v (in_byte h)))
    where
      in_byte : ltb v 256 ≡ true → v < 256 ^ 1
      in_byte h = ltb→lt _ _ h

      one :
          (w : ℕ)
          → (if ltb w 256 then ok (w ∷ []) else err struct_error)
            ≡ (if ltb w 256 then ok (le_bytes 1 w) else err struct_error)
      one w = ground arith

  pub Reads-exact : (xs : Bytes) → Reads n (write_bytes xs) (read_exact short (length xs)) xs
  unfolding write_bytes
  Reads-exact xs = record {
    back = λ bs h _ rest. rw (← ok-injective h, read_exact-append short (length xs) xs rest refl);
  }

pub Reads-u16 : {n : ℕ} (v : ℕ) → Reads n (write_u16 v) read_u16 v
unfolding read_u16
Reads-u16 v = Reads-two struct_error v

pub Reads-f64 : {n : ℕ} (v : ℕ) → Reads n (write_f64 v) read_f64 v
unfolding read_f64
Reads-f64 v = Reads-eight struct_error v

pub Reads-i32 : {n : ℕ} (v : ℤ) → Reads n (write_i32 v) read_i32 v
unfolding read_i32
Reads-i32 v = Reads-signed_four struct_error v

pub Reads-i64 : {n : ℕ} (v : ℤ) → Reads n (write_i64 v) read_i64 v
unfolding read_i64
Reads-i64 v = Reads-signed_eight struct_error v

pub Reads-bytes : {n : ℕ} (xs : Bytes) → Reads n (write_bytes xs) (read_slice (length xs)) xs
unfolding write_bytes read_slice
Reads-bytes xs = record {
  back = λ bs h _ rest. rw (← ok-injective h, take-append xs rest, drop-append xs rest);
}

length-write_u8 : (v : ℕ) (bs : Bytes) → write_u8 v ≡ ok bs → length bs ≡ 1
unfolding write_u8
length-write_u8 v bs h = elim (Bool-cases (ltb v 256)) [
  | inl e ↦ subst (λ xs. length xs ≡ 1) (ok-injective (rw e at h)) refl
  | inr e ↦ absurd (no_write e h)
]
  where
    no_write : ltb v 256 ≡ false → write_u8 v ≡ ok bs → ⊥
    no_write e h' = ground arith

pub >>-assoc : (p q r : Put) → p >> q >> r ≡ p >> (q >> r)
unfolding ◌>>◌
>>-assoc (ok a) (ok b) (ok c) = ap ok (append_assoc a b c)
>>-assoc (ok a) (ok b) (err e) = refl
>>-assoc (ok a) (err e) r = refl
>>-assoc (err e) q r = refl

-- A leading byte leaves one byte less to what follows it.
u8-tail :
    (v n : ℕ) (q : Put) (bs : Bytes)
    → (write_u8 v >> q) ≡ ok bs
    → length bs ≤ n
    → (xs : Bytes) × (ys : Bytes) × (write_u8 v ≡ ok xs)
      × (q ≡ ok ys)
      × (xs ++ ys ≡ bs)
      × (suc (length ys) ≤ n)
unfolding ◌>>◌
u8-tail v n q bs h bound =
    let (xs, hx, h₂) = bind-eq-ok (write_u8 v) _ h in
    let (ys, hy, h₃) = bind-eq-ok q _ h₂ in
    let e : xs ++ ys ≡ bs = ok-injective h₃ in
    let whole : length xs + length ys ≤ n = rw (← length-append xs ys, e) bound in
    let one : length xs ≡ 1 = length-write_u8 v xs hx in (xs, ys, hx, hy, e, omega arith)

module _ {ℓ} {A : Type ℓ} where
  pub Reads-u8_first :
      {n v : ℕ} {q : Put} {r : Reader ℕ} {b : A} (k : ℕ → Reader A)
      → Reads (suc n) (write_u8 v) r v
      → Reads n q (k v) b
      → Reads (suc n) (write_u8 v >> q) (r >>= k) b
  unfolding ◌>>=◌
  Reads-u8_first {n} {v} {q} {r} {b} k first h = record {
    back = λ bs e bound rest.
        let (xs, ys, hx, hy, whole, l) = u8-tail v (suc n) q bs e bound in
        let one : length xs ≡ 1 = length-write_u8 v xs hx in
        subst (λ z. bind (r (z ++ rest)) (λ (a, s). k a s) ≡ ok (b, rest)) whole
          (rw (append_assoc xs ys rest, first.back xs hx (omega arith) (ys ++ rest))
            (h.back ys hy (omega arith) rest));
  }

  pub Reads-u8_none : {r : Reader A} {b : A} (v : ℕ) (q : Put) → Reads zero (write_u8 v >> q) r b
  Reads-u8_none v q = record {
    back = λ bs e bound rest. absurd (omega (arith, (u8-tail v zero q bs e bound).5));
  }
