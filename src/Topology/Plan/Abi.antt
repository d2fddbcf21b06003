-- ===== src/Topology/Plan/Abi.antt =====
-- compiler/topology.py, `_generate_abi_hashes`: what the hash of a library is and reads.
use nathra.Common.{
  ℕ, ◌*◌, ◌%◌, ◌^◌, ◌<◌, ◌≡◌, refl, sym, ap, subst, ◌∙◌, List, [], ◌∷◌, ◌++◌, arith,
}
use Prim.Native.Nat.{bit_xor}
use nathra.Wire.Result.{Result, ok, err, bind, bind-eq-ok, ok-injective}
use nathra.Wire.Bytes.{Bytes}
use nathra.Wire.Utf8.{encode, encode_char}
use nathra.Topology.Names.{Name}
use nathra.Topology.Types.{ModuleData}
use nathra.Topology.Plan.{SharedLibTarget, sorted}
use nathra.Topology.Plan.Calls.{fnv32, hash_names, export_names, abi_hash_of}

fnv32-append : (a b : Bytes) (h : ℕ) → fnv32 (a ++ b) h ≡ fnv32 b (fnv32 a h)
unfolding fnv32
fnv32-append [] b h = refl
fnv32-append (x ∷ a) b h = fnv32-append a b (bit_xor h x * 0x01000193 % 2 ^ 32)

fnv32-bound : (bs : Bytes) (h : ℕ) → h < 2 ^ 32 → fnv32 bs h < 2 ^ 32
unfolding fnv32
fnv32-bound [] h lt = lt
fnv32-bound (b ∷ bs) h lt = fnv32-bound bs (bit_xor h b * 0x01000193 % 2 ^ 32) (omega arith)

hash_names-bound : (xs : List Name) (h n : ℕ) → h < 2 ^ 32 → hash_names xs h ≡ ok n → n < 2 ^ 32
unfolding hash_names
hash_names-bound [] h n lt e = subst (λ k. k < 2 ^ 32) (ok-injective e) lt
hash_names-bound (x ∷ xs) h n lt e =
    let (bs, _, q) = bind-eq-ok (encode x) _ e in
    hash_names-bound xs (fnv32 bs h) n (fnv32-bound bs h lt) q

bind-same :
    {A B : Type 0} (m : Result A) (f g : A → Result B) → ((a : A) → f a ≡ g a) → bind m f ≡ bind m g
bind-same (ok a) f g e = e a
bind-same (err x) f g e = refl

bytes_assoc : (a b c : Bytes) → (a ++ b) ++ c ≡ a ++ (b ++ c)
bytes_assoc [] b c = refl
bytes_assoc (x ∷ a) b c = ap (λ l. x ∷ l) (bytes_assoc a b c)

-- The code of a text is that of its parts.
join_codes : (ca : Result Bytes) (cb : Result Bytes) → Result Bytes
join_codes ca cb = bind ca λ a. bind cb λ b. ok (a ++ b)

join_codes_assoc :
    (p q r : Result Bytes) → join_codes (join_codes p q) r ≡ join_codes p (join_codes q r)
unfolding join_codes
join_codes_assoc (err e) q r = refl
join_codes_assoc (ok a) (err e) r = refl
join_codes_assoc (ok a) (ok b) (err e) = refl
join_codes_assoc (ok a) (ok b) (ok c) = ap ok (bytes_assoc a b c)

encode-cons : (c : ℕ) (x : Name) → encode (c ∷ x) ≡ join_codes (encode_char c) (encode x)
unfolding encode join_codes
encode-cons c x = refl

encode-nil : encode [] ≡ ok []
unfolding encode
encode-nil = refl

join_codes-nil : (q : Result Bytes) → join_codes (ok []) q ≡ q
unfolding join_codes
join_codes-nil (ok b) = refl
join_codes-nil (err e) = refl

encode-append : (x y : Name) → encode (x ++ y) ≡ join_codes (encode x) (encode y)
encode-append [] y =
    sym (join_codes-nil (encode y)) ∙ ap (λ t. join_codes t (encode y)) (sym encode-nil)
encode-append (c ∷ x) y =
    encode-cons c (x ++ y)
    ∙ ap (join_codes (encode_char c)) (encode-append x y)
    ∙ sym (join_codes_assoc (encode_char c) (encode x) (encode y))
    ∙ ap (λ t. join_codes t (encode y)) (sym (encode-cons c x))

unfoldable pub concat : List Name → Name
concat [] = []
concat (x ∷ xs) = x ++ concat xs

-- The hash of names is that of the code of their text.
hash_code : Result Bytes → ℕ → Result ℕ
hash_code code h = bind code λ bs. ok (fnv32 bs h)

hash_code-join :
    (p q : Result Bytes) (h : ℕ)
    → bind p (λ bs. hash_code q (fnv32 bs h)) ≡ hash_code (join_codes p q) h
unfolding hash_code join_codes
hash_code-join (err e) q h = refl
hash_code-join (ok a) (err e) h = refl
hash_code-join (ok a) (ok b) h = ap ok (sym (fnv32-append a b h))

hash_names-concat : (xs : List Name) (h : ℕ) → hash_names xs h ≡ hash_code (encode (concat xs)) h
unfolding hash_names concat hash_code fnv32
hash_names-concat [] h = ap (λ t. hash_code t h) (sym encode-nil)
hash_names-concat (x ∷ xs) h =
    bind-same (encode x) _ _ (λ bs. hash_names-concat xs (fnv32 bs h))
    ∙ hash_code-join (encode x) (encode (concat xs)) h
    ∙ ap (λ t. hash_code t h) (sym (encode-append x (concat xs)))

-- The ABI hash of a library reads only the text of its sorted export names together: two states of
-- the modules whose names make the same text, split into names differently, have the same hash.
pub abi_hash_of-concat :
    (ms ms' : List ModuleData) (lib : SharedLibTarget)
    → concat (sorted (export_names ms lib.modules)) ≡ concat (sorted (export_names ms' lib.modules))
    → abi_hash_of ms lib ≡ abi_hash_of ms' lib
unfolding abi_hash_of
abi_hash_of-concat ms ms' lib e =
    hash_names-concat (sorted (export_names ms lib.modules)) 0x811c9dc5
    ∙ ap (λ t. hash_code (encode t) 0x811c9dc5) e
    ∙ sym (hash_names-concat (sorted (export_names ms' lib.modules)) 0x811c9dc5)

pub abi_hash_of-bound :
    (ms : List ModuleData) (lib : SharedLibTarget) (h : ℕ) → abi_hash_of ms lib ≡ ok h → h < 2 ^ 32
unfolding abi_hash_of
abi_hash_of-bound ms lib h e =
    hash_names-bound (sorted (export_names ms lib.modules)) 0x811c9dc5 h (omega arith) e
