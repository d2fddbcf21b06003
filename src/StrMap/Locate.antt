-- ===== src/StrMap/Locate.antt =====
-- The loops of native/src/strmap.py that look a key up, by the slot where `probe` meets the key.
use nathra.Common.{
  ℕ, zero, suc, ◌+◌, ◌-◌, ◌≡◌, refl, inl, inr, Bool-cases, Option, none, some, arith, ◌==◌,
  if◌then◌else◌,
}
use Prim.Native.Nat.{bit_and}
use nathra.Wire.Bytes.{Bytes}
use nathra.StrMap.Hash.{str_hash}
use nathra.StrMap.Probe.{Array, Probe, probe}
use nathra.StrMap.Table.{
  StrMap, null, view, mask, start, get_loop, strmap_get, has_loop, strmap_has, delete_slot,
  delete_loop, strmap_delete,
}
use nathra.StrMap.Set.{
  StrSet, set_view, has_key_loop, strset_has, delete_key, delete_key_loop, strset_delete,
}

-- The slot of a key; `none` if the probes do not meet it.
unfoldable pub locate : StrMap → Bytes → Option ℕ
locate m key = if m.count == 0 then none else probe (view m key) (mask m) m.cap (start m key)

unfoldable pub locate_key : StrSet → Bytes → Option ℕ
locate_key s key =
    if s.count == 0
    then none
    else probe (set_view s key) (s.cap - 1) s.cap (bit_and (str_hash key) (s.cap - 1))

get_loop-probe :
    (p : Array Probe) (values : Array ℕ) (mask n idx : ℕ)
    → get_loop p values mask n idx ≡ elim (probe p mask n idx) [ none ↦ null | some i ↦ values i ]
unfolding get_loop probe
get_loop-probe p values mask zero idx = refl
get_loop-probe p values mask (suc n) idx =
    let rest = get_loop-probe p values mask n (bit_and (idx + 1) mask) in grind (arith, rest)

has_loop-probe :
    (p : Array Probe) (mask n idx : ℕ)
    → has_loop p mask n idx ≡ elim (probe p mask n idx) [ none ↦ 0 | some _ ↦ 1 ]
unfolding has_loop probe
has_loop-probe p mask zero idx = refl
has_loop-probe p mask (suc n) idx =
    let rest = has_loop-probe p mask n (bit_and (idx + 1) mask) in grind (arith, rest)

delete_loop-probe :
    (m : StrMap) (p : Array Probe) (mask n idx : ℕ)
    → delete_loop m p mask n idx
      ≡ elim (probe p mask n idx) [ none ↦ (0, m) | some i ↦ (1, delete_slot m i) ]
unfolding delete_loop probe
delete_loop-probe m p mask zero idx = refl
delete_loop-probe m p mask (suc n) idx =
    let rest = delete_loop-probe m p mask n (bit_and (idx + 1) mask) in grind (arith, rest)

has_key_loop-probe :
    (p : Array Probe) (mask n idx : ℕ)
    → has_key_loop p mask n idx ≡ elim (probe p mask n idx) [ none ↦ 0 | some _ ↦ 1 ]
unfolding has_key_loop probe
has_key_loop-probe p mask zero idx = refl
has_key_loop-probe p mask (suc n) idx =
    let rest = has_key_loop-probe p mask n (bit_and (idx + 1) mask) in grind (arith, rest)

delete_key_loop-probe :
    (s : StrSet) (p : Array Probe) (mask n idx : ℕ)
    → delete_key_loop s p mask n idx
      ≡ elim (probe p mask n idx) [ none ↦ (0, s) | some i ↦ (1, delete_key s i) ]
unfolding delete_key_loop probe
delete_key_loop-probe s p mask zero idx = refl
delete_key_loop-probe s p mask (suc n) idx =
    let rest = delete_key_loop-probe s p mask n (bit_and (idx + 1) mask) in grind (arith, rest)

pub strmap_get-locate :
    (m : StrMap) (key : Bytes)
    → strmap_get m key ≡ elim (locate m key) [ none ↦ null | some i ↦ m.values i ]
unfolding strmap_get locate
strmap_get-locate m key = elim (Bool-cases (m.count == 0)) [
  | inl e ↦ rw e refl
  | inr e ↦ rw e (get_loop-probe (view m key) m.values (mask m) m.cap (start m key))
]

pub strmap_has-locate :
    (m : StrMap) (key : Bytes) → strmap_has m key ≡ elim (locate m key) [ none ↦ 0 | some _ ↦ 1 ]
unfolding strmap_has locate
strmap_has-locate m key = elim (Bool-cases (m.count == 0)) [
  | inl e ↦ rw e refl
  | inr e ↦ rw e (has_loop-probe (view m key) (mask m) m.cap (start m key))
]

pub strmap_delete-locate :
    (m : StrMap) (key : Bytes)
    → strmap_delete m key ≡ elim (locate m key) [ none ↦ (0, m) | some i ↦ (1, delete_slot m i) ]
unfolding strmap_delete locate
strmap_delete-locate m key = elim (Bool-cases (m.count == 0)) [
  | inl e ↦ rw e refl
  | inr e ↦ rw e (delete_loop-probe m (view m key) (mask m) m.cap (start m key))
]

pub strset_has-locate :
    (s : StrSet) (key : Bytes)
    → strset_has s key ≡ elim (locate_key s key) [ none ↦ 0 | some _ ↦ 1 ]
unfolding strset_has locate_key
strset_has-locate s key = elim (Bool-cases (s.count == 0)) [
  | inl e ↦ rw e refl
  | inr e ↦ rw e (has_key_loop-probe (set_view s key) (s.cap - 1) s.cap _)
]

pub strset_delete-locate :
    (s : StrSet) (key : Bytes)
    → strset_delete s key ≡ elim (locate_key s key) [ none ↦ (0, s) | some i ↦ (1, delete_key s i) ]
unfolding strset_delete locate_key
strset_delete-locate s key = elim (Bool-cases (s.count == 0)) [
  | inl e ↦ rw e refl
  | inr e ↦ rw e (delete_key_loop-probe s (set_view s key) (s.cap - 1) s.cap _)
]
