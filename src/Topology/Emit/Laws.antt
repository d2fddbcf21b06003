-- ===== src/Topology/Emit/Laws.antt =====
-- compiler/topology.py, the C text of a build plan: the fields of the dispatch table.
use nathra.Common.{ℕ, ◌≡◌, refl, ap, [], ◌∷◌, ◌++◌}
use nathra.Topology.Names.{Name, qualified}
use nathra.Topology.Plan.{mangle}
use nathra.Topology.Plan.Calls.{dispatch_entry}
use nathra.Topology.Emit.{table_field}

mangle-append : (a b : Name) → mangle (a ++ b) ≡ mangle a ++ mangle b
unfolding mangle
mangle-append [] b = refl
mangle-append (c ∷ a) b = cc (mangle-append a b)

pub ++_assoc : (a b c : Name) → (a ++ b) ++ c ≡ a ++ (b ++ c)
++_assoc [] b c = refl
++_assoc (x ∷ a) b c = ap (λ l. x ∷ l) (++_assoc a b c)

mangle-dotted : (a b : Name) → mangle (a ++ b'.' ∷ b) ≡ mangle a ++ b'_' ∷ mangle b
unfolding mangle
mangle-dotted a b = mangle-append a (b'.' ∷ b)

mangle-scored : (a b : Name) → mangle (a ++ b'_' ∷ b) ≡ mangle a ++ b'_' ∷ mangle b
unfolding mangle
mangle-scored a b = mangle-append a (b'_' ∷ b)

mangle-qualified :
    (m g f : Name) → mangle (qualified (m ++ b'_' ∷ g) f) ≡ mangle (qualified m (g ++ b'_' ∷ f))
mangle-qualified m g f =
    rw
      (
        mangle-dotted (m ++ b'_' ∷ g) f,
        mangle-scored m g,
        mangle-dotted m (g ++ b'_' ∷ f),
        mangle-scored g f,
      )
      (++_assoc (mangle m) (b'_' ∷ mangle g) (b'_' ∷ mangle f))

-- A function f of a module m_g and a function g_f of a module m get the same field of the struct of
-- the dispatch table, whatever their clusters and callers.
pub table_field-collision :
    (m g f : Name) (i j c d : ℕ)
    → table_field (dispatch_entry (qualified (m ++ b'_' ∷ g) f) i c)
      ≡ table_field (dispatch_entry (qualified m (g ++ b'_' ∷ f)) j d)
unfolding table_field
table_field-collision m g f i j c d = rw (mangle-qualified m g f) refl
