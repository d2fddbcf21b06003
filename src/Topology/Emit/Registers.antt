-- ===== src/Topology/Emit/Registers.antt =====
-- compiler/topology.py, `generate_dispatch_header`: the functions that register the entries of the
-- dispatch table.
use nathra.Common.{
  codes, ℕ, ◌≡◌, refl, sym, ap, subst, ◌∙◌, inl, inr, true, List, [], ◌∷◌, ◌++◌, map, append_assoc,
}
use mathlib.Core.List.{Memᴰ}
use mathlib.Core.List.Memᴰ
use nathra.Topology.Names.{Name, nonempty}
use nathra.Topology.Plan.{DispatchEntry, BuildPlan, decimal, mangle}
use nathra.Topology.Emit.{
  by_cluster, registration, register_cluster, concat_map, declaration_lines, header_lines, join_by,
  newline, generate_dispatch_header,
}
use nathra.Topology.Emit.Groups.{entries_of, own_group, group_of-Memᴰ, entries_of-Memᴰ}

-- The C function that registers entries as those of a cluster.
abbrev pub assignment : DispatchEntry → Name
assignment e =
    codes "    nr_dispatch." ++ mangle e.name ++ codes " = " ++ mangle e.name ++ codes "_impl;"

unfoldable pub register_block : ℕ → List DispatchEntry → List Name
register_block c es =
    (codes "static inline void nr_dispatch_register_cluster_" ++ decimal c ++ codes "(void) {")
      ∷ map assignment es
    ++ codes "}" ∷ [] ∷ []

Memᴰ-nonempty : {e : DispatchEntry} (es : List DispatchEntry) → Memᴰ e es → nonempty es ≡ true
Memᴰ-nonempty [] m = absurd (Memᴰ.not-nil m)
Memᴰ-nonempty (x ∷ xs) m = refl

-- The lines stand together in the text.
abbrev pub Contains : List Name → List Name → Type 0
Contains lines block =
    (before : List Name) × ((after : List Name) × (lines ≡ before ++ (block ++ after)))

Contains-after :
    (front lines block : List Name) → Contains lines block → Contains (front ++ lines) block
Contains-after front lines block (before, (after, e)) = (
  front ++ before,
  (after, ap (λ l. front ++ l) e ∙ sym (append_assoc front before (block ++ after))),
)

Contains-before :
    (lines rest block : List Name) → Contains lines block → Contains (lines ++ rest) block
Contains-before lines rest block (before, (after, e)) = (
  before,
  (
    after ++ rest,
    ap (λ l. l ++ rest) e
        ∙ append_assoc before (block ++ after) rest
        ∙ ap (λ l. before ++ l) (append_assoc block after rest),
  ),
)

concat_map-Contains :
    (g : ℕ × List DispatchEntry) (groups : List (ℕ × List DispatchEntry))
    → Memᴰ g groups
    → Contains (concat_map register_cluster groups) (register_cluster g)
unfolding concat_map
concat_map-Contains g [] m = absurd (Memᴰ.not-nil m)
concat_map-Contains g (x ∷ xs) m = elim (Memᴰ.cases_cons m) [
  | inl q ↦ (
    [],
    (
      concat_map register_cluster xs,
      ap (λ y. register_cluster y ++ concat_map register_cluster xs) (sym q),
    ),
  )
  | inr t ↦ Contains-after (register_cluster x) _ _ (concat_map-Contains g xs t)
]

register_cluster-block :
    (c : ℕ) (es : List DispatchEntry) → register_cluster (c, es) ≡ register_block c es
unfolding register_cluster register_block registration
register_cluster-block c es = refl

header_lines-Contains :
    (table : List DispatchEntry) (block : List Name)
    → Contains (concat_map register_cluster (by_cluster table)) block
    → Contains (header_lines table) block
unfolding header_lines
header_lines-Contains table block h =
    Contains-before _ (codes "#endif /* NATHRA_DISPATCH_H */" ∷ [] ∷ []) block (
      Contains-after (declaration_lines table) _ block (
        Contains-after (codes "/* Registration — each .so calls this at load time */" ∷ []) _ block
          h))

header-nonempty :
    (plan : BuildPlan) (e : DispatchEntry)
    → Memᴰ e plan.dispatch_table
    → generate_dispatch_header plan ≡ join_by newline (header_lines plan.dispatch_table)
unfolding generate_dispatch_header
header-nonempty plan e m = rw (Memᴰ-nonempty plan.dispatch_table m) refl

-- For every entry of the dispatch table of a plan, the lines of the header have the C function that
-- registers exactly the entries of the cluster of the entry, under the number of that cluster and in
-- the order of the table; the entry is one of them.
pub generate_dispatch_header-registers :
    (plan : BuildPlan) (e : DispatchEntry)
    → Memᴰ e plan.dispatch_table
    → (lines : List Name) × ((generate_dispatch_header plan ≡ join_by newline lines)
        × (Contains lines
              (register_block e.source_cluster (entries_of e.source_cluster plan.dispatch_table))
            × Memᴰ e (entries_of e.source_cluster plan.dispatch_table)))
generate_dispatch_header-registers plan e m =
    let own_entries = entries_of-Memᴰ e plan.dispatch_table m in
    let table = plan.dispatch_table in
    let c = e.source_cluster in
    let same = own_group c table in
    let here =
      subst (λ es. Memᴰ (c, es) (by_cluster table)) same
        (group_of-Memᴰ c e (by_cluster table) (subst (λ es. Memᴰ e es) (sym same) own_entries)) in
    (
      header_lines table,
      (
        header-nonempty plan e m,
        (
          header_lines-Contains table _ (
              subst (Contains (concat_map register_cluster (by_cluster table)))
                (register_cluster-block c (entries_of c table))
                (concat_map-Contains (c, entries_of c table) (by_cluster table) here)),
          own_entries,
        ),
      ),
    )
