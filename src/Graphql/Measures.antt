-- ===== src/Graphql/Measures.antt =====
-- What a document costs and how deep it is, by recursion on its selections, and that the walk of
-- src/graphql.rs computes it.
pub mod Steps
pub mod Walked
pub mod Documents
use ferroada.Prelude.{
  ℕ, zero, suc, ◌+◌, ◌-◌, ◌*◌, ◌^◌, ◌≤◌, ◌<◌, ltb, min, max, List, [], ◌∷◌, Bool, true, false, ◌||◌,
  Option, none, some, Result, ok, err, ◌≡◌, refl, sym, ap, ◌∙◌, subst, arith, Bool-cases,
  Option-cases, inl, inr, bind-eq-ok, if◌then◌else◌,
}
use ferroada.Text.{Text, text_eq}
use ferroada.DashMap.{get}
use ferroada.Graphql.Document.{
  Arguments, Selection, SelectionSet, leaf, parent, spread, inline, done, cons, ℤ,
}
use ferroada.Graphql.Walk.{
  Stats, WalkEnv, WalkFail, Expand, walk, walk_set, walk_items, walk_item, walk_spread, enter,
  multiply, count_field, list_multiplier, is_introspection, saturating, has_seen, best_of, is_sized,
  positive, value_of,
}

pub record Measure : Type 0 where
  pub cost : ℕ
  pub height : ℕ
  pub aliases : ℕ
  pub introspects : Bool

abbrev pub nothing : Measure
nothing = record { cost = 0; height = 0; aliases = 0; introspects = false }

abbrev pub both : Measure → Measure → Measure
both m n = record {
  cost = m.cost + n.cost;
  height = max m.height n.height;
  aliases = m.aliases + n.aliases;
  introspects = m.introspects || n.introspects;
}

abbrev pub field_measure : Bool → Text → Measure
field_measure alias name = record {
  cost = 1;
  height = 0;
  aliases = if alias then 1 else 0;
  introspects = is_introspection name;
}

-- Each element of a list costs what the selection costs.
abbrev pub within : ℕ → Measure → Measure
within times m = record m { cost = times * m.cost; height = suc m.height }

unfoldable mutual
  pub measure_items : WalkEnv → (Text → Measure) → SelectionSet → Measure
  measure_items env of_fragment done = nothing
  measure_items env of_fragment (cons item items) =
      both (measure_item env of_fragment item) (measure_items env of_fragment items)

  pub measure_item : WalkEnv → (Text → Measure) → Selection → Measure
  measure_item env of_fragment (leaf alias name args) = field_measure alias name
  measure_item env of_fragment (parent alias name args child) = both (field_measure alias name) (
      within (list_multiplier args env.variables env.default_list)
        (measure_items env of_fragment child))
  measure_item env of_fragment (spread name) = of_fragment name
  measure_item env of_fragment (inline child) = measure_items env of_fragment child

abbrev pub of_named : WalkEnv → (SelectionSet → Measure) → Text → Measure
of_named env of_set name = elim (get env.fragments name) [ none ↦ nothing | some set ↦ of_set set ]

-- With fragments in place, `fuel` deep.
unfoldable pub measure : ℕ → WalkEnv → SelectionSet → Measure
unfolding measure_items
measure zero env set = measure_items env (of_named env (λ child. nothing)) set
measure (suc fuel) env set = measure_items env (of_named env (measure fuel env)) set

-- What a walk at the depth `d` adds.
pub record Adds (env : WalkEnv) (m : Measure) (d : ℕ) (s t : Stats) : Type 0 where
  pub cost : t.complexity ≡ s.complexity + m.cost
  pub depth : t.depth ≡ max s.depth (d + m.height)
  pub aliases : t.aliases ≡ saturating 32 (s.aliases + m.aliases)
  pub introspection : t.introspection ≡ (s.introspection || m.introspects)
  pub cheap : s.complexity ≤ env.complexity_cap → t.complexity ≤ env.complexity_cap
  pub shallow : d + m.height ≤ env.depth_cap

pub record Entered (env : WalkEnv) (d : ℕ) (s : Stats) : Type 0 where
  pub reached : d ≤ s.depth
  pub allowed : d ≤ env.depth_cap
  pub counted : s.aliases < 2 ^ 32

-- Of all operations, each of which is one deep.
abbrev pub deeper : Measure → Measure
deeper m = record m { height = suc m.height }

unfoldable pub totals : ℕ → WalkEnv → List SelectionSet → Measure
unfolding measure
totals fuel env [] = nothing
totals fuel env (operation ∷ operations) =
    both (deeper (measure fuel env operation)) (totals fuel env operations)
