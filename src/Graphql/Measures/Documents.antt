-- ===== src/Graphql/Measures/Documents.antt =====
-- The statistics of a whole document, as src/graphql.rs analyzes it.
use ferroada.Prelude.{
  ℕ, ◌-◌, ◌^◌, ◌≤◌, ◌<◌, List, [], ◌∷◌, Option, none, some, ok, ◌≡◌, arith, length, subst,
  ok-injective, bind-eq-ok,
}
use ferroada.Text.{Text}
use ferroada.Graphql.Document.{ℤ, SelectionSet, Document}
use ferroada.Graphql.Walk.{
  Stats, WalkEnv, walk, walk_all, analyze_document, env_of, no_stats, capped, hard_depth,
  hard_complexity, saturating,
}
use ferroada.Graphql.Measures.{Measure, Adds, deeper, totals, measure, nothing}
use ferroada.Graphql.Measures.Steps.{Adds-both, Adds-nothing}
use ferroada.Graphql.Measures.Walked.{walk-Adds}

deeper-Adds :
    (env : WalkEnv) (m : Measure) (s t : Stats) → Adds env m 1 s t → Adds env (deeper m) 0 s t
deeper-Adds env m s t a = record {
  cost = a.cost;
  depth = omega (arith, a.depth);
  aliases = a.aliases;
  introspection = a.introspection;
  cheap = a.cheap;
  shallow = omega (arith, a.shallow);
}

walk_all-Adds :
    (fuel : ℕ) (env : WalkEnv) (operations : List SelectionSet) (s t : Stats)
    → env.complexity_cap < 2 ^ 64 - 1
    → s.aliases < 2 ^ 32
    → walk_all fuel env operations s ≡ ok t
    → Adds env (totals fuel env operations) 0 s t
unfolding walk_all totals
walk_all-Adds fuel env [] s t small h e =
    subst (λ u. Adds env nothing 0 s u) (ok-injective e)
      (Adds-nothing env small 0 s
        (record { reached = omega arith; allowed = omega arith; counted = h }))
walk_all-Adds fuel env (operation ∷ operations) s t small h e =
    let first =
      bind-eq-ok (walk fuel env operation 1 [] s) (λ s₁. walk_all fuel env operations s₁) e in
    let one = walk-Adds fuel env small operation 1 [] s first.0 h first.1 in
    Adds-both env small (deeper (measure fuel env operation)) (totals fuel env operations) 0 s
      first.0 t (deeper-Adds env (measure fuel env operation) s first.0 one)
      (walk_all-Adds fuel env operations first.0 t small (omega (arith, one.aliases)) first.2)

capped-small : (max_complexity : Option ℕ) → capped max_complexity hard_complexity < 2 ^ 64 - 1
capped-small none = omega arith
capped-small (some n) = omega arith

-- An accepted document has the statistics of its measure, and these are within the limits.
pub record IsMeasured (m : Measure) (depth_cap complexity_cap : ℕ) (s : Stats) : Type 0 where
  pub complexity : s.complexity ≡ m.cost
  pub depth : s.depth ≡ m.height
  pub aliases : s.aliases ≡ saturating 32 m.aliases
  pub introspection : s.introspection ≡ m.introspects
  pub cheap : m.cost ≤ complexity_cap
  pub shallow : m.height ≤ depth_cap

-- The statistics of a document that `analyze_document` accepts are the measure of its operations with
-- the fragments in place: the cost of each selection times the size of its lists, the deepest nesting,
-- the number of aliases up to the range of 32 bits, and whether the schema is asked for. The cost and
-- the nesting are within the limits that are configured, and within 100,000 and 64.
pub analyze_document-IsMeasured :
    (document : Document) (variables : List (Text × ℤ)) (max_depth max_complexity : Option ℕ)
    (default_list : ℕ) (s : Stats)
    → analyze_document document variables max_depth max_complexity default_list ≡ ok s
    → IsMeasured
        (totals
          (length document.fragments)
          (env_of document variables max_depth max_complexity default_list)
          document.operations)
        (capped max_depth hard_depth)
        (capped max_complexity hard_complexity)
        s
unfolding analyze_document
analyze_document-IsMeasured document variables max_depth max_complexity default_list s e =
    let env = env_of document variables max_depth max_complexity default_list in
    let a =
      walk_all-Adds (length document.fragments) env document.operations no_stats s
        (capped-small max_complexity) (omega arith) e in
    record {
      complexity = omega (arith, a.cost);
      depth = omega (arith, a.depth);
      aliases = omega (arith, a.aliases);
      introspection = a.introspection;
      cheap = omega (arith, a.cost, a.cheap (omega arith));
      shallow = omega (arith, a.shallow);
    }
