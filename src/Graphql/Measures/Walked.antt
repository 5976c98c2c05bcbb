-- ===== src/Graphql/Measures/Walked.antt =====
-- The walk of src/graphql.rs computes the measures of a document.
use ferroada.Prelude.{
  ℕ, zero, suc, ◌-◌, ◌^◌, ◌<◌, List, ◌∷◌, ok, err, ◌≡◌, sym, subst, arith, Bool-cases, Option-cases,
  inl, inr, bind-eq-ok, ok-injective, ◌>>=◌,
}
use ferroada.Text.{Text, text_eq}
use ferroada.DashMap.{get}
use ferroada.Graphql.Document.{Selection, SelectionSet, leaf, parent, spread, inline, done, cons}
use ferroada.Graphql.Walk.{
  Stats, WalkEnv, WalkFail, Expand, walk, walk_set, walk_items, walk_item, walk_spread, enter,
  multiply, count_field, list_multiplier, has_seen,
}
use ferroada.Graphql.Measures.{
  Measure, nothing, field_measure, within, Adds, Entered, measure_items, measure_item, of_named,
  measure,
}
use ferroada.Graphql.Measures.Steps.{
  count_field-Adds, enter-Entered, enter-same, Adds-both, Adds-Entered, parent-Adds, enter-Adds,
  Adds-nothing,
}

abbrev IsSound : WalkEnv → Expand → (SelectionSet → Measure) → Type 0
IsSound env expand of_set =
    (set : SelectionSet) (d : ℕ) (stack : List Text) (s t : Stats)
    → s.aliases < 2 ^ 32
    → expand set d stack s ≡ ok t
    → Adds env (of_set set) d s t

module _ (env : WalkEnv) (small : env.complexity_cap < 2 ^ 64 - 1) (expand : Expand)
    (of_set : SelectionSet → Measure) (sound : IsSound env expand of_set) where
  spread-Adds :
      (name : Text) (d : ℕ) (stack : List Text) (s t : Stats)
      → s.aliases < 2 ^ 32
      → walk_spread env expand name d stack s ≡ ok t
      → Adds env (of_named env of_set name) d s t
  unfolding walk_spread
  spread-Adds name d stack s t h e = elim (Bool-cases (has_seen stack name)) [
    | inl seen ↦ absurd (ground (arith, e, seen))
    | inr fresh ↦ elim (Option-cases (get env.fragments name)) [
      | inl absent ↦ absurd (ground (arith, e, fresh, absent))
      | inr (fragment, there) ↦
          let inner : expand fragment d (name ∷ stack) s ≡ ok t = ground (arith, e, fresh, there) in
          let same : of_named env of_set name ≡ of_set fragment = ground (arith, there) in
          subst (λ m. Adds env m d s t) (sym same) (sound fragment d (name ∷ stack) s t h inner)
    ]
  ]

  mutual
    unfolding walk_items measure_items

    items-Adds :
        (set : SelectionSet) (d : ℕ) (stack : List Text) (s t : Stats)
        → Entered env d s
        → walk_items env expand set d stack s ≡ ok t
        → Adds env (measure_items env (of_named env of_set) set) d s t
    items-Adds done d stack s t h e =
        subst (λ u. Adds env nothing d s u) (ok-injective e) (Adds-nothing env small d s h)
    items-Adds (cons item items) d stack s t h e =
        let first =
          bind-eq-ok (walk_item env expand item d stack s)
            (λ s₁. walk_items env expand items d stack s₁) e in
        let one = item-Adds item d stack s first.0 h first.1 in
        Adds-both env small (measure_item env (of_named env of_set) item)
          (measure_items env (of_named env of_set) items) d s first.0 t one
          (items-Adds items d stack first.0 t
            (Adds-Entered env small (measure_item env (of_named env of_set) item) d s first.0 h one)
            first.2)

    item-Adds :
        (item : Selection) (d : ℕ) (stack : List Text) (s t : Stats)
        → Entered env d s
        → walk_item env expand item d stack s ≡ ok t
        → Adds env (measure_item env (of_named env of_set) item) d s t
    item-Adds (leaf alias name args) d stack s t h e =
        count_field-Adds env small alias name d s t h e
    item-Adds (parent alias name args child) d stack s t h e =
        let own =
          bind-eq-ok (count_field env alias name s)
            (λ s₁. enter env (suc d) s₁ >>= λ s₂.
              walk_items env expand child (suc d) stack s₂ >>= λ s₃.
              multiply env args s₁.complexity s₃)
            e in
        let entered =
          bind-eq-ok (enter env (suc d) own.0)
            (λ s₂. walk_items env expand child (suc d) stack s₂ >>= λ s₃.
              multiply env args own.0.complexity s₃)
            own.2 in
        let below =
          bind-eq-ok (walk_items env expand child (suc d) stack entered.0)
            (λ s₃. multiply env args own.0.complexity s₃) entered.2 in
        let counted = count_field-Adds env small alias name d s own.0 h own.1 in
        let still = Adds-Entered env small (field_measure alias name) d s own.0 h counted in
        let inside = enter-Entered env small (suc d) own.0 entered.0 still.counted entered.1 in
        Adds-both env small (field_measure alias name)
          (within (list_multiplier args env.variables env.default_list)
            (measure_items env (of_named env of_set) child))
          d s own.0 t counted
          (parent-Adds env small args (measure_items env (of_named env of_set) child) d own.0
            entered.0 below.0 t (enter-same env small (suc d) own.0 entered.0 entered.1) still
            (items-Adds child (suc d) stack entered.0 below.0 inside below.1) below.2)
    item-Adds (spread name) d stack s t h e = spread-Adds name d stack s t h.counted e
    item-Adds (inline child) d stack s t h e =
        let entered = bind-eq-ok (enter env d s) (λ s₁. walk_items env expand child d stack s₁) e in
        enter-Adds env small (measure_items env (of_named env of_set) child) d s entered.0 t
          entered.1
          (items-Adds child d stack entered.0 t
            (enter-Entered env small d s entered.0 h.counted entered.1) entered.2)

  walk_set-Adds :
      (set : SelectionSet) (d : ℕ) (stack : List Text) (s t : Stats)
      → s.aliases < 2 ^ 32
      → walk_set env expand set d stack s ≡ ok t
      → Adds env (measure_items env (of_named env of_set) set) d s t
  unfolding walk_set
  walk_set-Adds set d stack s t h e =
      let entered = bind-eq-ok (enter env d s) (λ s₁. walk_items env expand set d stack s₁) e in
      enter-Adds env small (measure_items env (of_named env of_set) set) d s entered.0 t entered.1 (
        items-Adds set d stack entered.0 t (enter-Entered env small d s entered.0 h entered.1)
          entered.2)

-- What a walk that succeeds adds to the statistics is the measure of the selection.
pub walk-Adds :
    (fuel : ℕ) (env : WalkEnv)
    → env.complexity_cap < 2 ^ 64 - 1
    → IsSound env (walk fuel env) (measure fuel env)
unfolding walk measure
walk-Adds zero env small =
    walk_set-Adds env small (λ fragment depth stack s. err WalkFail.out_of_fuel) (λ child. nothing)
      (λ set d stack s t h e. absurd (cc))
walk-Adds (suc fuel) env small =
    walk_set-Adds env small (walk fuel env) (measure fuel env) (walk-Adds fuel env small)
