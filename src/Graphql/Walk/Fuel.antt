-- ===== src/Graphql/Walk/Fuel.antt =====
-- The walk of src/graphql.rs ends: a fragment is never within itself, so that no more of them stand within
-- each other than the document has.
use ferroada.Prelude.{
  ℕ, zero, suc, ◌+◌, ◌≤◌, List, [], ◌∷◌, length, All, Bool, true, false, Option, list_eq, Result,
  ok, err, ◌>>=◌, ◌≡◌, ◌≢◌, refl, arith, Bool-cases, Option-cases, inl, inr, ap,
}
use ferroada.Text.{Text, text_eq, text_eq_iff}
use ferroada.DashMap.{DashMap, get, has, remove, len}
use ferroada.DashMap.Laws.{len-remove, get-has}
use ferroada.Graphql.Document.{
  ℤ, Selection, SelectionSet, Document, leaf, parent, spread, inline, done, cons, Arguments,
}
use ferroada.Graphql.Walk.{
  Stats, WalkEnv, WalkFail, Expand, walk, walk_set, walk_items, walk_item, walk_spread, walk_all,
  enter, multiply, count_field, has_seen, analyze_document, env_of, no_stats,
}

abbrev AreDistinct : List Text → Type 0
AreDistinct [] = Unit
AreDistinct (x ∷ xs) = (has_seen xs x ≡ false) × AreDistinct xs

abbrev AreKeys : DashMap Text SelectionSet → List Text → Type 0
AreKeys m xs = All (λ x. has m x ≡ true) xs

has-remove_other :
    (m : DashMap Text SelectionSet) (k j : Text)
    → list_eq j k ≡ false
    → has m j ≡ true
    → has (remove m k) j ≡ true
unfolding has remove
has-remove_other [] k j e h = h
has-remove_other ((i, v) ∷ m) k j e h = elim (Bool-cases (list_eq i k)) [
  | inl gone ↦ ground (arith, gone, h, e, text_eq_iff i k, text_eq_iff i j, text_eq_iff j k)
  | inr kept ↦ ground (arith, kept, h, has-remove_other m k j e)
]

keys_left :
    (m : DashMap Text SelectionSet) (k : Text) (xs : List Text)
    → has_seen xs k ≡ false
    → AreKeys m xs
    → AreKeys (remove m k) xs
keys_left m k [] e h = tt
keys_left m k (x ∷ xs) e h =
    (has-remove_other m k x (ground (arith, e)) h.0, keys_left m k xs (ground (arith, e)) h.1)

-- Distinct keys are not more than the map has.
length-le-len :
    (xs : List Text) (m : DashMap Text SelectionSet)
    → AreDistinct xs
    → AreKeys m xs
    → length xs ≤ len m
length-le-len [] m d h = omega arith
length-le-len (x ∷ xs) m d h =
    omega (arith, len-remove m x h.0, length-le-len xs (remove m x) d.1 (keys_left m x xs d.0 h.1))

-- A chain runs out where one of its steps does.
bind-ne :
    {A B : Type 0} (r : Result WalkFail A) (next : A → Result WalkFail B)
    → r ≢ err WalkFail.out_of_fuel
    → ((x : A) → r ≡ ok x → next x ≢ err WalkFail.out_of_fuel)
    → (r >>= next) ≢ err WalkFail.out_of_fuel
bind-ne (ok x) next h k e = k x refl e
bind-ne (err f) next h k e = let same : f ≡ WalkFail.out_of_fuel = cc in h (ap err same)

count_field-ends :
    (env : WalkEnv) (alias : Bool) (name : Text) (s : Stats)
    → count_field env alias name s ≢ err WalkFail.out_of_fuel
unfolding count_field
count_field-ends env alias name s e = ground (arith, e)

multiply-ends :
    (env : WalkEnv) (args : Arguments) (before : ℕ) (s : Stats)
    → multiply env args before s ≢ err WalkFail.out_of_fuel
unfolding multiply
multiply-ends env args before s e = ground (arith, e)

enter-ends : (env : WalkEnv) (d : ℕ) (s : Stats) → enter env d s ≢ err WalkFail.out_of_fuel
unfolding enter
enter-ends env d s e = ground (arith, e)

-- With at least `least` fragments around, an expansion ends.
abbrev Ends : WalkEnv → ℕ → Expand → Type 0
Ends env least expand =
    (set : SelectionSet) (d : ℕ) (stack : List Text) (s : Stats)
    → AreDistinct stack
    → AreKeys env.fragments stack
    → least ≤ length stack
    → expand set d stack s ≢ err WalkFail.out_of_fuel

module _ (env : WalkEnv) (least : ℕ) (expand : Expand) (ends : Ends env (suc least) expand) where
  spread-ends :
      (name : Text) (d : ℕ) (stack : List Text) (s : Stats)
      → AreDistinct stack
      → AreKeys env.fragments stack
      → least ≤ length stack
      → walk_spread env expand name d stack s ≢ err WalkFail.out_of_fuel
  unfolding walk_spread
  spread-ends name d stack s distinct keys room e = elim (Bool-cases (has_seen stack name)) [
    | inl seen ↦ ground (arith, e, seen)
    | inr fresh ↦ elim (Option-cases (get env.fragments name)) [
      | inl absent ↦ ground (arith, e, fresh, absent)
      | inr (fragment, there) ↦
          ends fragment d (name ∷ stack) s (fresh, distinct)
            (get-has env.fragments name fragment there, keys) (omega arith)
            (ground (arith, e, fresh, there))
    ]
  ]

  mutual
    unfolding walk_items

    items-ends :
        (set : SelectionSet) (d : ℕ) (stack : List Text) (s : Stats)
        → AreDistinct stack
        → AreKeys env.fragments stack
        → least ≤ length stack
        → walk_items env expand set d stack s ≢ err WalkFail.out_of_fuel
    items-ends done d stack s distinct keys room = λ e. cc
    items-ends (cons item items) d stack s distinct keys room =
        bind-ne (walk_item env expand item d stack s) (λ s₁. walk_items env expand items d stack s₁)
          (item-ends item d stack s distinct keys room)
          (λ s₁ h. items-ends items d stack s₁ distinct keys room)

    item-ends :
        (item : Selection) (d : ℕ) (stack : List Text) (s : Stats)
        → AreDistinct stack
        → AreKeys env.fragments stack
        → least ≤ length stack
        → walk_item env expand item d stack s ≢ err WalkFail.out_of_fuel
    item-ends (leaf alias name args) d stack s distinct keys room =
        count_field-ends env alias name s
    item-ends (parent alias name args child) d stack s distinct keys room =
        bind-ne (count_field env alias name s)
          (λ s₁. enter env (suc d) s₁ >>= λ s₂.
            walk_items env expand child (suc d) stack s₂ >>= λ s₃.
            multiply env args s₁.complexity s₃)
          (count_field-ends env alias name s)
          (λ s₁ h₁.
            bind-ne (enter env (suc d) s₁)
              (λ s₂. walk_items env expand child (suc d) stack s₂ >>= λ s₃.
                multiply env args s₁.complexity s₃)
              (enter-ends env (suc d) s₁)
              (λ s₂ h₂.
                bind-ne (walk_items env expand child (suc d) stack s₂)
                  (λ s₃. multiply env args s₁.complexity s₃)
                  (items-ends child (suc d) stack s₂ distinct keys room)
                  (λ s₃ h₃. multiply-ends env args s₁.complexity s₃)))
    item-ends (spread name) d stack s distinct keys room =
        spread-ends name d stack s distinct keys room
    item-ends (inline child) d stack s distinct keys room =
        bind-ne (enter env d s) (λ s₁. walk_items env expand child d stack s₁) (enter-ends env d s)
          (λ s₁ h. items-ends child d stack s₁ distinct keys room)

  walk_set-Ends : Ends env least (walk_set env expand)
  unfolding walk_set
  walk_set-Ends set d stack s distinct keys room =
      bind-ne (enter env d s) (λ s₁. walk_items env expand set d stack s₁) (enter-ends env d s)
        (λ s₁ h. items-ends set d stack s₁ distinct keys room)

walk-Ends :
    (fuel : ℕ) (env : WalkEnv) (least : ℕ)
    → len env.fragments ≤ least + fuel
    → Ends env least (walk fuel env)
unfolding walk
walk-Ends zero env least h =
    walk_set-Ends env least (λ fragment depth stack s. err WalkFail.out_of_fuel)
      (λ set d stack s distinct keys room e.
        absurd (omega (arith, length-le-len stack env.fragments distinct keys)))
walk-Ends (suc fuel) env least h =
    walk_set-Ends env least (walk fuel env) (walk-Ends fuel env (suc least) (omega arith))

walk_all-ends :
    (env : WalkEnv) (operations : List SelectionSet) (s : Stats)
    → walk_all (len env.fragments) env operations s ≢ err WalkFail.out_of_fuel
unfolding walk_all
walk_all-ends env [] s = λ e. cc
walk_all-ends env (operation ∷ operations) s =
    bind-ne (walk (len env.fragments) env operation 1 [] s)
      (λ s₁. walk_all (len env.fragments) env operations s₁)
      (walk-Ends (len env.fragments) env 0 (omega arith) operation 1 [] s tt tt (omega arith))
      (λ s₁ h. walk_all-ends env operations s₁)

-- As many levels of fragments as the document has fragments are enough: the walk never runs out of
-- them, whatever the document.
pub analyze_document-ends :
    (document : Document) (variables : List (Text × ℤ)) (max_depth max_complexity : Option ℕ)
    (default_list : ℕ)
    → analyze_document document variables max_depth max_complexity default_list
      ≢ err WalkFail.out_of_fuel
unfolding analyze_document
analyze_document-ends document variables max_depth max_complexity default_list =
    walk_all-ends (env_of document variables max_depth max_complexity default_list)
      document.operations no_stats
