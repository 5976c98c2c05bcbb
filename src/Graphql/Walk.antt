-- ===== src/Graphql/Walk.antt =====
-- `walk` of src/graphql.rs: how deep and how costly a document is, with its fragments in place. The
-- counters have 32 and 64 bits and stay at their maximum.
pub mod Fuel
use ferroada.Prelude.{
  ℕ, zero, suc, ◌+◌, ◌-◌, ◌*◌, ◌^◌, ltb, min, max, List, [], ◌∷◌, Bool, true, false, ◌||◌, ◌&&◌,
  Option, none, some, list_eq, Result, ok, err, ◌>>=◌, if◌then◌else◌, length,
}
use ferroada.Text.{Text, text, text_eq}
use ferroada.DashMap.{DashMap, get}
use ferroada.Graphql.Document.{
  ℤ, pos, negsuc, GqlValue, int, variable, other, Arguments, Selection, SelectionSet, leaf, parent,
  spread, inline, done, cons, Document,
}

pub data GraphqlFailure : Type 0 where
  parse_error : GraphqlFailure
  limit : Text → GraphqlFailure

-- The limit of the model on how many fragments stand within each other.
pub data WalkFail : Type 0 where
  failure : GraphqlFailure → WalkFail
  out_of_fuel : WalkFail

pub record Stats : Type 0 where
  pub depth : ℕ
  pub complexity : ℕ
  pub aliases : ℕ
  pub introspection : Bool

pub record WalkEnv : Type 0 where
  pub fragments : DashMap Text SelectionSet
  pub variables : List (Text × ℤ)
  pub default_list : ℕ
  pub depth_cap : ℕ
  pub complexity_cap : ℕ

abbrev pub saturating : ℕ → ℕ → ℕ
saturating w n = min n (2 ^ w - 1)

abbrev pub lookup : List (Text × ℤ) → Text → Option ℤ
lookup [] name = none
lookup ((k, v) ∷ m) name = if list_eq k name then some v else lookup m name

-- The argument's number, where it is more than one, and else one.
abbrev pub positive : ℤ → ℕ
positive (pos n) = max 1 n
positive (negsuc n) = 1

abbrev pub or_default_list : Option ℤ → ℕ → ℤ
or_default_list none d = pos d
or_default_list (some n) d = n

unfoldable pub value_of : List (Text × ℤ) → ℕ → GqlValue → ℤ
value_of variables default_list (GqlValue.int n) = n
value_of variables default_list (GqlValue.variable name) =
    or_default_list (lookup variables name) default_list
value_of variables default_list GqlValue.other = pos default_list

abbrev pub is_sized : Text → Bool
is_sized name =
    list_eq name (text "first") || list_eq name (text "last") || list_eq name (text "limit")

unfoldable pub best_of : List (Text × ℤ) → ℕ → Arguments → ℕ → ℕ
unfolding value_of
best_of variables default_list [] best = best
best_of variables default_list ((name, value) ∷ args) best =
    best_of variables default_list args
      (if is_sized name then max best (positive (value_of variables default_list value)) else best)

unfoldable pub list_multiplier : Arguments → List (Text × ℤ) → ℕ → ℕ
unfolding best_of
list_multiplier args variables default_list = best_of variables default_list args 1

unfoldable pub is_introspection : Text → Bool
is_introspection name = list_eq name (text "__schema") || list_eq name (text "__type")

abbrev pub over_limit : Text → WalkFail
over_limit name = WalkFail.failure (GraphqlFailure.limit name)

-- A field is counted before its selection is.
unfoldable pub count_field : WalkEnv → Bool → Text → Stats → Result WalkFail Stats
unfolding is_introspection
count_field env alias name s =
    let complexity = saturating 64 (s.complexity + 1) in
    if ltb env.complexity_cap complexity
    then err (over_limit (text "complexity"))
    else ok (record s {
      complexity = complexity;
      aliases = if alias then saturating 32 (s.aliases + 1) else s.aliases;
      introspection = if is_introspection name then true else s.introspection;
    })

-- The selection of a list is counted once for each element: `before` is without it.
unfoldable pub multiply : WalkEnv → Arguments → ℕ → Stats → Result WalkFail Stats
multiply env args before s =
    let mult = list_multiplier args env.variables env.default_list in
    let complexity =
      saturating 64 (s.complexity + saturating 64 ((s.complexity - before) * (mult - 1))) in
    if ltb 1 mult
    then (if ltb env.complexity_cap complexity
        then err (over_limit (text "complexity"))
        else ok (record s { complexity = complexity }))
    else ok s

abbrev pub has_seen : List Text → Text → Bool
has_seen [] name = false
has_seen (seen ∷ stack) name = list_eq seen name || has_seen stack name

-- What is done with a fragment, at a depth and with the fragments that it stands in.
abbrev pub Expand : Type 0
Expand = SelectionSet → ℕ → List Text → Stats → Result WalkFail Stats

unfoldable pub walk_spread : WalkEnv → Expand → Text → ℕ → List Text → Stats → Result WalkFail Stats
walk_spread env expand name depth stack s = elim (has_seen stack name) [
  | true ↦ err (over_limit (text "fragments"))
  | false ↦ elim (get env.fragments name) [
    | none ↦ err (WalkFail.failure GraphqlFailure.parse_error)
    | some fragment ↦ expand fragment depth (name ∷ stack) s
  ]
]

unfoldable pub enter : WalkEnv → ℕ → Stats → Result WalkFail Stats
enter env depth s =
    if ltb env.depth_cap depth
    then err (over_limit (text "depth"))
    else ok (record s { depth = max s.depth depth })

unfoldable mutual
  unfolding count_field multiply walk_spread enter

  pub walk_items : WalkEnv → Expand → SelectionSet → ℕ → List Text → Stats → Result WalkFail Stats
  walk_items env expand done depth stack s = ok s
  walk_items env expand (cons item items) depth stack s =
      walk_item env expand item depth stack s >>= λ s₁. walk_items env expand items depth stack s₁

  pub walk_item : WalkEnv → Expand → Selection → ℕ → List Text → Stats → Result WalkFail Stats
  walk_item env expand (leaf alias name args) depth stack s = count_field env alias name s
  walk_item env expand (parent alias name args child) depth stack s =
      count_field env alias name s >>= λ s₁. enter env (suc depth) s₁ >>= λ s₂.
      walk_items env expand child (suc depth) stack s₂ >>= λ s₃. multiply env args s₁.complexity s₃
  walk_item env expand (spread name) depth stack s = walk_spread env expand name depth stack s
  walk_item env expand (inline child) depth stack s =
      enter env depth s >>= λ s₁. walk_items env expand child depth stack s₁

unfoldable pub walk_set : WalkEnv → Expand → Expand
unfolding enter walk_items
walk_set env expand set depth stack s =
    enter env depth s >>= λ s₁. walk_items env expand set depth stack s₁

-- With fragments at most `fuel` deep within each other.
unfoldable pub walk : ℕ → WalkEnv → Expand
unfolding walk_set
walk zero env = walk_set env (λ fragment depth stack s. err WalkFail.out_of_fuel)
walk (suc fuel) env = walk_set env (walk fuel env)

abbrev pub hard_depth : ℕ
hard_depth = 64

abbrev pub hard_complexity : ℕ
hard_complexity = 100000

-- `limits.max_depth.unwrap_or(HARD_DEPTH).min(HARD_DEPTH)`
abbrev pub capped : Option ℕ → ℕ → ℕ
capped none hard = hard
capped (some n) hard = min n hard

unfoldable pub walk_all : ℕ → WalkEnv → List SelectionSet → Stats → Result WalkFail Stats
unfolding walk
walk_all fuel env [] s = ok s
walk_all fuel env (operation ∷ operations) s =
    walk fuel env operation 1 [] s >>= λ s₁. walk_all fuel env operations s₁

abbrev pub no_stats : Stats
no_stats = record { depth = 0; complexity = 0; aliases = 0; introspection = false }

abbrev pub env_of : Document → List (Text × ℤ) → Option ℕ → Option ℕ → ℕ → WalkEnv
env_of document variables max_depth max_complexity default_list = record {
  fragments = document.fragments;
  variables = variables;
  default_list = default_list;
  depth_cap = capped max_depth hard_depth;
  complexity_cap = capped max_complexity hard_complexity;
}

-- A document has as many fragments as can stand within each other.
unfoldable pub analyze_document :
    Document → List (Text × ℤ) → Option ℕ → Option ℕ → ℕ → Result WalkFail Stats
unfolding walk_all
analyze_document document variables max_depth max_complexity default_list =
    walk_all (length document.fragments)
      (env_of document variables max_depth max_complexity default_list) document.operations no_stats
