-- ===== src/Graphql/Body.antt =====
-- Which operations a body holds, for src/graphql.rs. JSON is read by a library, of which `Json` names
-- what is used.
use ferroada.Prelude.{ℕ, List, [], ◌∷◌, Bool, ◌||◌, list_eq, Option, none, some, if◌then◌else◌}
use ferroada.Text.{Text, text, split, trim, is_empty, to_ascii_lowercase, ends_with}
use ferroada.RoutePath.{◌>>?◌}
use ferroada.RoutePath.Utf8.{from_utf8}
use ferroada.Graphql.Document.{ℤ}
use ferroada.Graphql.Walk.{GraphqlFailure}
use ferroada.Graphql.Limits.{is_some}
use ferroada.Graphql.Admission.{RawOp}

-- `serde_json`: `entries` is `as_object`, `items` is `as_array` and `member` is `get` with a key.
pub record Json : Type 1 where
  pub Value : Type 0
  pub from_str : Text → Option Value
  pub entries : Value → Option (List (Text × Value))
  pub items : Value → Option (List Value)
  pub member : Value → Text → Option Value
  pub as_str : Value → Option Text
  pub as_i64 : Value → Option ℤ

pub data Extract : Type 0 where
  skip : Extract
  ops : List RawOp → Extract
  failed : GraphqlFailure → Extract

abbrev pub first_piece : List Text → Text
first_piece [] = []
first_piece (t ∷ ts) = t

unfoldable pub mime_type : Option Text → Text
mime_type none = []
mime_type (some t) = to_ascii_lowercase (trim (first_piece (split b';' t)))

-- `application/graphql+json` ends in `+json`, as the source asks once more.
abbrev pub is_jsonish : Text → Bool
is_jsonish mime =
    list_eq mime (text "application/json")
    || ends_with mime (text "+json")
    || list_eq mime (text "application/graphql+json")

abbrev pub or_skip : Bool → Extract
or_skip dedicated = if dedicated then Extract.failed GraphqlFailure.parse_error else Extract.skip

-- A body that is a query.
unfoldable pub plain_query : Option Text → Extract
plain_query none = Extract.failed GraphqlFailure.parse_error
plain_query (some t) =
    if is_empty (trim t)
    then Extract.failed GraphqlFailure.parse_error
    else Extract.ops (record { query = some t; variables = []; persisted = none } ∷ [])

module _ (json : Json) where
  open json use {Value, from_str, entries, items, member, as_str, as_i64}

  abbrev pub add_int : Text → Option ℤ → List (Text × ℤ) → List (Text × ℤ)
  add_int key none rest = rest
  add_int key (some n) rest = (key, n) ∷ rest

  unfoldable pub ints_of : List (Text × Value) → List (Text × ℤ)
  ints_of [] = []
  ints_of ((key, value) ∷ map) = add_int key (as_i64 value) (ints_of map)

  unfoldable pub int_variables : Option Value → List (Text × ℤ)
  unfolding ints_of
  int_variables variables = elim (variables >>? entries) [ none ↦ [] | some map ↦ ints_of map ]

  unfoldable pub persisted_hash : Value → Option Text
  persisted_hash value = member value (text "extensions") >>? λ ext.
      member ext (text "persistedQuery") >>? λ pq. member pq (text "sha256Hash") >>? as_str

  unfoldable pub op_from_json : Value → Option RawOp
  unfolding int_variables persisted_hash
  op_from_json value = entries value >>? λ object.
      let query = member value (text "query") >>? as_str in
      let persisted = persisted_hash value in
      if is_some query || is_some persisted
      then some (record {
        query = query;
        variables = int_variables (member value (text "variables"));
        persisted = persisted;
      })
      else none

  unfoldable pub ops_from_items : List Value → Option (List RawOp)
  unfolding op_from_json
  ops_from_items [] = some []
  ops_from_items (item ∷ more) =
      let rest = ops_from_items more in
      op_from_json item >>? λ op. rest >>? λ found. some (op ∷ found)

  -- A batch, or one operation.
  unfoldable pub from_items : List Value → Extract
  unfolding ops_from_items
  from_items [] = Extract.failed GraphqlFailure.parse_error
  from_items (item ∷ more) = elim (ops_from_items (item ∷ more)) [
    | none ↦ Extract.failed GraphqlFailure.parse_error
    | some found ↦ Extract.ops found
  ]

  unfoldable pub from_value : Bool → Value → Extract
  unfolding from_items op_from_json
  from_value dedicated value = elim (items value) [
    | some batch ↦ from_items batch
    | none ↦ elim (op_from_json value) [
      | some op ↦ Extract.ops (op ∷ [])
      | none ↦ or_skip dedicated
    ]
  ]

  unfoldable pub from_json : Bool → Option Text → Extract
  unfolding from_value
  from_json dedicated none = Extract.failed GraphqlFailure.parse_error
  from_json dedicated (some t) = elim (from_str t) [
    | none ↦ or_skip dedicated
    | some value ↦ from_value dedicated value
  ]

  unfoldable pub extract_ops : Option Text → List ℕ → Bool → Extract
  unfolding mime_type plain_query from_json
  extract_ops content_type body dedicated =
      let mime = mime_type content_type in
      if list_eq mime (text "application/graphql")
      then plain_query (from_utf8 body)
      else if is_jsonish mime
      then from_json dedicated (from_utf8 body)
      else or_skip dedicated
