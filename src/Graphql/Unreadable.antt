-- ===== src/Graphql/Unreadable.antt =====
-- Why src/graphql.rs finds no operations in a body that it must read.
use ferroada.Prelude.{
  ℕ, List, [], ◌∷◌, Bool, true, false, Option, none, some, list_eq, ◌≡◌, ◌⊎◌, inl, inr, arith, refl,
  Bool-cases, Option-cases, list_eq→eq,
}
use ferroada.Text.{Text, text, trim, is_empty}
use ferroada.RoutePath.Utf8.{from_utf8}
use ferroada.Graphql.Walk.{GraphqlFailure}
use ferroada.Graphql.Body.{
  Json, Extract, extract_ops, mime_type, is_jsonish, plain_query, or_skip, from_json, from_value,
  from_items, ops_from_items, op_from_json,
}

module _ (json : Json) where
  open json use {Value, from_str, items}

  -- No bytes of UTF-8, a blank query, another type or no JSON where the path is one of GraphQL, or JSON
  -- that is no operation or no batch of operations.
  pub data IsUnreadable (content_type : Option Text) (body : List ℕ) (dedicated : Bool)
      : Type 0 where
    not_text : from_utf8 body ≡ none → IsUnreadable content_type body dedicated
    blank :
        (t : Text)
        → mime_type content_type ≡ text "application/graphql"
        → from_utf8 body ≡ some t
        → is_empty (trim t) ≡ true
        → IsUnreadable content_type body dedicated
    foreign :
        dedicated ≡ true
        → is_jsonish (mime_type content_type) ≡ false
        → list_eq (mime_type content_type) (text "application/graphql") ≡ false
        → IsUnreadable content_type body dedicated
    not_json :
        (t : Text)
        → dedicated ≡ true
        → from_utf8 body ≡ some t
        → from_str t ≡ none
        → IsUnreadable content_type body dedicated
    no_batch :
        (t : Text) (value : Value) (batch : List Value)
        → from_utf8 body ≡ some t
        → from_str t ≡ some value
        → items value ≡ some batch
        → (batch ≡ []) ⊎ (ops_from_items json batch ≡ none)
        → IsUnreadable content_type body dedicated
    no_operation :
        (t : Text) (value : Value)
        → dedicated ≡ true
        → from_utf8 body ≡ some t
        → from_str t ≡ some value
        → items value ≡ none
        → op_from_json json value ≡ none
        → IsUnreadable content_type body dedicated

  from_items-failed :
      (batch : List Value) (f : GraphqlFailure)
      → from_items json batch ≡ Extract.failed f
      → (f ≡ GraphqlFailure.parse_error) × ((batch ≡ []) ⊎ (ops_from_items json batch ≡ none))
  unfolding from_items
  from_items-failed [] f h = (ground (arith, h), inl refl)
  from_items-failed (item ∷ more) f h = (ground (arith, h), inr (ground (arith, h)))

  or_skip-failed :
      (dedicated : Bool) (f : GraphqlFailure)
      → or_skip dedicated ≡ Extract.failed f
      → (f ≡ GraphqlFailure.parse_error) × (dedicated ≡ true)
  or_skip-failed true f h = (ground (arith, h), refl)
  or_skip-failed false f h = cc

  from_value-failed :
      (content_type : Option Text) (body : List ℕ) (dedicated : Bool) (t : Text) (value : Value)
      (f : GraphqlFailure)
      → from_utf8 body ≡ some t
      → from_str t ≡ some value
      → from_value json dedicated value ≡ Extract.failed f
      → (f ≡ GraphqlFailure.parse_error) × IsUnreadable content_type body dedicated
  unfolding from_value
  from_value-failed content_type body dedicated t value f bytes good h =
      elim (Option-cases (items value)) [
        | inr (batch, many) ↦
            let (e, why) = from_items-failed batch f (ground (arith, h, many)) in
            (e, IsUnreadable.no_batch t value batch bytes good many why)
        | inl one ↦ elim (Option-cases (op_from_json json value)) [
          | inr (op, found) ↦ absurd (ground (arith, h, one, found))
          | inl nothing ↦
              let (e, own) = or_skip-failed dedicated f (ground (arith, h, one, nothing)) in
              (e, IsUnreadable.no_operation t value own bytes good one nothing)
        ]
      ]

  from_json-failed :
      (content_type : Option Text) (body : List ℕ) (dedicated : Bool) (f : GraphqlFailure)
      → from_json json dedicated (from_utf8 body) ≡ Extract.failed f
      → (f ≡ GraphqlFailure.parse_error) × IsUnreadable content_type body dedicated
  unfolding from_json
  from_json-failed content_type body dedicated f h = elim (Option-cases (from_utf8 body)) [
    | inl bad ↦ (ground (arith, h, bad), IsUnreadable.not_text bad)
    | inr (t, bytes) ↦ elim (Option-cases (from_str t)) [
      | inl bad ↦
          let (e, own) = or_skip-failed dedicated f (ground (arith, h, bytes, bad)) in
          (e, IsUnreadable.not_json t own bytes bad)
      | inr (value, good) ↦
          from_value-failed content_type body dedicated t value f bytes good
            (ground (arith, h, bytes, good))
    ]
  ]

  plain_query-failed :
      (content_type : Option Text) (body : List ℕ) (dedicated : Bool) (f : GraphqlFailure)
      → mime_type content_type ≡ text "application/graphql"
      → plain_query (from_utf8 body) ≡ Extract.failed f
      → (f ≡ GraphqlFailure.parse_error) × IsUnreadable content_type body dedicated
  unfolding plain_query
  plain_query-failed content_type body dedicated f mime h = elim (Option-cases (from_utf8 body)) [
    | inl bad ↦ (ground (arith, h, bad), IsUnreadable.not_text bad)
    | inr (t, bytes) ↦
        (ground (arith, h, bytes), IsUnreadable.blank t mime bytes (ground (arith, h, bytes)))
  ]

  pub extract_ops-failed :
      (content_type : Option Text) (body : List ℕ) (dedicated : Bool) (f : GraphqlFailure)
      → extract_ops json content_type body dedicated ≡ Extract.failed f
      → (f ≡ GraphqlFailure.parse_error) × IsUnreadable content_type body dedicated
  unfolding extract_ops
  extract_ops-failed content_type body dedicated f h =
      elim (Bool-cases (list_eq (mime_type content_type) (text "application/graphql"))) [
        | inl plain ↦
            plain_query-failed content_type body dedicated f
              (list_eq→eq (mime_type content_type) (text "application/graphql") plain)
              (ground (arith, h, plain))
        | inr other ↦ elim (Bool-cases (is_jsonish (mime_type content_type))) [
          | inl jsonish ↦
              from_json-failed content_type body dedicated f (ground (arith, h, other, jsonish))
          | inr neither ↦
              let (e, own) = or_skip-failed dedicated f (ground (arith, h, other, neither)) in
              (e, IsUnreadable.foreign own neither other)
        ]
      ]
