-- ===== src/Graphql/Admission.antt =====
-- `evaluate` of src/graphql.rs: whether the operations of a request are within the limits. SHA-256 is an
-- argument, from bytes to bytes.
use ferroada.Prelude.{
  ℕ, ◌+◌, ◌-◌, ◌/◌, ◌%◌, ◌^◌, ltb, max, List, [], ◌∷◌, length, Bool, true, false, not, ◌||◌, Option,
  none, some, list_eq, Result, ok, err, ◌>>=◌, ◌>>◌, ensure, if◌then◌else◌,
}
use ferroada.Text.{Text, text, trim, to_ascii_lowercase}
use ferroada.RoutePath.Utf8.{as_bytes}
use ferroada.Graphql.Document.{ℤ, Document}
use ferroada.Graphql.Walk.{GraphqlFailure, WalkFail, Stats, analyze_document, saturating}
use ferroada.Graphql.Parser.{ParseFail}
use ferroada.Graphql.Syntax.{parse_document}
use ferroada.Graphql.Limits.{GraphqlLimits, is_sha256_hex}
use ferroada.Graphql.Quota.{QuotaBook, consume_quota}

-- The variables are those that are whole numbers of 64 bits.
pub record RawOp : Type 0 where
  pub query : Option Text
  pub variables : List (Text × ℤ)
  pub persisted : Option Text

abbrev pub hex_digit : ℕ → ℕ
hex_digit n = if ltb n 10 then b'0' + n else b'a' + (n - 10)

unfoldable pub to_hex : List ℕ → Text
to_hex [] = []
to_hex (byte ∷ bytes) = hex_digit (byte / 16) ∷ hex_digit (byte % 16) ∷ to_hex bytes

unfoldable pub query_hash : (List ℕ → List ℕ) → Text → Text
unfolding to_hex
query_hash sha256 query = to_hex (sha256 (as_bytes query))

abbrev pub over : Text → GraphqlFailure
over name = GraphqlFailure.limit name

-- A hash that the client claims is that of the query it sends.
unfoldable pub check_claimed : (List ℕ → List ℕ) → Bool → RawOp → Result GraphqlFailure (Unit {0})
unfolding query_hash is_sha256_hex
check_claimed sha256 persisted_only op = elim op.persisted [
  | none ↦ ok tt
  | some raw ↦
      if not (is_sha256_hex (to_ascii_lowercase (trim raw)))
      then err (over (text "persisted_query"))
      else elim op.query [
        | some query ↦
            if list_eq (query_hash sha256 query) (to_ascii_lowercase (trim raw))
            then ok tt
            else err (over (text "persisted_query"))
        | none ↦
            if persisted_only
            then err (over (text "persisted_query"))
            else err GraphqlFailure.parse_error
      ]
]

abbrev pub required : Option Text → Result GraphqlFailure Text
required none = err GraphqlFailure.parse_error
required (some query) = ok query

abbrev pub is_listed : Text → List Text → Bool
is_listed t [] = false
is_listed t (x ∷ xs) = list_eq x t || is_listed t xs

unfoldable pub parsed : Result ParseFail Document → Result GraphqlFailure Document
parsed (ok document) = ok document
parsed (err ParseFail.too_deep) = err (over (text "depth"))
parsed (err ParseFail.invalid) = err GraphqlFailure.parse_error
parsed (err ParseFail.out_of_fuel) = err GraphqlFailure.parse_error

unfoldable pub walked : Result WalkFail Stats → Result GraphqlFailure Stats
walked (ok s) = ok s
walked (err (WalkFail.failure f)) = err f
walked (err WalkFail.out_of_fuel) = err GraphqlFailure.parse_error

-- Where there is such a limit, the number is within it.
unfoldable pub at_most : Option ℕ → ℕ → Bool
at_most none n = true
at_most (some max) n = not (ltb max n)

unfoldable pub has_operations : Document → Bool
has_operations document = elim document.operations [ [] ↦ false | o ∷ os ↦ true ]

unfoldable pub max_ops : GraphqlLimits → ℕ
max_ops l = elim l.max_operations [ none ↦ 64 | some n ↦ n ]

-- What the walk found, against the limits.
unfoldable pub check_stats : GraphqlLimits → Stats → Result GraphqlFailure (Unit {0})
unfolding at_most
check_stats l s =
    ensure (l.introspection || not s.introspection) (over (text "introspection"))
    >> (ensure (at_most l.max_depth s.depth) (over (text "depth"))
        >> (ensure (at_most l.max_complexity s.complexity) (over (text "complexity"))
            >> ensure (at_most l.max_aliases s.aliases) (over (text "aliases"))))

unfoldable pub check_document : GraphqlLimits → RawOp → Document → ℕ → Result GraphqlFailure (ℕ × ℕ)
unfolding at_most has_operations max_ops walked check_stats
check_document l op document total_operations =
    let total = total_operations + length document.operations % 2 ^ 32 in
    ensure (ltb total (2 ^ 32)) (over (text "operations"))
    >> (ensure (not (ltb (max_ops l) total)) (over (text "operations"))
        >> (ensure (has_operations document) GraphqlFailure.parse_error
            >> (ensure (at_most l.max_fragments (length document.fragments % 2 ^ 32))
                  (over (text "fragments"))
                >> (walked (
                      analyze_document document op.variables l.max_depth l.max_complexity
                        l.default_list_size)
                    >>= λ s. check_stats l s >> ok (total, max s.complexity 1)))))

-- An operation of the request: how many operations there are with it, and what it costs.
unfoldable pub check_op :
    (List ℕ → List ℕ) → GraphqlLimits → List Text → RawOp → ℕ → Result GraphqlFailure (ℕ × ℕ)
unfolding check_claimed query_hash parsed check_document
check_op sha256 l persisted op total_operations =
    check_claimed sha256 l.persisted_only op
    >> (required op.query >>= λ query.
        ensure (not l.persisted_only || is_listed (query_hash sha256 query) persisted)
          (over (text "persisted_query"))
        >> (parsed (parse_document query) >>= λ document.
            check_document l op document total_operations))

unfoldable pub check_ops :
    (List ℕ → List ℕ) → GraphqlLimits → List Text → List RawOp → ℕ → ℕ → Result GraphqlFailure ℕ
unfolding check_op
check_ops sha256 l persisted [] total_operations total_complexity = ok total_complexity
check_ops sha256 l persisted (op ∷ ops) total_operations total_complexity =
    check_op sha256 l persisted op total_operations >>= λ r.
    check_ops sha256 l persisted ops r.0 (saturating 64 (total_complexity + r.1))

unfoldable pub evaluate :
    (List ℕ → List ℕ)
    → ℕ
    → ℕ
    → GraphqlLimits
    → List Text
    → List RawOp
    → Text
    → QuotaBook
    → QuotaBook × Result GraphqlFailure (Unit {0})
unfolding max_ops check_ops consume_quota
evaluate sha256 sweep_now now l persisted ops key book =
    if ltb (max_ops l) (length ops % 2 ^ 32)
    then (book, err (over (text "operations")))
    else elim (check_ops sha256 l persisted ops 0 0) [
      | err failure ↦ (book, err failure)
      | ok total_complexity ↦
          consume_quota sweep_now now l.quota l.quota_window key (max total_complexity 1) book
    ]
