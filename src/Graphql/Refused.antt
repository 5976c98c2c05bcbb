-- ===== src/Graphql/Refused.antt =====
-- Why src/graphql.rs refuses the operations of a request.
pub mod Requests
use ferroada.Prelude.{
  ℕ, ◌+◌, ◌%◌, ◌^◌, ◌≤◌, ◌<◌, ltb, max, List, [], ◌∷◌, length, All, Bool, true, false, not, ◌||◌,
  Option, none, some, list_eq, Result, ok, err, ◌>>=◌, ◌>>◌, ensure, Result-cases, ◌≡◌, ◌≢◌, ◌⊎◌,
  inl, inr, arith, Bool-cases, Option-cases, sym, ap, ◌∙◌, subst, refl,
}
use ferroada.Text.{Text, text, trim, to_ascii_lowercase}
use ferroada.Graphql.Document.{Document}
use ferroada.Graphql.Walk.{
  GraphqlFailure, WalkFail, Stats, analyze_document, saturating, capped, hard_depth,
  hard_complexity,
}
use ferroada.Graphql.Walk.Fuel.{analyze_document-ends}
use ferroada.Graphql.Measures.{Measure}
use ferroada.Graphql.Measures.Documents.{IsMeasured, analyze_document-IsMeasured}
use ferroada.Graphql.Syntax.{parse_document}
use ferroada.Graphql.Ends.Documents.{parse_document-ends}
use ferroada.Graphql.Parser.{ParseFail}
use ferroada.Graphql.Limits.{GraphqlLimits, is_sha256_hex}
use ferroada.Graphql.Quota.{QuotaBook, consume_quota}
use ferroada.Graphql.Admission.{
  RawOp, query_hash, check_claimed, required, is_listed, parsed, walked, at_most, has_operations,
  max_ops, check_stats, check_document, check_op, check_ops, evaluate, over,
}
use ferroada.Graphql.Admitted.{measure_of, walked-ok, IsAdmitted, check_op-IsAdmitted}

-- The limit that stands in the way of a document, `before` being the operations in front of it.
pub data IsOver (l : GraphqlLimits) (op : RawOp) (document : Document) (before : ℕ)
    (f : GraphqlFailure) : Type 0 where
  many_operations :
      (max_ops l < before + length document.operations % 2 ^ 32)
        ⊎ (2 ^ 32 ≤ before + length document.operations % 2 ^ 32)
      → f ≡ over (text "operations")
      → IsOver l op document before f
  no_operations :
      document.operations ≡ [] → f ≡ GraphqlFailure.parse_error → IsOver l op document before f
  many_fragments :
      (m : ℕ)
      → l.max_fragments ≡ some m
      → m < length document.fragments % 2 ^ 32
      → f ≡ over (text "fragments")
      → IsOver l op document before f
  unwalked :
      analyze_document document op.variables l.max_depth l.max_complexity l.default_list_size
        ≡ err (WalkFail.failure f)
      → IsOver l op document before f
  asks_schema :
      l.introspection ≡ false
      → (measure_of l op document).introspects ≡ true
      → f ≡ over (text "introspection")
      → IsOver l op document before f
  many_aliases :
      (m : ℕ)
      → l.max_aliases ≡ some m
      → m < saturating 32 (measure_of l op document).aliases
      → f ≡ over (text "aliases")
      → IsOver l op document before f

-- What is wrong with an operation.
pub data IsRefusedOp (sha256 : List ℕ → List ℕ) (l : GraphqlLimits) (persisted : List Text)
    (op : RawOp) (before : ℕ) (f : GraphqlFailure) : Type 0 where
  malformed :
      (raw : Text)
      → op.persisted ≡ some raw
      → is_sha256_hex (to_ascii_lowercase (trim raw)) ≡ false
      → f ≡ over (text "persisted_query")
      → IsRefusedOp sha256 l persisted op before f
  mismatched :
      (raw query : Text)
      → op.persisted ≡ some raw
      → op.query ≡ some query
      → list_eq (query_hash sha256 query) (to_ascii_lowercase (trim raw)) ≡ false
      → f ≡ over (text "persisted_query")
      → IsRefusedOp sha256 l persisted op before f
  missing :
      op.query ≡ none
      → (f ≡ GraphqlFailure.parse_error)
        ⊎ ((l.persisted_only ≡ true) × (f ≡ over (text "persisted_query")))
      → IsRefusedOp sha256 l persisted op before f
  unlisted :
      (query : Text)
      → op.query ≡ some query
      → l.persisted_only ≡ true
      → is_listed (query_hash sha256 query) persisted ≡ false
      → f ≡ over (text "persisted_query")
      → IsRefusedOp sha256 l persisted op before f
  unparsed :
      (query : Text)
      → op.query ≡ some query
      → parse_document query ≡ err ParseFail.invalid
      → f ≡ GraphqlFailure.parse_error
      → IsRefusedOp sha256 l persisted op before f
  nested :
      (query : Text)
      → op.query ≡ some query
      → parse_document query ≡ err ParseFail.too_deep
      → f ≡ over (text "depth")
      → IsRefusedOp sha256 l persisted op before f
  beyond :
      (query : Text) (document : Document)
      → op.query ≡ some query
      → parse_document query ≡ ok document
      → IsOver l op document before f
      → IsRefusedOp sha256 l persisted op before f

-- A chain that fails does so in its first part or behind it.
pub first-err :
    (r : Result GraphqlFailure (Unit {0})) {B : Type 0} (k : Result GraphqlFailure B)
    (f : GraphqlFailure)
    → (r >> k) ≡ err f
    → (r ≡ err f) ⊎ ((r ≡ ok tt) × (k ≡ err f))
first-err (ok tt) k f h = inr (refl, h)
first-err (err e) k f h = inl (ground (arith, h))

pub ensure-err :
    (b : Bool) (e : GraphqlFailure) {B : Type 0} (k : Result GraphqlFailure B) (f : GraphqlFailure)
    → (ensure b e >> k) ≡ err f
    → ((b ≡ false) × (f ≡ e)) ⊎ ((b ≡ true) × (k ≡ err f))
ensure-err true e k f h = inr (refl, h)
ensure-err false e k f h = inl (refl, ground (arith, h))

pub bind-err :
    {A B : Type 0} (r : Result GraphqlFailure A) (k : A → Result GraphqlFailure B)
    (f : GraphqlFailure)
    → (r >>= k) ≡ err f
    → (r ≡ err f) ⊎ ((x : A) × (r ≡ ok x) × (k x ≡ err f))
bind-err (ok x) k f h = inr (x, refl, h)
bind-err (err e) k f h = inl (ground (arith, h))

walked-err :
    (r : Result WalkFail Stats) (f : GraphqlFailure)
    → r ≢ err WalkFail.out_of_fuel
    → walked r ≡ err f
    → r ≡ err (WalkFail.failure f)
unfolding walked
walked-err (ok s) f ends h = cc
walked-err (err (WalkFail.failure g)) f ends h = ground (arith, h)
walked-err (err WalkFail.out_of_fuel) f ends h = absurd (ends refl)

pub parsed-err :
    (r : Result ParseFail Document) (f : GraphqlFailure)
    → r ≢ err ParseFail.out_of_fuel
    → parsed r ≡ err f
    → ((r ≡ err ParseFail.invalid) × (f ≡ GraphqlFailure.parse_error))
      ⊎ ((r ≡ err ParseFail.too_deep) × (f ≡ over (text "depth")))
unfolding parsed
parsed-err (ok d) f ends h = cc
parsed-err (err ParseFail.invalid) f ends h = inl (refl, ground (arith, h))
parsed-err (err ParseFail.too_deep) f ends h = inr (refl, ground (arith, h))
parsed-err (err ParseFail.out_of_fuel) f ends h = absurd (ends refl)

-- A number that is above no limit that is configured.
within_limit : (o : Option ℕ) (hard n : ℕ) → n ≤ capped o hard → at_most o n ≡ true
unfolding at_most
within_limit none hard n h = refl
within_limit (some m) hard n h = ground (arith, h)

above_limit : (o : Option ℕ) (n : ℕ) → at_most o n ≡ false → (m : ℕ) × (o ≡ some m) × (m < n)
unfolding at_most
above_limit none n h = cc
above_limit (some m) n h = (m, refl, ground (arith, h))

check_stats-err :
    (l : GraphqlLimits) (s : Stats) (f : GraphqlFailure)
    → at_most l.max_depth s.depth ≡ true
    → at_most l.max_complexity s.complexity ≡ true
    → check_stats l s ≡ err f
    → ((l.introspection ≡ false) × (s.introspection ≡ true) × (f ≡ over (text "introspection")))
      ⊎ ((at_most l.max_aliases s.aliases ≡ false) × (f ≡ over (text "aliases")))
unfolding check_stats
check_stats-err l s f deep dear h = elim (Bool-cases (l.introspection || not s.introspection)) [
  | inr asked ↦ inl (ground (arith, asked), ground (arith, asked), ground (arith, h, asked))
  | inl fine ↦ inr (ground (arith, h, deep, dear, fine), ground (arith, h, deep, dear, fine))
]

check_measured-IsOver :
    (l : GraphqlLimits) (op : RawOp) (document : Document) (before : ℕ) (s : Stats)
    (f : GraphqlFailure)
    → IsMeasured
        (measure_of l op document)
        (capped l.max_depth hard_depth)
        (capped l.max_complexity hard_complexity)
        s
    → check_stats l s ≡ err f
    → IsOver l op document before f
check_measured-IsOver l op document before s f m h =
    let deep = within_limit l.max_depth hard_depth s.depth (omega (arith, m.depth, m.shallow)) in
    let dear =
      within_limit l.max_complexity hard_complexity s.complexity
        (omega (arith, m.complexity, m.cheap)) in
    elim (check_stats-err l s f deep dear h) [
      | inl (closed, asked, e) ↦ asks_schema closed (sym m.introspection ∙ asked) e
      | inr (many, e) ↦
          let (max_aliases, given, above) = above_limit l.max_aliases s.aliases many in
          many_aliases max_aliases given (subst (λ n. max_aliases < n) m.aliases above) e
    ]

has_operations-false :
    (document : Document) → has_operations document ≡ false → document.operations ≡ []
unfolding has_operations
has_operations-false document h = ground (arith, h)

pub check_document-IsOver :
    (l : GraphqlLimits) (op : RawOp) (document : Document) (before : ℕ) (f : GraphqlFailure)
    → check_document l op document before ≡ err f
    → IsOver l op document before f
unfolding check_document has_operations
check_document-IsOver l op document before f h =
    let total : ℕ = before + length document.operations % 2 ^ 32 in
    let analyzed =
      analyze_document document op.variables l.max_depth l.max_complexity l.default_list_size in
    elim (ensure-err (ltb total (2 ^ 32)) (over (text "operations")) _ f h) [
      | inl (wraps, e) ↦ many_operations (inr (ground (arith, wraps))) e
      | inr (_, h₁) ↦
          elim (ensure-err (not (ltb (max_ops l) total)) (over (text "operations")) _ f h₁) [
            | inl (many, e) ↦ many_operations (inl (ground (arith, many))) e
            | inr (_, h₂) ↦
                elim (ensure-err (has_operations document) GraphqlFailure.parse_error _ f h₂) [
                  | inl (no_ops, e) ↦ no_operations (has_operations-false document no_ops) e
                  | inr (_, h₃) ↦
                      elim (ensure-err
                        (at_most l.max_fragments (length document.fragments % 2 ^ 32))
                        (over (text "fragments")) _ f h₃) [
                          | inl (many, e) ↦
                              let (m, given, above) =
                                above_limit l.max_fragments (length document.fragments % 2 ^ 32)
                                  many in
                              many_fragments m given above e
                          | inr (_, h₄) ↦
                              elim (bind-err (walked analyzed)
                                (λ s. check_stats l s >> ok (total, max s.complexity 1)) f h₄) [
                                  | inl stopped ↦ unwalked (
                                      walked-err analyzed f
                                        (analyze_document-ends document op.variables l.max_depth
                                          l.max_complexity l.default_list_size)
                                        stopped)
                                  | inr (s, found, h₅) ↦
                                      let m =
                                        analyze_document-IsMeasured document op.variables
                                          l.max_depth l.max_complexity l.default_list_size s
                                          (walked-ok analyzed s found) in
                                      elim (first-err (check_stats l s)
                                        (ok (total, max s.complexity 1)) f h₅) [
                                          | inl bad ↦
                                              check_measured-IsOver l op document before s f m bad
                                          | inr (_, absurdly) ↦ absurd (cc)
                                        ]
                                ]
                        ]
                ]
          ]
    ]
