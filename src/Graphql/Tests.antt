-- ===== src/Graphql/Tests.antt =====
-- Documents that src/graphql.rs parses and measures, and a request that it admits.
use ferroada.Prelude.{
  if◌then◌else◌, list_eq, ◌↔◌, ◌+◌, ◌≤◌, arith, ℕ, List, [], ◌∷◌, true, false, none, some, ok, err,
  ◌≡◌, refl, ◌≢◌, Option,
}
use ferroada.Text.{Text, text}
use ferroada.Graphql.Document.{
  ℤ, GqlValue, Document, SelectionSet, leaf, parent, spread, done, cons,
}
use ferroada.Text.{is_empty}
use ferroada.Text.{eq_ignore_ascii_case, split, trim}
use ferroada.RoutePath.{
  canonical_route_path, decode_rounds, percent_decode, decode_from, check_stable, join, resolve,
  slashes, push_segment,
}
use ferroada.RoutePath.Utf8.{as_bytes, from_utf8, utf8_from}
use ferroada.Graphql.Body.{extract_ops}
use ferroada.DashMap.{get}
use ferroada.Grpc.Timeout.{digits_value}
use ferroada.Graphql.Lexer.{skip_ignored, next_token}
use ferroada.Graphql.Walk.{
  list_multiplier, Stats, analyze_document, env_of, capped, hard_depth, hard_complexity,
}
use ferroada.Graphql.Measures.{totals}
use ferroada.Graphql.Measures.Documents.{IsMeasured, analyze_document-IsMeasured}
use ferroada.Graphql.Parser.{ParseFail}
use ferroada.Graphql.Syntax.{parse_document}
use ferroada.Graphql.Ends.Documents.{parse_document-ends}
use ferroada.Graphql.Limits.{GraphqlLimits}
use ferroada.Graphql.Quota.{QuotaBook, GraphqlIdentity, consume_quota, counted, has_room}
use ferroada.Graphql.Quota.Ledger.{
  Ledger, Reached, start, consumed, entered, charges, spent, empty_book, consume_quota-decides,
}
use ferroada.Graphql.Admission.{RawOp, evaluate}
use ferroada.Graphql.Body.{Json}
use ferroada.Graphql.Policy.{GraphqlInner, GraphqlVerdict, check}

abbrev small : Text
small = text "{a(first:3){b}...F}fragment F on T{c:b}"

abbrev only_c : SelectionSet
only_c = cons (leaf true (text "b") []) done

abbrev small_document : Document
small_document = record {
  operations =
      cons
        (parent false (text "a") ((text "first", GqlValue.int (ℤ.pos 3)) ∷ [])
          (cons (leaf false (text "b") []) done))
        (cons (spread (text "F")) done)
      ∷ [];
  fragments = (text "F", only_c) ∷ [];
}

small_parses : parse_document small ≡ ok small_document
unfolding parse_document is_empty skip_ignored next_token digits_value
small_parses = refl

parse_document-ends_example : parse_document small ≢ err ParseFail.out_of_fuel
parse_document-ends_example = parse_document-ends small

-- The field, three times the one below it, and the one of the fragment.
abbrev small_stats : Stats
small_stats = record { depth = 2; complexity = 5; aliases = 1; introspection = false }

small_measures : analyze_document small_document [] (some 4) none 10 ≡ ok small_stats
unfolding analyze_document list_multiplier get
small_measures = refl

analyze_document-IsMeasured_example :
    IsMeasured
      (totals 1 (env_of small_document [] (some 4) none 10) small_document.operations)
      (capped (some 4) hard_depth)
      (capped none hard_complexity)
      small_stats
analyze_document-IsMeasured_example =
    analyze_document-IsMeasured small_document [] (some 4) none 10 small_stats small_measures

abbrev strict : GraphqlLimits
strict = record {
  max_depth = some 4;
  max_complexity = some 100;
  max_aliases = some 2;
  max_fragments = some 1;
  max_operations = some 1;
  introspection = false;
  introspection_set = false;
  persisted_only = true;
  persisted_only_set = true;
  default_list_size = 10;
  quota = some 20;
  quota_window = 1000;
}

abbrev sent : RawOp
sent = record { query = some (text "{a}"); variables = []; persisted = none }

abbrev first_byte : List ℕ → List ℕ
first_byte [] = []
first_byte (b ∷ bs) = b ∷ []

abbrev no_hits : QuotaBook
no_hits = record { hits = []; n = 0 }

sent_admitted :
    (evaluate first_byte 0 0 strict (text "7b" ∷ []) (sent ∷ []) (text "ip:") no_hits).1 ≡ ok tt
unfolding evaluate as_bytes parse_document is_empty skip_ignored next_token analyze_document
sent_admitted = refl

-- A body of JSON with a query and no more, or a string.
data Sample : Type 0 where
  string query_object : Text → Sample

abbrev query_member : Sample → Text → Option Sample
query_member (Sample.string t) key = none
query_member (Sample.query_object t) key =
    if list_eq key (text "query") then some (Sample.string t) else none

abbrev sample : Json
sample = record {
  Value = Sample;
  from_str = λ t. some (Sample.query_object t);
  entries = λ v. elim v [
    | Sample.string t ↦ none
    | Sample.query_object t ↦ some ((text "query", Sample.string t) ∷ [])
  ];
  items = λ v. none;
  member = query_member;
  as_str = λ v. elim v [ Sample.string t ↦ some t | Sample.query_object t ↦ none ];
  as_i64 = λ v. none;
}

abbrev at_graphql : GraphqlInner
at_graphql = record { limits = strict; paths = text "/graphql" ∷ []; persisted = text "7b" ∷ [] }

abbrev someone : GraphqlIdentity
someone = record { sub = none; ip = text "192.0.2.1" }

checked :
    (check sample first_byte 0 0 at_graphql
      (text "post")
      (text "/graphql?x=1")
      (some (text "application/json"))
      (text "{a}")
      someone
      (text "site")
      no_hits).1
    ≡ GraphqlVerdict.allow
unfolding check eq_ignore_ascii_case canonical_route_path decode_rounds percent_decode decode_from
    as_bytes split check_stable from_utf8 utf8_from join resolve slashes push_segment extract_ops
    trim evaluate parse_document is_empty skip_ignored next_token analyze_document
checked = refl

-- The directives of a spread end where there is no token, and the character that is none is passed over.
stray_minus :
    parse_document (text "{...F -} fragment F on T{a}")
    ≡ ok (record {
      operations = cons (spread (text "F")) done ∷ [];
      fragments = (text "F", cons (leaf false (text "a") []) done) ∷ [];
    })
unfolding parse_document is_empty skip_ignored next_token
stray_minus = refl

-- A route with a quota and a window of its own, under the key of the site.
abbrev on_route : QuotaBook
on_route = (consume_quota 0 1 (some 9) 30 (text "k") 3 empty_book).0

abbrev route_ledger : Ledger
route_ledger =
    entered (consume_quota 0 1 (some 9) 30 (text "k") 3 empty_book).1 (text "k", (1, 3)) []

first_call : Reached 10 1 on_route route_ledger
first_call = consumed 30 9 0 1 3 (text "k") start (omega arith) (omega arith) (omega arith)

consume_quota-decides_example :
    ((consume_quota 4 4 (some 5) 10 (text "k") 2 on_route).1 ≡ ok tt) ↔ (
      (spent 10 4 (charges (text "k") route_ledger) + 2 ≤ 5)
      × (has_room (text "k") (counted 10 4 on_route) ≡ true))
consume_quota-decides_example =
    consume_quota-decides 10 5 (omega arith) 4 4 2 (text "k") first_call (omega arith) (omega arith)

-- A route with a shorter window forgets what the site has let through: 3 and 3 are above 5.
abbrev forgetful : QuotaBook
forgetful =
    (consume_quota 20 20 (some 5) 1 (text "k") 1
      (consume_quota 0 1 (some 5) 60 (text "k") 3 empty_book).0).0

forgotten : (consume_quota 21 21 (some 5) 60 (text "k") 3 forgetful).1 ≡ ok tt
unfolding consume_quota
forgotten = refl
