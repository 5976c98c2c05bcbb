-- ===== src/Graphql/Admitted.antt =====
-- What is true of the operations of a request that src/graphql.rs allows.
use ferroada.Prelude.{
  ℕ, ◌+◌, ◌%◌, ◌^◌, ◌≤◌, ltb, max, List, [], ◌∷◌, length, All, Bool, true, false, not, ◌||◌, Option,
  none, some, Result, ok, err, ◌>>=◌, ◌>>◌, ensure, ensure-eq-ok, bind-eq-ok, Result-cases, ◌≡◌,
  ◌⊎◌, inl, inr, arith, Bool-cases, subst, refl,
}
use ferroada.Text.{Text, text}
use ferroada.Graphql.Document.{Document}
use ferroada.Graphql.Walk.{
  GraphqlFailure, WalkFail, Stats, analyze_document, env_of, capped, hard_depth, hard_complexity,
  saturating,
}
use ferroada.Graphql.Measures.{Measure, totals}
use ferroada.Graphql.Measures.Documents.{analyze_document-IsMeasured}
use ferroada.Graphql.Syntax.{parse_document}
use ferroada.Graphql.Limits.{GraphqlLimits}
use ferroada.Graphql.Quota.{QuotaBook}
use ferroada.Graphql.Admission.{
  RawOp, query_hash, check_claimed, required, is_listed, parsed, walked, at_most, has_operations,
  max_ops, check_stats, check_document, check_op, check_ops, evaluate, over,
}
use ferroada.Graphql.Parser.{ParseFail}

-- Where there is such a limit.
abbrev pub AtMost : Option ℕ → ℕ → Type 0
AtMost none n = Unit
AtMost (some m) n = n ≤ m

abbrev pub measure_of : GraphqlLimits → RawOp → Document → Measure
measure_of l op document =
    totals (length document.fragments)
      (env_of document op.variables l.max_depth l.max_complexity l.default_list_size)
      document.operations

pub record IsWithin (l : GraphqlLimits) (op : RawOp) (document : Document) : Type 0 where
  pub few : length document.operations % 2 ^ 32 ≤ max_ops l
  pub shallow : (measure_of l op document).height ≤ capped l.max_depth hard_depth
  pub cheap : (measure_of l op document).cost ≤ capped l.max_complexity hard_complexity
  pub renamed : AtMost l.max_aliases (saturating 32 (measure_of l op document).aliases)
  pub fragmented : AtMost l.max_fragments (length document.fragments % 2 ^ 32)
  pub closed : (l.introspection ≡ true) ⊎ ((measure_of l op document).introspects ≡ false)

pub record IsAdmitted (sha256 : List ℕ → List ℕ) (l : GraphqlLimits) (persisted : List Text)
    (op : RawOp) : Type 0 where
  pub query : Text
  pub document : Document
  pub sent : op.query ≡ some query
  pub read : parse_document query ≡ ok document
  pub listed : (l.persisted_only ≡ false) ⊎ (is_listed (query_hash sha256 query) persisted ≡ true)
  pub within : IsWithin l op document

at_most-AtMost : (o : Option ℕ) (n : ℕ) → at_most o n ≡ true → AtMost o n
unfolding at_most
at_most-AtMost none n h = tt
at_most-AtMost (some m) n h = ground (arith, h)

pub walked-ok : (r : Result WalkFail Stats) (s : Stats) → walked r ≡ ok s → r ≡ ok s
unfolding walked
walked-ok (ok t) s h = ground (arith, h)
walked-ok (err (WalkFail.failure f)) s h = cc
walked-ok (err WalkFail.out_of_fuel) s h = cc

ensure_passed : (b : Bool) (e : GraphqlFailure) (u : Unit {0}) → ensure b e ≡ ok u → b ≡ true
ensure_passed true e u h = refl
ensure_passed false e u h = cc

-- A chain that succeeds has a first part that does.
first-ok :
    {B : Type 0} (r : Result GraphqlFailure (Unit {0})) (k : Result GraphqlFailure B) (b : B)
    → (r >> k) ≡ ok b
    → (r ≡ ok tt) × (k ≡ ok b)
first-ok (ok tt) k b h = (refl, h)
first-ok (err e) k b h = cc

-- What is closed or not asked for.
not_asked :
    (open_to asked : Bool) → (open_to || not asked) ≡ true → (open_to ≡ true) ⊎ (asked ≡ false)
not_asked true asked h = inl refl
not_asked false true h = cc
not_asked false false h = inr refl

check_stats-ok :
    (l : GraphqlLimits) (s : Stats) (u : Unit {0})
    → check_stats l s ≡ ok u
    → ((l.introspection || not s.introspection) ≡ true) × (at_most l.max_aliases s.aliases ≡ true)
unfolding check_stats
check_stats-ok l s u h =
    let a =
      ensure-eq-ok (l.introspection || not s.introspection) (over (text "introspection")) _ h in
    let b = ensure-eq-ok (at_most l.max_depth s.depth) (over (text "depth")) _ a.1 in
    let c = ensure-eq-ok (at_most l.max_complexity s.complexity) (over (text "complexity")) _ b.1 in
    (a.0, ensure_passed (at_most l.max_aliases s.aliases) (over (text "aliases")) u c.1)

check_document-IsWithin :
    (l : GraphqlLimits) (op : RawOp) (document : Document) (before : ℕ) (r : ℕ × ℕ)
    → check_document l op document before ≡ ok r
    → IsWithin l op document
unfolding check_document
check_document-IsWithin l op document before r h =
    let total : ℕ = before + length document.operations % 2 ^ 32 in
    let a = ensure-eq-ok (ltb total (2 ^ 32)) (over (text "operations")) _ h in
    let b = ensure-eq-ok (not (ltb (max_ops l) total)) (over (text "operations")) _ a.1 in
    let c = ensure-eq-ok (has_operations document) GraphqlFailure.parse_error _ b.1 in
    let d =
      ensure-eq-ok (at_most l.max_fragments (length document.fragments % 2 ^ 32))
        (over (text "fragments")) _ c.1 in
    let w =
      bind-eq-ok
        (walked
          (analyze_document document op.variables l.max_depth l.max_complexity l.default_list_size))
        (λ s. check_stats l s >> ok (total, max s.complexity 1)) d.1 in
    let m =
      analyze_document-IsMeasured document op.variables l.max_depth l.max_complexity
        l.default_list_size w.0
        (walked-ok
          (analyze_document document op.variables l.max_depth l.max_complexity l.default_list_size)
          w.0 w.1) in
    let stats =
      check_stats-ok l w.0 tt
        (first-ok (check_stats l w.0) (ok (total, max w.0.complexity 1)) r w.2).0 in
    record {
      few = ground (arith, b.0);
      shallow = m.shallow;
      cheap = m.cheap;
      renamed =
          subst (λ n. AtMost l.max_aliases n) m.aliases
            (at_most-AtMost l.max_aliases w.0.aliases stats.1);
      fragmented = at_most-AtMost l.max_fragments (length document.fragments % 2 ^ 32) d.0;
      closed =
          not_asked l.introspection (measure_of l op document).introspects
            (subst (λ x. (l.introspection || not x) ≡ true) m.introspection stats.0);
    }

pub parsed-ok : (r : Result ParseFail Document) (d : Document) → parsed r ≡ ok d → r ≡ ok d
unfolding parsed
parsed-ok (ok x) d h = ground (arith, h)
parsed-ok (err ParseFail.invalid) d h = cc
parsed-ok (err ParseFail.too_deep) d h = cc
parsed-ok (err ParseFail.out_of_fuel) d h = cc

pub required-ok : (o : Option Text) (t : Text) → required o ≡ ok t → o ≡ some t
required-ok none t h = cc
required-ok (some x) t h = ground (arith, h)

not_required : (a b : Bool) → (not a || b) ≡ true → (a ≡ false) ⊎ (b ≡ true)
not_required true b h = inr h
not_required false b h = inl refl

module _ (sha256 : List ℕ → List ℕ) (l : GraphqlLimits) (persisted : List Text) where
  pub check_op-IsAdmitted :
      (op : RawOp) (before : ℕ) (r : ℕ × ℕ)
      → check_op sha256 l persisted op before ≡ ok r
      → IsAdmitted sha256 l persisted op
  unfolding check_op
  check_op-IsAdmitted op before r h =
      let a = first-ok (check_claimed sha256 l.persisted_only op) _ r h in
      let q =
        bind-eq-ok (required op.query)
          (λ query.
            ensure (not l.persisted_only || is_listed (query_hash sha256 query) persisted)
              (over (text "persisted_query"))
            >> (parsed (parse_document query) >>= λ document. check_document l op document before))
          a.1 in
      let e =
        ensure-eq-ok (not l.persisted_only || is_listed (query_hash sha256 q.0) persisted)
          (over (text "persisted_query")) _ q.2 in
      let d =
        bind-eq-ok (parsed (parse_document q.0)) (λ document. check_document l op document before)
          e.1 in
      record {
        query = q.0;
        document = d.0;
        sent = required-ok op.query q.0 q.1;
        read = parsed-ok (parse_document q.0) d.0 d.1;
        listed = not_required l.persisted_only (is_listed (query_hash sha256 q.0) persisted) e.0;
        within = check_document-IsWithin l op d.0 before r d.2;
      }

  pub check_ops-IsAdmitted :
      (ops : List RawOp) (before cost total : ℕ)
      → check_ops sha256 l persisted ops before cost ≡ ok total
      → All (IsAdmitted sha256 l persisted) ops
  unfolding check_ops
  check_ops-IsAdmitted [] before cost total h = tt
  check_ops-IsAdmitted (op ∷ ops) before cost total h =
      let first =
        bind-eq-ok (check_op sha256 l persisted op before)
          (λ r. check_ops sha256 l persisted ops r.0 (saturating 64 (cost + r.1))) h in
      (
        check_op-IsAdmitted op before first.0 first.1,
        check_ops-IsAdmitted ops first.0.0 (saturating 64 (cost + first.0.1)) total first.2,
      )

-- Every operation of a request that is allowed has a query that parses. Its document has operations,
-- fragments and aliases within the limits, with the fragments in place it is nested and costs no more
-- than is configured, nor than 64 and 100,000, and it asks for the schema only where that is allowed.
-- Where only persisted queries are, the hash of the query is one of theirs.
pub evaluate-IsAdmitted :
    (sha256 : List ℕ → List ℕ) (sweep_now now : ℕ) (l : GraphqlLimits) (persisted : List Text)
    (ops : List RawOp) (key : Text) (book : QuotaBook)
    → (evaluate sha256 sweep_now now l persisted ops key book).1 ≡ ok tt
    → All (IsAdmitted sha256 l persisted) ops
unfolding evaluate
evaluate-IsAdmitted sha256 sweep_now now l persisted ops key book h =
    elim (Bool-cases (ltb (max_ops l) (length ops % 2 ^ 32))) [
      | inl many ↦ absurd (ground (arith, h, many))
      | inr few ↦ elim (Result-cases (check_ops sha256 l persisted ops 0 0)) [
        | inl (e, bad) ↦ absurd (ground (arith, h, few, bad))
        | inr (total, good) ↦ check_ops-IsAdmitted sha256 l persisted ops 0 0 total good
      ]
    ]
