-- ===== src/Graphql/Refused/Requests.antt =====
-- The operation of a request that src/graphql.rs refuses, and when the request is refused as a whole.
use ferroada.Prelude.{
  ℕ, ◌+◌, ◌%◌, ◌^◌, ◌<◌, ltb, max, List, [], ◌∷◌, length, All, not, ◌||◌, Option, none, some,
  list_eq, Result, ok, err, ◌>>=◌, ◌>>◌, ensure, Result-cases, ◌≡◌, inl, inr, arith, Bool-cases,
  Option-cases, ap, ◌∙◌, subst, refl,
}
use ferroada.Text.{Text, text, trim, to_ascii_lowercase}
use ferroada.Graphql.Document.{Document}
use ferroada.Graphql.Walk.{GraphqlFailure, saturating}
use ferroada.Graphql.Syntax.{parse_document}
use ferroada.Graphql.Ends.Documents.{parse_document-ends}
use ferroada.Graphql.Limits.{GraphqlLimits, is_sha256_hex}
use ferroada.Graphql.Quota.{QuotaBook, consume_quota, quota_failure, spend}
use ferroada.Graphql.Admission.{
  RawOp, query_hash, check_claimed, required, is_listed, parsed, max_ops, check_document, check_op,
  check_ops, evaluate, over,
}
use ferroada.Graphql.Admitted.{
  IsAdmitted, check_op-IsAdmitted, check_ops-IsAdmitted, required-ok, parsed-ok,
}
use ferroada.Graphql.Refused.{
  IsRefusedOp, first-err, ensure-err, bind-err, parsed-err, check_document-IsOver,
}

module _ (sha256 : List ℕ → List ℕ) (l : GraphqlLimits) (persisted : List Text) where
  check_claimed-err :
      (op : RawOp) (before : ℕ) (f : GraphqlFailure)
      → check_claimed sha256 l.persisted_only op ≡ err f
      → IsRefusedOp sha256 l persisted op before f
  unfolding check_claimed
  check_claimed-err op before f h = elim (Option-cases op.persisted) [
    | inl none_claimed ↦ absurd (ground (arith, h, none_claimed))
    | inr (raw, claimed) ↦ elim (Bool-cases (is_sha256_hex (to_ascii_lowercase (trim raw)))) [
      | inr bad ↦ IsRefusedOp.malformed raw claimed bad (ground (arith, h, claimed, bad))
      | inl good ↦ elim (Option-cases op.query) [
        | inl absent ↦ IsRefusedOp.missing absent (ground (arith, h, claimed, good, absent))
        | inr (query, sent) ↦
            elim (Bool-cases (list_eq (query_hash sha256 query) (to_ascii_lowercase (trim raw)))) [
              | inl same ↦ absurd (ground (arith, h, claimed, good, sent, same))
              | inr other ↦
                  IsRefusedOp.mismatched raw query claimed sent other
                    (ground (arith, h, claimed, good, sent, other))
            ]
      ]
    ]
  ]

  required-err :
      (o : Option Text) (f : GraphqlFailure)
      → required o ≡ err f
      → (o ≡ none) × (f ≡ GraphqlFailure.parse_error)
  required-err none f h = (refl, ground (arith, h))
  required-err (some q) f h = cc

  check_op-err :
      (op : RawOp) (before : ℕ) (f : GraphqlFailure)
      → check_op sha256 l persisted op before ≡ err f
      → IsRefusedOp sha256 l persisted op before f
  unfolding check_op
  check_op-err op before f h = elim (first-err (check_claimed sha256 l.persisted_only op) _ f h) [
    | inl claim ↦ check_claimed-err op before f claim
    | inr (_, h₁) ↦
        elim (bind-err (required op.query)
          (λ query.
            ensure (not l.persisted_only || is_listed (query_hash sha256 query) persisted)
              (over (text "persisted_query"))
            >> (parsed (parse_document query) >>= λ document. check_document l op document before))
          f h₁) [
            | inl absent ↦
                let (no_query, e) = required-err op.query f absent in
                IsRefusedOp.missing no_query (inl e)
            | inr (query, got, h₂) ↦
                let sent = required-ok op.query query got in
                elim (ensure-err
                  (not l.persisted_only || is_listed (query_hash sha256 query) persisted)
                  (over (text "persisted_query")) _ f h₂) [
                    | inl (unlisted, e) ↦
                        IsRefusedOp.unlisted query sent (ground (arith, unlisted))
                          (ground (arith, unlisted)) e
                    | inr (_, h₃) ↦
                        elim (bind-err (parsed (parse_document query))
                          (λ document. check_document l op document before) f h₃) [
                            | inl bad ↦
                                elim (parsed-err (parse_document query) f
                                  (parse_document-ends query) bad) [
                                    | inl (invalid, e) ↦ IsRefusedOp.unparsed query sent invalid e
                                    | inr (deep, e) ↦ IsRefusedOp.nested query sent deep e
                                  ]
                            | inr (document, good, h₄) ↦
                                IsRefusedOp.beyond query document sent
                                  (parsed-ok (parse_document query) document good)
                                  (check_document-IsOver l op document before f h₄)
                          ]
                  ]
          ]
  ]

  -- The first operation that is refused, behind those that are within the limits.
  pub data IsRefusedAmong (f : GraphqlFailure) : ℕ → List RawOp → Type 0 where
    here :
        {before : ℕ} {op : RawOp} {ops : List RawOp}
        → IsRefusedOp sha256 l persisted op before f
        → IsRefusedAmong f before (op ∷ ops)
    later :
        {before : ℕ} {op : RawOp} {ops : List RawOp} (a : IsAdmitted sha256 l persisted op)
        → IsRefusedAmong f (before + length a.document.operations % 2 ^ 32) ops
        → IsRefusedAmong f before (op ∷ ops)

  check_document-total :
      (op : RawOp) (document : Document) (before : ℕ) (r : ℕ × ℕ)
      → check_document l op document before ≡ ok r
      → r.0 ≡ before + length document.operations % 2 ^ 32
  unfolding check_document
  check_document-total op document before r h = ground (arith, h)

  check_op-total :
      (op : RawOp) (before : ℕ) (r : ℕ × ℕ)
      → check_op sha256 l persisted op before ≡ ok r
      → (a : IsAdmitted sha256 l persisted op) × (r.0
          ≡ before + length a.document.operations % 2 ^ 32)
  unfolding check_op
  check_op-total op before r h =
      let a = check_op-IsAdmitted sha256 l persisted op before r h in
      (a, ground (arith, h, a.sent, a.read, check_document-total op a.document before r))

  check_ops-err :
      (ops : List RawOp) (before cost : ℕ) (f : GraphqlFailure)
      → check_ops sha256 l persisted ops before cost ≡ err f
      → IsRefusedAmong f before ops
  unfolding check_ops
  check_ops-err [] before cost f h = cc
  check_ops-err (op ∷ ops) before cost f h =
      let rest : ℕ × ℕ → Result GraphqlFailure ℕ =
        λ r. check_ops sha256 l persisted ops r.0 (saturating 64 (cost + r.1)) in
      elim (bind-err (check_op sha256 l persisted op before) rest f h) [
        | inl bad ↦ IsRefusedAmong.here (check_op-err op before f bad)
        | inr (r, good, h₁) ↦
            let (a, total) = check_op-total op before r good in
            IsRefusedAmong.later a (
              subst (λ n. IsRefusedAmong f n ops) total
                (check_ops-err ops r.0 (saturating 64 (cost + r.1)) f h₁))
      ]

  -- Why a request is refused: it holds too many operations, one of them is wrong, or all are within
  -- the limits and their cost is not within the quota.
  pub data IsRefused (sweep_now now : ℕ) (ops : List RawOp) (key : Text) (book : QuotaBook)
      (f : GraphqlFailure) : Type 0 where
    too_many :
        max_ops l < length ops % 2 ^ 32
        → f ≡ over (text "operations")
        → IsRefused sweep_now now ops key book f
    wrong : IsRefusedAmong f 0 ops → IsRefused sweep_now now ops key book f
    overspent :
        (limit cost : ℕ)
        → All (IsAdmitted sha256 l persisted) ops
        → check_ops sha256 l persisted ops 0 0 ≡ ok cost
        → l.quota ≡ some limit
        → (consume_quota sweep_now now (some limit) l.quota_window key (max cost 1) book).1
          ≡ err quota_failure
        → f ≡ quota_failure
        → IsRefused sweep_now now ops key book f

  quota_failure_only :
      (sweep_now now limit window cost : ℕ) (key : Text) (book : QuotaBook) (f : GraphqlFailure)
      → (consume_quota sweep_now now (some limit) window key cost book).1 ≡ err f
      → f ≡ quota_failure
  unfolding consume_quota spend
  quota_failure_only sweep_now now limit window cost key book f h = ground (arith, h)

  consume_quota-err :
      (sweep_now now window cost : ℕ) (quota : Option ℕ) (key : Text) (book : QuotaBook)
      (f : GraphqlFailure)
      → (consume_quota sweep_now now quota window key cost book).1 ≡ err f
      → (limit : ℕ) × (quota ≡ some limit)
        × (f ≡ quota_failure)
        × ((consume_quota sweep_now now (some limit) window key cost book).1 ≡ err quota_failure)
  unfolding consume_quota
  consume_quota-err sweep_now now window cost none key book f h = cc
  consume_quota-err sweep_now now window cost (some limit) key book f h =
      let only = quota_failure_only sweep_now now limit window cost key book f h in
      (limit, refl, only, h ∙ ap err only)

  pub evaluate-err :
      (sweep_now now : ℕ) (ops : List RawOp) (key : Text) (book : QuotaBook) (f : GraphqlFailure)
      → (evaluate sha256 sweep_now now l persisted ops key book).1 ≡ err f
      → IsRefused sweep_now now ops key book f
  unfolding evaluate
  evaluate-err sweep_now now ops key book f h =
      elim (Bool-cases (ltb (max_ops l) (length ops % 2 ^ 32))) [
        | inl many ↦ IsRefused.too_many (ground (arith, many)) (ground (arith, h, many))
        | inr few ↦ elim (Result-cases (check_ops sha256 l persisted ops 0 0)) [
          | inl (e, bad) ↦
              let same : e ≡ f = ground (arith, h, few, bad) in
              IsRefused.wrong (check_ops-err ops 0 0 f (bad ∙ ap err same))
          | inr (cost, good) ↦
              let spent : (consume_quota sweep_now now l.quota l.quota_window key (max cost 1)
                    book).1
                  ≡ err f =
                ground (arith, h, few, good) in
              let (limit, given, e, refused) =
                consume_quota-err sweep_now now l.quota_window (max cost 1) l.quota key book f
                  spent in
              IsRefused.overspent limit cost
                (check_ops-IsAdmitted sha256 l persisted ops 0 0 cost good) good given refused e
        ]
      ]
