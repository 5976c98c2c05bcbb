-- ===== src/Graphql/Inspected.antt =====
-- What a verdict of src/graphql.rs says of the request.
use ferroada.Prelude.{ℕ, List, [], All, Bool, true, false, Option, ◌≡◌}
use ferroada.Text.{Text}
use ferroada.Graphql.Walk.{GraphqlFailure}
use ferroada.Graphql.Quota.{QuotaBook}
use ferroada.Graphql.Admission.{RawOp}
use ferroada.Graphql.Unreadable.{IsUnreadable}
use ferroada.Graphql.Refused.Requests.{IsRefused}
use ferroada.Graphql.Admitted.{IsAdmitted}
use ferroada.Graphql.Body.{Json, Extract, extract_ops}
use ferroada.Graphql.Policy.{GraphqlInner, GraphqlVerdict, is_checked, is_dedicated}

module _ (json : Json) (sha256 : List ℕ → List ℕ) (sweep_now now : ℕ) (inner : GraphqlInner)
    (key : Text) (book : QuotaBook) where
  -- Why a request has its verdict.
  pub data IsInspected (verb path : Text) (content_type : Option Text) (body : List ℕ)
      : GraphqlVerdict → Type 0 where
    not_checked :
        is_checked inner.paths verb path ≡ false
        → IsInspected verb path content_type body GraphqlVerdict.skip
    no_operations :
        inner.paths ≡ []
        → extract_ops json content_type body false ≡ Extract.skip
        → IsInspected verb path content_type body GraphqlVerdict.skip
    unreadable :
        is_checked inner.paths verb path ≡ true
        → IsUnreadable json content_type body (is_dedicated inner.paths)
        → IsInspected verb path content_type body (GraphqlVerdict.deny GraphqlFailure.parse_error)
    refused :
        (found : List RawOp) (failure : GraphqlFailure)
        → is_checked inner.paths verb path ≡ true
        → extract_ops json content_type body (is_dedicated inner.paths) ≡ Extract.ops found
        → IsRefused sha256 inner.limits inner.persisted sweep_now now found key book failure
        → IsInspected verb path content_type body (GraphqlVerdict.deny failure)
    admitted :
        (found : List RawOp)
        → is_checked inner.paths verb path ≡ true
        → extract_ops json content_type body (is_dedicated inner.paths) ≡ Extract.ops found
        → All (IsAdmitted sha256 inner.limits inner.persisted) found
        → IsInspected verb path content_type body GraphqlVerdict.allow

-- Where the paths are given, a body without operations is no reason to skip.
module _ (json : Json) where
  open json use {Value, from_str, items}

  is_extracted : Extract → Bool
  is_extracted Extract.skip = false
  is_extracted (Extract.ops found) = true
  is_extracted (Extract.failed failure) = true
