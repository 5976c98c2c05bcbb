-- ===== src/Graphql/Policy.antt =====
-- `GraphqlPolicy` of src/graphql.rs. The policy of a route that overlays that of a site shares its book,
-- which the operations here are given.
use ferroada.Prelude.{
  ℕ, List, [], ◌∷◌, Bool, true, false, not, ◌&&◌, ◌||◌, list_eq, Option, none, some, if◌then◌else◌,
  Result, ok, err,
}
use ferroada.Text.{Text, text, split, eq_ignore_ascii_case, starts_with, ends_with, strip_prefix}
use ferroada.RoutePath.{◌>>?◌, canonical_route_path}
use ferroada.Graphql.Walk.{GraphqlFailure}
use ferroada.Graphql.Limits.{
  GraphqlFile, GraphqlLimits, limits_from_file, overlay_limits, parse_hashes, or_value,
}
use ferroada.Graphql.Quota.{QuotaBook, GraphqlIdentity, quota_key}
use ferroada.Graphql.Admission.{evaluate}
use ferroada.Graphql.Body.{Json, Extract, extract_ops, first_piece}

pub record GraphqlInner : Type 0 where
  pub limits : GraphqlLimits
  pub paths : List Text
  pub persisted : List Text

pub data GraphqlVerdict : Type 0 where
  skip allow : GraphqlVerdict
  deny : GraphqlFailure → GraphqlVerdict

unfoldable pub from_file : Bool → GraphqlFile → List Text → Option GraphqlInner
unfolding limits_from_file parse_hashes
from_file production file paths = limits_from_file production file >>? λ limits.
    parse_hashes file.persisted_queries >>? λ persisted.
    some (record { limits = limits; paths = paths; persisted = persisted })

abbrev pub or_nonempty : List Text → List Text → List Text
or_nonempty [] base = base
or_nonempty (t ∷ ts) base = t ∷ ts

unfoldable pub overlay : GraphqlInner → GraphqlInner → GraphqlInner
unfolding overlay_limits
overlay base other = record {
  limits = overlay_limits base.limits other.limits;
  paths = or_nonempty other.paths base.paths;
  persisted = or_nonempty other.persisted base.persisted;
}

abbrev pub goes_on : Option Text → Bool
goes_on none = false
goes_on (some suffix) = starts_with suffix (text "/")

-- The path is a prefix or lies below it.
unfoldable pub is_below : Text → Text → Bool
is_below path prefix =
    list_eq path prefix
    || list_eq prefix (text "/")
    || (ends_with prefix (text "/") && starts_with path prefix)
    || goes_on (strip_prefix path prefix)

abbrev pub any_below : Text → List Text → Bool
any_below path [] = false
any_below path (prefix ∷ prefixes) = is_below path prefix || any_below path prefixes

abbrev pub is_dedicated : List Text → Bool
is_dedicated [] = false
is_dedicated (t ∷ ts) = true

unfoldable pub path_ok : List Text → Text → Bool
unfolding is_below
path_ok paths path = not (is_dedicated paths) || any_below path paths

-- The path without its query, in the form of routes where it has one.
unfoldable pub request_path : Text → Text
request_path path =
    let plain = first_piece (split b'?' path) in or_value (canonical_route_path plain) plain

abbrev pub verdict_of : Result GraphqlFailure (Unit {0}) → GraphqlVerdict
verdict_of (ok u) = GraphqlVerdict.allow
verdict_of (err failure) = GraphqlVerdict.deny failure

-- Whether the request is one that the policy looks at.
unfoldable pub is_checked : List Text → Text → Text → Bool
unfolding path_ok request_path
is_checked paths verb path =
    eq_ignore_ascii_case verb (text "POST") && path_ok paths (request_path path)

module _ (json : Json) (sha256 : List ℕ → List ℕ) (sweep_now now : ℕ) (inner : GraphqlInner) where
  unfoldable pub check_extracted : Extract → Text → QuotaBook → QuotaBook × GraphqlVerdict
  check_extracted Extract.skip key book = (book, GraphqlVerdict.skip)
  check_extracted (Extract.failed failure) key book = (book, GraphqlVerdict.deny failure)
  check_extracted (Extract.ops found) key book =
      let result = evaluate sha256 sweep_now now inner.limits inner.persisted found key book in
      (result.0, verdict_of result.1)

  unfoldable pub check :
      Text
      → Text
      → Option Text
      → List ℕ
      → GraphqlIdentity
      → Text
      → QuotaBook
      → QuotaBook × GraphqlVerdict
  unfolding check_extracted is_checked
  check verb path content_type body identity site_scope book =
      if is_checked inner.paths verb path
      then check_extracted (extract_ops json content_type body (is_dedicated inner.paths))
          (quota_key site_scope identity) book
      else (book, GraphqlVerdict.skip)
