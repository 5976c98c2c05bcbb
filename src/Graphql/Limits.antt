-- ===== src/Graphql/Limits.antt =====
-- The limits of src/graphql.rs, from a section of the configuration and from that of a route. A value that
-- the configuration may not have panics: `none`.
use ferroada.Prelude.{
  ℕ, ◌*◌, ◌^◌, ltb, ◌==◌, List, [], ◌∷◌, length, Bool, true, false, not, ◌&&◌, ◌||◌, Option, none,
  some, if◌then◌else◌,
}
use ferroada.Text.{Text, trim, to_ascii_lowercase}
use ferroada.RoutePath.{◌>>?◌}
use ferroada.RoutePath.Utf8.{as_bytes}
use ferroada.Net.Parser.{or_else}
use ferroada.Shield.{all_chars}
use ferroada.Graphql.Lexer.{is_hex}

pub record GraphqlFile : Type 0 where
  pub max_depth : Option ℕ
  pub max_complexity : Option ℕ
  pub max_aliases : Option ℕ
  pub max_fragments : Option ℕ
  pub max_operations : Option ℕ
  pub introspection : Option Bool
  pub persisted_only : Option Bool
  pub persisted_queries : List Text
  pub quota : Option ℕ
  pub quota_window : Option ℕ
  pub default_list_size : Option ℕ

-- `quota_window` is a number of nanoseconds here.
pub record GraphqlLimits : Type 0 where
  pub max_depth : Option ℕ
  pub max_complexity : Option ℕ
  pub max_aliases : Option ℕ
  pub max_fragments : Option ℕ
  pub max_operations : Option ℕ
  pub introspection : Bool
  pub introspection_set : Bool
  pub persisted_only : Bool
  pub persisted_only_set : Bool
  pub default_list_size : ℕ
  pub quota : Option ℕ
  pub quota_window : ℕ

-- A number that is given is between one and the maximum.
unfoldable pub require : Option ℕ → ℕ → Option (Option ℕ)
require none max = some none
require (some value) max = if value == 0 || ltb max value then none else some (some value)

abbrev pub or_value {ℓ} : {A : Type ℓ} → Option A → A → A
or_value none d = d
or_value (some x) d = x

abbrev pub is_some {ℓ} : {A : Type ℓ} → Option A → Bool
is_some none = false
is_some (some x) = true

abbrev pub default_list : ℕ
default_list = 10

abbrev pub seconds : ℕ → ℕ
seconds n = n * 10 ^ 9

-- `production` is whether `FERROADA_PRODUCTION` is `true`.
unfoldable pub limits_from_file : Bool → GraphqlFile → Option GraphqlLimits
unfolding require
limits_from_file production file = require file.max_depth 256 >>? λ depth.
    require file.max_complexity 1000000 >>? λ complexity.
    require file.max_aliases 10000 >>? λ aliases. require file.max_fragments 1024 >>? λ fragments.
    require file.max_operations 1024 >>? λ operations.
    require file.default_list_size 10000 >>? λ list_size. require file.quota 1000000000 >>? λ quota.
    require file.quota_window 86400 >>? λ window. some (record {
      max_depth = depth;
      max_complexity = complexity;
      max_aliases = aliases;
      max_fragments = fragments;
      max_operations = operations;
      introspection = or_value file.introspection (not production);
      introspection_set = is_some file.introspection;
      persisted_only = or_value file.persisted_only false;
      persisted_only_set = is_some file.persisted_only;
      default_list_size = or_value list_size default_list;
      quota = quota;
      quota_window = seconds (or_value window 60);
    })

unfoldable pub overlay_limits : GraphqlLimits → GraphqlLimits → GraphqlLimits
overlay_limits base other = record {
  max_depth = or_else other.max_depth base.max_depth;
  max_complexity = or_else other.max_complexity base.max_complexity;
  max_aliases = or_else other.max_aliases base.max_aliases;
  max_fragments = or_else other.max_fragments base.max_fragments;
  max_operations = or_else other.max_operations base.max_operations;
  introspection = if other.introspection_set then other.introspection else base.introspection;
  introspection_set = base.introspection_set || other.introspection_set;
  persisted_only = if other.persisted_only_set then other.persisted_only else base.persisted_only;
  persisted_only_set = base.persisted_only_set || other.persisted_only_set;
  default_list_size =
      if not (other.default_list_size == default_list)
      then other.default_list_size
      else base.default_list_size;
  quota = or_else other.quota base.quota;
  quota_window =
      if not (other.quota_window == seconds 60) then other.quota_window else base.quota_window;
}

unfoldable pub is_sha256_hex : Text → Bool
is_sha256_hex value = length (as_bytes value) == 64 && all_chars is_hex value

unfoldable pub parse_hashes : List Text → Option (List Text)
unfolding is_sha256_hex
parse_hashes [] = some []
parse_hashes (item ∷ items) =
    let hex = to_ascii_lowercase (trim item) in
    let rest = parse_hashes items in
    if not (is_sha256_hex hex) then none else rest >>? λ hashes. some (hex ∷ hashes)
