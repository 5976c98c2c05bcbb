-- ===== src/Grpc/Rpc.antt =====
-- The name of a method, `service/method`, as src/grpc.rs takes it from a path.
use ferroada.Prelude.{
  ℕ, leb, ◌==◌, List, [], ◌∷◌, ◌++◌, Bool, true, false, not, ◌&&◌, ◌||◌, Option, none, some,
  list_eq, if◌then◌else◌,
}
use ferroada.Text.{Text, text, trim, is_empty, to_ascii_lowercase, starts_with, split}
use ferroada.RoutePath.{canonical_route_path}

abbrev pub first_part : Text → List Text → Text
first_part d [] = d
first_part d (part ∷ parts) = part

unfoldable pub is_grpc_content_type : Option Text → Bool
is_grpc_content_type none = false
is_grpc_content_type (some content_type) =
    starts_with (to_ascii_lowercase (trim (first_part content_type (split b';' content_type))))
      (text "application/grpc")

-- `trim_start_matches('/')`
unfoldable pub trim_slashes : Text → Text
trim_slashes [] = []
trim_slashes (c ∷ cs) = let rest = trim_slashes cs in if c == b'/' then rest else c ∷ cs

-- `rsplit_once('/')`
unfoldable pub rsplit_slash : Text → Option (Text × Text)
rsplit_slash [] = none
rsplit_slash (c ∷ cs) = elim (rsplit_slash cs) [
  | some (a, b) ↦ some (c ∷ a, b)
  | none ↦ if c == b'/' then some ([], cs) else none
]

unfoldable pub has_slash : Text → Bool
has_slash [] = false
has_slash (c ∷ cs) = let rest = has_slash cs in c == b'/' || rest

unfoldable pub is_word_char : ℕ → Bool
is_word_char c =
    (leb b'a' c && leb c b'z')
    || (leb b'A' c && leb c b'Z')
    || (leb b'0' c && leb c b'9')
    || c == b'_'

unfoldable pub are_service_chars : Text → Bool
unfolding is_word_char
are_service_chars [] = true
are_service_chars (c ∷ cs) =
    let rest = are_service_chars cs in (is_word_char c || c == b'.') && rest

unfoldable pub are_method_chars : Text → Bool
unfolding is_word_char
are_method_chars [] = true
are_method_chars (c ∷ cs) = let rest = are_method_chars cs in is_word_char c && rest

unfoldable pub check_names : Text × Text → Option Text
check_names (service, method) =
    if is_empty service || is_empty method
    then none
    else if has_slash service || has_slash method
    then none
    else if not (are_service_chars service) || not (are_method_chars method)
    then none
    else some (service ++ b'/' ∷ method)

unfoldable pub normalize_rpc : Text → Option Text
normalize_rpc raw =
    if is_empty (trim raw) then none else elim (rsplit_slash (trim_slashes (trim raw))) [
      | none ↦ none
      | some names ↦ check_names names
    ]

abbrev pub unwrap_or : Text → Option Text → Text
unwrap_or d none = d
unwrap_or d (some t) = t

unfoldable pub rpc_from_path : Text → Text
rpc_from_path path =
    let bare = first_part path (split b'?' path) in
    let canonical = unwrap_or bare (canonical_route_path bare) in
    unwrap_or (trim_slashes canonical) (normalize_rpc canonical)

unfoldable pub split_rpc : Text → Option (Text × Text)
split_rpc rpc = rsplit_slash rpc

unfoldable pub is_reflection : Text → Bool
is_reflection rpc =
    list_eq rpc (text "grpc.reflection.v1.ServerReflection/ServerReflectionInfo")
    || list_eq rpc (text "grpc.reflection.v1alpha.ServerReflection/ServerReflectionInfo")
