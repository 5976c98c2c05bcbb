-- ===== src/Protocol/Section.antt =====
-- The `[protocols]` section of the policy, as src/protocol.rs reads it into the matrix. The messages
-- of the errors are left out.
pub mod RoundTrip
use ferroada.Prelude.{
  List, ◌≡◌, Bool, true, false, Option, none, some, Result, ok, err, ◌>>=◌, ◌>>◌, list_eq,
  if◌then◌else◌,
}
use ferroada.Text.{Text, text, trim}
use ferroada.Protocol.{UnsupportedAction, ProtocolMatrix, default}

pub data SectionError : Type 0 where
  not_inspect inspect_only ambiguous : Text → SectionError
  invalid : Text → Text → SectionError

pub data Policy : Type 0 where
  inspect : Policy
  unsupported : UnsupportedAction → Policy

unfoldable pub policy_of : Text → Text → Result SectionError Policy
policy_of key raw =
    if list_eq raw (text "inspect")
    then ok Policy.inspect
    else if list_eq raw (text "deny")
    then ok (Policy.unsupported UnsupportedAction.deny)
    else if list_eq raw (text "monitor")
    then ok (Policy.unsupported UnsupportedAction.monitor)
    else if list_eq raw (text "bypass-explicit")
    then ok (Policy.unsupported UnsupportedAction.bypass_explicit)
    else if list_eq raw (text "route-to-quarantine")
    then ok (Policy.unsupported UnsupportedAction.route_to_quarantine)
    else if list_eq raw (text "unknown")
    then err (SectionError.ambiguous key)
    else err (SectionError.invalid key raw)

unfoldable pub parse_policy : Text → Text → Result SectionError Policy
parse_policy key raw = policy_of key (trim raw)

unfoldable pub parse_unsupported : Text → Text → Result SectionError UnsupportedAction
parse_unsupported key raw = parse_policy key raw >>= λ policy. elim policy [
  | Policy.inspect ↦ err (SectionError.not_inspect key)
  | Policy.unsupported action ↦ ok action
]

unfoldable pub parse_supported_override :
    Text → Text → Result SectionError (Option UnsupportedAction)
parse_supported_override key raw = parse_policy key raw >>= λ policy. elim policy [
  | Policy.inspect ↦ ok none
  | Policy.unsupported action ↦ ok (some action)
]

unfoldable pub parse_inspect_only : Text → Text → Result SectionError (Unit {0})
parse_inspect_only key raw = parse_policy key raw >>= λ policy. elim policy [
  | Policy.inspect ↦ ok tt
  | Policy.unsupported action ↦ err (SectionError.inspect_only key)
]

pub record ProtocolsSection : Type 0 where
  pub http_1_0 : Option Text
  pub http_1_1 : Option Text
  pub http_2 : Option Text
  pub http_3 : Option Text
  pub websocket : Option Text
  pub grpc : Option Text
  pub brotli : Option Text
  pub multipart : Option Text
  pub sse : Option Text
  pub json : Option Text
  pub gzip_deflate : Option Text
  pub unknown_http_version : Option Text
  pub unknown_upgrade : Option Text
  pub unknown_encoding : Option Text
  pub unknown_content_type : Option Text

-- `if let Some(raw) = ... { matrix.field = parse(key, raw)?; }`, for the three kinds of field.
unfoldable pub line : UnsupportedAction → Text → Option Text → Result SectionError UnsupportedAction
line current key none = ok current
line current key (some raw) = parse_unsupported key raw

unfoldable pub override_line :
    Option UnsupportedAction → Text → Option Text → Result SectionError (Option UnsupportedAction)
override_line current key none = ok current
override_line current key (some raw) = parse_supported_override key raw

unfoldable pub some_line :
    Option UnsupportedAction → Text → Option Text → Result SectionError (Option UnsupportedAction)
some_line current key none = ok current
some_line current key (some raw) = parse_unsupported key raw >>= λ action. ok (some action)

unfoldable pub inspect_line : Text → Option Text → Result SectionError (Unit {0})
inspect_line key none = ok tt
inspect_line key (some raw) = parse_inspect_only key raw

unfoldable pub from_section : ProtocolsSection → Result SectionError ProtocolMatrix
from_section s = do
  http_1_0 ← line default.http_1_0 (text "http_1_0") s.http_1_0
  http_1_1 ← override_line default.http_1_1 (text "http_1_1") s.http_1_1
  http_2 ← override_line default.http_2 (text "http_2") s.http_2
  http_3 ← line default.http_3 (text "http_3") s.http_3
  websocket ← line default.websocket (text "websocket") s.websocket
  grpc ← line default.grpc (text "grpc") s.grpc
  brotli ← some_line default.brotli (text "brotli") s.brotli
  multipart ← some_line default.multipart (text "multipart") s.multipart
  unknown_http_version ←
      line default.unknown_http_version (text "unknown_http_version") s.unknown_http_version
  unknown_upgrade ← line default.unknown_upgrade (text "unknown_upgrade") s.unknown_upgrade
  unknown_encoding ← some_line default.unknown_encoding (text "unknown_encoding") s.unknown_encoding
  unknown_content_type ←
      some_line default.unknown_content_type (text "unknown_content_type") s.unknown_content_type
  inspect_line (text "sse") s.sse
  inspect_line (text "json") s.json
  inspect_line (text "gzip_deflate") s.gzip_deflate
  ok (record {
    http_1_0 = http_1_0;
    http_1_1 = http_1_1;
    http_2 = http_2;
    http_3 = http_3;
    websocket = websocket;
    grpc = grpc;
    brotli = brotli;
    multipart = multipart;
    unknown_http_version = unknown_http_version;
    unknown_upgrade = unknown_upgrade;
    unknown_encoding = unknown_encoding;
    unknown_content_type = unknown_content_type;
  })
