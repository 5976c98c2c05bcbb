-- ===== src/Protocol/Classify.antt =====
-- The lines of the matrix of src/protocol.rs that a request's headers fall under.
use ferroada.Prelude.{
  List, [], ◌∷◌, Bool, true, false, not, ◌||◌, Option, none, some, list_eq, if◌then◌else◌,
}
use ferroada.Text.{
  Text, text, trim, is_empty, to_ascii_lowercase, eq_ignore_ascii_case, split, starts_with,
  ends_with, contains,
}

pub data ProtocolId : Type 0 where
  http_10 http_11 http_2 http_3 : ProtocolId
  websocket grpc brotli multipart sse json gzip_deflate : ProtocolId
  unknown_http_version unknown_upgrade unknown_encoding unknown_content_type : ProtocolId

unfoldable pub id_as_str : ProtocolId → Text
id_as_str ProtocolId.http_10 = text "http_1_0"
id_as_str ProtocolId.http_11 = text "http_1_1"
id_as_str ProtocolId.http_2 = text "http_2"
id_as_str ProtocolId.http_3 = text "http_3"
id_as_str ProtocolId.websocket = text "websocket"
id_as_str ProtocolId.grpc = text "grpc"
id_as_str ProtocolId.brotli = text "brotli"
id_as_str ProtocolId.multipart = text "multipart"
id_as_str ProtocolId.sse = text "sse"
id_as_str ProtocolId.json = text "json"
id_as_str ProtocolId.gzip_deflate = text "gzip_deflate"
id_as_str ProtocolId.unknown_http_version = text "unknown_http_version"
id_as_str ProtocolId.unknown_upgrade = text "unknown_upgrade"
id_as_str ProtocolId.unknown_encoding = text "unknown_encoding"
id_as_str ProtocolId.unknown_content_type = text "unknown_content_type"

-- `.map(|token| token.trim().to_ascii_lowercase()).filter(|token| !token.is_empty())`
unfoldable pub tokens_of : List Text → List Text
unfolding trim to_ascii_lowercase
tokens_of [] = []
tokens_of (part ∷ parts) =
    let token = to_ascii_lowercase (trim part) in
    let rest = tokens_of parts in if not (is_empty token) then token ∷ rest else rest

unfoldable pub encoding_of_token : Text → Option ProtocolId
encoding_of_token token =
    if list_eq token (text "gzip")
      || list_eq token (text "x-gzip")
      || list_eq token (text "deflate")
    then none
    else if list_eq token (text "br")
        || list_eq token (text "brotli")
        || list_eq token (text "x-br")
    then some ProtocolId.brotli
    else some ProtocolId.unknown_encoding

unfoldable pub encoding_of_tokens : List Text → Option ProtocolId
encoding_of_tokens (token ∷ []) = encoding_of_token token
encoding_of_tokens _ = some ProtocolId.unknown_encoding

abbrev pub or_empty : Option Text → Text
or_empty none = []
or_empty (some t) = t

unfoldable pub classify_encoding : Option Text → Option ProtocolId
classify_encoding content_encoding =
    let encoding = trim (or_empty content_encoding) in
    if is_empty encoding || eq_ignore_ascii_case encoding (text "identity")
    then none
    else encoding_of_tokens (tokens_of (split b',' encoding))

-- `split(';').next()`
abbrev pub first_or : Text → List Text → Text
first_or d [] = d
first_or d (part ∷ parts) = part

unfoldable pub is_text_like : Text → Bool
is_text_like mime =
    starts_with mime (text "text/")
    || contains mime (text "application/json")
    || ends_with mime (text "+json")
    || contains mime (text "application/xml")
    || ends_with mime (text "+xml")
    || list_eq mime (text "application/x-www-form-urlencoded")
    || contains mime (text "application/graphql")

unfoldable pub classify_mime : Text → Option ProtocolId
classify_mime mime =
    if starts_with mime (text "application/grpc")
    then some ProtocolId.grpc
    else if starts_with mime (text "multipart/")
    then some ProtocolId.multipart
    else if is_text_like mime
    then none
    else some ProtocolId.unknown_content_type

unfoldable pub classify_content_type : Option Text → Option ProtocolId
classify_content_type none = none
classify_content_type (some content_type) =
    let lowered = to_ascii_lowercase content_type in
    classify_mime (trim (first_or lowered (split b';' lowered)))

unfoldable pub is_l0_inspectable_content_type : Option Text → Bool
is_l0_inspectable_content_type content_type = elim (classify_content_type content_type) [
  | none ↦ true
  | some p ↦ false
]

abbrev pub any_websocket : List Text → Bool
any_websocket [] = false
any_websocket (token ∷ tokens) =
    let rest = any_websocket tokens in eq_ignore_ascii_case (trim token) (text "websocket") || rest

unfoldable pub upgrade_is_websocket : Text → Bool
upgrade_is_websocket upgrade = any_websocket (split b',' upgrade)
