-- ===== src/Shield.antt =====
-- src/shield.rs: what a request's head may look like. The limits and lists that the code reads from
-- the environment once are a record here; its log lines and counts of blocks are left out. Methods and
-- host names are ASCII, so that `to_uppercase` and `to_lowercase` are those of ASCII.
pub mod Authority
pub mod Framing
pub mod RawHead
mod Tests
use ferroada.Prelude.{
  ℕ, ◌+◌, ◌-◌, ◌^◌, leb, ltb, ◌==◌, min, List, [], ◌∷◌, ◌++◌, length, Bool, true, false, not, ◌&&◌,
  ◌||◌, Option, none, some, list_eq, if◌then◌else◌,
}
use ferroada.Text.{Text, text, trim, split, is_empty, to_ascii_lowercase, contains, keep_given}
use ferroada.RoutePath.Utf8.{as_bytes, char_bytes}
use ferroada.RoutePath.{◌>>?◌}
use ferroada.Grpc.DeadlineText.{parse_u64}
use ferroada.ClientIp.Identity.{first_part}

pub record Limits : Type 0 where
  pub allowed_methods : List Text
  pub max_body_size : ℕ
  pub max_uri_length : ℕ
  pub max_header_count : ℕ
  pub max_header_bytes : ℕ
  pub allowed_hosts : Option (List Text)
  pub bad_bot_enabled : Bool

abbrev pub max_replayable_body : ℕ
max_replayable_body = 65536

abbrev pub default_max_uri : ℕ
default_max_uri = 8192

abbrev pub default_max_header_count : ℕ
default_max_header_count = 100

abbrev pub default_max_header_bytes : ℕ
default_max_header_bytes = 65536

-- `.to_uppercase()`
abbrev pub to_uppercase : Text → Text
to_uppercase [] = []
to_uppercase (c ∷ cs) = (if leb b'a' c && leb c b'z' then c - 32 else c) ∷ to_uppercase cs

abbrev pub map_text : (Text → Text) → List Text → List Text
map_text f [] = []
map_text f (t ∷ ts) = f t ∷ map_text f ts

unfoldable pub allowed_methods : Option Text → List Text
allowed_methods none =
    map_text to_uppercase (keep_given (split b',' (text "GET,POST,PUT,PATCH,DELETE,HEAD,OPTIONS")))
allowed_methods (some methods_str) = map_text to_uppercase (keep_given (split b',' methods_str))

-- `.and_then(|v| v.parse().ok()).filter(|value| *value > 0).unwrap_or(d)`
unfoldable pub positive_or : Option Text → ℕ → ℕ
positive_or value d = elim (value >>? parse_u64) [ none ↦ d | some n ↦ if ltb 0 n then n else d ]

unfoldable pub number_or : Option Text → ℕ → ℕ
number_or value d = elim (value >>? parse_u64) [ none ↦ d | some n ↦ n ]

unfoldable pub max_body_size : Option Text → ℕ
unfolding positive_or
max_body_size value = min (positive_or value max_replayable_body) max_replayable_body

unfoldable pub allowed_hosts : Option Text → Option (List Text)
allowed_hosts none = none
allowed_hosts (some hosts_str) =
    some (map_text to_ascii_lowercase (keep_given (split b',' hosts_str)))

abbrev pub is_enabled : Option Text → Bool
is_enabled none = true
is_enabled (some v) = not (list_eq v (text "false"))

-- The variables of the environment, in the order of the record.
pub record Env : Type 0 where
  pub allowed_methods_var : Option Text
  pub max_body_size_var : Option Text
  pub max_uri_length_var : Option Text
  pub max_header_count_var : Option Text
  pub max_header_bytes_var : Option Text
  pub allowed_hosts_var : Option Text
  pub bad_bot_enabled_var : Option Text

unfoldable pub limits : Env → Limits
unfolding allowed_methods max_body_size number_or positive_or allowed_hosts
limits env = record {
  allowed_methods = allowed_methods env.allowed_methods_var;
  max_body_size = max_body_size env.max_body_size_var;
  max_uri_length = number_or env.max_uri_length_var default_max_uri;
  max_header_count = positive_or env.max_header_count_var default_max_header_count;
  max_header_bytes = positive_or env.max_header_bytes_var default_max_header_bytes;
  allowed_hosts = allowed_hosts env.allowed_hosts_var;
  bad_bot_enabled = is_enabled env.bad_bot_enabled_var;
}

pub data ShieldVerdict : Type 0 where
  allow block_method block_body_size block_uri_length block_host block_bad_bot block_smuggling
        block_headers :
      ShieldVerdict

unfoldable pub check_headers : Limits → ℕ → ℕ → ShieldVerdict
check_headers l header_count header_bytes =
    if ltb l.max_header_count header_count || ltb l.max_header_bytes header_bytes
    then ShieldVerdict.block_headers
    else ShieldVerdict.allow

abbrev pub is_among : Text → List Text → Bool
is_among t [] = false
is_among t (x ∷ xs) = list_eq x t || is_among t xs

unfoldable pub check_method : Limits → Text → ShieldVerdict
check_method l method =
    if not (is_among (to_uppercase method) l.allowed_methods)
    then ShieldVerdict.block_method
    else ShieldVerdict.allow

-- `is_char_boundary`: no character of the text stands across the byte.
unfoldable pub is_char_boundary : ℕ → Text → Bool
is_char_boundary n [] = n == 0
is_char_boundary n (c ∷ cs) =
    let rest = is_char_boundary (n - length (char_bytes c)) cs in
    n == 0 || (leb (length (char_bytes c)) n && rest)

-- The block is recorded with the first 128 bytes of the URI. A slice that ends within a character
-- panics: `none`.
unfoldable pub check_uri_length : Limits → Text → Option ShieldVerdict
unfolding is_char_boundary
check_uri_length l uri =
    let len = length (as_bytes uri) in
    if not (ltb l.max_uri_length len)
    then some ShieldVerdict.allow
    else if is_char_boundary (min 128 len) uri
    then some ShieldVerdict.block_uri_length
    else none

-- `saturating_add` of 64 bits.
abbrev pub saturating_add : ℕ → ℕ → ℕ
saturating_add a b = min (a + b) (2 ^ 64 - 1)

unfoldable pub body_would_exceed : Limits → ℕ → ℕ → Bool
body_would_exceed l current_len chunk_len =
    ltb l.max_body_size (saturating_add current_len chunk_len)

unfoldable pub check_body_size : Limits → ℕ → ShieldVerdict
check_body_size l content_length =
    if ltb l.max_body_size content_length
    then ShieldVerdict.block_body_size
    else ShieldVerdict.allow

unfoldable pub check_host : Limits → Text → ShieldVerdict
check_host l host_header = elim l.allowed_hosts [
  | none ↦ ShieldVerdict.allow
  | some allowed ↦
      if not
        (is_among (to_ascii_lowercase (first_part (split b':' host_header) host_header)) allowed)
      then ShieldVerdict.block_host
      else ShieldVerdict.allow
]

abbrev pub is_alphanumeric : ℕ → Bool
is_alphanumeric c =
    (leb b'0' c && leb c b'9') || (leb b'A' c && leb c b'Z') || (leb b'a' c && leb c b'z')

abbrev pub is_one_of : ℕ → Text → Bool
is_one_of c [] = false
is_one_of c (x ∷ xs) = c == x || is_one_of c xs

unfoldable pub is_token_char : ℕ → Bool
is_token_char c = is_alphanumeric c || is_one_of c (text "!#$%&'*+-.^_`|~")

unfoldable pub all_chars : (ℕ → Bool) → Text → Bool
all_chars p [] = true
all_chars p (c ∷ cs) = p c && all_chars p cs

unfoldable pub is_http_token : Text → Bool
unfolding is_token_char all_chars
is_http_token s = not (is_empty s) && all_chars is_token_char s

unfoldable pub tokens_of : List Text → List Text
unfolding is_http_token
tokens_of [] = []
tokens_of (part ∷ parts) =
    let rest = tokens_of parts in if is_http_token (trim part) then trim part ∷ rest else rest

unfoldable pub connection_hop_by_hop_names : List Text → List Text
unfolding tokens_of
connection_hop_by_hop_names [] = []
connection_hop_by_hop_names (value ∷ values) =
    tokens_of (split b',' value) ++ connection_hop_by_hop_names values

unfoldable pub bad_bot_signatures : List Text
bad_bot_signatures =
    text "nikto"
    ∷ text "sqlmap"
    ∷ text "nessus"
    ∷ text "openvas"
    ∷ text "nmap"
    ∷ text "dirbuster"
    ∷ text "gobuster"
    ∷ text "wfuzz"
    ∷ text "ffuf"
    ∷ text "hydra"
    ∷ text "metasploit"
    ∷ text "masscan"
    ∷ text "zmeu"
    ∷ text "w3af"
    ∷ text "nuclei"
    ∷ text "whatweb"
    ∷ text "skipfish"
    ∷ text "arachni"
    ∷ []

abbrev pub contains_any : Text → List Text → Bool
contains_any t [] = false
contains_any t (sig ∷ sigs) = contains t sig || contains_any t sigs

unfoldable pub ua_is_weak : Text → Bool
unfolding bad_bot_signatures
ua_is_weak ua = contains_any (to_ascii_lowercase ua) bad_bot_signatures

unfoldable pub check_user_agent : Limits → Text → ShieldVerdict
unfolding bad_bot_signatures
check_user_agent l ua =
    if not l.bad_bot_enabled
    then ShieldVerdict.allow
    else if contains_any (to_ascii_lowercase ua) bad_bot_signatures
    then ShieldVerdict.block_bad_bot
    else ShieldVerdict.allow
