-- ===== src/Protocol/Section/RoundTrip.antt =====
-- Every matrix of src/protocol.rs can be written as a section of the policy, in the words of `as_str`.
use ferroada.Prelude.{◌≡◌, refl, Option, none, some, ok}
use ferroada.Text.{Text, text, trim}
use ferroada.Protocol.{UnsupportedAction, ProtocolMatrix, as_str, default}
use ferroada.Protocol.Section.{
  Policy, ProtocolsSection, from_section, parse_policy, policy_of, parse_unsupported, line,
  override_line, some_line, inspect_line, parse_supported_override, parse_inspect_only,
}

-- The text of a line that may be absent.
abbrev pub some_text : Option UnsupportedAction → Option Text
some_text none = none
some_text (some action) = some (as_str action)

abbrev pub or_inspect : Option UnsupportedAction → Option Text
or_inspect none = some (text "inspect")
or_inspect (some action) = some (as_str action)

abbrev pub section_of : ProtocolMatrix → ProtocolsSection
section_of m = record {
  http_1_0 = some (as_str m.http_1_0);
  http_1_1 = or_inspect m.http_1_1;
  http_2 = or_inspect m.http_2;
  http_3 = some (as_str m.http_3);
  websocket = some (as_str m.websocket);
  grpc = some (as_str m.grpc);
  brotli = some_text m.brotli;
  multipart = some_text m.multipart;
  sse = some (text "inspect");
  json = none;
  gzip_deflate = none;
  unknown_http_version = some (as_str m.unknown_http_version);
  unknown_upgrade = some (as_str m.unknown_upgrade);
  unknown_encoding = some_text m.unknown_encoding;
  unknown_content_type = some_text m.unknown_content_type;
}

pub parse_policy-as_str :
    (key : Text) (action : UnsupportedAction)
    → parse_policy key (as_str action) ≡ ok (Policy.unsupported action)
unfolding parse_policy policy_of as_str trim
parse_policy-as_str key UnsupportedAction.deny = refl
parse_policy-as_str key UnsupportedAction.monitor = refl
parse_policy-as_str key UnsupportedAction.bypass_explicit = refl
parse_policy-as_str key UnsupportedAction.route_to_quarantine = refl

parse_policy-inspect : (key : Text) → parse_policy key (text "inspect") ≡ ok Policy.inspect
unfolding parse_policy policy_of trim
parse_policy-inspect key = refl

line-as_str :
    (current action : UnsupportedAction) (key : Text)
    → line current key (some (as_str action)) ≡ ok action
unfolding line parse_unsupported
line-as_str current action key = rw (parse_policy-as_str key action)

override_line-or_inspect :
    (current action : Option UnsupportedAction) (key : Text)
    → override_line current key (or_inspect action) ≡ ok action
unfolding override_line parse_supported_override
override_line-or_inspect current none key = rw (parse_policy-inspect key)
override_line-or_inspect current (some action) key = rw (parse_policy-as_str key action)

some_line-some_text :
    (action : Option UnsupportedAction) (key : Text)
    → some_line none key (some_text action) ≡ ok action
unfolding some_line parse_unsupported
some_line-some_text none key = refl
some_line-some_text (some action) key = rw (parse_policy-as_str key action)

inspect_line-inspect : (key : Text) → inspect_line key (some (text "inspect")) ≡ ok tt
unfolding inspect_line parse_inspect_only
inspect_line-inspect key = rw (parse_policy-inspect key)

-- Reading back the section of a matrix gives the matrix: each of its lines is an action that the
-- policy can name, a missing key being the default where the line has one.
pub from_section-section_of : (m : ProtocolMatrix) → from_section (section_of m) ≡ ok m
unfolding from_section default inspect_line
from_section-section_of m =
    simp (line-as_str, override_line-or_inspect, some_line-some_text, inspect_line-inspect)
