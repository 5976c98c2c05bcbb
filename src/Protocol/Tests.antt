-- ===== src/Protocol/Tests.antt =====
-- Requests against the default matrix, and a section of the policy.
use ferroada.Prelude.{◌≡◌, refl, ◌⊎◌, true, false, some, none, [], ok}
use ferroada.Text.{
  Text, text, is_empty, split, eq_ignore_ascii_case, trim, starts_with, contains, ends_with, lower,
  to_ascii_lowercase,
}
use ferroada.Protocol.{
  RequestFacts, ProtocolVerdict, UnsupportedAction, Version, match_version, match_upgrade,
  match_encoding, match_content_type, contextual, matches, more_severe, pick_loop, pick_most_severe,
  severity, evaluate, default, blocked_status,
}
use ferroada.Protocol.Classify.{
  ProtocolId, upgrade_is_websocket, classify_encoding, encoding_of_tokens, tokens_of,
  encoding_of_token, classify_content_type, classify_mime, is_text_like,
}
use ferroada.Protocol.Closed.{evaluate-default}
use ferroada.Protocol.Inspectable.{NamesWebsocket, IsUndoable, IsReadable}
use ferroada.Protocol.Severity.{evaluate-IsFirstMostSevere, IsFirstMostSevere}
use ferroada.Protocol.Section.RoundTrip.{from_section-section_of, section_of}
use ferroada.Protocol.Section.{from_section}

abbrev facts : RequestFacts
facts = record {
  version = Version.http_11;
  upgrade = some (text "h2c, WebSocket");
  content_encoding = some (text " GZip ");
  content_type = some (text "Application/JSON; charset=utf-8");
  require_complete = true;
  grpc_policy = false;
}

abbrev older : RequestFacts
older = record facts { version = Version.http_10; content_encoding = some (text "gzip, br") }

bypasses :
    evaluate default facts
    ≡ ProtocolVerdict.unsupported ProtocolId.websocket UnsupportedAction.bypass_explicit
unfolding match_version match_upgrade match_encoding match_content_type contextual matches
    more_severe pick_loop pick_most_severe severity evaluate default upgrade_is_websocket
    classify_encoding encoding_of_tokens tokens_of encoding_of_token classify_content_type
    classify_mime is_text_like split eq_ignore_ascii_case trim starts_with contains ends_with lower
    to_ascii_lowercase
bypasses = refl

denies :
    evaluate default older ≡ ProtocolVerdict.unsupported ProtocolId.http_10 UnsupportedAction.deny
unfolding match_version match_upgrade match_encoding match_content_type contextual matches
    more_severe pick_loop pick_most_severe severity evaluate default upgrade_is_websocket
    classify_encoding encoding_of_tokens tokens_of encoding_of_token classify_content_type
    classify_mime is_text_like split eq_ignore_ascii_case trim starts_with contains ends_with lower
    to_ascii_lowercase
denies = refl

evaluate-IsFirstMostSevere_example :
    ((evaluate default older ≡ ProtocolVerdict.inspect) × (matches default older ≡ []))
    ⊎ ((e : ProtocolId × UnsupportedAction) × (evaluate default older
          ≡ ProtocolVerdict.unsupported e.0 e.1)
        × IsFirstMostSevere (matches default older) e)
evaluate-IsFirstMostSevere_example = evaluate-IsFirstMostSevere default older

not_blocked : blocked_status (evaluate default facts) ≡ none
unfolding blocked_status match_version match_upgrade match_encoding match_content_type contextual
    matches more_severe pick_loop pick_most_severe severity evaluate default upgrade_is_websocket
    classify_encoding encoding_of_tokens tokens_of encoding_of_token classify_content_type
    classify_mime is_text_like split eq_ignore_ascii_case trim starts_with contains ends_with lower
    to_ascii_lowercase
not_blocked = refl

evaluate-default_example :
    ((facts.version ≡ Version.http_11) ⊎ (facts.version ≡ Version.http_2))
    × ((upgrade : Text)
        → facts.upgrade ≡ some upgrade
        → NamesWebsocket upgrade ⊎ (is_empty (trim upgrade) ≡ true))
    × IsUndoable facts.content_encoding
    × IsReadable facts.grpc_policy facts.content_type
evaluate-default_example = evaluate-default facts refl not_blocked

from_section-section_of_example : from_section (section_of default) ≡ ok default
from_section-section_of_example = from_section-section_of default
