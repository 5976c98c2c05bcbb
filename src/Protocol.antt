-- ===== src/Protocol.antt =====
-- src/protocol.rs: the matrix of protocols, which says what becomes of a request that cannot be
-- inspected.
pub mod Classify
pub mod Section
pub mod Severity
pub mod Inspectable
pub mod Closed
mod Tests
use ferroada.Prelude.{
  ℕ, leb, List, [], ◌∷◌, ◌++◌, Bool, true, false, not, Option, none, some, if◌then◌else◌, ◌&&◌,
}
use ferroada.Text.{Text, text, trim, is_empty}
use ferroada.Protocol.Classify.{
  ProtocolId, classify_encoding, classify_content_type, upgrade_is_websocket,
}

pub data UnsupportedAction : Type 0 where
  deny monitor bypass_explicit route_to_quarantine : UnsupportedAction

unfoldable pub as_str : UnsupportedAction → Text
as_str UnsupportedAction.deny = text "deny"
as_str UnsupportedAction.monitor = text "monitor"
as_str UnsupportedAction.bypass_explicit = text "bypass-explicit"
as_str UnsupportedAction.route_to_quarantine = text "route-to-quarantine"

unfoldable pub metric_action : UnsupportedAction → Text
unfolding as_str
metric_action UnsupportedAction.route_to_quarantine = text "quarantine"
metric_action UnsupportedAction.deny = as_str UnsupportedAction.deny
metric_action UnsupportedAction.monitor = as_str UnsupportedAction.monitor
metric_action UnsupportedAction.bypass_explicit = as_str UnsupportedAction.bypass_explicit

unfoldable pub severity : UnsupportedAction → ℕ
severity UnsupportedAction.route_to_quarantine = 4
severity UnsupportedAction.deny = 3
severity UnsupportedAction.monitor = 2
severity UnsupportedAction.bypass_explicit = 1

pub data ProtocolVerdict : Type 0 where
  inspect : ProtocolVerdict
  unsupported : ProtocolId → UnsupportedAction → ProtocolVerdict

unfoldable pub blocked_status : ProtocolVerdict → Option ℕ
blocked_status (ProtocolVerdict.unsupported p UnsupportedAction.deny) = some 403
blocked_status (ProtocolVerdict.unsupported p UnsupportedAction.route_to_quarantine) = some 403
blocked_status _ = none

unfoldable pub skips_body_waf : ProtocolVerdict → Bool
skips_body_waf (ProtocolVerdict.unsupported p UnsupportedAction.monitor) = true
skips_body_waf (ProtocolVerdict.unsupported p UnsupportedAction.bypass_explicit) = true
skips_body_waf _ = false

unfoldable pub event_type : ProtocolVerdict → Option Text
event_type ProtocolVerdict.inspect = none
event_type (ProtocolVerdict.unsupported p UnsupportedAction.deny) = some (text "protocol_deny")
event_type (ProtocolVerdict.unsupported p UnsupportedAction.monitor) =
    some (text "protocol_monitor")
event_type (ProtocolVerdict.unsupported p UnsupportedAction.bypass_explicit) =
    some (text "protocol_bypass")
event_type (ProtocolVerdict.unsupported p UnsupportedAction.route_to_quarantine) =
    some (text "quarantine")

-- `http::Version`: the four that the code names, and any other.
pub data Version : Type 0 where
  http_10 http_11 http_2 http_3 other : Version

pub record RequestFacts : Type 0 where
  pub version : Version
  pub upgrade : Option Text
  pub content_encoding : Option Text
  pub content_type : Option Text
  pub require_complete : Bool
  pub grpc_policy : Bool

pub record ProtocolMatrix : Type 0 where
  pub http_1_0 : UnsupportedAction
  pub http_1_1 : Option UnsupportedAction
  pub http_2 : Option UnsupportedAction
  pub http_3 : UnsupportedAction
  pub websocket : UnsupportedAction
  pub grpc : UnsupportedAction
  pub brotli : Option UnsupportedAction
  pub multipart : Option UnsupportedAction
  pub unknown_http_version : UnsupportedAction
  pub unknown_upgrade : UnsupportedAction
  pub unknown_encoding : Option UnsupportedAction
  pub unknown_content_type : Option UnsupportedAction

unfoldable pub default : ProtocolMatrix
default = record {
  http_1_0 = UnsupportedAction.deny;
  http_1_1 = none;
  http_2 = none;
  http_3 = UnsupportedAction.deny;
  websocket = UnsupportedAction.bypass_explicit;
  grpc = UnsupportedAction.deny;
  brotli = none;
  multipart = none;
  unknown_http_version = UnsupportedAction.deny;
  unknown_upgrade = UnsupportedAction.deny;
  unknown_encoding = none;
  unknown_content_type = none;
}

-- `unwrap_or`
unfoldable pub contextual : Option UnsupportedAction → Bool → UnsupportedAction
contextual (some action) require_complete = action
contextual none require_complete =
    if require_complete then UnsupportedAction.deny else UnsupportedAction.monitor

abbrev pub Match : Type 0
Match = ProtocolId × UnsupportedAction

abbrev pub if_some : ProtocolId → Option UnsupportedAction → List Match
if_some p none = []
if_some p (some action) = (p, action) ∷ []

unfoldable pub match_version : ProtocolMatrix → Version → List Match
match_version m Version.http_10 = (ProtocolId.http_10, m.http_1_0) ∷ []
match_version m Version.http_3 = (ProtocolId.http_3, m.http_3) ∷ []
match_version m Version.http_11 = if_some ProtocolId.http_11 m.http_1_1
match_version m Version.http_2 = if_some ProtocolId.http_2 m.http_2
match_version m Version.other = (ProtocolId.unknown_http_version, m.unknown_http_version) ∷ []

unfoldable pub match_upgrade : ProtocolMatrix → Option Text → List Match
match_upgrade m none = []
match_upgrade m (some upgrade) =
    if upgrade_is_websocket upgrade
    then (ProtocolId.websocket, m.websocket) ∷ []
    else if not (is_empty (trim upgrade))
    then (ProtocolId.unknown_upgrade, m.unknown_upgrade) ∷ []
    else []

unfoldable pub match_encoding : ProtocolMatrix → Bool → Option ProtocolId → List Match
unfolding contextual
match_encoding m complete none = []
match_encoding m complete (some ProtocolId.brotli) =
    (ProtocolId.brotli, contextual m.brotli complete) ∷ []
match_encoding m complete (some p) = (p, contextual m.unknown_encoding complete) ∷ []

unfoldable pub match_content_type : ProtocolMatrix → Bool → Bool → Option ProtocolId → List Match
unfolding contextual
match_content_type m complete grpc_policy none = []
match_content_type m complete grpc_policy (some ProtocolId.grpc) =
    if grpc_policy then [] else (ProtocolId.grpc, m.grpc) ∷ []
match_content_type m complete grpc_policy (some ProtocolId.multipart) =
    (ProtocolId.multipart, contextual m.multipart complete) ∷ []
match_content_type m complete grpc_policy (some p) =
    (p, contextual m.unknown_content_type complete) ∷ []

unfoldable pub matches : ProtocolMatrix → RequestFacts → List Match
matches m facts =
    match_version m facts.version
    ++ match_upgrade m facts.upgrade
    ++ match_encoding m facts.require_complete (classify_encoding facts.content_encoding)
    ++ match_content_type m facts.require_complete facts.grpc_policy
        (classify_content_type facts.content_type)

-- One pass of the loop keeps the best so far unless the next is more severe.
unfoldable pub more_severe : Option Match → Match → Option Match
unfolding severity
more_severe none e = some e
more_severe (some best) e = if leb (severity e.1) (severity best.1) then some best else some e

unfoldable pub pick_loop : Option Match → List Match → Option Match
unfolding more_severe
pick_loop best [] = best
pick_loop best (e ∷ es) = pick_loop (more_severe best e) es

abbrev pub verdict_of : Option Match → ProtocolVerdict
verdict_of none = ProtocolVerdict.inspect
verdict_of (some best) = ProtocolVerdict.unsupported best.0 best.1

unfoldable pub pick_most_severe : List Match → ProtocolVerdict
unfolding pick_loop
pick_most_severe es = verdict_of (pick_loop none es)

unfoldable pub evaluate : ProtocolMatrix → RequestFacts → ProtocolVerdict
unfolding matches pick_most_severe
evaluate m facts = pick_most_severe (matches m facts)
