-- ===== src/Shield/Tests.antt =====
-- The tests of src/shield.rs, and a request that it allows.
use ferroada.Prelude.{◌≡◌, refl, [], ◌∷◌, some, ◌↔◌, none}
use ferroada.Text.{
  Text, text, split, trim, is_empty, strip_prefix, rsplit_once, split_once, eq_ignore_ascii_case,
  ends_with,
}
use ferroada.Shield.{ShieldVerdict, connection_hop_by_hop_names}
use ferroada.Shield.Authority.{check_host_authority}
use ferroada.Shield.RawHead.{check_framing, HasOneFraming, check_framing_iff}
use ferroada.Grpc.Timeout.{all_digits}
use ferroada.Shield.Framing.{check_smuggling}

hop_by_hop :
    connection_hop_by_hop_names (text "close, X-Evil" ∷ text "Keep-Alive" ∷ text "not a token" ∷ [])
    ≡ text "close" ∷ text "X-Evil" ∷ text "Keep-Alive" ∷ []
unfolding connection_hop_by_hop_names split trim is_empty
hop_by_hop = refl

other_port :
    check_host_authority (some (text "example.com:80")) (some (text "example.com:443"))
    ≡ ShieldVerdict.block_host
unfolding check_host_authority trim is_empty strip_prefix rsplit_once split_once all_digits
    eq_ignore_ascii_case
other_port = refl

same_v6 :
    check_host_authority (some (text "[2001:db8::1]:8080")) (some (text "[2001:DB8::1]"))
    ≡ ShieldVerdict.allow
unfolding check_host_authority trim is_empty strip_prefix rsplit_once split_once all_digits
    eq_ignore_ascii_case
same_v6 = refl

abbrev head : Text
head = text "POST / HTTP/1.1\r\nHost: a\r\nTransfer-Encoding: Chunked\r\n\r\nContent-Length: 3"

one_framing : check_framing head (some (text " Chunked")) ≡ ShieldVerdict.allow
unfolding check_framing check_smuggling split is_empty ends_with split_once eq_ignore_ascii_case
    trim
one_framing = refl

two_framings :
    check_framing (text "POST / HTTP/1.1\r\nContent-length: 3\r\nTransfer-Encoding: x\r\n\r\n") none
    ≡ ShieldVerdict.block_smuggling
unfolding check_framing check_smuggling split is_empty ends_with split_once eq_ignore_ascii_case
two_framings = refl

check_framing_iff_example :
    (check_framing head (some (text " Chunked")) ≡ ShieldVerdict.allow)
    ↔ HasOneFraming head (some (text " Chunked"))
check_framing_iff_example = check_framing_iff head (some (text " Chunked"))
