-- ===== src/ClientIp/Tests.antt =====
-- A proxy in front of the program, and what clients send through it.
use ferroada.Prelude.{ℕ, ◌≡◌, refl, [], ◌∷◌, ◌++◌, some, arith, true, false, ok, ◌≤◌, ◌↔◌}
use ferroada.Text.{text, trim, split, starts_with, eq_ignore_ascii_case, is_empty, split_once}
use ferroada.Net.{IpAddr}
use ferroada.Grpc.DeadlineText.{parse_u64}
use ferroada.Grpc.Timeout.{all_digits, digits_value}
use ferroada.ClientIp.{TrustedProxies, resolve, parse, contains, walk_forwarded}
use ferroada.ClientIp.Network.{IpNetwork, network_of, parse_prefix, network_contains}
use ferroada.Net.Parser.{parse_ip_addr}
use ferroada.ClientIp.Spoofing.{resolve-append, leaves_open, walk_forwarded-append}
use ferroada.ClientIp.Network.Entry.{SharesPrefix, network_contains-network_of}

abbrev proxies : TrustedProxies
proxies = record { networks = IpNetwork.v4 0x0A000000 0xFF000000 ∷ [] }

abbrev proxy : IpAddr
proxy = IpAddr.v4 0x0A000001

abbrev visitor : IpAddr
visitor = IpAddr.v4 0xCB007109

-- The address of the embedded form, and none with a zero in front.
reads_v6 :
    parse_ip_addr (text "2001:db8::1:10.0.0.1")
    ≡ some (IpAddr.v6 0x20010DB800000000000000010A000001)
unfolding parse_ip_addr
reads_v6 = refl

reads_parsed : parse (text "10.0.0.0/8, ") ≡ ok proxies
unfolding parse split is_empty trim parse_ip_addr split_once parse_u64 all_digits digits_value
reads_parsed = refl

found : resolve proxies (some proxy) (some (text "203.0.113.9, 10.0.0.2")) ≡ some visitor
unfolding resolve contains split trim parse_ip_addr
found = refl

outside : contains proxies visitor ≡ false
unfolding contains
outside = refl

resolve-append_example :
    resolve proxies (some proxy) (some (text "1.1.1.1" ++ b',' ∷ text "203.0.113.9, 10.0.0.2"))
    ≡ some visitor
resolve-append_example =
    resolve-append proxies (some proxy) visitor (text "1.1.1.1") (text "203.0.113.9, 10.0.0.2")
      found outside

found_forwarded :
    walk_forwarded proxies proxy (some (text "for=203.0.113.9;proto=https, for=10.0.0.2")) ≡ visitor
unfolding walk_forwarded contains split trim parse_ip_addr split_once eq_ignore_ascii_case
    starts_with
found_forwarded = refl

closed : leaves_open false (text "for=\"[2001:db8::1]:80\"") ≡ false
unfolding leaves_open
closed = refl

walk_forwarded-append_example :
    walk_forwarded proxies proxy (
      some (
        text "for=\"[2001:db8::1]:80\"" ++ b',' ∷ text "for=203.0.113.9;proto=https, for=10.0.0.2"))
    ≡ visitor
walk_forwarded-append_example =
    walk_forwarded-append proxies proxy visitor (text "for=\"[2001:db8::1]:80\"")
      (text "for=203.0.113.9;proto=https, for=10.0.0.2") closed found_forwarded outside

-- A quote that the client leaves open takes in the element that the proxy appends.
forged :
    walk_forwarded proxies proxy (some (text "for=6.6.6.6;x=\"" ++ b',' ∷ text "for=203.0.113.9"))
    ≡ IpAddr.v4 0x06060606
unfolding walk_forwarded contains split trim parse_ip_addr split_once eq_ignore_ascii_case
    starts_with
forged = refl

made :
    network_of (IpAddr.v4 0x0A010203) (some (text "8")) (text "10.1.2.3/8")
    ≡ ok (IpNetwork.v4 0x0A000000 0xFF000000)
unfolding network_of parse_u64 all_digits digits_value is_empty
made = refl

network_contains-network_of_example :
    (p : ℕ) × (parse_prefix (some (text "8")) 32 (text "10.1.2.3/8") ≡ ok p)
    × (p ≤ 32)
    × ((network_contains (IpNetwork.v4 0x0A000000 0xFF000000) visitor ≡ true)
        ↔ SharesPrefix p visitor (IpAddr.v4 0x0A010203))
network_contains-network_of_example =
    network_contains-network_of (IpAddr.v4 0x0A010203) visitor (some (text "8")) (text "10.1.2.3/8")
      (IpNetwork.v4 0x0A000000 0xFF000000) (omega arith) (omega arith) made
