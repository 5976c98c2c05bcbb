-- ===== src/RoutePath/Tests.antt =====
-- An encoded path that climbs out of a directory.
use ferroada.Prelude.{◌≡◌, refl, List, ◌∷◌, some, All}
use ferroada.Text.{Text, text, split}
use ferroada.RoutePath.{
  canonical_route_path, join, decode_rounds, check_stable, percent_decode, decode_from, hex_value,
  slashes, resolve, push_segment, pop,
}
use ferroada.RoutePath.Utf8.{as_bytes, from_utf8, char_bytes, utf8_from, next_byte, lead, finish}
use ferroada.RoutePath.Canonical.{canonical_route_path-IsPlainSegment, IsPlainSegment}

abbrev climbing : Text
climbing = text "/app/%252e%252E/./admin%2Fé"

resolved : canonical_route_path climbing ≡ some (text "/admin/é")
unfolding canonical_route_path join decode_rounds check_stable percent_decode decode_from hex_value
    slashes resolve push_segment pop as_bytes from_utf8 char_bytes utf8_from next_byte lead finish
    split
resolved = refl

canonical_route_path-IsPlainSegment_example :
    (segments : List Text) × (text "/admin/é" ≡ 47 ∷ join segments) × All IsPlainSegment segments
canonical_route_path-IsPlainSegment_example =
    canonical_route_path-IsPlainSegment climbing (text "/admin/é") resolved
