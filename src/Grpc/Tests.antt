-- ===== src/Grpc/Tests.antt =====
-- A call of an allowed method, over a pool of one service.
use ferroada.Prelude.{
  ℕ, ◌≡◌, ◌⊎◌, refl, List, [], ◌∷◌, true, false, Option, none, some, All, arith, ok, ◌^◌, ◌<◌,
}
use ferroada.Text.{
  Text, text, eq_ignore_ascii_case, to_ascii_lowercase, lower, trim, starts_with, split, is_empty,
  ends_with,
}
use ferroada.Net.{IsByte, from_be_bytes}
use ferroada.Grpc.Frames.{iter_frames, encode_frames, frames_from}
use ferroada.Grpc.Frames.Exact.{AreAtMost, iter_frames_sound, iter_frames-encode_frames}
use ferroada.Grpc.Allowed.{check_body-allow, AreInputs}
use ferroada.Grpc.{
  DescriptorPool, GrpcInner, GrpcVerdict, check_body, check_frames, check_input, decode_all, allows,
  check_headers, timeout_verdict, timeout_of, client_timeout,
}
use ferroada.Grpc.Rpc.{
  is_grpc_content_type, is_reflection, rpc_from_path, trim_slashes, rsplit_slash, has_slash,
  is_word_char, are_service_chars, are_method_chars, check_names, normalize_rpc, split_rpc,
}
use ferroada.RoutePath.{
  canonical_route_path, decode_rounds, percent_decode, decode_from, hex_value, check_stable,
  slashes, pop, push_segment, resolve, join,
}
use ferroada.RoutePath.Utf8.{as_bytes, char_bytes, from_utf8, utf8_from, next_byte, lead, finish}
use ferroada.Grpc.Timeout.{
  parse_grpc_timeout, encode_grpc_timeout, parse_trimmed, split_last, parse_parts, all_digits,
  is_digit, digits_value, in_unit, decimal, decimal_from,
}
use ferroada.Grpc.Deadline.{IsWithinDeadline, check_headers-allow, IsDeadline}
use ferroada.Grpc.Timeout.RoundTrip.{parse_grpc_timeout-encode_grpc_timeout}
use ferroada.Grpc.DeadlineText.{
  parse_deadline, number_and_unit, strip_suffix, parse_deadline-IsDeadline, parse_u64, digits_u64,
  bounded_deadline,
}

abbrev hello : DescriptorPool
hello = record { Message = Unit; input_of = λ service name. some tt; decodes = λ m bytes. true }

abbrev policy : GrpcInner
policy = record {
  allow = text "pkg.Service/Allowed" ∷ [];
  max_message_bytes = 64;
  reflection = false;
  deadline = 10 ^ 10;
  require_deadline = false;
}

abbrev call : List ℕ
call = 0 ∷ 0 ∷ 0 ∷ 0 ∷ 1 ∷ 7 ∷ []

abbrev path : Text
path = text "/pkg.Service/%41llowed?x"

abbrev kind : Option Text
kind = some (text "Application/gRPC+proto; a=b")

call-IsByte : All IsByte call
call-IsByte = ground arith

reads : iter_frames call 64 ≡ ok ((7 ∷ []) ∷ [])
unfolding iter_frames frames_from from_be_bytes
reads = refl

iter_frames_sound_example : (call ≡ encode_frames ((7 ∷ []) ∷ [])) × AreAtMost 64 ((7 ∷ []) ∷ [])
iter_frames_sound_example = iter_frames_sound 64 call ((7 ∷ []) ∷ []) call-IsByte reads

iter_frames-encode_frames_example :
    iter_frames (encode_frames ((7 ∷ 8 ∷ []) ∷ [] ∷ [])) 64 ≡ ok ((7 ∷ 8 ∷ []) ∷ [] ∷ [])
iter_frames-encode_frames_example =
    iter_frames-encode_frames 64 ((7 ∷ 8 ∷ []) ∷ [] ∷ []) (omega arith) (ground arith)

allowed_call : check_body hello policy (text "post") path kind call ≡ GrpcVerdict.allow none
unfolding check_body check_frames check_input decode_all allows is_grpc_content_type rpc_from_path
    trim_slashes rsplit_slash has_slash is_word_char are_service_chars are_method_chars check_names
    normalize_rpc split_rpc is_reflection frames_from iter_frames from_be_bytes to_ascii_lowercase
    lower trim starts_with split eq_ignore_ascii_case canonical_route_path decode_rounds
    percent_decode decode_from hex_value check_stable slashes pop push_segment resolve join as_bytes
    char_bytes from_utf8 utf8_from next_byte lead finish
allowed_call = refl

check_body-allow_example :
    (is_grpc_content_type kind ≡ true)
    × (eq_ignore_ascii_case (text "post") (text "POST") ≡ true)
    × ((frames : List (List ℕ)) × (call ≡ encode_frames frames)
        × AreAtMost 64 frames
        × (((is_reflection (rpc_from_path path) ≡ true) × (policy.reflection ≡ true))
            ⊎ AreInputs hello policy (rpc_from_path path) frames))
check_body-allow_example =
    check_body-allow hello policy (text "post") path kind call none call-IsByte allowed_call

abbrev patient : Option Text
patient = some (text " 3H ")

allowed_headers :
    check_headers policy (text "POST") path kind patient ≡ GrpcVerdict.allow (some (text "10S"))
unfolding check_headers timeout_verdict timeout_of client_timeout parse_grpc_timeout parse_trimmed
    split_last parse_parts all_digits is_digit digits_value in_unit encode_grpc_timeout decimal
    decimal_from is_empty allows is_grpc_content_type rpc_from_path trim_slashes rsplit_slash
    has_slash is_word_char are_service_chars are_method_chars check_names normalize_rpc split_rpc
    is_reflection to_ascii_lowercase lower trim starts_with split eq_ignore_ascii_case
    canonical_route_path decode_rounds percent_decode decode_from hex_value check_stable slashes pop
    push_segment resolve join as_bytes char_bytes from_utf8 utf8_from next_byte lead finish
allowed_headers = refl

check_headers-allow_example :
    (is_grpc_content_type kind ≡ true)
    × (eq_ignore_ascii_case (text "POST") (text "POST") ≡ true)
    × (((is_reflection (rpc_from_path path) ≡ true) × (policy.reflection ≡ true))
        ⊎ (allows policy.allow (rpc_from_path path) ≡ true))
    × IsWithinDeadline policy patient (some (text "10S"))
check_headers-allow_example =
    check_headers-allow policy (text "POST") path kind patient (some (text "10S"))
      (refl, omega arith) allowed_headers

parse_grpc_timeout-encode_grpc_timeout_example :
    parse_grpc_timeout (encode_grpc_timeout 1500000000) ≡ some 1500000000
parse_grpc_timeout-encode_grpc_timeout_example =
    parse_grpc_timeout-encode_grpc_timeout 1500000000 refl (omega arith)

reads_deadline : parse_deadline (text " 1500 MS ") ≡ ok 1500000000
unfolding parse_deadline number_and_unit strip_suffix parse_u64 digits_u64 bounded_deadline trim
    to_ascii_lowercase lower ends_with is_empty all_digits is_digit digits_value
reads_deadline = refl

parse_deadline-IsDeadline_example : IsDeadline 1500000000 × (0 < 1500000000)
parse_deadline-IsDeadline_example =
    parse_deadline-IsDeadline (text " 1500 MS ") 1500000000 reads_deadline
