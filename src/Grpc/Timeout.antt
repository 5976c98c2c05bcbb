-- ===== src/Grpc/Timeout.antt =====
-- The timeouts of a gRPC call, as src/grpc.rs reads and writes them. A duration is a number of
-- nanoseconds.
pub mod RoundTrip
use ferroada.Prelude.{
  ℕ, zero, suc, ◌+◌, ◌-◌, ◌*◌, ◌/◌, ◌%◌, ◌^◌, ltb, leb, ◌==◌, min, List, [], ◌∷◌, ◌++◌, length,
  Bool, true, false, not, ◌&&◌, ◌||◌, Option, none, some, if◌then◌else◌,
}
use ferroada.Text.{Text, text, trim}

abbrev pub millisecond : ℕ
millisecond = 10 ^ 6

abbrev pub second : ℕ
second = 10 ^ 9

unfoldable pub is_digit : ℕ → Bool
is_digit c = leb b'0' c && leb c b'9'

unfoldable pub all_digits : Text → Bool
unfolding is_digit
all_digits [] = true
all_digits (c ∷ cs) = let rest = all_digits cs in is_digit c && rest

-- `parse::<u64>()` of at most eight digits.
unfoldable pub digits_value : ℕ → Text → ℕ
digits_value acc [] = acc
digits_value acc (c ∷ cs) = digits_value (acc * 10 + (c - b'0')) cs

-- `split_at(len - 1)`
unfoldable pub split_last : ℕ → Text → Text × ℕ
split_last c [] = ([], c)
split_last c (d ∷ ds) = let rest = split_last d ds in (c ∷ rest.0, rest.1)

unfoldable pub in_unit : ℕ → ℕ → Option ℕ
in_unit value unit =
    if unit == b'H'
    then some (value * 3600 * second)
    else if unit == b'M'
    then some (value * 60 * second)
    else if unit == b'S'
    then some (value * second)
    else if unit == b'm'
    then some (value * millisecond)
    else if unit == b'u'
    then some (value * 1000)
    else if unit == b'n'
    then some value
    else none

unfoldable pub parse_parts : Text × ℕ → Option ℕ
unfolding all_digits digits_value in_unit
parse_parts (digits, unit) =
    if not (all_digits digits) then none else in_unit (digits_value 0 digits) unit

unfoldable pub parse_trimmed : Text → Option ℕ
unfolding split_last parse_parts
parse_trimmed [] = none
parse_trimmed (c ∷ cs) =
    if ltb (length (c ∷ cs)) 2 || ltb 9 (length (c ∷ cs))
    then none
    else parse_parts (split_last c cs)

unfoldable pub parse_grpc_timeout : Text → Option ℕ
parse_grpc_timeout raw = parse_trimmed (trim raw)

-- `format!("{n}")`: the digits, of which `fuel` bounds the number. A number of 64 bits has twenty at
-- most.
unfoldable pub decimal_from : ℕ → ℕ → Text
decimal_from zero n = []
decimal_from (suc fuel) n =
    let rest = decimal_from fuel (n / 10) in
    if ltb n 10 then (b'0' + n) ∷ [] else rest ++ (b'0' + n % 10) ∷ []

unfoldable pub decimal : ℕ → Text
decimal n = decimal_from 20 n

unfoldable pub encode_grpc_timeout : ℕ → Text
encode_grpc_timeout deadline =
    let millis = deadline / millisecond in
    if millis % 1000 == 0
    then decimal (min (millis / 1000) 99999999) ++ b'S' ∷ []
    else decimal (min millis 99999999) ++ b'm' ∷ []
