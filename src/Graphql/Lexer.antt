-- ===== src/Graphql/Lexer.antt =====
-- The tokens of src/graphql.rs. A position is what is left of the text; the indices into bytes of the code
-- stand at characters. A lexer gives the position where it stopped also when it fails.
use ferroada.Prelude.{
  ℕ, ◌-◌, leb, ◌==◌, [], ◌∷◌, drop, Bool, true, false, not, ◌&&◌, ◌||◌, Option, none, some,
  if◌then◌else◌,
}
use ferroada.Text.{Text, text, is_whitespace, is_empty, starts_with}

pub data Token : Type 0 where
  name int : Text → Token
  float string bang dollar amp paren_l paren_r spread colon eq at bracket_l bracket_r brace_l
        brace_r pipe :
      Token

abbrev pub is_newline : ℕ → Bool
is_newline c = c == 10 || c == 13

-- Between tokens, or within a comment.
unfoldable pub skip_from : Bool → Text → Text
unfolding is_whitespace
skip_from in_comment [] = []
skip_from true (c ∷ cs) = skip_from (not (is_newline c)) cs
skip_from false (c ∷ cs) = elim (c == b',' || is_whitespace c || c == 0xFEFF) [
  | true ↦ skip_from false cs
  | false ↦ elim (c == b'#') [ true ↦ skip_from true cs | false ↦ c ∷ cs ]
]

unfoldable pub skip_ignored : Text → Text
unfolding skip_from
skip_ignored t = skip_from false t

abbrev pub is_digit : ℕ → Bool
is_digit c = leb b'0' c && leb c b'9'

abbrev pub is_name_start : ℕ → Bool
is_name_start c = (leb b'A' c && leb c b'Z') || (leb b'a' c && leb c b'z') || c == b'_'

abbrev pub is_hex : ℕ → Bool
is_hex c = is_digit c || (leb b'A' c && leb c b'F') || (leb b'a' c && leb c b'f')

abbrev pub prepend : ℕ → Text × Text → Text × Text
prepend c (a, b) = (c ∷ a, b)

-- The characters in front for which the test holds, and the rest.
unfoldable pub span : (ℕ → Bool) → Text → Text × Text
span p [] = ([], [])
span p (c ∷ cs) = let rest = span p cs in if p c then prepend c rest else ([], c ∷ cs)

abbrev pub starts_one : Text → (ℕ → Bool) → Bool
starts_one [] p = false
starts_one (c ∷ cs) p = p c

-- A sign, where there is one.
abbrev pub without_sign : Text → (ℕ → Bool) → Text
without_sign t is_sign = if starts_one t is_sign then drop 1 t else t

unfoldable pub take_exponent : Bool → Text → Text → Option Token × Text
unfolding span
take_exponent is_float raw t =
    if starts_one t (λ c. c == b'e' || c == b'E')
    then (let ds = span is_digit (without_sign (drop 1 t) (λ c. c == b'+' || c == b'-')) in
        if is_empty ds.0 then (none, ds.1) else (some Token.float, ds.1))
    else (some (if is_float then Token.float else Token.int raw), t)

unfoldable pub take_fraction : Text → Text → Option Token × Text
unfolding span take_exponent
take_fraction raw t =
    if starts_one t (λ c. c == b'.')
    then (let ds = span is_digit (drop 1 t) in
        if is_empty ds.0 then (none, ds.1) else take_exponent true raw ds.1)
    else take_exponent false raw t

unfoldable pub take_number : Text → Option Token × Text
unfolding span take_fraction
take_number t =
    let negative = starts_one t (λ c. c == b'-') in
    let ds = span is_digit (without_sign t (λ c. c == b'-')) in
    if is_empty ds.0
    then (none, ds.1)
    else take_fraction (if negative then b'-' ∷ ds.0 else ds.0) ds.1

-- Behind the opening `"""`: whether the string ends, and what follows it or where it fails.
unfoldable pub block_string : Text → Bool × Text
unfolding starts_with
block_string [] = (false, [])
block_string (c ∷ []) = if c == b'\\' then (false, c ∷ []) else (false, [])
block_string (c ∷ d ∷ cs) = elim (starts_with (c ∷ d ∷ cs) (text "\"\"\"")) [
  | true ↦ (true, drop 1 cs)
  | false ↦ elim (c == b'\\') [ true ↦ block_string cs | false ↦ block_string (d ∷ cs) ]
]

-- Within a string, behind a backslash, or at one of the four digits of `\u`.
pub data InString : Type 0 where
  plain escape : InString
  hex : ℕ → InString

unfoldable pub line_string : InString → Text → Bool × Text
line_string m [] = (false, [])
line_string InString.escape (c ∷ cs) =
    line_string (if c == b'u' then InString.hex 3 else InString.plain) cs
line_string (InString.hex n) (c ∷ cs) = elim (is_hex c) [
  | false ↦ (false, c ∷ cs)
  | true ↦ line_string (if n == 0 then InString.plain else InString.hex (n - 1)) cs
]
line_string InString.plain (c ∷ cs) = elim (c == b'"') [
  | true ↦ (true, cs)
  | false ↦ elim (is_newline c) [
    | true ↦ (false, c ∷ cs)
    | false ↦ line_string (if c == b'\\' then InString.escape else InString.plain) cs
  ]
]

abbrev pub string_token : Bool × Text → Option Token × Text
string_token (false, t) = (none, t)
string_token (true, t) = (some Token.string, t)

unfoldable pub consume_string : Text → Option Token × Text
unfolding block_string line_string starts_with
consume_string t =
    if starts_with t (text "\"\"\"")
    then string_token (block_string (drop 3 t))
    else string_token (line_string InString.plain (drop 1 t))

unfoldable pub take_name : ℕ → Text → Option Token × Text
unfolding span
take_name c cs =
    let rest = span (λ d. is_name_start d || is_digit d) cs in
    (some (Token.name (c ∷ rest.0)), rest.1)

abbrev pub one : Token → Text → Option Token × Text
one token cs = (some token, cs)

-- The token that a character begins.
unfoldable pub token_at : ℕ → Text → Option Token × Text
unfolding starts_with consume_string take_name take_number
token_at c cs =
    if c == b'!'
    then one Token.bang cs
    else if c == b'$'
    then one Token.dollar cs
    else if c == b'&'
    then one Token.amp cs
    else if c == b'('
    then one Token.paren_l cs
    else if c == b')'
    then one Token.paren_r cs
    else if c == b':'
    then one Token.colon cs
    else if c == b'='
    then one Token.eq cs
    else if c == b'@'
    then one Token.at cs
    else if c == b'['
    then one Token.bracket_l cs
    else if c == b']'
    then one Token.bracket_r cs
    else if c == b'{'
    then one Token.brace_l cs
    else if c == b'}'
    then one Token.brace_r cs
    else if c == b'|'
    then one Token.pipe cs
    else if c == b'.'
    then (if starts_with (c ∷ cs) (text "...")
        then (some Token.spread, drop 2 cs)
        else (none, c ∷ cs))
    else if c == b'"'
    then consume_string (c ∷ cs)
    else if is_name_start c
    then take_name c cs
    else if c == b'-' || is_digit c
    then take_number (c ∷ cs)
    else (none, c ∷ cs)

abbrev pub first_token : Text → Option Token × Text
unfolding token_at
first_token [] = (none, [])
first_token (c ∷ cs) = token_at c cs

unfoldable pub next_token : Text → Option Token × Text
unfolding skip_ignored token_at
next_token t = first_token (skip_ignored t)
