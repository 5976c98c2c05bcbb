-- ===== src/Graphql/Parser.antt =====
-- The parser of src/graphql.rs, by recursive descent. A loop takes at most `fuel` rounds, and a nested
-- type as many levels.

use ferroada.Prelude.{
  ℕ, zero, suc, ◌-◌, ◌^◌, ltb, leb, ◌==◌, List, [], ◌∷◌, true, false, Option, none, some, Result,
  ok, err, ◌>>=◌, if◌then◌else◌,
}
use ferroada.Text.{Text, text_eq}
use ferroada.Grpc.Timeout.{digits_value}
use ferroada.Graphql.Document.{ℤ, GqlValue, Arguments}
use ferroada.Graphql.Lexer.{Token, next_token}

pub data ParseFail : Type 0 where
  invalid too_deep : ParseFail
  out_of_fuel : ParseFail

abbrev pub Parser : Type 0 → Type 0
Parser A = Text → Result ParseFail (A × Text)

-- The tokens without a text, told apart by a character.
abbrev pub code : Token → ℕ
code (Token.name t) = b'a'
code (Token.int t) = b'0'
code Token.float = b'f'
code Token.string = b'"'
code Token.bang = b'!'
code Token.dollar = b'$'
code Token.amp = b'&'
code Token.paren_l = b'('
code Token.paren_r = b')'
code Token.spread = b'.'
code Token.colon = b':'
code Token.eq = b'='
code Token.at = b'@'
code Token.bracket_l = b'['
code Token.bracket_r = b']'
code Token.brace_l = b'{'
code Token.brace_r = b'}'
code Token.pipe = b'|'

unfoldable pub token : Parser Token
token t = elim (next_token t).0 [ none ↦ err ParseFail.invalid | some k ↦ ok (k, (next_token t).1) ]

unfoldable pub peek_token : Parser Token
unfolding token
peek_token t = token t >>= λ r. ok (r.0, t)

abbrev pub as_name : Token → Text → Result ParseFail (Text × Text)
as_name (Token.name n) rest = ok (n, rest)
as_name _ rest = err ParseFail.invalid

unfoldable pub expect_name : Parser Text
unfolding token
expect_name t = token t >>= λ r. as_name r.0 r.1

-- `eat` of the token with a code.
unfoldable pub eat : ℕ → Parser (Unit {0})
unfolding token
eat expected t =
    token t >>= λ r. if code r.0 == expected then ok (tt, r.1) else err ParseFail.invalid

-- The items in front of a closing token, which is left.
unfoldable pub until : {A : Type 0} → ℕ → Parser A → ℕ → Parser (List A)
unfolding peek_token
until close item zero t = err ParseFail.out_of_fuel
until close item (suc fuel) t = peek_token t >>= λ p. elim (code p.0 == close) [
  | true ↦ ok ([], t)
  | false ↦ item t >>= λ r. until close item fuel r.1 >>= λ rs. ok (r.0 ∷ rs.0, rs.1)
]

-- `parse::<i64>()`
unfoldable pub parse_i64 : Text → Option ℤ
parse_i64 [] = none
parse_i64 (c ∷ cs) =
    if c == b'-'
    then (if digits_value 0 cs == 0
        then some (ℤ.pos 0)
        else if leb (digits_value 0 cs) (2 ^ 63)
        then some (ℤ.negsuc (digits_value 0 cs - 1))
        else none)
    else if ltb (digits_value 0 (c ∷ cs)) (2 ^ 63)
    then some (ℤ.pos (digits_value 0 (c ∷ cs)))
    else none

abbrev pub int_value : Text → Text → Result ParseFail (GqlValue × Text)
int_value raw rest = elim (parse_i64 raw) [
  | none ↦ err ParseFail.invalid
  | some n ↦ ok (GqlValue.int n, rest)
]

abbrev pub colon_then : {A : Type 0} → Parser A → Parser A
colon_then p t = eat b':' t >>= λ u. p u.1

-- A name, a colon and a value.
unfoldable pub named : {A : Type 0} → Parser A → Parser (Text × A)
unfolding expect_name eat
named p t = expect_name t >>= λ n. colon_then p n.1 >>= λ v. ok ((n.0, v.0), v.1)

-- Brackets around items, the opening one seen already.
unfoldable pub enclosed : {A : Type 0} → ℕ → ℕ → Parser A → ℕ → Parser (List A)
unfolding eat until
enclosed open_code close item fuel t = eat open_code t >>= λ u.
    until close item fuel u.1 >>= λ items. eat close items.1 >>= λ v. ok (items.0, v.1)

-- One token of the value, seen already.
abbrev pub skip_token : Parser GqlValue
skip_token t = token t >>= λ r. ok (GqlValue.other, r.1)

-- What the token in front begins: `deep` reads a value within it.
unfoldable pub value_from : Token → Parser GqlValue → ℕ → Parser GqlValue
unfolding token enclosed named expect_name eat parse_i64
value_from Token.dollar deep fuel t =
    eat b'$' t >>= λ u. expect_name u.1 >>= λ n. ok (GqlValue.variable n.0, n.1)
value_from (Token.int raw) deep fuel t = token t >>= λ r. int_value raw r.1
value_from Token.float deep fuel t = skip_token t
value_from Token.string deep fuel t = skip_token t
value_from (Token.name n) deep fuel t = skip_token t
value_from Token.bracket_l deep fuel t =
    enclosed b'[' b']' deep fuel t >>= λ r. ok (GqlValue.other, r.1)
value_from Token.brace_l deep fuel t =
    enclosed b'{' b'}' (named deep) fuel t >>= λ r. ok (GqlValue.other, r.1)
value_from _ deep fuel t = err ParseFail.invalid

-- `left` is how many levels more are allowed.
unfoldable pub parse_value : ℕ → ℕ → Parser GqlValue
unfolding value_from peek_token
parse_value zero fuel t = err ParseFail.invalid
parse_value (suc left) fuel t = peek_token t >>= λ p. value_from p.0 (parse_value left fuel) fuel t

abbrev pub hard_value_depth : ℕ
hard_value_depth = 32

unfoldable pub parse_arguments : ℕ → Parser Arguments
unfolding enclosed named parse_value
parse_arguments fuel t =
    enclosed b'(' b')' (named (parse_value (suc hard_value_depth) fuel)) fuel t >>= λ r. elim r.0 [
      | [] ↦ err ParseFail.invalid
      | a ∷ more ↦ ok (a ∷ more, r.1)
    ]

-- The arguments, where the next token opens them.
unfoldable pub optional_arguments : ℕ → Parser Arguments
unfolding peek_token parse_arguments
optional_arguments fuel t =
    peek_token t >>= λ p. if code p.0 == b'(' then parse_arguments fuel t else ok ([], t)

unfoldable pub parse_directive : ℕ → Parser Arguments
unfolding eat expect_name optional_arguments
parse_directive fuel t = eat b'@' t >>= λ u. expect_name u.1 >>= λ n. optional_arguments fuel n.1

-- A token that cannot be read ends the loop where it failed.
unfoldable pub parse_directives : ℕ → ℕ → Parser (Unit {0})
unfolding parse_directive
parse_directives fuel zero t = err ParseFail.out_of_fuel
parse_directives fuel (suc rounds) t = elim (next_token t).0 [
  | none ↦ ok (tt, (next_token t).1)
  | some k ↦ elim (code k == b'@') [
    | false ↦ ok (tt, t)
    | true ↦ parse_directive fuel t >>= λ d. parse_directives fuel rounds d.1
  ]
]

unfoldable pub directives : ℕ → Parser (Unit {0})
unfolding parse_directives
directives fuel t = parse_directives fuel fuel t

unfoldable pub optional_bang : Parser (Unit {0})
unfolding peek_token eat
optional_bang t = peek_token t >>= λ p. if code p.0 == b'!' then eat b'!' t else ok (tt, t)

unfoldable pub parse_type : ℕ → Parser (Unit {0})
unfolding peek_token eat expect_name optional_bang
parse_type zero t = err ParseFail.out_of_fuel
parse_type (suc fuel) t = peek_token t >>= λ p. elim (code p.0 == b'[') [
  | true ↦ eat b'[' t >>= λ u. parse_type fuel u.1 >>= λ v. eat b']' v.1 >>= λ w. optional_bang w.1
  | false ↦ expect_name t >>= λ n. optional_bang n.1
]

unfoldable pub optional_default : ℕ → Parser (Unit {0})
unfolding peek_token eat parse_value
optional_default fuel t = peek_token t >>= λ p.
    if code p.0 == b'='
    then (eat b'=' t >>= λ u. parse_value (suc hard_value_depth) fuel u.1 >>= λ v. ok (tt, v.1))
    else ok (tt, t)

unfoldable pub variable_def : ℕ → Parser (Unit {0})
unfolding eat expect_name parse_type optional_default directives
variable_def fuel t = eat b'$' t >>= λ u. expect_name u.1 >>= λ n. eat b':' n.1 >>= λ v.
    parse_type fuel v.1 >>= λ ty. optional_default fuel ty.1 >>= λ d. directives fuel d.1

unfoldable pub parse_variable_defs : ℕ → Parser (List (Unit {0}))
unfolding enclosed variable_def
parse_variable_defs fuel t = enclosed b'(' b')' (variable_def fuel) fuel t
