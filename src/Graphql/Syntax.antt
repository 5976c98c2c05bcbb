-- ===== src/Graphql/Syntax.antt =====
-- Selections and documents, as src/graphql.rs parses them.
use ferroada.Prelude.{
  ℕ, zero, suc, ◌==◌, List, [], ◌∷◌, Bool, true, false, ◌||◌, list_eq, Result, ok, err, ◌>>=◌,
  if◌then◌else◌, length, ◌++◌,
}
use ferroada.Text.{Text, text, is_empty, text_eq}
use ferroada.DashMap.{has, put}
use ferroada.Graphql.Document.{
  Arguments, Selection, SelectionSet, Document, leaf, parent, spread, inline, done, cons,
}
use ferroada.Graphql.Lexer.{Token, skip_ignored}
use ferroada.Graphql.Parser.{
  ParseFail, Parser, code, peek_token, expect_name, eat, enclosed, optional_arguments, directives,
  parse_variable_defs,
}

abbrev pub hard_depth : ℕ
hard_depth = 64

abbrev pub set_of : List Selection → SelectionSet
set_of [] = done
set_of (item ∷ items) = cons item (set_of items)

abbrev pub nonempty_set : List Selection → Text → Result ParseFail (SelectionSet × Text)
nonempty_set [] rest = err ParseFail.invalid
nonempty_set (item ∷ items) rest = ok (set_of (item ∷ items), rest)

-- The name behind an alias, or the first name itself.
unfoldable pub aliased : Text → Parser (Bool × Text)
unfolding peek_token eat expect_name
aliased first t = peek_token t >>= λ p.
    if code p.0 == b':'
    then (eat b':' t >>= λ u. expect_name u.1 >>= λ n. ok ((true, n.0), n.1))
    else ok ((false, first), t)

unfoldable pub field_end : Bool → Text → Arguments → Parser SelectionSet → Parser Selection
unfolding peek_token
field_end alias name args inner t = peek_token t >>= λ p.
    if code p.0 == b'{'
    then (inner t >>= λ set. ok (parent alias name args set.0, set.1))
    else ok (leaf alias name args, t)

-- A field, where `inner` reads a selection set.
unfoldable pub parse_field : ℕ → Parser SelectionSet → Parser Selection
unfolding expect_name aliased optional_arguments directives field_end
parse_field fuel inner t = expect_name t >>= λ first. aliased first.0 first.1 >>= λ named.
    optional_arguments fuel named.1 >>= λ args.
    directives fuel args.1 >>= λ d. field_end named.0.0 named.0.1 args.0 inner d.1

unfoldable pub inline_from : ℕ → Parser SelectionSet → Parser Selection
unfolding directives
inline_from fuel inner t = directives fuel t >>= λ d. inner d.1 >>= λ set. ok (inline set.0, set.1)

unfoldable pub named_spread : ℕ → Parser SelectionSet → Text → Parser Selection
unfolding expect_name inline_from directives
named_spread fuel inner name t = expect_name t >>= λ n.
    if list_eq name (text "on")
    then (expect_name n.1 >>= λ ty. inline_from fuel inner ty.1)
    else directives fuel n.1 >>= λ d. ok (spread name, d.1)

-- What follows `...`, by the token in front.
unfoldable pub spread_from : Token → ℕ → Parser SelectionSet → Parser Selection
unfolding named_spread inline_from
spread_from (Token.name n) fuel inner t = named_spread fuel inner n t
spread_from Token.brace_l fuel inner t = inline_from fuel inner t
spread_from Token.at fuel inner t = inline_from fuel inner t
spread_from _ fuel inner t = err ParseFail.invalid

unfoldable pub parse_selection : ℕ → Parser SelectionSet → Parser Selection
unfolding peek_token eat spread_from parse_field
parse_selection fuel inner t = peek_token t >>= λ p.
    if code p.0 == b'.'
    then (eat b'.' t >>= λ u. peek_token u.1 >>= λ q. spread_from q.0 fuel inner u.1)
    else parse_field fuel inner t

-- `left` is how many selection sets more may stand within each other.
unfoldable pub parse_selection_set : ℕ → ℕ → Parser SelectionSet
unfolding enclosed parse_selection
parse_selection_set zero fuel t = err ParseFail.too_deep
parse_selection_set (suc left) fuel t =
    enclosed b'{' b'}' (parse_selection fuel (parse_selection_set left fuel)) fuel t >>= λ r.
    nonempty_set r.0 r.1

abbrev pub Parsed : Type 0
Parsed = Document × Text

abbrev pub add_operation : Document → SelectionSet → Text → Result ParseFail Parsed
add_operation d set rest = ok (record d { operations = d.operations ++ set ∷ [] }, rest)

abbrev pub add_fragment : Document → Text → SelectionSet → Text → Result ParseFail Parsed
add_fragment d name set rest =
    if has d.fragments name
    then err ParseFail.invalid
    else ok (record d { fragments = put d.fragments name set }, rest)

-- `fragment` name `on` type, and what it selects.
unfoldable pub fragment_definition : ℕ → Document → Text → Result ParseFail Parsed
unfolding expect_name directives parse_selection_set has put
fragment_definition fuel d t = expect_name t >>= λ keyword. expect_name keyword.1 >>= λ name.
    if list_eq name.0 (text "on")
    then err ParseFail.invalid
    else expect_name name.1 >>= λ on.
        if list_eq on.0 (text "on")
        then (expect_name on.1 >>= λ ty. directives fuel ty.1 >>= λ ds.
            parse_selection_set hard_depth fuel ds.1 >>= λ set. add_fragment d name.0 set.0 set.1)
        else err ParseFail.invalid

abbrev pub is_name : Token → Bool
is_name (Token.name n) = true
is_name _ = false

unfoldable pub optional_name : Parser (Unit {0})
unfolding peek_token expect_name
optional_name t =
    peek_token t >>= λ p. if is_name p.0 then (expect_name t >>= λ n. ok (tt, n.1)) else ok (tt, t)

unfoldable pub optional_variables : ℕ → Parser (Unit {0})
unfolding peek_token parse_variable_defs
optional_variables fuel t = peek_token t >>= λ p.
    if code p.0 == b'(' then (parse_variable_defs fuel t >>= λ v. ok (tt, v.1)) else ok (tt, t)

-- `query`, `mutation` or `subscription`.
unfoldable pub operation_definition : ℕ → Document → Text → Result ParseFail Parsed
unfolding expect_name optional_name optional_variables directives parse_selection_set
operation_definition fuel d t = expect_name t >>= λ keyword. optional_name keyword.1 >>= λ n.
    optional_variables fuel n.1 >>= λ v. directives fuel v.1 >>= λ ds.
    parse_selection_set hard_depth fuel ds.1 >>= λ set. add_operation d set.0 set.1

abbrev pub is_operation : Text → Bool
is_operation n =
    list_eq n (text "query") || list_eq n (text "mutation") || list_eq n (text "subscription")

unfoldable pub definition_from : Token → ℕ → Document → Text → Result ParseFail Parsed
unfolding parse_selection_set fragment_definition operation_definition
definition_from Token.brace_l fuel d t =
    parse_selection_set hard_depth fuel t >>= λ set. add_operation d set.0 set.1
definition_from (Token.name n) fuel d t =
    if list_eq n (text "fragment")
    then fragment_definition fuel d t
    else if is_operation n
    then operation_definition fuel d t
    else err ParseFail.invalid
definition_from _ fuel d t = err ParseFail.invalid

unfoldable pub definitions : ℕ → ℕ → Document → Text → Result ParseFail Document
unfolding peek_token definition_from
definitions fuel rounds d [] = ok d
definitions fuel zero d (c ∷ cs) = err ParseFail.out_of_fuel
definitions fuel (suc rounds) d (c ∷ cs) = peek_token (c ∷ cs) >>= λ p.
    definition_from p.0 fuel d (c ∷ cs) >>= λ r. definitions fuel rounds r.0 (skip_ignored r.1)

abbrev pub empty_document : Document
empty_document = record { operations = []; fragments = [] }

-- Each loop consumes a part of the source in every round.
unfoldable pub parse_document : Text → Result ParseFail Document
unfolding definitions
parse_document source =
    if is_empty (skip_ignored source)
    then err ParseFail.invalid
    else definitions (suc (length source)) (suc (length source)) empty_document
        (skip_ignored source)
