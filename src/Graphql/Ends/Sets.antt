-- ===== src/Graphql/Ends/Sets.antt =====
-- The parser of src/graphql.rs ends on every document.
use ferroada.Prelude.{ℕ, zero, suc, length, List, [], ◌∷◌, arith, ◌==◌, list_eq, Bool}
use ferroada.Text.{Text, text, text_eq}
use ferroada.Graphql.Document.{Document, SelectionSet, Selection, Arguments}
use ferroada.Graphql.Ends.{Shrinks, Shrinks-bind, Takes, Keeps, shrunk, wrong, deep, Shrinks-if}
use ferroada.Graphql.Ends.Steps.{
  peek_token-Keeps, expect_name-Takes, eat-Takes, then_keeps, keeps_then, keeps_keeps, takes_keeps,
  enclosed-Takes,
}
use ferroada.Graphql.Ends.Values.{
  optional_arguments-Keeps, directives-Keeps, parse_variable_defs-Takes,
}
use ferroada.Graphql.Parser.{
  Parser, peek_token, enclosed, expect_name, code, optional_arguments, directives, eat,
  parse_variable_defs,
}
use ferroada.Graphql.Syntax.{
  aliased, nonempty_set, parse_selection_set, add_operation, add_fragment, fragment_definition,
  optional_name, optional_variables, operation_definition, definition_from, field_end, parse_field,
  inline_from, named_spread, spread_from, parse_selection, is_name, hard_depth, is_operation,
}
use ferroada.DashMap.{has}
use ferroada.Graphql.Lexer.{Token}

aliased-Keeps : (first t : Text) → Shrinks (suc (length t)) (aliased first t)
unfolding aliased
aliased-Keeps first t =
    Shrinks-bind (suc (length t)) (suc (length t)) (peek_token t) _ (peek_token-Keeps t) λ p h.
      Shrinks-if (suc (length t)) (code p.0 == b':') _ _
        (then_keeps (suc (length t)) t (eat b':' t) _ (omega arith) (eat-Takes b':' t) λ u a.
          Shrinks-bind (length u.1) (suc (length u.1)) (expect_name u.1) _ (expect_name-Takes u.1)
            (λ n b. shrunk (omega arith)))
        (shrunk (omega arith))

module _ (n : ℕ) (inner : Parser SelectionSet) (takes : Takes n inner) where
  field_end-Keeps :
      (alias : Bool) (name : Text) (args : Arguments) → Keeps n (field_end alias name args inner)
  unfolding field_end
  field_end-Keeps alias name args t lt =
      Shrinks-bind (suc (length t)) (suc (length t)) (peek_token t) _ (peek_token-Keeps t) λ p h.
        Shrinks-if (suc (length t)) (code p.0 == b'{') _ _
          (Shrinks-bind (length t) (suc (length t)) (inner t) _ (takes t lt)
            (λ set a. shrunk (omega arith)))
          (shrunk (omega arith))

  parse_field-Takes : Takes n (parse_field n inner)
  unfolding parse_field
  parse_field-Takes t lt =
      then_keeps (length t) t (expect_name t) _ (omega arith) (expect_name-Takes t) λ first a.
        keeps_keeps (suc (length first.1)) first.1 (aliased first.0 first.1) _ (omega arith)
          (aliased-Keeps first.0 first.1)
          λ named b.
            keeps_keeps (suc (length named.1)) named.1 (optional_arguments n named.1) _
              (omega arith) (optional_arguments-Keeps n named.1 (omega arith))
              λ args c.
                keeps_keeps (suc (length args.1)) args.1 (directives n args.1) _ (omega arith)
                  (directives-Keeps n args.1 (omega arith))
                  λ d e. field_end-Keeps named.0.0 named.0.1 args.0 d.1 (omega arith)

  inline_from-Takes : Takes n (inline_from n inner)
  unfolding inline_from
  inline_from-Takes t lt =
      keeps_then (length t) t (directives n t) _ (omega arith) (directives-Keeps n t lt) λ d a.
        Shrinks-bind (length d.1) (length d.1) (inner d.1) _ (takes d.1 (omega arith))
          (λ set b. shrunk b)

  named_spread-Takes : (name : Text) → Takes n (named_spread n inner name)
  unfolding named_spread
  named_spread-Takes name t lt =
      then_keeps (length t) t (expect_name t) _ (omega arith) (expect_name-Takes t) λ x a.
        Shrinks-if (suc (length x.1)) (list_eq name (text "on")) _ _
          (then_keeps (suc (length x.1)) x.1 (expect_name x.1) _ (omega arith)
            (expect_name-Takes x.1)
            λ ty b.
              takes_keeps ty.1 (inline_from n inner ty.1) (inline_from-Takes ty.1 (omega arith)))
          (Shrinks-bind (suc (length x.1)) (suc (length x.1)) (directives n x.1) _
            (directives-Keeps n x.1 (omega arith)) (λ d b. shrunk b))

  spread_from-Takes : (k : Token) → Takes n (spread_from k n inner)
  unfolding spread_from
  spread_from-Takes (Token.name x) t lt = named_spread-Takes x t lt
  spread_from-Takes Token.brace_l t lt = inline_from-Takes t lt
  spread_from-Takes Token.at t lt = inline_from-Takes t lt
  spread_from-Takes _ t lt = wrong

  parse_selection-Takes : Takes n (parse_selection n inner)
  unfolding parse_selection
  parse_selection-Takes t lt =
      Shrinks-bind (suc (length t)) (length t) (peek_token t) _ (peek_token-Keeps t) λ p h.
        Shrinks-if (length t) (code p.0 == b'.') _ _
          (then_keeps (length t) t (eat b'.' t) _ (omega arith) (eat-Takes b'.' t) λ u a.
            Shrinks-bind (suc (length u.1)) (suc (length u.1)) (peek_token u.1) _
              (peek_token-Keeps u.1)
              λ q b.
                takes_keeps u.1 (spread_from q.0 n inner u.1)
                  (spread_from-Takes q.0 u.1 (omega arith)))
          (parse_field-Takes t lt)

nonempty_set-Keeps :
    (items : List Selection) (u : Text) → Shrinks (suc (length u)) (nonempty_set items u)
nonempty_set-Keeps [] u = wrong
nonempty_set-Keeps (item ∷ items) u = shrunk (omega arith)

parse_selection_set-Takes : (left n : ℕ) → Takes n (parse_selection_set left n)
unfolding parse_selection_set
parse_selection_set-Takes zero n t lt = deep
parse_selection_set-Takes (suc left) n t lt =
    then_keeps (length t) t
      (enclosed b'{' b'}' (parse_selection n (parse_selection_set left n)) n t) _ (omega arith)
      (enclosed-Takes n b'{' b'}' (parse_selection n (parse_selection_set left n))
        (parse_selection-Takes n (parse_selection_set left n) (parse_selection_set-Takes left n)) t
        lt)
      (λ r h. nonempty_set-Keeps r.0 r.1)

add_operation-Keeps :
    (d : Document) (set : SelectionSet) (u : Text)
    → Shrinks (suc (length u)) (add_operation d set u)
add_operation-Keeps d set u = shrunk (omega arith)

add_fragment-Keeps :
    (d : Document) (name : Text) (set : SelectionSet) (u : Text)
    → Shrinks (suc (length u)) (add_fragment d name set u)
add_fragment-Keeps d name set u =
    Shrinks-if (suc (length u)) (has d.fragments name) _ _ wrong (shrunk (omega arith))

fragment_definition-Takes : (n : ℕ) (d : Document) → Takes n (fragment_definition n d)
unfolding fragment_definition
fragment_definition-Takes n d t lt =
    then_keeps (length t) t (expect_name t) _ (omega arith) (expect_name-Takes t) λ k a.
      then_keeps (suc (length k.1)) k.1 (expect_name k.1) _ (omega arith) (expect_name-Takes k.1)
        λ x b. Shrinks-if (suc (length x.1)) (list_eq x.0 (text "on")) _ _ wrong (
          then_keeps (suc (length x.1)) x.1 (expect_name x.1) _ (omega arith)
            (expect_name-Takes x.1)
            λ on c.
              Shrinks-if (suc (length on.1)) (list_eq on.0 (text "on")) _ _
                (then_keeps (suc (length on.1)) on.1 (expect_name on.1) _ (omega arith)
                  (expect_name-Takes on.1)
                  λ ty e.
                    keeps_keeps (suc (length ty.1)) ty.1 (directives n ty.1) _ (omega arith)
                      (directives-Keeps n ty.1 (omega arith))
                      λ ds f.
                        then_keeps (suc (length ds.1)) ds.1 (parse_selection_set hard_depth n ds.1)
                          _ (omega arith)
                          (parse_selection_set-Takes hard_depth n ds.1 (omega arith))
                          (λ set g. add_fragment-Keeps d x.0 set.0 set.1))
                wrong)

optional_name-Keeps : (t : Text) → Shrinks (suc (length t)) (optional_name t)
unfolding optional_name
optional_name-Keeps t =
    Shrinks-bind (suc (length t)) (suc (length t)) (peek_token t) _ (peek_token-Keeps t) λ p h.
      Shrinks-if (suc (length t)) (is_name p.0) _ _
        (Shrinks-bind (length t) (suc (length t)) (expect_name t) _ (expect_name-Takes t)
          (λ x a. shrunk (omega arith)))
        (shrunk (omega arith))

optional_variables-Keeps : (n : ℕ) → Keeps n (optional_variables n)
unfolding optional_variables
optional_variables-Keeps n t lt =
    Shrinks-bind (suc (length t)) (suc (length t)) (peek_token t) _ (peek_token-Keeps t) λ p h.
      Shrinks-if (suc (length t)) (code p.0 == b'(') _ _
        (Shrinks-bind (length t) (suc (length t)) (parse_variable_defs n t) _
          (parse_variable_defs-Takes n t lt) (λ x a. shrunk (omega arith)))
        (shrunk (omega arith))

operation_definition-Takes : (n : ℕ) (d : Document) → Takes n (operation_definition n d)
unfolding operation_definition
operation_definition-Takes n d t lt =
    then_keeps (length t) t (expect_name t) _ (omega arith) (expect_name-Takes t) λ k a.
      keeps_keeps (suc (length k.1)) k.1 (optional_name k.1) _ (omega arith)
        (optional_name-Keeps k.1)
        λ x b.
          keeps_keeps (suc (length x.1)) x.1 (optional_variables n x.1) _ (omega arith)
            (optional_variables-Keeps n x.1 (omega arith))
            λ v c.
              keeps_keeps (suc (length v.1)) v.1 (directives n v.1) _ (omega arith)
                (directives-Keeps n v.1 (omega arith))
                λ ds e.
                  then_keeps (suc (length ds.1)) ds.1 (parse_selection_set hard_depth n ds.1) _
                    (omega arith) (parse_selection_set-Takes hard_depth n ds.1 (omega arith))
                    (λ set f. add_operation-Keeps d set.0 set.1)

pub definition_from-Takes : (n : ℕ) (k : Token) (d : Document) → Takes n (definition_from k n d)
unfolding definition_from
definition_from-Takes n Token.brace_l d t lt =
    then_keeps (length t) t (parse_selection_set hard_depth n t) _ (omega arith)
      (parse_selection_set-Takes hard_depth n t lt) (λ set a. add_operation-Keeps d set.0 set.1)
definition_from-Takes n (Token.name x) d t lt =
    Shrinks-if (length t) (list_eq x (text "fragment")) _ _ (fragment_definition-Takes n d t lt)
      (Shrinks-if (length t) (is_operation x) _ _ (operation_definition-Takes n d t lt) wrong)
definition_from-Takes n _ d t lt = wrong
