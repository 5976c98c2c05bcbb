-- ===== src/Graphql/Ends/Values.antt =====
-- The parsers of values, arguments, directives and types end.
use ferroada.Prelude.{
  ℕ, suc, ◌<◌, length, Option, none, some, Result, ok, err, arith, ◌==◌, true, zero, [], ◌∷◌, false,
  List, Bool,
}
use ferroada.Text.{Text}
use ferroada.Graphql.Ends.{
  Shrinks, Shrinks-bind, Takes, Keeps, shrunk, wrong, Shrinks-if, Shrinks-elim, Shrinks-option,
}
use ferroada.Graphql.Parser.{
  ParseFail, Parser, token, peek_token, expect_name, eat, code, named, enclosed, int_value,
  skip_token, value_from, parse_value, parse_arguments, optional_arguments, parse_directive,
  parse_directives, directives, optional_bang, parse_type, optional_default, variable_def,
  parse_variable_defs, parse_i64, hard_value_depth,
}
use ferroada.Graphql.Lexer.{Token, next_token}
use ferroada.Graphql.Ends.Tokens.{token-Takes, next_token-le}
use ferroada.Graphql.Document.{GqlValue}
use ferroada.Graphql.Ends.Steps.{
  then_keeps, peek_token-Keeps, enclosed-Takes, takes_keeps, named-Takes, eat-Takes,
  expect_name-Takes, keeps_keeps,
}

int_value-Keeps : (raw rest : Text) → Shrinks (suc (length rest)) (int_value raw rest)
int_value-Keeps raw rest =
    Shrinks-option (suc (length rest)) (parse_i64 raw) _ (λ n. shrunk (omega arith))

skip_token-Takes : (t : Text) → Shrinks (length t) (skip_token t)
skip_token-Takes t =
    Shrinks-bind (length t) (length t) (token t) _ (token-Takes t) (λ r h. shrunk h)

value_from-Takes :
    (n : ℕ) (k : Token) (inner : Parser GqlValue) → Takes n inner → Takes n (value_from k inner n)
unfolding value_from
value_from-Takes n Token.dollar inner takes t lt =
    search (then_keeps, takes_keeps, eat-Takes, expect_name-Takes, shrunk, arith)
value_from-Takes n (Token.int raw) inner takes t lt =
    search (then_keeps, token-Takes, int_value-Keeps, arith)
value_from-Takes n Token.float inner takes t lt = skip_token-Takes t
value_from-Takes n Token.string inner takes t lt = skip_token-Takes t
value_from-Takes n (Token.name x) inner takes t lt = skip_token-Takes t
value_from-Takes n Token.bracket_l inner takes t lt =
    Shrinks-bind (length t) (length t) (enclosed b'[' b']' inner n t) _
      (enclosed-Takes n b'[' b']' inner takes t lt) (λ r h. shrunk h)
value_from-Takes n Token.brace_l inner takes t lt =
    Shrinks-bind (length t) (length t) (enclosed b'{' b'}' (named inner) n t) _
      (enclosed-Takes n b'{' b'}' (named inner) (named-Takes n inner takes) t lt) (λ r h. shrunk h)
value_from-Takes n _ inner takes t lt = wrong

pub parse_value-Takes : (left n : ℕ) → Takes n (parse_value left n)
unfolding parse_value
parse_value-Takes zero n t lt = wrong
parse_value-Takes (suc left) n t lt =
    Shrinks-bind (suc (length t)) (length t) (peek_token t) _ (peek_token-Keeps t)
      (λ p h. value_from-Takes n p.0 (parse_value left n) (parse_value-Takes left n) t lt)

some_given :
    {A : Type 0} (n : ℕ) (l : List A) (u : Text)
    → length u < n
    → Shrinks n (elim l [ [] ↦ err ParseFail.invalid | a ∷ more ↦ ok (a ∷ more, u) ])
some_given n [] u h = wrong
some_given n (a ∷ l) u h = shrunk h

parse_arguments-Takes : (n : ℕ) → Takes n (parse_arguments n)
unfolding parse_arguments
parse_arguments-Takes n t lt =
    Shrinks-bind (length t) (length t)
      (enclosed b'(' b')' (named (parse_value (suc hard_value_depth) n)) n t) _
      (enclosed-Takes n b'(' b')' (named (parse_value (suc hard_value_depth) n))
        (named-Takes n (parse_value (suc hard_value_depth) n)
          (parse_value-Takes (suc hard_value_depth) n))
        t lt)
      (λ r h. some_given (length t) r.0 r.1 h)

pub optional_arguments-Keeps : (n : ℕ) → Keeps n (optional_arguments n)
unfolding optional_arguments
optional_arguments-Keeps n t lt =
    Shrinks-bind (suc (length t)) (suc (length t)) (peek_token t) _ (peek_token-Keeps t) λ p h.
      Shrinks-if (suc (length t)) (code p.0 == b'(') _ _
        (takes_keeps t (parse_arguments n t) (parse_arguments-Takes n t lt)) (shrunk (omega arith))

parse_directive-Takes : (n : ℕ) → Takes n (parse_directive n)
unfolding parse_directive
parse_directive-Takes n t lt =
    then_keeps (length t) t (eat b'@' t) _ (omega arith) (eat-Takes b'@' t) λ u a.
      then_keeps (suc (length u.1)) u.1 (expect_name u.1) _ (omega arith) (expect_name-Takes u.1)
        λ x b. optional_arguments-Keeps n x.1 (omega arith)

ends_or :
    (n : ℕ) (o : Option Token) (u : Text) (f : Token → Result ParseFail (Unit {0} × Text))
    → length u < n
    → ((k : Token) → Shrinks n (f k))
    → Shrinks n (elim o [ none ↦ ok (tt, u) | some k ↦ f k ])
ends_or n none u f h g = shrunk h
ends_or n (some k) u f h g = g k

not_then :
    {A : Type 0} (n : ℕ) (b : Bool) (r s : Result ParseFail (A × Text))
    → Shrinks n r
    → Shrinks n s
    → Shrinks n (elim b [ false ↦ r | true ↦ s ])
not_then n true r s h k = k
not_then n false r s h k = h

parse_directives-Keeps :
    (n rounds : ℕ) (t : Text)
    → length t < n
    → length t < rounds
    → Shrinks (suc (length t)) (parse_directives n rounds t)
unfolding parse_directives
parse_directives-Keeps n zero t lt enough = absurd (omega arith)
parse_directives-Keeps n (suc rounds) t lt enough =
    ends_or (suc (length t)) (next_token t).0 (next_token t).1 _ (omega (arith, next_token-le t))
      λ k. not_then (suc (length t)) (code k == b'@') _ _ (shrunk (omega arith)) (
        then_keeps (suc (length t)) t (parse_directive n t) _ (omega arith)
          (parse_directive-Takes n t lt)
          λ d h. parse_directives-Keeps n rounds d.1 (omega arith) (omega arith))

pub directives-Keeps : (n : ℕ) → Keeps n (directives n)
unfolding directives
directives-Keeps n t lt = parse_directives-Keeps n n t lt lt

optional_bang-Keeps : (t : Text) → Shrinks (suc (length t)) (optional_bang t)
unfolding optional_bang
optional_bang-Keeps t =
    Shrinks-bind (suc (length t)) (suc (length t)) (peek_token t) _ (peek_token-Keeps t) λ p h.
      Shrinks-if (suc (length t)) (code p.0 == b'!') _ _
        (takes_keeps t (eat b'!' t) (eat-Takes b'!' t)) (shrunk (omega arith))

parse_type-Takes : (n : ℕ) → Takes n (parse_type n)
unfolding parse_type
parse_type-Takes zero t lt = absurd (omega arith)
parse_type-Takes (suc n) t lt =
    Shrinks-bind (suc (length t)) (length t) (peek_token t) _ (peek_token-Keeps t) λ p h.
      Shrinks-elim (length t) (code p.0 == b'[') _ _
        (then_keeps (length t) t (eat b'[' t) _ (omega arith) (eat-Takes b'[' t) λ u a.
          then_keeps (suc (length u.1)) u.1 (parse_type n u.1) _ (omega arith)
            (parse_type-Takes n u.1 (omega arith))
            λ v b.
              then_keeps (suc (length v.1)) v.1 (eat b']' v.1) _ (omega arith) (eat-Takes b']' v.1)
                λ w c. optional_bang-Keeps w.1)
        (then_keeps (length t) t (expect_name t) _ (omega arith) (expect_name-Takes t)
          λ x a. optional_bang-Keeps x.1)

optional_default-Keeps : (n : ℕ) → Keeps n (optional_default n)
unfolding optional_default
optional_default-Keeps n t lt =
    Shrinks-bind (suc (length t)) (suc (length t)) (peek_token t) _ (peek_token-Keeps t) λ p h.
      Shrinks-if (suc (length t)) (code p.0 == b'=') _ _
        (then_keeps (suc (length t)) t (eat b'=' t) _ (omega arith) (eat-Takes b'=' t) λ u a.
          Shrinks-bind (length u.1) (suc (length u.1)) (parse_value (suc hard_value_depth) n u.1) _
            (parse_value-Takes (suc hard_value_depth) n u.1 (omega arith))
            (λ v b. shrunk (omega arith)))
        (shrunk (omega arith))

variable_def-Takes : (n : ℕ) → Takes n (variable_def n)
unfolding variable_def
variable_def-Takes n t lt =
    then_keeps (length t) t (eat b'$' t) _ (omega arith) (eat-Takes b'$' t) λ u a.
      then_keeps (suc (length u.1)) u.1 (expect_name u.1) _ (omega arith) (expect_name-Takes u.1)
        λ x b.
          then_keeps (suc (length x.1)) x.1 (eat b':' x.1) _ (omega arith) (eat-Takes b':' x.1)
            λ v c.
              then_keeps (suc (length v.1)) v.1 (parse_type n v.1) _ (omega arith)
                (parse_type-Takes n v.1 (omega arith))
                λ ty d.
                  keeps_keeps (suc (length ty.1)) ty.1 (optional_default n ty.1) _ (omega arith)
                    (optional_default-Keeps n ty.1 (omega arith))
                    λ df e. directives-Keeps n df.1 (omega arith)

pub parse_variable_defs-Takes : (n : ℕ) → Takes n (parse_variable_defs n)
unfolding parse_variable_defs
parse_variable_defs-Takes n t lt =
    enclosed-Takes n b'(' b')' (variable_def n) (variable_def-Takes n) t lt
