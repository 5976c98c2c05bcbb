-- ===== src/Graphql/Ends/Steps.antt =====
-- The steps that the parsers of src/graphql.rs share, by the measure of what is left.
use ferroada.Prelude.{ℕ, suc, ◌≤◌, ◌<◌, length, Result, ◌>>=◌, arith, ◌==◌, zero}
use ferroada.Text.{Text}
use ferroada.Graphql.Ends.{
  Shrinks, Shrinks-le, Shrinks-bind, Takes, shrunk, wrong, Shrinks-if, Shrinks-elim,
}
use ferroada.Graphql.Parser.{
  ParseFail, Parser, token, peek_token, expect_name, eat, as_name, code, named, until, enclosed,
}
use ferroada.Graphql.Lexer.{Token}
use ferroada.Graphql.Ends.Tokens.{token-Takes}

pub peek_token-Keeps : (t : Text) → Shrinks (suc (length t)) (peek_token t)
unfolding peek_token
peek_token-Keeps t =
    Shrinks-bind (length t) (suc (length t)) (token t) _ (token-Takes t)
      (λ r h. shrunk (omega arith))

as_name-Keeps : (k : Token) (rest : Text) → Shrinks (suc (length rest)) (as_name k rest)
as_name-Keeps (Token.name n) rest = shrunk (omega arith)
as_name-Keeps _ rest = wrong

-- A first step that takes something, and a rest that gives nothing back.
pub then_keeps :
    {A B : Type 0} (m : ℕ) (t : Text) (r : Result ParseFail (A × Text))
    (next : A × Text → Result ParseFail (B × Text))
    → length t ≤ m
    → Shrinks (length t) r
    → ((x : A × Text) → length x.1 < length t → Shrinks (suc (length x.1)) (next x))
    → Shrinks m (r >>= next)
then_keeps m t r next h s k =
    Shrinks-bind (length t) m r next s
      λ x lt. Shrinks-le (suc (length x.1)) m (next x) (omega arith) (k x lt)

pub keeps_then :
    {A B : Type 0} (m : ℕ) (t : Text) (r : Result ParseFail (A × Text))
    (next : A × Text → Result ParseFail (B × Text))
    → length t ≤ m
    → Shrinks (suc (length t)) r
    → ((x : A × Text) → length x.1 ≤ length t → Shrinks (length x.1) (next x))
    → Shrinks m (r >>= next)
keeps_then m t r next h s k =
    Shrinks-bind (suc (length t)) m r next s
      λ x lt. Shrinks-le (length x.1) m (next x) (omega arith) (k x (omega arith))

pub expect_name-Takes : (t : Text) → Shrinks (length t) (expect_name t)
unfolding expect_name
expect_name-Takes t = search (then_keeps, token-Takes, as_name-Keeps, arith)

pub eat-Takes : (expected : ℕ) (t : Text) → Shrinks (length t) (eat expected t)
unfolding eat
eat-Takes expected t = search (Shrinks-bind, token-Takes, Shrinks-if, shrunk, wrong, arith)

pub takes_keeps :
    {A : Type 0} (t : Text) (r : Result ParseFail (A × Text))
    → Shrinks (length t) r
    → Shrinks (suc (length t)) r
takes_keeps t r h = Shrinks-le (length t) (suc (length t)) r (omega arith) h

pub named-Takes : {A : Type 0} (n : ℕ) (p : Parser A) → Takes n p → Takes n (named p)
unfolding named
named-Takes n p h t lt =
    search (then_keeps, takes_keeps, expect_name-Takes, eat-Takes, h, shrunk, arith)

pub keeps_keeps :
    {A B : Type 0} (m : ℕ) (t : Text) (r : Result ParseFail (A × Text))
    (next : A × Text → Result ParseFail (B × Text))
    → length t < m
    → Shrinks (suc (length t)) r
    → ((x : A × Text) → length x.1 ≤ length t → Shrinks (suc (length x.1)) (next x))
    → Shrinks m (r >>= next)
keeps_keeps m t r next h s k =
    Shrinks-bind (suc (length t)) m r next s
      λ x lt. Shrinks-le (suc (length x.1)) m (next x) (omega arith) (k x (omega arith))

pub until-Keeps :
    {A : Type 0} (n close : ℕ) (item : Parser A) (rounds : ℕ)
    → Takes n item
    → (t : Text) → length t < n
    → length t < rounds
    → Shrinks (suc (length t)) (until close item rounds t)
unfolding until
until-Keeps n close item zero takes t lt enough = absurd (omega arith)
until-Keeps n close item (suc rounds) takes t lt enough =
    Shrinks-bind (suc (length t)) (suc (length t)) (peek_token t) _ (peek_token-Keeps t) λ p h.
      Shrinks-elim (suc (length t)) (code p.0 == close) _ _ (shrunk (omega arith)) (
        then_keeps (suc (length t)) t (item t) _ (omega arith) (takes t lt) λ r s.
          Shrinks-bind (suc (length r.1)) (suc (length r.1)) (until close item rounds r.1) _
            (until-Keeps n close item rounds takes r.1 (omega arith) (omega arith))
            (λ rs q. shrunk q))

pub enclosed-Takes :
    {A : Type 0} (n open_code close : ℕ) (item : Parser A)
    → Takes n item
    → Takes n (enclosed open_code close item n)
unfolding enclosed
enclosed-Takes n open_code close item takes t lt =
    then_keeps (length t) t (eat open_code t) _ (omega arith) (eat-Takes open_code t) λ u a.
      keeps_then (suc (length u.1)) u.1 (until close item n u.1) _ (omega arith)
        (until-Keeps n close item n takes u.1 (omega arith) (omega arith))
        λ items b.
          Shrinks-bind (length items.1) (length items.1) (eat close items.1) _
            (eat-Takes close items.1) (λ v c. shrunk c)
