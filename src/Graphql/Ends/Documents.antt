-- ===== src/Graphql/Ends/Documents.antt =====
-- The parser of src/graphql.rs ends on every text.
use ferroada.Prelude.{
  ℕ, zero, suc, ◌≤◌, ◌<◌, length, [], ◌∷◌, false, Result, ok, err, ◌>>=◌, arith, ◌≢◌, if_both,
}
use ferroada.Text.{Text, is_empty}
use ferroada.Graphql.Document.{Document}
use ferroada.Graphql.Lexer.{skip_ignored}
use ferroada.Graphql.Ends.{Shrinks, shrunk}
use ferroada.Graphql.Ends.Tokens.{skip_from-le}
use ferroada.Graphql.Ends.Steps.{peek_token-Keeps}
use ferroada.Graphql.Ends.Sets.{definition_from-Takes}
use ferroada.Graphql.Parser.{ParseFail, peek_token}
use ferroada.Graphql.Syntax.{definitions, parse_document, empty_document, definition_from}

skip_ignored-le : (t : Text) → length (skip_ignored t) ≤ length t
unfolding skip_ignored
skip_ignored-le t = skip_from-le false t

bind-ne :
    {A : Type 0} {B : Type 0} (n : ℕ) (r : Result ParseFail (A × Text))
    (next : A × Text → Result ParseFail B)
    → Shrinks n r
    → ((x : A × Text) → length x.1 < n → next x ≢ err ParseFail.out_of_fuel)
    → (r >>= next) ≢ err ParseFail.out_of_fuel
bind-ne n (ok (a, u)) next (shrunk s) k = k (a, u) s
bind-ne n (err ParseFail.invalid) next s k = λ e. cc
bind-ne n (err ParseFail.too_deep) next s k = λ e. cc
bind-ne n (err ParseFail.out_of_fuel) next s k = elim s [ ]

definitions-ends :
    (n rounds : ℕ) (d : Document) (t : Text)
    → length t < n
    → length t ≤ rounds
    → definitions n rounds d t ≢ err ParseFail.out_of_fuel
unfolding definitions
definitions-ends n rounds d [] lt enough = λ e. cc
definitions-ends n zero d (c ∷ cs) lt enough = absurd (omega arith)
definitions-ends n (suc rounds) d (c ∷ cs) lt enough =
    bind-ne (suc (length (c ∷ cs))) (peek_token (c ∷ cs)) _ (peek_token-Keeps (c ∷ cs)) λ p a.
      bind-ne (length (c ∷ cs)) (definition_from p.0 n d (c ∷ cs)) _
        (definition_from-Takes n p.0 d (c ∷ cs) lt)
        λ r b.
          definitions-ends n rounds r.0 (skip_ignored r.1) (omega (arith, skip_ignored-le r.1))
            (omega (arith, skip_ignored-le r.1))

-- One round more than the source has characters is enough for each loop of the parser: whatever the
-- source, it ends with a document, or with the refusal of an invalid one or of one nested too deeply.
pub parse_document-ends : (source : Text) → parse_document source ≢ err ParseFail.out_of_fuel
unfolding parse_document
parse_document-ends source =
    let t : Text = skip_ignored source in
    let le = skip_ignored-le source in
    if_both (λ (r : Result ParseFail Document). r ≢ err ParseFail.out_of_fuel) (is_empty t)
      (λ e. λ f. cc)
      (λ e.
        definitions-ends (suc (length source)) (suc (length source)) empty_document t (omega arith)
          (omega arith))
