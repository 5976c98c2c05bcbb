-- ===== src/Graphql/Ends/Tokens.antt =====
-- Each token of src/graphql.rs takes a part of the text.
use ferroada.Prelude.{
  ℕ, suc, ◌-◌, ◌≤◌, ◌<◌, ◌==◌, length, drop, [], ◌∷◌, Bool, true, false, not, Option, none, some,
  arith, if◌then◌else◌, ◌≡◌, ◌||◌, refl, Bool-cases, inl, inr, length-drop,
}
use ferroada.Text.{Text, text, is_whitespace, starts_with, is_empty}
use ferroada.Graphql.Lexer.{
  Token, skip_from, skip_ignored, span, starts_one, without_sign, take_exponent, take_fraction,
  take_number, block_string, line_string, InString, string_token, consume_string, take_name,
  token_at, first_token, next_token, is_newline, is_hex, is_digit, is_name_start,
}
use ferroada.Graphql.Ends.{Shrinks, err, ok, shrunk, wrong}
use ferroada.Graphql.Parser.{token, ParseFail}

-- A token takes something; a failure need not.
pub data Lexes (n : ℕ) : Option Token × Text → Type 0 where
  read : {k : Token} {u : Text} → length u < n → Lexes n (some k, u)
  failed : {u : Text} → length u ≤ n → Lexes n (none, u)

Lexes-if :
    (n : ℕ) (b : Bool) (r s : Option Token × Text)
    → Lexes n r
    → Lexes n s
    → Lexes n (if b then r else s)
Lexes-if n true r s h k = h
Lexes-if n false r s h k = k

Lexes-cases :
    (n : ℕ) (b : Bool) (r s : Option Token × Text)
    → (b ≡ true → Lexes n r)
    → (b ≡ false → Lexes n s)
    → Lexes n (if b then r else s)
Lexes-cases n true r s h k = h refl
Lexes-cases n false r s h k = k refl

Lexes-le : (n m : ℕ) (r : Option Token × Text) → n ≤ m → Lexes n r → Lexes m r
Lexes-le n m (some k, u) h (read s) = read (omega arith)
Lexes-le n m (none, u) h (failed s) = failed (omega arith)

pub skip_from-le : (b : Bool) (t : Text) → length (skip_from b t) ≤ length t
unfolding skip_from
skip_from-le b [] = omega arith
skip_from-le true (c ∷ cs) = omega (arith, skip_from-le (not (is_newline c)) cs)
skip_from-le false (c ∷ cs) = elim (Bool-cases (c == b',' || is_whitespace c || c == 0xFEFF)) [
  | inl gone ↦ ground (arith, gone, skip_from-le false cs)
  | inr kept ↦ elim (Bool-cases (c == b'#')) [
    | inl comment ↦ ground (arith, kept, comment, skip_from-le true cs)
    | inr token ↦ ground (arith, kept, token)
  ]
]

span-le : (p : ℕ → Bool) (t : Text) → length (span p t).1 ≤ length t
unfolding span
span-le p [] = omega arith
span-le p (c ∷ cs) = elim (Bool-cases (p c)) [
  | inl in_front ↦ ground (arith, in_front, span-le p cs)
  | inr behind ↦ ground (arith, behind)
]

block_string-le : (t : Text) → length (block_string t).1 ≤ length t
unfolding block_string
block_string-le [] = omega arith
block_string-le (c ∷ []) = ground arith
block_string-le (c ∷ d ∷ cs) = elim (Bool-cases (starts_with (c ∷ d ∷ cs) (text "\"\"\""))) [
  | inl closed ↦ ground (arith, closed, length-drop 1 cs)
  | inr open_still ↦ elim (Bool-cases (c == b'\\')) [
    | inl escaped ↦ ground (arith, open_still, escaped, block_string-le cs)
    | inr plain ↦ ground (arith, open_still, plain, block_string-le (d ∷ cs))
  ]
]

line_string-le : (m : InString) (t : Text) → length (line_string m t).1 ≤ length t
unfolding line_string
line_string-le m [] = omega arith
line_string-le InString.escape (c ∷ cs) =
    omega (arith, line_string-le (if c == b'u' then InString.hex 3 else InString.plain) cs)
line_string-le (InString.hex n) (c ∷ cs) = elim (Bool-cases (is_hex c)) [
  | inl digit ↦
      ground
        (arith, digit, line_string-le (if n == 0 then InString.plain else InString.hex (n - 1)) cs)
  | inr other ↦ ground (arith, other)
]
line_string-le InString.plain (c ∷ cs) = elim (Bool-cases (c == b'"')) [
  | inl closed ↦ ground (arith, closed)
  | inr inside ↦ elim (Bool-cases (is_newline c)) [
    | inl ended ↦ ground (arith, inside, ended)
    | inr going ↦ ground (
      arith,
      inside,
      going,
      line_string-le (if c == b'\\' then InString.escape else InString.plain) cs,
    )
  ]
]

string_token-Lexes : (n : ℕ) (r : Bool × Text) → length r.1 < n → Lexes n (string_token r)
string_token-Lexes n (true, t) h = read h
string_token-Lexes n (false, t) h = failed (omega arith)

consume_string-Lexes : (c : ℕ) (cs : Text) → Lexes (suc (length cs)) (consume_string (c ∷ cs))
unfolding consume_string
consume_string-Lexes c cs =
    Lexes-if (suc (length cs)) (starts_with (c ∷ cs) (text "\"\"\"")) _ _
      (string_token-Lexes (suc (length cs)) (block_string (drop 2 cs))
        (omega (arith, block_string-le (drop 2 cs), length-drop 2 cs)))
      (string_token-Lexes (suc (length cs)) (line_string InString.plain cs)
        (omega (arith, line_string-le InString.plain cs)))

take_name-Lexes : (c : ℕ) (cs : Text) → Lexes (suc (length cs)) (take_name c cs)
unfolding take_name
take_name-Lexes c cs = read (omega (arith, span-le _ cs))

without_sign-le : (t : Text) (p : ℕ → Bool) → length (without_sign t p) ≤ length t
without_sign-le t p = elim (Bool-cases (starts_one t p)) [
  | inl signed ↦ ground (arith, signed, length-drop 1 t)
  | inr bare ↦ ground (arith, bare)
]

take_exponent-Lexes :
    (n : ℕ) (b : Bool) (raw t : Text) → length t < n → Lexes n (take_exponent b raw t)
unfolding take_exponent
take_exponent-Lexes n b raw t h =
    let u = without_sign (drop 1 t) (λ c. c == b'+' || c == b'-') in
    let left = span-le is_digit u in
    let signed = without_sign-le (drop 1 t) (λ c. c == b'+' || c == b'-') in
    let dropped = length-drop 1 t in
    Lexes-if n (starts_one t (λ c. c == b'e' || c == b'E')) _ _
      (Lexes-if n (is_empty (span is_digit u).0) _ _ (failed (omega (arith, left, signed, dropped)))
        (read (omega (arith, left, signed, dropped))))
      (read h)

take_fraction-Lexes : (n : ℕ) (raw t : Text) → length t < n → Lexes n (take_fraction raw t)
unfolding take_fraction
take_fraction-Lexes n raw t h =
    let left = span-le is_digit (drop 1 t) in
    let dropped = length-drop 1 t in
    Lexes-if n (starts_one t (λ c. c == b'.')) _ _
      (Lexes-if n (is_empty (span is_digit (drop 1 t)).0) _ _
        (failed (omega (arith, left, dropped)))
        (take_exponent-Lexes n true raw (span is_digit (drop 1 t)).1
          (omega (arith, left, dropped))))
      (take_exponent-Lexes n false raw t h)

span-lt : (p : ℕ → Bool) (t : Text) → is_empty (span p t).0 ≡ false → length (span p t).1 < length t
unfolding span is_empty
span-lt p [] h = cc
span-lt p (c ∷ cs) h = elim (Bool-cases (p c)) [
  | inl in_front ↦ ground (arith, in_front, span-le p cs)
  | inr behind ↦ absurd (ground (arith, h, behind))
]

take_number-Lexes : (t : Text) → Lexes (length t) (take_number t)
unfolding take_number
take_number-Lexes t =
    let u = without_sign t (λ c. c == b'-') in
    let signed = without_sign-le t (λ c. c == b'-') in
    Lexes-cases (length t) (is_empty (span is_digit u).0) _ _
      (λ e. failed (omega (arith, span-le is_digit u, signed)))
      (λ e.
        take_fraction-Lexes (length t) _ (span is_digit u).1
          (omega (arith, span-lt is_digit u e, signed)))

first_token-Lexes : (t : Text) → Lexes (length t) (first_token t)
unfolding token_at
first_token-Lexes [] = failed (omega arith)
first_token-Lexes (c ∷ cs) =
    let n : ℕ = suc (length cs) in
    let here : length cs < n = omega arith in
    Lexes-if n (c == b'!') _ _ (read here) (
      Lexes-if n (c == b'$') _ _ (read here) (
        Lexes-if n (c == b'&') _ _ (read here) (
          Lexes-if n (c == b'(') _ _ (read here) (
            Lexes-if n (c == b')') _ _ (read here) (
              Lexes-if n (c == b':') _ _ (read here) (
                Lexes-if n (c == b'=') _ _ (read here) (
                  Lexes-if n (c == b'@') _ _ (read here) (
                    Lexes-if n (c == b'[') _ _ (read here) (
                      Lexes-if n (c == b']') _ _ (read here) (
                        Lexes-if n (c == b'{') _ _ (read here) (
                          Lexes-if n (c == b'}') _ _ (read here) (
                            Lexes-if n (c == b'|') _ _ (read here) (
                              Lexes-if n (c == b'.') _ _
                                (Lexes-if n (starts_with (c ∷ cs) (text "...")) _ _
                                  (read (omega (arith, length-drop 2 cs))) (failed (omega arith)))
                                (Lexes-if n (c == b'"') _ _ (consume_string-Lexes c cs) (
                                  Lexes-if n (is_name_start c) _ _ (take_name-Lexes c cs) (
                                    Lexes-if n (c == b'-' || is_digit c) _ _
                                      (take_number-Lexes (c ∷ cs))
                                      (failed (omega arith))))))))))))))))))

from_lexed :
    (n : ℕ) (o : Option Token × Text)
    → Lexes n o
    → Shrinks n (elim o.0 [ none ↦ err ParseFail.invalid | some k ↦ ok (k, o.1) ])
from_lexed n (some k, u) (read h) = shrunk h
from_lexed n (none, u) h = wrong

pub next_token-Lexes : (t : Text) → Lexes (length t) (next_token t)
unfolding next_token skip_ignored
next_token-Lexes t =
    Lexes-le (length (skip_ignored t)) (length t) (first_token (skip_ignored t))
      (skip_from-le false t) (first_token-Lexes (skip_ignored t))

pub token-Takes : (t : Text) → Shrinks (length t) (token t)
unfolding token
token-Takes t = from_lexed (length t) (next_token t) (next_token-Lexes t)

Lexes-length : (n : ℕ) (r : Option Token × Text) → Lexes n r → length r.1 ≤ n
Lexes-length n (some k, u) (read h) = omega arith
Lexes-length n (none, u) (failed h) = h

pub next_token-le : (t : Text) → length (next_token t).1 ≤ length t
next_token-le t = Lexes-length (length t) (next_token t) (next_token-Lexes t)
