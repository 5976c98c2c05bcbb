-- ===== src/Dlp/Cards.antt =====
-- `mask_cards` of src/dlp.rs: the digits of a card number become `*`. A position is what is in front of it,
-- read backwards, and what follows.
use ferroada.Prelude.{
  ℕ, zero, suc, ◌+◌, ◌-◌, leb, ◌==◌, List, [], ◌∷◌, ◌++◌, length, take, drop, Bool, true, false,
  not, ◌&&◌, ◌||◌, Option, none, some, if◌then◌else◌,
}
use ferroada.Text.{Text, is_whitespace}
use ferroada.Graphql.Lexer.{is_digit, starts_one, prepend}
use ferroada.Dlp.Digits.{card_valid}

-- Digits, each with at most one space or hyphen in front.
unfoldable pub card_run : Text → Text × Text
card_run [] = ([], [])
card_run (c ∷ cs) =
    let rest = card_run cs in
    if is_digit c || ((c == b' ' || c == b'-') && starts_one cs is_digit)
    then prepend c rest
    else ([], c ∷ cs)

-- How long the longest card number is that the run begins with and that ends where digits end.
unfoldable pub best_from : List ℕ → ℕ → Option ℕ → Text → Option ℕ
unfolding card_valid
best_from digits taken best [] = best
best_from digits taken best (c ∷ cs) = elim (is_digit c) [
  | false ↦ best_from digits (suc taken) best cs
  | true ↦
      let more : List ℕ = digits ++ (c - b'0') ∷ [] in
      best_from more (suc taken)
        (if leb 13 (length more)
            && leb (length more) 19
            && card_valid more
            && not (starts_one cs is_digit)
          then some (suc taken)
          else best)
        cs
]

unfoldable pub best_card : Text → Option ℕ
unfolding best_from
best_card run = best_from [] 0 none run

abbrev pub all_digits : Text → Bool
all_digits [] = true
all_digits (c ∷ cs) = is_digit c && all_digits cs

-- The first character that is no whitespace.
unfoldable pub first_visible : Text → Option ℕ
unfolding is_whitespace
first_visible [] = none
first_visible (c ∷ cs) = let rest = first_visible cs in if is_whitespace c then rest else some c

abbrev pub opens_value : Option ℕ → Bool
opens_value none = false
opens_value (some c) = c == b':' || c == b'[' || c == b','

abbrev pub closes_value : Option ℕ → Bool
closes_value none = true
closes_value (some c) = c == b',' || c == b'}' || c == b']'

unfoldable pub is_json_number_token : Text → Text → Text → Bool
unfolding first_visible
is_json_number_token before token after =
    all_digits token && opens_value (first_visible before) && closes_value (first_visible after)

-- How many characters more are copied, or are masked behind the next one.
pub data Masking : Type 0 where
  copied : ℕ → Masking
  masked : Bool → ℕ → Masking

abbrev pub star : ℕ → ℕ
star c = if is_digit c then b'*' else c

abbrev pub quoted : Bool → Text → Text
quoted quote t = if quote then b'"' ∷ t else t

abbrev pub after_masked : Bool → ℕ → Masking
after_masked quote zero = Masking.copied 0
after_masked quote (suc n) = Masking.masked quote n

-- The text, and how many card numbers are masked in it.
unfoldable pub mask_from : Bool → Masking → Text → Text → Text × ℕ
unfolding best_card card_run is_json_number_token
mask_from json m before [] = ([], 0)
mask_from json (Masking.copied (suc n)) before (c ∷ cs) =
    let rest = mask_from json (Masking.copied n) (c ∷ before) cs in (c ∷ rest.0, rest.1)
mask_from json (Masking.masked quote n) before (c ∷ cs) =
    let rest = mask_from json (after_masked quote n) (c ∷ before) cs in
    (star c ∷ quoted (quote && n == 0) rest.0, rest.1)
mask_from json (Masking.copied zero) before (c ∷ cs) = elim (is_digit c) [
  | false ↦ let rest = mask_from json (Masking.copied 0) (c ∷ before) cs in (c ∷ rest.0, rest.1)
  | true ↦
      let run = (card_run (c ∷ cs)).0 in
      elim (best_card run) [
        | none ↦
            let rest = mask_from json (Masking.copied (length run - 1)) (c ∷ before) cs in
            (c ∷ rest.0, rest.1)
        | some n ↦
            let quote = json && is_json_number_token before (take n (c ∷ cs)) (drop n (c ∷ cs)) in
            let rest = mask_from json (Masking.masked quote (n - 2)) (c ∷ before) cs in
            (quoted quote (star c ∷ rest.0), rest.1 + 1)
      ]
]

unfoldable pub mask_cards : Text → Bool → Text × ℕ
unfolding mask_from
mask_cards t json = mask_from json (Masking.copied 0) [] t
