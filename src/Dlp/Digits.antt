-- ===== src/Dlp/Digits.antt =====
-- The check digits of src/dlp.rs. Sums of digits times weights stay far below 32 bits.
use ferroada.Prelude.{
  ℕ, zero, suc, ◌+◌, ◌-◌, ◌*◌, ◌%◌, ltb, leb, ◌==◌, List, [], ◌∷◌, length, take, Bool, true, false,
  not, ◌&&◌, if◌then◌else◌,
}
use mathlib.Core.List.{reverse}
use ferroada.Text.{Text}
use ferroada.Graphql.Lexer.{is_digit}

pub data Detector : Type 0 where
  cpf cnpj card : Detector

unfoldable pub mask_digits : Text → Text
mask_digits [] = []
mask_digits (c ∷ cs) = (if is_digit c then b'*' else c) ∷ mask_digits cs

unfoldable pub digits_only : Text → List ℕ
digits_only [] = []
digits_only (c ∷ cs) = let rest = digits_only cs in if is_digit c then (c - b'0') ∷ rest else rest

abbrev pub all_are : ℕ → List ℕ → Bool
all_are d [] = true
all_are d (e ∷ es) = e == d && all_are d es

unfoldable pub all_same : List ℕ → Bool
all_same [] = false
all_same (d ∷ ds) = all_are d (d ∷ ds)

abbrev pub check_digit : ℕ → ℕ
check_digit rem = if ltb rem 2 then 0 else 11 - rem

-- Each weight is one less than the one before, from the first on.
unfoldable pub falling_sum : ℕ → ℕ → List ℕ → ℕ
falling_sum sum weight [] = sum
falling_sum sum weight (d ∷ ds) = falling_sum (sum + d * weight) (weight - 1) ds

unfoldable pub mod11 : List ℕ → ℕ → ℕ
unfolding falling_sum
mod11 digits start_weight = check_digit (falling_sum 0 start_weight digits % 11)

-- Behind the weight 2 comes 9.
unfoldable pub cyclic_sum : ℕ → ℕ → List ℕ → ℕ
cyclic_sum sum weight [] = sum
cyclic_sum sum weight (d ∷ ds) =
    cyclic_sum (sum + d * weight) (if weight == 2 then 9 else weight - 1) ds

unfoldable pub cnpj_check : List ℕ → ℕ → ℕ
unfolding cyclic_sum
cnpj_check digits first_weight = check_digit (cyclic_sum 0 first_weight digits % 11)

abbrev pub digit_at : ℕ → List ℕ → ℕ
digit_at i [] = 0
digit_at zero (d ∷ ds) = d
digit_at (suc i) (d ∷ ds) = digit_at i ds

unfoldable pub cpf_valid : List ℕ → Bool
unfolding all_same mod11
cpf_valid digits =
    length digits == 11
    && not (all_same digits)
    && digit_at 9 digits == mod11 (take 9 digits) 10
    && digit_at 10 digits == mod11 (take 10 digits) 11

unfoldable pub cnpj_valid : List ℕ → Bool
unfolding all_same cnpj_check
cnpj_valid digits =
    length digits == 14
    && not (all_same digits)
    && digit_at 12 digits == cnpj_check (take 12 digits) 5
    && digit_at 13 digits == cnpj_check (take 13 digits) 6

-- A digit that counts double counts as the sum of the two digits of its double.
unfoldable pub luhn_value : Bool → ℕ → ℕ
luhn_value false n = n
luhn_value true n = if ltb 9 (n * 2) then n * 2 - 9 else n * 2

unfoldable pub luhn_sum : ℕ → Bool → List ℕ → ℕ
unfolding luhn_value
luhn_sum sum double [] = sum
luhn_sum sum double (d ∷ ds) = luhn_sum (sum + luhn_value double d) (not double) ds

unfoldable pub luhn : List ℕ → Bool
unfolding luhn_sum
luhn digits = luhn_sum 0 false (reverse digits) % 10 == 0

unfoldable pub card_valid : List ℕ → Bool
unfolding all_same luhn
card_valid digits =
    leb 13 (length digits) && leb (length digits) 19 && not (all_same digits) && luhn digits

unfoldable pub matches : Detector → Text → Bool
unfolding digits_only cpf_valid cnpj_valid card_valid
matches Detector.cpf raw = cpf_valid (digits_only raw)
matches Detector.cnpj raw = cnpj_valid (digits_only raw)
matches Detector.card raw = card_valid (digits_only raw)
