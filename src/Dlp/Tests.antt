-- ===== src/Dlp/Tests.antt =====
-- The numbers of the tests of src/dlp.rs, and cards that are masked and missed.
use ferroada.Prelude.{◌≡◌, refl, [], ◌∷◌, true, false, arith}
use ferroada.Text.{text}
use ferroada.Dlp.Digits.{Detector, matches, card_valid}
use ferroada.Dlp.Luhn.{card_valid-mistyped}
use ferroada.Dlp.Cards.{mask_cards}

known_cpf : matches Detector.cpf (text "529.982.247-25") ≡ true
unfolding matches
known_cpf = refl

known_cnpj : matches Detector.cnpj (text "11.222.333/0001-81") ≡ true
unfolding matches
known_cnpj = refl

card_in_json :
    mask_cards (text "{\"n\": 4111111111111111}") true ≡ (text "{\"n\": \"****************\"}", 1)
unfolding mask_cards
card_in_json = refl

-- A number in front of a card number, with a space between them, hides it.
hidden_card : mask_cards (text "1 4111111111111111") false ≡ (text "1 4111111111111111", 0)
unfolding mask_cards
hidden_card = refl

visa : card_valid (4 ∷ 1 ∷ 1 ∷ 1 ∷ 1 ∷ 1 ∷ 1 ∷ 1 ∷ 1 ∷ 1 ∷ 1 ∷ 1 ∷ 1 ∷ 1 ∷ 1 ∷ 1 ∷ []) ≡ true
unfolding card_valid
visa = refl

card_valid-mistyped_example :
    card_valid (4 ∷ 1 ∷ 7 ∷ 1 ∷ 1 ∷ 1 ∷ 1 ∷ 1 ∷ 1 ∷ 1 ∷ 1 ∷ 1 ∷ 1 ∷ 1 ∷ 1 ∷ 1 ∷ []) ≡ false
card_valid-mistyped_example =
    card_valid-mistyped (4 ∷ 1 ∷ []) (1 ∷ 1 ∷ 1 ∷ 1 ∷ 1 ∷ 1 ∷ 1 ∷ 1 ∷ 1 ∷ 1 ∷ 1 ∷ 1 ∷ 1 ∷ []) 1 7
      (omega arith) (omega arith) (omega arith) visa
