-- ===== src/Text/Trimmed.antt =====
-- A text without white space is its own trimming.
use ferroada.Prelude.{◌≡◌, false, All, arith, ◌∷◌, ap, ◌∙◌, [], refl}
use ferroada.Text.{Text, is_whitespace, trim_start, trim_end, trim}

abbrev pub IsBlackText : Text → Type 0
IsBlackText t = All (λ c. is_whitespace c ≡ false) t

trim_start_self : (t : Text) → IsBlackText t → trim_start t ≡ t
unfolding trim_start
trim_start_self [] h = refl
trim_start_self (c ∷ cs) h = ground (arith, h.0)

trim_end_self : (t : Text) → IsBlackText t → trim_end t ≡ t
unfolding trim_end
trim_end_self [] h = refl
trim_end_self (c ∷ cs) h = ground (arith, h.0, trim_end_self cs h.1)

pub trim_self : (t : Text) → IsBlackText t → trim t ≡ t
unfolding trim
trim_self t h = ap trim_end (trim_start_self t h) ∙ trim_end_self t h
