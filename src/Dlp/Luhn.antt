-- ===== src/Dlp/Luhn.antt =====
-- What the check digit of a card number is good for.
use ferroada.Prelude.{
  inl, inr, Bool-cases, ℕ, ◌+◌, ◌%◌, ◌≤◌, ◌≡◌, List, [], ◌∷◌, ◌++◌, Bool, true, false, not, arith,
  ◌∙◌, ap, ◌≢◌,
}
use mathlib.Core.List.{reverse, reverse-append, reverse-cons, append_assoc}
use ferroada.Dlp.Digits.{luhn_value, luhn_sum, luhn, card_valid}

luhn_sum-from :
    (sum : ℕ) (double : Bool) (ds : List ℕ) → luhn_sum sum double ds ≡ sum + luhn_sum 0 double ds
unfolding luhn_sum
luhn_sum-from sum double [] = omega arith
luhn_sum-from sum double (d ∷ ds) =
    let a = luhn_sum-from (sum + luhn_value double d) (not double) ds in
    let b = luhn_sum-from (luhn_value double d) (not double) ds in ground (arith, a, b)

-- What the digits count besides one of them, and whether that one counts double.
luhn_sum-around :
    (double : Bool) (us vs : List ℕ)
    → (rest : ℕ) × (twice : Bool) × ((a : ℕ)
        → luhn_sum 0 double (us ++ a ∷ vs) ≡ rest + luhn_value twice a)
unfolding luhn_sum
luhn_sum-around double [] vs = (
  luhn_sum 0 (not double) vs,
  double,
  λ a. let e = luhn_sum-from (luhn_value double a) (not double) vs in ground (arith, e),
)
luhn_sum-around double (u ∷ us) vs =
    let r = luhn_sum-around (not double) us vs in
    (
      luhn_value double u + r.0,
      r.1,
      λ a.
          let e = luhn_sum-from (luhn_value double u) (not double) (us ++ a ∷ vs) in
          let f = r.2 a in ground (arith, e, f),
    )

luhn_value-le : (twice : Bool) (a : ℕ) → a ≤ 9 → luhn_value twice a ≤ 9
unfolding luhn_value
luhn_value-le true a h = ground (arith, h)
luhn_value-le false a h = h

luhn_value-injective :
    (twice : Bool) (a b : ℕ) → a ≤ 9 → b ≤ 9 → luhn_value twice a ≡ luhn_value twice b → a ≡ b
unfolding luhn_value
luhn_value-injective true a b ha hb e = ground (arith, ha, hb, e)
luhn_value-injective false a b ha hb e = e

same_residue : (rest x y : ℕ) → x ≤ 9 → y ≤ 9 → (rest + x) % 10 ≡ 0 → (rest + y) % 10 ≡ 0 → x ≡ y
same_residue rest x y hx hy ex ey = omega arith

reverse-around : (xs ys : List ℕ) (a : ℕ) → reverse (xs ++ a ∷ ys) ≡ reverse ys ++ a ∷ reverse xs
reverse-around xs ys a =
    reverse-append xs (a ∷ ys)
    ∙ ap (λ r. r ++ reverse xs) (reverse-cons a ys)
    ∙ append_assoc (reverse ys) (a ∷ []) (reverse xs)

card_valid-injective :
    (xs ys : List ℕ) (a b : ℕ)
    → a ≤ 9
    → b ≤ 9
    → card_valid (xs ++ a ∷ ys) ≡ true
    → card_valid (xs ++ b ∷ ys) ≡ true
    → a ≡ b
unfolding card_valid luhn
card_valid-injective xs ys a b small_a small_b valid_a valid_b =
    let around = luhn_sum-around false (reverse ys) (reverse xs) in
    let at_a = ap (luhn_sum 0 false) (reverse-around xs ys a) ∙ around.2 a in
    let at_b = ap (luhn_sum 0 false) (reverse-around xs ys b) ∙ around.2 b in
    let le_a = luhn_value-le around.1 a small_a in
    let le_b = luhn_value-le around.1 b small_b in
    luhn_value-injective around.1 a b small_a small_b (
      same_residue around.0 (luhn_value around.1 a) (luhn_value around.1 b) le_a le_b
        (ground (arith, valid_a, at_a)) (ground (arith, valid_b, at_b)))

-- A card number in which one digit is mistyped is no card number.
pub card_valid-mistyped :
    (xs ys : List ℕ) (a b : ℕ)
    → a ≤ 9
    → b ≤ 9
    → a ≢ b
    → card_valid (xs ++ a ∷ ys) ≡ true
    → card_valid (xs ++ b ∷ ys) ≡ false
card_valid-mistyped xs ys a b small_a small_b other valid =
    elim (Bool-cases (card_valid (xs ++ b ∷ ys))) [
      | inl still ↦ absurd (other (card_valid-injective xs ys a b small_a small_b valid still))
      | inr invalid ↦ invalid
    ]
