-- ===== src/Spool/Accounting/Total.antt =====
-- Sums over the handles of the spool of src/spool.rs.
use ferroada.Prelude.{ℕ, ◌+◌, ◌≡◌, ◌≤◌, List, [], ◌∷◌, ◌++◌, All, arith}

-- Σ f over a list.
unfoldable pub total {ℓ} : {A : Type ℓ} → (A → ℕ) → List A → ℕ
total f [] = 0
total f (x ∷ xs) = f x + total f xs

pub total-append {ℓ} :
    {A : Type ℓ} (f : A → ℕ) (xs ys : List A) → total f (xs ++ ys) ≡ total f xs + total f ys
unfolding total
total-append f [] ys = omega arith
total-append f (x ∷ xs) ys = omega (arith, total-append f xs ys)

pub total-le {ℓ} :
    {A : Type ℓ} (f g : A → ℕ) (P : A → Type 0)
    → ((a : A) → P a → f a ≤ g a)
    → (xs : List A) → All P xs
    → total f xs ≤ total g xs
unfolding total
total-le f g P le [] h = omega arith
total-le f g P le (x ∷ xs) h = omega (arith, le x h.0, total-le f g P le xs h.1)

pub All-split {ℓ} :
    {A : Type ℓ} (P : A → Type 0) (xs : List A) (y : A) (ys : List A)
    → All P (xs ++ y ∷ ys)
    → All P xs × P y × All P ys
All-split P [] y ys h = (tt, h.0, h.1)
All-split P (x ∷ xs) y ys h =
    let (before, here, after) = All-split P xs y ys h.1 in ((h.0, before), here, after)
