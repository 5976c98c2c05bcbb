-- ===== src/Net/Laws.antt =====
-- Writing a number in big-endian order and reading it back.
use native.Mathlib.Nat.{pow-suc, pow-succ', mul_assoc, mul-le-mul_right, le_trans}
use ferroada.Prelude.{
  ℕ, zero, suc, ◌+◌, ◌*◌, ◌/◌, ◌%◌, ◌^◌, ◌≤◌, ◌<◌, ◌≡◌, refl, List, [], ◌∷◌, ◌++◌, arith, length,
  length-append, All, All-append,
}
use ferroada.Net.{be_from, from_be_bytes, to_be_bytes, IsByte}

pub length-to_be_bytes : (n x : ℕ) → length (to_be_bytes n x) ≡ n
unfolding to_be_bytes
length-to_be_bytes zero x = refl
length-to_be_bytes (suc n) x = omega (
  arith,
  length-append (to_be_bytes n (x / 256)) ((x % 256) ∷ []),
  length-to_be_bytes n (x / 256),
)

pub to_be_bytes-IsByte : (n x : ℕ) → All IsByte (to_be_bytes n x)
unfolding to_be_bytes
to_be_bytes-IsByte zero x = tt
to_be_bytes-IsByte (suc n) x =
    All-append IsByte (to_be_bytes n (x / 256)) ((x % 256) ∷ []) (to_be_bytes-IsByte n (x / 256))
      (omega arith)

be_from-append : (acc b : ℕ) (bs : List ℕ) → be_from acc (bs ++ b ∷ []) ≡ be_from acc bs * 256 + b
unfolding be_from
be_from-append acc b [] = refl
be_from-append acc b (x ∷ bs) = be_from-append (acc * 256 + x) b bs

pub from_be_bytes-to_be_bytes : (n x : ℕ) → x < 256 ^ n → from_be_bytes (to_be_bytes n x) ≡ x
unfolding from_be_bytes to_be_bytes
from_be_bytes-to_be_bytes zero x h = omega arith
from_be_bytes-to_be_bytes (suc n) x h = omega (
  arith,
  be_from-append 0 (x % 256) (to_be_bytes n (x / 256)),
  from_be_bytes-to_be_bytes n (x / 256) (omega (arith, pow-suc 256 n)),
)

be_from-lt :
    (acc : ℕ) (bs : List ℕ) → All IsByte bs → suc (be_from acc bs) ≤ (acc + 1) * 256 ^ length bs
unfolding be_from
be_from-lt acc [] h = omega arith
be_from-lt acc (b ∷ bs) (hb, h) = le_trans (be_from-lt (acc * 256 + b) bs h) (
    rw (pow-succ' 256 (length bs), ← mul_assoc (acc + 1) 256 (256 ^ length bs))
      (mul-le-mul_right (256 ^ length bs) (omega arith)))

-- The number that `n` bytes stand for is below 256 ^ n.
pub from_be_bytes-lt : (bs : List ℕ) → All IsByte bs → from_be_bytes bs < 256 ^ length bs
unfolding from_be_bytes
from_be_bytes-lt bs h = omega (arith, be_from-lt 0 bs h)
