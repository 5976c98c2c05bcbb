-- ===== src/Graphql/Ends.antt =====
-- What each lexer and parser of src/graphql.rs leaves of the text is shorter: the measure by which its
-- loops end.
pub mod Tokens
pub mod Steps
pub mod Values
pub mod Sets
pub mod Documents
use ferroada.Prelude.{
  ℕ, suc, ◌≤◌, ◌<◌, length, Bool, true, false, Option, none, some, Result, ok, err, ◌>>=◌, arith,
  if◌then◌else◌, ◌≡◌, refl,
}
use ferroada.Text.{Text}
use ferroada.Graphql.Parser.{ParseFail, Parser}

-- Not out of fuel, and less than `n` is left.
pub data Shrinks {A : Type 0} (n : ℕ) : Result ParseFail (A × Text) → Type 0 where
  shrunk : {a : A} {u : Text} → length u < n → Shrinks n (ok (a, u))
  wrong : Shrinks n (err ParseFail.invalid)
  deep : Shrinks n (err ParseFail.too_deep)

pub Shrinks-le :
    {A : Type 0} (n m : ℕ) (r : Result ParseFail (A × Text)) → n ≤ m → Shrinks n r → Shrinks m r
Shrinks-le n m (ok (a, u)) h (shrunk s) = shrunk (omega arith)
Shrinks-le n m (err ParseFail.out_of_fuel) h s = elim s [ ]
Shrinks-le n m (err ParseFail.invalid) h s = wrong
Shrinks-le n m (err ParseFail.too_deep) h s = deep

pub Shrinks-bind :
    {A B : Type 0} (n m : ℕ) (r : Result ParseFail (A × Text))
    (next : A × Text → Result ParseFail (B × Text))
    → Shrinks n r
    → ((x : A × Text) → length x.1 < n → Shrinks m (next x))
    → Shrinks m (r >>= next)
Shrinks-bind n m (ok (a, u)) next (shrunk s) k = k (a, u) s
Shrinks-bind n m (err ParseFail.out_of_fuel) next s k = elim s [ ]
Shrinks-bind n m (err ParseFail.invalid) next s k = wrong
Shrinks-bind n m (err ParseFail.too_deep) next s k = deep

pub Shrinks-if :
    {A : Type 0} (n : ℕ) (b : Bool) (r s : Result ParseFail (A × Text))
    → Shrinks n r
    → Shrinks n s
    → Shrinks n (if b then r else s)
Shrinks-if n true r s h k = h
Shrinks-if n false r s h k = k

pub Shrinks-elim :
    {A : Type 0} (n : ℕ) (b : Bool) (r s : Result ParseFail (A × Text))
    → Shrinks n r
    → Shrinks n s
    → Shrinks n (elim b [ true ↦ r | false ↦ s ])
Shrinks-elim n true r s h k = h
Shrinks-elim n false r s h k = k

pub Shrinks-option :
    {A B : Type 0} (n : ℕ) (o : Option B) (f : B → Result ParseFail (A × Text))
    → ((x : B) → Shrinks n (f x))
    → Shrinks n (elim o [ none ↦ err ParseFail.invalid | some x ↦ f x ])
Shrinks-option n none f h = wrong
Shrinks-option n (some x) f h = h x

-- A parser that takes something, or at least gives nothing back, of texts shorter than `n`.
abbrev pub Takes : {A : Type 0} → ℕ → Parser A → Type 0
Takes n p = (t : Text) → length t < n → Shrinks (length t) (p t)

abbrev pub Keeps : {A : Type 0} → ℕ → Parser A → Type 0
Keeps n p = (t : Text) → length t < n → Shrinks (suc (length t)) (p t)
