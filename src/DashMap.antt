-- ===== src/DashMap.antt =====
-- The concurrent maps of the program (`DashMap`), seen between two operations: an association list
-- without repeated keys, in the order of first insertion. A key is compared by its `Eq` instance.
pub mod Laws
use ferroada.Prelude.{
  ℕ, Bool, true, false, ◌≡◌, ◌↔◌, Option, none, some, List, [], ◌∷◌, length, if◌then◌else◌,
}

pub record Eq {ℓ} (K : Type ℓ) : Type ℓ where
  pub beq : K → K → Bool
  pub beq_iff : (a b : K) → (beq a b ≡ true) ↔ (a ≡ b)

abbrev pub DashMap {ℓ κ} : Type ℓ → Type κ → Type (ℓ ⊔ κ)
DashMap K V = List (K × V)

module _ {ℓ κ} {K : Type ℓ} {V : Type κ} ⦃e : Eq K⦄ where
  unfoldable pub get : DashMap K V → K → Option V
  get [] k = none
  get ((j, v) ∷ m) k = if e.beq j k then some v else get m k

  -- `contains_key`
  unfoldable pub has : DashMap K V → K → Bool
  has [] k = false
  has ((j, v) ∷ m) k = if e.beq j k then true else has m k

  -- `insert`: the value of a key that is there is replaced in place.
  unfoldable pub put : DashMap K V → K → V → DashMap K V
  put [] k v = (k, v) ∷ []
  put ((j, w) ∷ m) k v = if e.beq j k then (j, v) ∷ m else (j, w) ∷ put m k v

  unfoldable pub remove : DashMap K V → K → DashMap K V
  remove [] k = []
  remove ((j, w) ∷ m) k = if e.beq j k then m else (j, w) ∷ remove m k

module _ {ℓ κ} {K : Type ℓ} {V : Type κ} where
  -- `retain` with a closure that may also change the value: `none` drops the entry.
  unfoldable pub retain : (K → V → Option V) → DashMap K V → DashMap K V
  retain keep [] = []
  retain keep ((j, w) ∷ m) =
      let rest = retain keep m in elim (keep j w) [ none ↦ rest | some v ↦ (j, v) ∷ rest ]

  abbrev pub len : DashMap K V → ℕ
  len m = length m

-- The value, or the default that `entry(k).or_default()` puts there.
abbrev pub or_default {κ} : {V : Type κ} → V → Option V → V
or_default d none = d
or_default d (some v) = v
