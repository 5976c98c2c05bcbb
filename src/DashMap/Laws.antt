-- ===== src/DashMap/Laws.antt =====
-- How the operations of a map read at any key, and what they do to its size.
use ferroada.Prelude.{
  ◌+◌, ◌≡◌, some, false, true, Option, if◌then◌else◌, none, ◌≤◌, arith, [], ◌∷◌, refl, subst, inl,
  inr, Bool-cases, Option-cases,
}
use ferroada.DashMap.{Eq, DashMap, get, put, has, remove, retain, len}

module _ {ℓ κ} {K : Type ℓ} {V : Type κ} ⦃e : Eq K⦄ where
  pub get-put :
      (m : DashMap K V) (k j : K) (v : V)
      → get (put m k v) j ≡ (if e.beq k j then some v else get m j)
  unfolding get put
  get-put [] k j v = refl
  get-put ((i, w) ∷ m) k j v =
      ground (arith, get-put m k j v, e.beq_iff i k, e.beq_iff i j, e.beq_iff k j)

  pub put-get_self : (m : DashMap K V) (k : K) (v : V) → get m k ≡ some v → put m k v ≡ m
  unfolding get put
  put-get_self [] k v h = cc
  put-get_self ((j, w) ∷ m) k v h = elim (Bool-cases (e.beq j k)) [
    | inl same ↦ ground (arith, same, h)
    | inr other ↦ ground (arith, other, h, put-get_self m k v)
  ]

  pub has-get : (m : DashMap K V) (k : K) → has m k ≡ false → get m k ≡ none
  unfolding get has
  has-get [] k h = refl
  has-get ((j, v) ∷ m) k h = ground (arith, has-get m k)

  pub get-has : (m : DashMap K V) (k : K) (v : V) → get m k ≡ some v → has m k ≡ true
  unfolding get has
  get-has [] k v h = cc
  get-has ((j, w) ∷ m) k v h = ground (arith, h, get-has m k v)

  pub len-put :
      (m : DashMap K V) (k : K) (v : V) → len (put m k v) ≡ (if has m k then len m else len m + 1)
  unfolding put has
  len-put [] k v = refl
  len-put ((j, w) ∷ m) k v = ground (arith, len-put m k v)

  pub len-remove : (m : DashMap K V) (k : K) → has m k ≡ true → len (remove m k) + 1 ≡ len m
  unfolding remove has
  len-remove [] k h = cc
  len-remove ((j, w) ∷ m) k h = ground (arith, len-remove m k)

  -- No key twice: what every map built by `put` and `remove` from the empty one has.
  abbrev pub IsUnique : DashMap K V → Type (ℓ ⊔ κ)
  IsUnique [] = Unit
  IsUnique ((k, v) ∷ m) = (get m k ≡ none) × IsUnique m

  -- Removing another key.
  pub get-remove_other :
      (m : DashMap K V) (k j : K) → e.beq k j ≡ false → get (remove m k) j ≡ get m j
  unfolding get remove
  get-remove_other [] k j h = refl
  get-remove_other ((i, w) ∷ m) k j h =
      ground (arith, get-remove_other m k j, e.beq_iff i k, e.beq_iff i j, e.beq_iff k j)

  pub remove-IsUnique : (m : DashMap K V) (k : K) → IsUnique m → IsUnique (remove m k)
  unfolding get remove
  remove-IsUnique [] k h = tt
  remove-IsUnique ((j, w) ∷ m) k h =
      ground (arith, remove-IsUnique m k, get-remove_other m k j, e.beq_iff j k, e.beq_iff k j)

  pub len-remove-le : (m : DashMap K V) (k : K) → len (remove m k) ≤ len m
  unfolding remove
  len-remove-le [] k = omega arith
  len-remove-le ((j, w) ∷ m) k = ground (arith, len-remove-le m k)

-- A property of every value.
module _ {ℓ κ} {K : Type ℓ} {V : Type κ} (P : V → Type 0) where
  abbrev pub AllValues : DashMap K V → Type 0
  AllValues [] = Unit
  AllValues ((j, v) ∷ m) = P v × AllValues m

  pub retain-AllValues :
      (keep : K → V → Option V) (m : DashMap K V)
      → ((k : K) (v w : V) → keep k v ≡ some w → P v → P w)
      → AllValues m
      → AllValues (retain keep m)
  unfolding retain
  retain-AllValues keep [] step h = tt
  retain-AllValues keep ((j, v) ∷ m) step h =
      let rest = retain-AllValues keep m step h.1 in
      elim (Option-cases (keep j v)) [
        | inl dropped ↦ ground (arith, rest, dropped)
        | inr (w, kept) ↦ let p = step j v w kept h.0 in ground (arith, rest, kept, p)
      ]

module _ {ℓ κ} {K : Type ℓ} {V : Type κ} where
  pub len-retain-le : (keep : K → V → Option V) (m : DashMap K V) → len (retain keep m) ≤ len m
  unfolding retain
  len-retain-le keep [] = omega arith
  len-retain-le keep ((j, v) ∷ m) = ground (arith, len-retain-le keep m)

module _ {ℓ κ} {K : Type ℓ} {V : Type κ} ⦃e : Eq K⦄ (P : V → Type 0) where
  pub put-AllValues :
      (m : DashMap K V) (k : K) (v : V) → P v → AllValues P m → AllValues P (put m k v)
  unfolding put
  put-AllValues [] k v p h = (p, tt)
  put-AllValues ((j, w) ∷ m) k v p h = ground (arith, put-AllValues m k v p h.1)

  pub get-AllValues : (m : DashMap K V) (k : K) (v : V) → get m k ≡ some v → AllValues P m → P v
  unfolding get
  get-AllValues [] k v g h = cc
  get-AllValues ((j, w) ∷ m) k v g h = elim (Bool-cases (e.beq j k)) [
    | inl here ↦ let same : w ≡ v = ground arith in subst P same h.0
    | inr there ↦ get-AllValues m k v (ground arith) h.1
  ]

abbrev pub and_then {κ} : {V : Type κ} → Option V → (V → Option V) → Option V
and_then none f = none
and_then (some v) f = f v

module _ {ℓ κ} {K : Type ℓ} {V : Type κ} ⦃e : Eq K⦄ where
  pub put-IsUnique : (m : DashMap K V) (k : K) (v : V) → IsUnique m → IsUnique (put m k v)
  unfolding get put
  put-IsUnique [] k v h = (refl, tt)
  put-IsUnique ((j, w) ∷ m) k v h =
      ground (arith, get-put m k j v, put-IsUnique m k v h.1, e.beq_iff j k, e.beq_iff k j)

  pub get-retain-none :
      (keep : K → V → Option V) (m : DashMap K V) (k : K)
      → get m k ≡ none
      → get (retain keep m) k ≡ none
  unfolding get retain
  get-retain-none keep [] k h = refl
  get-retain-none keep ((j, v) ∷ m) k h = ground (arith, get-retain-none keep m k)

  pub retain-IsUnique :
      (keep : K → V → Option V) (m : DashMap K V) → IsUnique m → IsUnique (retain keep m)
  unfolding get retain
  retain-IsUnique keep [] h = tt
  retain-IsUnique keep ((j, v) ∷ m) h =
      ground (arith, get-retain-none keep m j, retain-IsUnique keep m h.1)

  pub get-retain :
      (keep : V → Option V) (m : DashMap K V) (k : K)
      → IsUnique m
      → get (retain (λ _ v. keep v) m) k ≡ and_then (get m k) keep
  unfolding get retain
  get-retain keep [] k h = refl
  get-retain keep ((j, v) ∷ m) k h =
      ground (arith, get-retain keep m k h.1, get-retain-none (λ _ w. keep w) m k, e.beq_iff j k)
