-- ===== src/Origin/Round.antt =====
-- The order in which src/origin.rs goes through a site's origins: from a start that moves on, once round.
use native.Mathlib.Nat.{add-mul-mod_self_right, mod-eq_of_lt, div-add-mod', mod-lt}
use ferroada.Prelude.{
  ℕ, zero, suc, ◌+◌, ◌-◌, ◌*◌, ◌/◌, ◌%◌, ◌^◌, ◌≤◌, ◌<◌, List, length, get_or, ◌≡◌, inl, inr, refl,
  sym, ap, ◌∙◌, subst, arith, Bool-cases, leb, All, get_or_any, leb→le, All-from_at, All-at,
}
use ferroada.Origin.{OriginEndpoint, candidates}

pub length-candidates :
    (origins : List OriginEndpoint) (d : OriginEndpoint) (start offset k : ℕ)
    → length (candidates origins d start offset k) ≡ k
unfolding candidates
length-candidates origins d start offset zero = refl
length-candidates origins d start offset (suc k) =
    omega (arith, length-candidates origins d start (suc offset) k)

pub get_or-candidates :
    (origins : List OriginEndpoint) (d e : OriginEndpoint) (start offset k j : ℕ)
    → j < k
    → get_or (candidates origins d start offset k) j e
      ≡ get_or origins ((start + (offset + j)) % 2 ^ 64 % length origins) d
unfolding candidates
get_or-candidates origins d e start offset zero j h = absurd (omega arith)
get_or-candidates origins d e start offset (suc k) zero h =
    let same : start + offset ≡ start + (offset + 0) = omega arith in
    ap (λ t. get_or origins (t % 2 ^ 64 % length origins) d) same
get_or-candidates origins d e start offset (suc k) (suc j) h =
    let same : start + (suc offset + j) ≡ start + (offset + suc j) = omega arith in
    get_or-candidates origins d e start (suc offset) k j (omega arith)
    ∙ ap (λ t. get_or origins (t % 2 ^ 64 % length origins) d) same

times_suc : (q n : ℕ) → suc q * n ≡ q * n + n
times_suc q n = grind arith

-- From any start, `n` steps come to every place of `n`.
go_round : (start n i : ℕ) → i < n → (j : ℕ) × (j < n) × ((start + (0 + j)) % n ≡ i)
go_round start n i h =
    let split = div-add-mod' start n in
    let small : start % n < n = mod-lt start (omega arith) in
    elim (Bool-cases (leb (start % n) i)) [
      | inl before ↦
          let le = leb→le (start % n) i before in
          let e : start + (0 + (i - start % n)) ≡ i + start / n * n = omega (arith, split) in
          (
            i - start % n,
            omega arith,
            ap (λ (t : ℕ). t % n) e ∙ add-mul-mod_self_right i (start / n) n ∙ mod-eq_of_lt h,
          )
      | inr behind ↦
          let lt : i < start % n = ground (arith, behind) in
          let e : start + (0 + (i + n - start % n)) ≡ i + suc (start / n) * n =
            omega (arith, split, times_suc (start / n) n) in
          (
            i + n - start % n,
            omega arith,
            ap (λ (t : ℕ). t % n) e ∙ add-mul-mod_self_right i (suc (start / n)) n ∙ mod-eq_of_lt h,
          )
    ]

-- The candidates are the origins.
pub All-candidates :
    (P : OriginEndpoint → Type 0) (origins : List OriginEndpoint) (d : OriginEndpoint) (start : ℕ)
    → start + length origins ≤ 2 ^ 64
    → All P (candidates origins d start 0 (length origins))
    → All P origins
All-candidates P origins d start room h = All-from_at P origins d λ i lt.
    let r = go_round start (length origins) i lt in
    let there =
      All-at P (candidates origins d start 0 (length origins)) r.0 d h
        (omega (arith, length-candidates origins d start 0 (length origins))) in
    let narrow : (start + (0 + r.0)) % 2 ^ 64 ≡ start + (0 + r.0) = omega arith in
    let place = ap (λ (t : ℕ). t % length origins) narrow ∙ r.2 in
    subst P
      (get_or-candidates origins d d start 0 (length origins) r.0 r.1
        ∙ ap (λ t. get_or origins t d) place)
      there

pub candidate_at :
    (origins : List OriginEndpoint) (d e o : OriginEndpoint) (start i : ℕ)
    → 0 < length origins
    → i < length (candidates origins d start 0 (length origins))
    → get_or (candidates origins d start 0 (length origins)) i e ≡ o
    → (j : ℕ) × (j < length origins) × (get_or origins j o ≡ o)
candidate_at origins d e o start i pos lt h =
    let j : ℕ = (start + (0 + i)) % 2 ^ 64 % length origins in
    let below : j < length origins = mod-lt ((start + (0 + i)) % 2 ^ 64) pos in
    let at =
      get_or-candidates origins d e start 0 (length origins) i
        (omega (arith, length-candidates origins d start 0 (length origins))) in
    (j, below, get_or_any origins j o d below ∙ sym at ∙ h)
