-- ===== src/ClientIp/Network/Prefix.antt =====
-- The masks of src/client_ip.rs keep the bits in front: an entry of `TRUSTED_PROXIES` holds the
-- addresses that begin as its own does.
use Prim.Native.Nat.{bit_and, digits, bit_and-bitwise}
use native.Mathlib.Nat.{zero-div, div-div-eq-div-mul, add-mul-mod_self_right, mod-eq_of_lt}
use ferroada.Prelude.{
  ap, sym, ◌∙◌, ℕ, zero, suc, ◌+◌, ◌-◌, ◌*◌, ◌/◌, ◌%◌, ◌^◌, ◌≤◌, ◌<◌, ◌≡◌, min, refl, arith,
  Bool-cases, ◌==◌, inl, true, inr, ◌↔◌, ==_iff,
}
use ferroada.ClientIp.Network.{prefix_mask}

-- What `bit_and` computes with `fuel` for a count of digits.
abbrev meet : ℕ → ℕ → ℕ → ℕ
meet fuel ip mask = digits (λ rest. zero) min fuel ip mask

-- A mask that ends in the digit `last`.
peel :
    (fuel ip mask front last : ℕ)
    → mask ≡ front * 2 + last
    → last < 2
    → meet (suc fuel) (suc ip) mask ≡ meet fuel (suc ip / 2) front * 2 + min (suc ip % 2) last
peel fuel ip mask front last shape small =
    let front_of : mask / 2 ≡ front = omega arith in
    let last_of : mask % 2 ≡ last = omega arith in
    ap (λ (t : ℕ). meet fuel (suc ip / 2) t * 2 + min (suc ip % 2) (mask % 2)) front_of
    ∙ ap (λ (t : ℕ). meet fuel (suc ip / 2) front * 2 + min (suc ip % 2) t) last_of

meet_none : (fuel mask : ℕ) → meet fuel 0 mask ≡ 0
meet_none zero mask = refl
meet_none (suc fuel) mask = refl

pow_pos : (n : ℕ) → 0 < 2 ^ n
pow_pos zero = omega arith
pow_pos (suc n) = omega (arith, pow_pos n)

-- A mask of ones keeps a number that fits it.
meet_ones : (fuel n ip : ℕ) → ip ≤ fuel → ip < 2 ^ n → meet fuel ip (2 ^ n - 1) ≡ ip
meet_ones fuel n zero enough fits = meet_none fuel (2 ^ n - 1)
meet_ones zero n (suc ip) enough fits = absurd (omega arith)
meet_ones (suc fuel) zero (suc ip) enough fits = absurd (omega arith)
meet_ones (suc fuel) (suc n) (suc ip) enough fits =
    let shape : 2 ^ suc n - 1 ≡ (2 ^ n - 1) * 2 + 1 = omega (arith, pow_pos n) in
    let front = meet_ones fuel n (suc ip / 2) (omega arith) (omega arith) in
    omega (arith, peel fuel ip (2 ^ suc n - 1) (2 ^ n - 1) 1 shape (omega arith), front)

below_product : (x q l : ℕ) → x < q → 0 < l → x * l < q * l
below_product x q l h p = grind arith

times_half : (x y z w : ℕ) → x ≡ z → 2 * y ≡ w → x * y * 2 ≡ z * w
times_half x y z w e f = grind arith

twice : (x y w : ℕ) → 2 * y ≡ w → x * w ≡ x * y * 2
twice x y w e = grind arith

-- And shifted to the left by `k` it drops the last `k` digits.
meet_shifted :
    (k fuel n ip : ℕ)
    → ip ≤ fuel
    → ip < 2 ^ n * 2 ^ k
    → meet fuel ip ((2 ^ n - 1) * 2 ^ k) ≡ ip / 2 ^ k * 2 ^ k
meet_shifted zero fuel n ip enough fits =
    let mask : (2 ^ n - 1) * 2 ^ 0 ≡ 2 ^ n - 1 = omega arith in
    let whole : ip / 2 ^ 0 * 2 ^ 0 ≡ ip = omega arith in
    ap (meet fuel ip) mask ∙ meet_ones fuel n ip enough (omega arith) ∙ sym whole
meet_shifted (suc k) fuel n zero enough fits =
    let empty : 0 * 2 ^ suc k ≡ 0 = omega arith in
    meet_none fuel ((2 ^ n - 1) * 2 ^ suc k)
    ∙ sym (ap (λ (t : ℕ). t * 2 ^ suc k) (zero-div (2 ^ suc k)) ∙ empty)
meet_shifted (suc k) zero n (suc ip) enough fits = absurd (omega arith)
meet_shifted (suc k) (suc fuel) n (suc ip) enough fits =
    let p : 2 * 2 ^ k ≡ 2 ^ suc k = omega arith in
    let shape = twice (2 ^ n - 1) (2 ^ k) (2 ^ suc k) p in
    let front =
      meet_shifted k fuel n (suc ip / 2) (omega arith)
        (omega (arith, twice (2 ^ n) (2 ^ k) (2 ^ suc k) p)) in
    let kept : suc ip / 2 / 2 ^ k ≡ suc ip / 2 ^ suc k =
      div-div-eq-div-mul (suc ip) 2 (2 ^ k) ∙ ap (◌/◌ (suc ip)) p in
    let peeled =
      peel fuel ip ((2 ^ n - 1) * 2 ^ suc k) ((2 ^ n - 1) * 2 ^ k) 0 (omega (arith, shape))
        (omega arith) in
    omega (
      arith,
      peeled,
      front,
      times_half (suc ip / 2 / 2 ^ k) (2 ^ k) (suc ip / 2 ^ suc k) (2 ^ suc k) kept p,
    )

pow_add : (k n : ℕ) → 2 ^ (k + n) ≡ 2 ^ n * 2 ^ k
pow_add zero n =
    let w : 0 + n ≡ n = omega arith in
    let e : 2 ^ n ≡ 2 ^ n * 2 ^ 0 = omega arith in ap (λ j. 2 ^ j) w ∙ e
pow_add (suc k) n =
    let w : suc k + n ≡ suc (k + n) = omega arith in
    let p : 2 * 2 ^ k ≡ 2 ^ suc k = omega arith in
    omega (arith, ap (λ (j : ℕ). 2 ^ j) w, pow_add k n, twice (2 ^ n) (2 ^ k) (2 ^ suc k) p)

product_suc : (p k : ℕ) → suc p * suc k ≡ suc (p * suc k + k)
product_suc p k = grind arith

split_product : (n m k : ℕ) → n ≡ m + k → n * suc k ≡ m + k * suc n
split_product n m k e = grind arith

shifted_ones : (p k : ℕ) → (suc p * suc k - 1) * suc k ≡ (suc p - 1) * suc k + k * (suc p * suc k)
shifted_ones p k =
    let e = product_suc p k in
    let less : suc p * suc k - 1 ≡ p * suc k + k = omega (arith, e) in
    let one : suc p - 1 ≡ p = omega arith in
    ap (λ (t : ℕ). t * suc k) less
    ∙ split_product (p * suc k + k) (p * suc k) k refl
    ∙ sym
        (ap (λ (t : ℕ). t * suc k + k * (suc p * suc k)) one ∙ ap (λ (t : ℕ). p * suc k + k * t) e)

-- The quotient that a shift to the left leaves out.
shifted_mod : (q l : ℕ) → 0 < q → 0 < l → ((q * l - 1) * l) % (q * l) ≡ (q - 1) * l
shifted_mod zero l p r = absurd (omega arith)
shifted_mod (suc q) zero p r = absurd (omega arith)
shifted_mod (suc q) (suc l) p r =
    ap (λ (t : ℕ). t % (suc q * suc l)) (shifted_ones q l)
    ∙ add-mul-mod_self_right ((suc q - 1) * suc l) l (suc q * suc l)
    ∙ mod-eq_of_lt (below_product (suc q - 1) (suc q) (suc l) (omega arith) r)

-- The mask of the code is that of `prefix` ones.
prefix_mask_ones :
    (w prefix : ℕ) → prefix ≤ w → prefix_mask w prefix ≡ (2 ^ prefix - 1) * 2 ^ (w - prefix)
unfolding prefix_mask
prefix_mask_ones w prefix h = elim (Bool-cases (prefix == 0)) [
  | inl none ↦ ground (arith, none)
  | inr some ↦
      let k : w - prefix + prefix ≡ w = omega arith in
      let e : 2 ^ w ≡ 2 ^ prefix * 2 ^ (w - prefix) =
        ap (λ j. 2 ^ j) (sym k) ∙ pow_add (w - prefix) prefix in
      let m =
        ap (λ (t : ℕ). ((t - 1) * 2 ^ (w - prefix)) % t) e
        ∙ shifted_mod (2 ^ prefix) (2 ^ (w - prefix)) (pow_pos prefix) (pow_pos (w - prefix)) in
      ground (arith, some, m)
]

masked :
    (w prefix a : ℕ)
    → prefix ≤ w
    → a < 2 ^ w
    → bit_and a (prefix_mask w prefix) ≡ a / 2 ^ (w - prefix) * 2 ^ (w - prefix)
masked w prefix a h bound =
    let k : w - prefix + prefix ≡ w = omega arith in
    ap (bit_and a) (prefix_mask_ones w prefix h)
    ∙ bit_and-bitwise a ((2 ^ prefix - 1) * 2 ^ (w - prefix))
    ∙ meet_shifted (w - prefix) a prefix a (omega arith)
        (omega (arith, ap (λ (j : ℕ). 2 ^ j) k, pow_add (w - prefix) prefix))

cancel : (x y l : ℕ) → 0 < l → x * l ≡ y * l → x ≡ y
cancel x y l p e = grind arith

-- Masked alike means alike in front.
pub masked_iff :
    (w prefix a b : ℕ)
    → prefix ≤ w
    → a < 2 ^ w
    → b < 2 ^ w
    → ((bit_and a (prefix_mask w prefix) == bit_and b (prefix_mask w prefix)) ≡ true)
      ↔ (a / 2 ^ (w - prefix) ≡ b / 2 ^ (w - prefix))
masked_iff w prefix a b h p q =
    let ea = masked w prefix a h p in
    let eb = masked w prefix b h q in
    let decided = ==_iff (bit_and a (prefix_mask w prefix)) (bit_and b (prefix_mask w prefix)) in
    (
      λ t.
          cancel (a / 2 ^ (w - prefix)) (b / 2 ^ (w - prefix)) (2 ^ (w - prefix))
            (pow_pos (w - prefix)) (sym ea ∙ decided.0 t ∙ eb),
      λ t. decided.1 (ea ∙ ap (λ (x : ℕ). x * 2 ^ (w - prefix)) t ∙ sym eb),
    )
