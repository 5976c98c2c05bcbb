-- ===== src/Grpc/Timeout/RoundTrip.antt =====
-- The timeouts that src/grpc.rs writes are read back as the deadline of the policy.
use native.Mathlib.Nat.{pow-suc}
use ferroada.Prelude.{
  ℕ, zero, suc, ◌+◌, ◌*◌, ◌/◌, ◌%◌, ◌^◌, ◌≤◌, ◌<◌, ◌≡◌, min, [], ◌∷◌, ◌++◌, length, true, false,
  some, All, arith, if_both, ◌-◌, refl, ltb, All-append, length-append, Bool-cases, ◌==◌, inl, inr,
  subst, ◌∙◌, sym, ap,
}
use ferroada.Text.{Text, trim, is_whitespace}
use ferroada.Text.Trimmed.{trim_self, IsBlackText}
use ferroada.Grpc.Timeout.{
  millisecond, second, is_digit, all_digits, digits_value, split_last, in_unit, parse_parts,
  parse_trimmed, parse_grpc_timeout, decimal, decimal_from, encode_grpc_timeout,
}

digits_value-append :
    (acc : ℕ) (ds : Text) (d : ℕ)
    → digits_value acc (ds ++ d ∷ []) ≡ digits_value acc ds * 10 + (d - b'0')
unfolding digits_value
digits_value-append acc [] d = refl
digits_value-append acc (c ∷ cs) d = digits_value-append (acc * 10 + (c - b'0')) cs d

-- The digits that are written stand for the number.
digits_value-decimal_from : (fuel n : ℕ) → n < 10 ^ fuel → digits_value 0 (decimal_from fuel n) ≡ n
unfolding decimal_from digits_value
digits_value-decimal_from zero n h = ground (arith, h)
digits_value-decimal_from (suc fuel) n h =
    let rest = digits_value-decimal_from fuel (n / 10) (omega (arith, pow-suc 10 fuel)) in
    let last = digits_value-append 0 (decimal_from fuel (n / 10)) (b'0' + n % 10) in
    ground (arith, rest, last)

abbrev IsDigit : ℕ → Type 0
IsDigit c = is_digit c ≡ true

decimal_from-All : (fuel n : ℕ) → All IsDigit (decimal_from fuel n)
unfolding decimal_from is_digit
decimal_from-All zero n = tt
decimal_from-All (suc fuel) n =
    if_both (All IsDigit) (ltb n 10) (λ small. (ground (arith, small), tt))
      (λ _.
        All-append IsDigit (decimal_from fuel (n / 10)) ((b'0' + n % 10) ∷ [])
          (decimal_from-All fuel (n / 10)) (ground arith, tt))

length-decimal_from :
    (fuel k n : ℕ) → n < 10 ^ suc k → suc k ≤ fuel → length (decimal_from fuel n) ≤ suc k
unfolding decimal_from
length-decimal_from zero k n h le = omega arith
length-decimal_from (suc fuel) zero n h le = ground (arith, h)
length-decimal_from (suc fuel) (suc k) n h le =
    let rest =
      length-decimal_from fuel k (n / 10) (omega (arith, pow-suc 10 (suc k))) (omega arith) in
    let last = length-append (decimal_from fuel (n / 10)) ((b'0' + n % 10) ∷ []) in
    ground (arith, rest, last)

filled : (fuel n : ℕ) → 0 < length (decimal_from (suc fuel) n)
unfolding decimal_from
filled fuel n =
    let last = length-append (decimal_from fuel (n / 10)) ((b'0' + n % 10) ∷ []) in
    ground (arith, last)

nonempty : (t : Text) → 0 < length t → (c : ℕ) × (cs : Text) × (t ≡ c ∷ cs)
nonempty [] h = absurd (omega arith)
nonempty (c ∷ cs) h = (c, cs, refl)

decimal-cons : (n : ℕ) → (c : ℕ) × (cs : Text) × (decimal n ≡ c ∷ cs)
unfolding decimal
decimal-cons n = nonempty (decimal_from 20 n) (filled 19 n)

all_digits-All : (ds : Text) → All IsDigit ds → all_digits ds ≡ true
unfolding all_digits
all_digits-All [] h = refl
all_digits-All (d ∷ ds) h = ground (arith, h.0, all_digits-All ds h.1)

split_last-append : (c : ℕ) (cs : Text) (u : ℕ) → split_last c (cs ++ u ∷ []) ≡ (c ∷ cs, u)
unfolding split_last
split_last-append c [] u = refl
split_last-append c (d ∷ ds) u = rw (split_last-append d ds u)

IsDigit-black : (ds : Text) → All IsDigit ds → IsBlackText ds
unfolding is_digit is_whitespace
IsDigit-black [] h = tt
IsDigit-black (d ∷ ds) h = (ground (arith, h.0), IsDigit-black ds h.1)

parse_trimmed_digits :
    (c : ℕ) (cs : Text) (u : ℕ)
    → All IsDigit (c ∷ cs)
    → length (c ∷ cs) ≤ 8
    → parse_trimmed ((c ∷ cs) ++ u ∷ []) ≡ in_unit (digits_value 0 (c ∷ cs)) u
unfolding parse_trimmed parse_parts
parse_trimmed_digits c cs u d short =
    let split = split_last-append c cs u in
    let all = all_digits-All (c ∷ cs) d in
    let long = length-append cs (u ∷ []) in rw split (ground (arith, all, long))

-- At most eight digits and a unit are read as the number in that unit.
parse-decimal :
    (n u : ℕ)
    → n < 10 ^ 8
    → is_whitespace u ≡ false
    → parse_grpc_timeout (decimal n ++ u ∷ []) ≡ in_unit n u
unfolding parse_grpc_timeout decimal
parse-decimal n u small black =
    let digits = decimal_from-All 20 n in
    let black_text =
      All-append (λ c. is_whitespace c ≡ false) (decimal_from 20 n) (u ∷ [])
        (IsDigit-black (decimal_from 20 n) digits) (black, tt) in
    let short = length-decimal_from 20 7 n small (omega arith) in
    let value = digits_value-decimal_from 20 n (omega arith) in
    let (c, cs, form) = decimal-cons n in
    let cut : trim (decimal_from 20 n ++ u ∷ []) ≡ decimal_from 20 n ++ u ∷ [] =
      trim_self (decimal_from 20 n ++ u ∷ []) black_text in
    let read : (t : Text)
        → t ≡ c ∷ cs
        → All IsDigit t
        → length t ≤ 8
        → parse_trimmed (t ++ u ∷ []) ≡ in_unit (digits_value 0 t) u =
      λ t e d l.
        subst (λ x. parse_trimmed (x ++ u ∷ []) ≡ in_unit (digits_value 0 x) u) (sym e)
          (parse_trimmed_digits c cs u (subst (All IsDigit) e d) (subst (λ x. length x ≤ 8) e l)) in
    ap parse_trimmed cut ∙ read (decimal_from 20 n) form digits short ∙ ap (λ v. in_unit v u) value

written_seconds :
    (deadline : ℕ)
    → ((deadline / millisecond % 1000) == 0) ≡ true
    → min (deadline / millisecond / 1000) 99999999 ≡ deadline / millisecond / 1000
    → parse_grpc_timeout (encode_grpc_timeout deadline)
      ≡ parse_grpc_timeout (decimal (deadline / millisecond / 1000) ++ b'S' ∷ [])
unfolding encode_grpc_timeout
written_seconds deadline seconds few = rw (seconds, few)

written_millis :
    (deadline : ℕ)
    → ((deadline / millisecond % 1000) == 0) ≡ false
    → min (deadline / millisecond) 99999999 ≡ deadline / millisecond
    → parse_grpc_timeout (encode_grpc_timeout deadline)
      ≡ parse_grpc_timeout (decimal (deadline / millisecond) ++ b'm' ∷ [])
unfolding encode_grpc_timeout
written_millis deadline rest few = rw (rest, few)

-- A deadline in milliseconds, of ten minutes at most as the policy requires, is read back exactly.
pub parse_grpc_timeout-encode_grpc_timeout :
    (deadline : ℕ)
    → deadline % millisecond ≡ 0
    → deadline ≤ 600 * second
    → parse_grpc_timeout (encode_grpc_timeout deadline) ≡ some deadline
unfolding in_unit is_whitespace
parse_grpc_timeout-encode_grpc_timeout deadline whole bounded =
    let millis = deadline / millisecond in
    elim (Bool-cases (millis % 1000 == 0)) [
      | inl seconds ↦
          let n = millis / 1000 in
          let value : n * second ≡ deadline = ground (arith, seconds) in
          let few : min n 99999999 ≡ n = omega arith in
          written_seconds deadline seconds few
          ∙ parse-decimal n b'S' (omega arith) refl
          ∙ ap some value
      | inr rest ↦
          let value : millis * millisecond ≡ deadline = omega arith in
          let few : min millis 99999999 ≡ millis = omega arith in
          written_millis deadline rest few
          ∙ parse-decimal millis b'm' (omega arith) refl
          ∙ ap some value
    ]
