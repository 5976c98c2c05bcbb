-- ===== src/Grpc/DeadlineText.antt =====
-- The deadline of the policy, as `parse_deadline` of src/grpc.rs reads it. The messages of the errors
-- are left out. A duration is a number of nanoseconds.
use ferroada.Prelude.{
  ℕ, ◌-◌, ◌*◌, ◌^◌, ◌<◌, ◌≡◌, ltb, ◌==◌, [], ◌∷◌, length, take, not, ◌&&◌, Option, none, some,
  Result, ok, err, if◌then◌else◌, arith, Option-cases, inl, inr, ◌≤◌,
}
use ferroada.Text.{Text, text, trim, is_empty, to_ascii_lowercase, ends_with}
use ferroada.Grpc.Timeout.{millisecond, second, all_digits, digits_value}
use ferroada.Grpc.Deadline.{IsDeadline}

pub data DeadlineError : Type 0 where
  empty invalid excess : DeadlineError

abbrev pub hard_max_deadline : ℕ
hard_max_deadline = 600 * second

-- `parse::<u64>()`: digits, with a `+` in front or not, below 2 ^ 64.
unfoldable pub digits_u64 : Text → Option ℕ
digits_u64 ds =
    if not (is_empty ds) && all_digits ds && ltb (digits_value 0 ds) (2 ^ 64)
    then some (digits_value 0 ds)
    else none

unfoldable pub parse_u64 : Text → Option ℕ
unfolding digits_u64
parse_u64 [] = none
parse_u64 (c ∷ cs) = if c == b'+' then digits_u64 cs else digits_u64 (c ∷ cs)

unfoldable pub strip_suffix : Text → Text → Option Text
strip_suffix t suffix =
    if ends_with t suffix then some (take (length t - length suffix) t) else none

-- The number, and how many milliseconds its unit has.
unfoldable pub number_and_unit : Text → Text × ℕ
unfolding strip_suffix
number_and_unit trimmed =
    let lower = to_ascii_lowercase trimmed in
    elim (strip_suffix lower (text "ms")) [
      | some number ↦ (trim number, 1)
      | none ↦ elim (strip_suffix lower (text "s")) [
        | some number ↦ (trim number, 1000)
        | none ↦ elim (strip_suffix lower (text "m")) [
          | some number ↦ (trim number, 60000)
          | none ↦ (trimmed, 1000)
        ]
      ]
    ]

-- `checked_mul` and the bounds.
unfoldable pub bounded_deadline : ℕ → Result DeadlineError ℕ
bounded_deadline millis =
    if not (ltb millis (2 ^ 64))
    then err DeadlineError.invalid
    else if millis == 0
    then err DeadlineError.invalid
    else if ltb hard_max_deadline (millis * millisecond)
    then err DeadlineError.excess
    else ok (millis * millisecond)

unfoldable pub parse_deadline : Text → Result DeadlineError ℕ
unfolding number_and_unit parse_u64 bounded_deadline
parse_deadline raw =
    let parts = number_and_unit (trim raw) in
    if is_empty (trim raw) then err DeadlineError.empty else elim (parse_u64 parts.0) [
      | none ↦ err DeadlineError.invalid
      | some value ↦ bounded_deadline (value * parts.1)
    ]

bounded_deadline-IsDeadline :
    (millis d : ℕ) → bounded_deadline millis ≡ ok d → IsDeadline d × (0 < d)
unfolding bounded_deadline
bounded_deadline-IsDeadline millis d h =
    let same : millis * millisecond ≡ d = ground (arith, h) in
    let positive : 0 < millis = ground (arith, h) in
    let bounded : millis * millisecond ≤ hard_max_deadline = ground (arith, h) in
    ((omega arith, omega arith), omega arith)

-- A deadline that the policy is accepted with is a positive number of milliseconds, of ten minutes
-- at most.
pub parse_deadline-IsDeadline :
    (raw : Text) (d : ℕ) → parse_deadline raw ≡ ok d → IsDeadline d × (0 < d)
unfolding parse_deadline
parse_deadline-IsDeadline raw d h = elim (Option-cases (parse_u64 (number_and_unit (trim raw)).0)) [
  | inl wrong ↦ absurd (ground (arith, h, wrong))
  | inr (value, read) ↦
      bounded_deadline-IsDeadline (value * (number_and_unit (trim raw)).1) d
        (ground (arith, h, read))
]
