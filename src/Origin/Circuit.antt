-- ===== src/Origin/Circuit.antt =====
-- The circuit breaker of src/origin.rs. The clock's reading and a duration are numbers of nanoseconds;
-- an operation is one step, as its lock makes it.
use ferroada.Prelude.{
  ℕ, ◌+◌, ◌-◌, ◌*◌, ◌%◌, ◌^◌, ◌<◌, leb, List, [], ◌∷◌, Bool, true, false, not, ◌&&◌, ◌||◌, Option,
  none, some, if◌then◌else◌, ◌≡◌, refl, arith, Bool-cases, inl, inr,
}

pub record CircuitBreaker : Type 0 where
  pub consecutive_failures : ℕ
  pub opened_at : Option ℕ
  pub probing : Bool
  pub open_for : ℕ

abbrev pub circuit_open_for : ℕ
circuit_open_for = 5 * 10 ^ 9

abbrev pub failures_to_open : ℕ
failures_to_open = 1

unfoldable pub with_open_for : ℕ → CircuitBreaker
with_open_for open_for = record {
  consecutive_failures = 0;
  opened_at = none;
  probing = false;
  open_for = open_for;
}

unfoldable pub new : CircuitBreaker
unfolding with_open_for
new = with_open_for circuit_open_for

unfoldable pub allows_traffic : ℕ → CircuitBreaker → Bool
allows_traffic now b = elim b.opened_at [ none ↦ true | some at ↦ leb b.open_for (now - at) ]

-- The change, and whether a request may be sent.
unfoldable pub can_send : ℕ → CircuitBreaker → CircuitBreaker × Bool
can_send now b = elim b.opened_at [
  | none ↦ (b, true)
  | some at ↦
      if leb b.open_for (now - at) && not b.probing
      then (record b { probing = true }, true)
      else (b, false)
]

unfoldable pub on_success : CircuitBreaker → CircuitBreaker
on_success b = record b { consecutive_failures = 0; opened_at = none; probing = false }

-- The count has 32 bits and wraps.
unfoldable pub on_failure : ℕ → CircuitBreaker → CircuitBreaker
on_failure now b =
    let failures = (b.consecutive_failures + 1) % 2 ^ 32 in
    record b {
      consecutive_failures = failures;
      opened_at = if leb failures_to_open failures then some now else b.opened_at;
      probing = false;
    }

-- How many of the requests that ask at these times are let through, when no result comes in.
pub granted : List ℕ → CircuitBreaker → ℕ
unfolding can_send
granted [] b = 0
granted (now ∷ times) b = let r = can_send now b in (if r.1 then 1 else 0) + granted times r.0

-- Whether one of the times lies `open_for` behind the opening.
abbrev pub has_elapsed : ℕ → ℕ → List ℕ → Bool
has_elapsed open_for at [] = false
has_elapsed open_for at (now ∷ times) = leb open_for (now - at) || has_elapsed open_for at times

granted-probing :
    (times : List ℕ) (b : CircuitBreaker) (at : ℕ)
    → b.opened_at ≡ some at
    → b.probing ≡ true
    → granted times b ≡ 0
unfolding granted can_send
granted-probing [] b at o p = refl
granted-probing (now ∷ times) b at o p = ground (arith, o, p, granted-probing times b at o p)

granted-opened :
    (times : List ℕ) (b : CircuitBreaker) (at : ℕ)
    → b.opened_at ≡ some at
    → b.probing ≡ false
    → granted times b ≡ (if has_elapsed b.open_for at times then 1 else 0)
unfolding granted can_send
granted-opened [] b at o p = refl
granted-opened (now ∷ times) b at o p = elim (Bool-cases (leb b.open_for (now - at))) [
  | inl e ↦ ground (arith, o, p, e, granted-probing times (record b { probing = true }) at o refl)
  | inr e ↦ ground (arith, o, p, e, granted-opened times b at o p)
]

-- After a failure, of all the requests that ask before the next result exactly one is let through when
-- one asks `open_for` after the failure, and else none: as long as the count of failures in a row does
-- not wrap.
pub granted-on_failure :
    (now : ℕ) (times : List ℕ) (b : CircuitBreaker)
    → b.consecutive_failures + 1 < 2 ^ 32
    → granted times (on_failure now b) ≡ (if has_elapsed b.open_for now times then 1 else 0)
unfolding on_failure
granted-on_failure now times b h = granted-opened times (on_failure now b) now (ground arith) refl
