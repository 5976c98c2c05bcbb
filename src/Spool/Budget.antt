-- ===== src/Spool/Budget.antt =====
-- The budgets of src/spool.rs: atomic counters, each changed by one `fetch_update` or `fetch_sub`.
-- `usize` has 64 bits; `fetch_sub` wraps.
pub mod Laws
use ferroada.Prelude.{
  ℕ, ◌+◌, ◌-◌, ◌%◌, ◌^◌, Option, Bool, if◌then◌else◌, ltb, some, none, leb, false, true,
}

abbrev pub usize_mod : ℕ
usize_mod = 2 ^ 64

abbrev pub checked_add : ℕ → ℕ → Option ℕ
checked_add a b = if ltb (a + b) usize_mod then some (a + b) else none

abbrev pub wrapping_sub : ℕ → ℕ → ℕ
wrapping_sub a b = (a + usize_mod - b) % usize_mod

-- `filter(|next| *next <= max)`
abbrev pub at_most : ℕ → Option ℕ → Option ℕ
at_most max none = none
at_most max (some n) = if leb n max then some n else none

pub record ByteBudget : Type 0 where
  pub current : ℕ
  pub max : ℕ

pub record FileBudget : Type 0 where
  pub current : ℕ
  pub max : ℕ

unfoldable pub new_bytes : ℕ → ByteBudget
new_bytes max = record { current = 0; max = max }

unfoldable pub reserve : ByteBudget → ℕ → ByteBudget × Bool
reserve b bytes = elim (at_most b.max (checked_add b.current bytes)) [
  | none ↦ (b, false)
  | some next ↦ (record b { current = next }, true)
]

unfoldable pub release_bytes : ByteBudget → ℕ → ByteBudget
release_bytes b bytes =
    if ltb 0 bytes then record b { current = wrapping_sub b.current bytes } else b

unfoldable pub new_files : ℕ → FileBudget
new_files max = record { current = 0; max = max }

unfoldable pub acquire : FileBudget → FileBudget × Bool
acquire b = if ltb b.current b.max then (record b { current = b.current + 1 }, true) else (b, false)

unfoldable pub release_file : FileBudget → FileBudget
release_file b = record b { current = wrapping_sub b.current 1 }
