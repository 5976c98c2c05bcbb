-- ===== src/Window.antt =====
-- Sliding windows of instants, which the limiters keep of each client: src/connection.rs pops the
-- expired front of a queue, src/rate_limit.rs retains the live entries. An instant is a number of
-- nanoseconds; `duration_since` stops at zero, as `-` does here.
pub mod Laws
use ferroada.Prelude.{ℕ, ◌+◌, ◌-◌, ltb, leb, List, [], ◌∷◌, if◌then◌else◌}

-- `while front().is_some_and(|t| now.duration_since(t) >= window) { pop_front() }`
unfoldable pub drop_expired : ℕ → ℕ → List ℕ → List ℕ
drop_expired window now [] = []
drop_expired window now (t ∷ ts) =
    let rest = drop_expired window now ts in if leb window (now - t) then rest else t ∷ ts

-- `retain(|t| now.duration_since(t) < window)`
unfoldable pub retain_live : ℕ → ℕ → List ℕ → List ℕ
retain_live window now [] = []
retain_live window now (t ∷ ts) =
    let rest = retain_live window now ts in if ltb (now - t) window then t ∷ rest else rest

-- How many instants of a list are in the window that ends at `now`: what the two are there to count.
unfoldable pub recent : ℕ → ℕ → List ℕ → ℕ
recent window now [] = 0
recent window now (t ∷ ts) =
    let rest = recent window now ts in if ltb (now - t) window then rest + 1 else rest
