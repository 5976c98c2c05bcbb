-- ===== src/Connection/Rate.antt =====
-- `ConnectionRateFilter` of src/connection.rs, with the clock readings of a call as arguments.
pub mod Bounds
pub mod History
use ferroada.Prelude.{
  ℕ, ◌+◌, ◌*◌, ◌%◌, ◌^◌, max, leb, ◌==◌, List, [], ◌∷◌, ◌++◌, length, Bool, true, false, not, ◌&&◌,
  Option, none, some, if◌then◌else◌,
}
use ferroada.Net.{IpAddr, ip_eq}
use ferroada.DashMap.{DashMap, get, has, put, retain, len, or_default}
use ferroada.Window.{drop_expired}

pub record ConnectionRateFilter : Type 0 where
  pub attempts : DashMap IpAddr (List ℕ)
  pub max_attempts : ℕ
  pub window : ℕ
  pub max_ips : ℕ
  pub checks : ℕ
  pub global_attempts : List ℕ
  pub max_global_attempts : ℕ

unfoldable pub new : ℕ → ℕ → ℕ → ℕ → ConnectionRateFilter
new max_attempts window max_ips max_global_attempts = record {
  attempts = [];
  max_attempts = max max_attempts 1;
  window = window;
  max_ips = max max_ips 1;
  checks = 0;
  global_attempts = [];
  max_global_attempts = max max_global_attempts 1;
}

-- The closure of `retain` in `evict_expired`.
unfoldable pub keep_live : ℕ → ℕ → List ℕ → Option (List ℕ)
keep_live window now attempts = elim (drop_expired window now attempts) [
  | [] ↦ none
  | t ∷ ts ↦ some (t ∷ ts)
]

unfoldable pub evict_expired : ℕ → ConnectionRateFilter → ConnectionRateFilter
evict_expired now f = record f {
  attempts = retain (λ _ attempts. keep_live f.window now attempts) f.attempts;
}

-- `fetch_add(1)` on an `AtomicU64`, and the sweep that every 256th check does.
unfoldable pub count_check : ℕ → ConnectionRateFilter → ConnectionRateFilter
count_check sweep f =
    let counted = record f { checks = (f.checks + 1) % 2 ^ 64 } in
    if f.checks % 256 == 0 then evict_expired sweep counted else counted

-- From `entry(ip).or_default()` on.
unfoldable pub admit : ℕ → IpAddr → ConnectionRateFilter → ConnectionRateFilter × Bool
admit now ip f =
    let attempts = drop_expired f.window now (or_default [] (get f.attempts ip)) in
    if leb f.max_attempts (length attempts)
    then (record f { attempts = put f.attempts ip attempts }, false)
    else (
      record f {
        attempts = put f.attempts ip (attempts ++ now ∷ []);
        global_attempts = f.global_attempts ++ now ∷ [];
      },
      true,
    )

-- `locked` says whether the mutex could be locked; `now` and `sweep` are the two clock readings.
unfoldable pub check : Bool → ℕ → ℕ → IpAddr → ConnectionRateFilter → ConnectionRateFilter × Bool
check false now sweep ip f = (f, false)
check true now sweep ip f =
    let global = drop_expired f.window now f.global_attempts in
    let pruned = record f { global_attempts = global } in
    let swept = count_check sweep pruned in
    if leb f.max_global_attempts (length global)
    then (pruned, false)
    else if not (has swept.attempts ip) && leb swept.max_ips (len swept.attempts)
    then (swept, false)
    else admit now ip swept
