-- ===== src/RateLimit/Check.antt =====
-- What `check` of src/rate_limit.rs decides, and what it counts.
use ferroada.Prelude.{
  ℕ, ◌<◌, ◌≡◌, ◌↔◌, List, [], ◌∷◌, ◌++◌, true, false, arith, All, if◌then◌else◌, refl,
}
use ferroada.DashMap.{DashMap, get, put, or_default}
use ferroada.Window.{recent, retain_live}
use ferroada.Window.Laws.{length-retain_live}
use ferroada.ClientIp.Identity.{RiskIdentity}
use ferroada.RateLimit.Key.{RateKey, keys_of, key_eq, same_key}
use ferroada.RateLimit.{RateLimiter, admit_keys, check, maybe_sweep}
use ferroada.DashMap.Laws.{get-put}

abbrev pub queue : DashMap RateKey (List ℕ) → RateKey → List ℕ
queue m key = or_default [] (get m key)

abbrev pub IsOther : RateKey → RateKey → Type 0
IsOther k j = same_key k j ≡ false

abbrev pub IsDistinct : List RateKey → Type 0
IsDistinct [] = Unit
IsDistinct (k ∷ ks) = All (IsOther k) ks × IsDistinct ks

-- No two keys of a request are the same.
pub keys_of-IsDistinct : (i : RiskIdentity) → IsDistinct (keys_of i)
unfolding keys_of
keys_of-IsDistinct i = ground arith

pub queue-put :
    (m : DashMap RateKey (List ℕ)) (k j : RateKey) (q : List ℕ)
    → queue (put m k q) j ≡ (if same_key k j then q else queue m j)
queue-put m k j q = ground (arith, get-put m k j q)

-- Every key is under the limit.
abbrev pub AreUnder : ℕ → ℕ → ℕ → DashMap RateKey (List ℕ) → List RateKey → Type 0
AreUnder limit window now m keys = All (λ k. recent window now (queue m k) < limit) keys

AreUnder-put :
    (limit window now : ℕ) (m : DashMap RateKey (List ℕ)) (k : RateKey) (q : List ℕ)
    (keys : List RateKey)
    → All (IsOther k) keys
    → AreUnder limit window now (put m k q) keys ↔ AreUnder limit window now m keys
AreUnder-put limit window now m k q [] h = (λ u. u, λ u. u)
AreUnder-put limit window now m k q (j ∷ keys) h =
    let rest = AreUnder-put limit window now m k q keys h.1 in
    let same = queue-put m k j q in ground (arith, rest, same, h.0)

admit_keys-AreUnder :
    (limit window now : ℕ) (keys : List RateKey) (m : DashMap RateKey (List ℕ))
    → IsDistinct keys
    → ((admit_keys limit window now keys m).1 ≡ true) ↔ AreUnder limit window now m keys
unfolding admit_keys
admit_keys-AreUnder limit window now [] m d = (λ _. tt, λ _. refl)
admit_keys-AreUnder limit window now (key ∷ keys) m d =
    let live = retain_live window now (queue m key) in
    let rest = admit_keys-AreUnder limit window now keys (put m key (live ++ now ∷ [])) d.1 in
    let same = AreUnder-put limit window now m key (live ++ now ∷ []) keys d.0 in
    let count = length-retain_live window now (queue m key) in ground (arith, rest, same, count)

-- `check` allows a request exactly when, after the sweep that may be due, each of its keys has made
-- fewer requests than the limit in the window that ends now.
pub check-decides :
    (sweep now cap : ℕ) (identity : RiskIdentity) (l : RateLimiter)
    → let swept = maybe_sweep sweep l in
      ((check sweep now cap identity l).1 ≡ true)
      ↔ AreUnder swept.max_requests swept.window now swept.requests (keys_of identity)
unfolding check
check-decides sweep now cap identity l =
    let swept = maybe_sweep sweep l in
    let both =
      admit_keys-AreUnder swept.max_requests swept.window now (keys_of identity) swept.requests
        (keys_of-IsDistinct identity) in
    ground (arith, both)
