-- ===== src/RateLimit/Counting.antt =====
-- An allowed request of src/rate_limit.rs is counted under each of its keys.
use ferroada.Prelude.{
  ℕ, ◌+◌, ◌-◌, ◌≤◌, ◌<◌, ◌≡◌, List, [], ◌∷◌, ◌++◌, length, Bool, true, arith, All, ◌∙◌, refl,
  Bool-cases, inl, sym, inr, subst, if_both, leb,
}
use ferroada.DashMap.{put}
use ferroada.DashMap.Laws.{IsUnique, put-IsUnique}
use ferroada.Window.{recent, retain_live}
use ferroada.ClientIp.Identity.{RiskIdentity}
use ferroada.RateLimit.Key.{RateKey, keys_of, key_eq, same_key, same_key_iff}
use ferroada.RateLimit.Check.{queue, IsDistinct, IsOther, queue-put, keys_of-IsDistinct}
use ferroada.RateLimit.{RateLimiter, admit_keys, check, maybe_sweep, enforce_cap, contains}
use ferroada.Window.Laws.{recent-retain_live, recent-append}
use ferroada.RateLimit.Eviction.{
  Requests, enforce_cap-recent, maybe_sweep_window, maybe_sweep-IsUnique,
}

-- How the loop over distinct keys changes each of them.
admit_keys_other :
    (limit window now : ℕ) (keys : List RateKey) (m : Requests) (k : RateKey)
    → All (λ j. IsOther j k) keys
    → queue (admit_keys limit window now keys m).0 k ≡ queue m k
unfolding admit_keys
admit_keys_other limit window now [] m k h = refl
admit_keys_other limit window now (key ∷ keys) m k h =
    let live = retain_live window now (queue m key) in
    let rest = admit_keys_other limit window now keys (put m key (live ++ now ∷ [])) k h.1 in
    ground (arith, rest, queue-put m key k (live ++ now ∷ []), queue-put m key k live)

flip_others :
    (k : RateKey) (keys : List RateKey) → All (IsOther k) keys → All (λ j. IsOther j k) keys
flip_others k [] h = tt
flip_others k (j ∷ keys) h = (
  elim (Bool-cases (same_key j k)) [
    | inl same ↦
        let e : k ≡ j = sym ((same_key_iff j k).0 same) in
        let back = (same_key_iff k j).1 e in absurd (ground (arith, h.0, back))
    | inr other ↦ other
  ],
  flip_others k keys h.1,
)

-- One more in the window, for each key.
AreCounted : ℕ → ℕ → Requests → Requests → List RateKey → Type 0
AreCounted window t before after keys =
    All (λ k. recent window t (queue after k) ≡ recent window t (queue before k) + 1) keys

pushed-recent :
    (window now t : ℕ) (q : List ℕ)
    → now ≤ t
    → t - now < window
    → recent window t (retain_live window now q ++ now ∷ []) ≡ recent window t q + 1
unfolding recent
pushed-recent window now t q le live = ground (
  arith,
  recent-append window t (retain_live window now q) (now ∷ []),
  recent-retain_live window now t q le,
)

AreCounted-put :
    (window t : ℕ) (key : RateKey) (q : List ℕ) (before after : Requests) (keys : List RateKey)
    → All (IsOther key) keys
    → AreCounted window t (put before key q) after keys
    → AreCounted window t before after keys
unfolding AreCounted
AreCounted-put window t key q before after [] h c = tt
AreCounted-put window t key q before after (k ∷ keys) h c =
    let rest = AreCounted-put window t key q before after keys h.1 c.1 in
    ground (arith, rest, queue-put before key k q, h.0, c.0)

-- A key that passed, and the rest of the loop.
admit_keys_step :
    (limit window now : ℕ) (key : RateKey) (keys : List RateKey) (m : Requests)
    → (admit_keys limit window now (key ∷ keys) m).1 ≡ true
    → let rest =
        admit_keys limit window now keys
          (put m key (retain_live window now (queue m key) ++ now ∷ [])) in
      (admit_keys limit window now (key ∷ keys) m ≡ rest) × (rest.1 ≡ true)
unfolding admit_keys
admit_keys_step limit window now key keys m ok = ground (arith, ok)

admit_keys-AreCounted :
    (limit window now t : ℕ) (keys : List RateKey) (m : Requests)
    → now ≤ t
    → t - now < window
    → IsDistinct keys
    → (admit_keys limit window now keys m).1 ≡ true
    → AreCounted window t m (admit_keys limit window now keys m).0 keys
unfolding AreCounted
admit_keys-AreCounted limit window now t [] m le live d ok = tt
admit_keys-AreCounted limit window now t (key ∷ keys) m le live d ok =
    let q = retain_live window now (queue m key) in
    let m' = put m key (q ++ now ∷ []) in
    let (step, rest_ok) = admit_keys_step limit window now key keys m ok in
    let after = (admit_keys limit window now keys m').0 in
    let mine = admit_keys_other limit window now keys m' key (flip_others key keys d.0) in
    let here = queue-put m key key (q ++ now ∷ []) in
    let self = (same_key_iff key key).1 refl in
    let one = pushed-recent window now t (queue m key) le live in
    let first : recent window t (queue after key) ≡ recent window t (queue m key) + 1 =
      ground (arith, mine, here, self, one) in
    let rest = admit_keys-AreCounted limit window now t keys m' le live d.1 rest_ok in
    let others = AreCounted-put window t key (q ++ now ∷ []) m after keys d.0 rest in
    subst (λ (r : Requests × Bool). AreCounted window t m r.0 (key ∷ keys)) (sym step)
      (first, others)

-- After the cap was enforced, for keys that the list contains.
enforce_cap-AreCounted :
    (cap : ℕ) (keep : List RateKey) (before : Requests) (l : RateLimiter) (keys : List RateKey)
    → IsUnique l.requests
    → All (λ k. contains keep k ≡ true) keys
    → AreCounted l.window cap before l.requests keys
    → AreCounted l.window cap before (enforce_cap cap keep l).requests keys
unfolding AreCounted
enforce_cap-AreCounted cap keep before l [] u h c = tt
enforce_cap-AreCounted cap keep before l (k ∷ keys) u h c = (
  enforce_cap-recent cap keep k l h.0 u ∙ c.0,
  enforce_cap-AreCounted cap keep before l keys u h.1 c.1,
)

contains_more :
    (j : RateKey) (keep keys : List RateKey)
    → All (λ k. contains keep k ≡ true) keys
    → All (λ k. contains (j ∷ keep) k ≡ true) keys
unfolding contains
contains_more j keep [] h = tt
contains_more j keep (k ∷ keys) h = ground (arith, contains_more j keep keys h.1, h.0)

contains_self : (keys : List RateKey) → All (λ k. contains keys k ≡ true) keys
unfolding contains
contains_self [] = tt
contains_self (k ∷ keys) =
    let self = (same_key_iff k k).1 refl in
    (ground (arith, self), contains_more k keys keys (contains_self keys))

pub admit_keys-IsUnique :
    (limit window now : ℕ) (keys : List RateKey) (m : Requests)
    → IsUnique m
    → IsUnique (admit_keys limit window now keys m).0
unfolding admit_keys
admit_keys-IsUnique limit window now [] m u = u
admit_keys-IsUnique limit window now (key ∷ keys) m u =
    let live = retain_live window now (queue m key) in
    if_both (λ (r : Requests × Bool). IsUnique r.0) (leb limit (length live))
      (λ _. put-IsUnique m key live u)
      (λ _. admit_keys-IsUnique limit window now keys _ (put-IsUnique m key (live ++ now ∷ []) u))

-- How an allowed call ends.
pub check_step :
    (sweep now cap : ℕ) (identity : RiskIdentity) (l : RateLimiter)
    → (check sweep now cap identity l).1 ≡ true
    → let swept = maybe_sweep sweep l in
      let keys = keys_of identity in
      let tried = admit_keys swept.max_requests swept.window now keys swept.requests in
      (tried.1 ≡ true)
      × ((check sweep now cap identity l).0
          ≡ enforce_cap cap keys (record swept { requests = tried.0 }))
unfolding check
check_step sweep now cap identity l ok = ground (arith, ok)

-- An allowed request has one more in the window under each of its keys, in a map that still has no
-- key twice, when the three readings of the clock follow each other within a window: what the cap
-- evicts, if it does, is never a key of this request.
pub check-counts :
    (sweep now cap : ℕ) (identity : RiskIdentity) (l : RateLimiter)
    → IsUnique l.requests
    → now ≤ cap
    → cap - now < l.window
    → (check sweep now cap identity l).1 ≡ true
    → All
        (λ k.
          recent l.window cap (queue (check sweep now cap identity l).0.requests k)
          ≡ recent l.window cap (queue (maybe_sweep sweep l).requests k) + 1)
        (keys_of identity)
unfolding AreCounted
check-counts sweep now cap identity l u le live ok =
    let swept = maybe_sweep sweep l in
    let keys = keys_of identity in
    let tried = admit_keys swept.max_requests swept.window now keys swept.requests in
    let counted : RateLimiter = record swept { requests = tried.0 } in
    let same = maybe_sweep_window sweep l in
    let (allowed, final) = check_step sweep now cap identity l ok in
    let unique =
      admit_keys-IsUnique swept.max_requests swept.window now keys swept.requests
        (maybe_sweep-IsUnique sweep l u) in
    let one =
      admit_keys-AreCounted swept.max_requests swept.window now cap keys swept.requests le
        (ground (arith, same)) (keys_of-IsDistinct identity) allowed in
    let kept =
      enforce_cap-AreCounted cap keys swept.requests counted keys unique (contains_self keys) one in
    subst
      (λ (w : ℕ). AreCounted w cap swept.requests (check sweep now cap identity l).0.requests keys)
      same
      (subst (λ (r : RateLimiter). AreCounted swept.window cap swept.requests r.requests keys)
        (sym final) kept)
