-- ===== src/Connection/Rate/Bounds.antt =====
-- The memory of the filter of src/connection.rs stays bounded, whoever connects.
use ferroada.Prelude.{
  ℕ, ◌≤◌, ◌≡◌, List, length, Bool, true, false, arith, some, ◌<◌, Option-cases, ◌+◌, [], if_both,
  ◌%◌, inl, leb, ◌^◌, inr, not, ◌==◌, ◌&&◌, ◌++◌, ◌∷◌, length-append, refl,
}
use ferroada.Net.{ip_eq}
use ferroada.DashMap.{len, has, or_default, get}
use ferroada.DashMap.Laws.{
  AllValues, IsUnique, retain-IsUnique, len-retain-le, retain-AllValues, put-IsUnique,
  get-AllValues, len-put, put-AllValues,
}
use ferroada.Connection.Rate.{
  ConnectionRateFilter, new, evict_expired, count_check, admit, check, keep_live,
}
use ferroada.Net.{IpAddr}
use ferroada.Window.Laws.{length-drop_expired}
use ferroada.Window.{drop_expired}

abbrev pub IsShort : ℕ → List ℕ → Type 0
IsShort n q = length q ≤ n

pub record IsBounded (f : ConnectionRateFilter) : Type 0 where
  pub unique : IsUnique f.attempts
  pub ips : len f.attempts ≤ f.max_ips
  pub queues : AllValues (IsShort f.max_attempts) f.attempts
  pub global : length f.global_attempts ≤ f.max_global_attempts

-- The limits are never written.
abbrev pub KeepsLimits : ConnectionRateFilter → ConnectionRateFilter → Type 0
KeepsLimits f g =
    (g.max_attempts ≡ f.max_attempts)
    × (g.max_ips ≡ f.max_ips)
    × (g.window ≡ f.window)
    × (g.max_global_attempts ≡ f.max_global_attempts)

pub new-IsBounded : (m w i g : ℕ) → IsBounded (new m w i g)
unfolding new
new-IsBounded m w i g = record { unique = tt; ips = omega arith; queues = tt; global = omega arith }

keep_live-IsShort :
    (n window now : ℕ) (v w : List ℕ) → keep_live window now v ≡ some w → IsShort n v → IsShort n w
unfolding keep_live
keep_live-IsShort n window now v w h s = ground (arith, length-drop_expired window now v)

evict_expired-IsBounded :
    (now : ℕ) (f : ConnectionRateFilter) → IsBounded f → IsBounded (evict_expired now f)
unfolding evict_expired
evict_expired-IsBounded now f b = record {
  unique = retain-IsUnique _ f.attempts b.unique;
  ips = omega (arith, b.ips, len-retain-le (λ _ q. keep_live f.window now q) f.attempts);
  queues =
      retain-AllValues (IsShort f.max_attempts) _ f.attempts
        (λ _ v w. keep_live-IsShort f.max_attempts f.window now v w) b.queues;
  global = b.global;
}

count_check-IsBounded :
    (sweep : ℕ) (f : ConnectionRateFilter) → IsBounded f → IsBounded (count_check sweep f)
unfolding count_check
count_check-IsBounded sweep f b =
    let counted = record f { checks = (f.checks + 1) % 2 ^ 64 } in
    let c : IsBounded counted = record {
      unique = b.unique;
      ips = b.ips;
      queues = b.queues;
      global = b.global;
    } in
    if_both IsBounded (f.checks % 256 == 0) (λ _. evict_expired-IsBounded sweep counted c) (λ _. c)

-- A sweep leaves the global queue and the limits alone.
pub count_check-global :
    (sweep : ℕ) (f : ConnectionRateFilter)
    → ((count_check sweep f).global_attempts ≡ f.global_attempts)
      × KeepsLimits f (count_check sweep f)
unfolding count_check evict_expired
count_check-global sweep f = ground arith

-- What `entry(ip).or_default()` reads.
abbrev pub queue : ConnectionRateFilter → IpAddr → List ℕ
queue f ip = or_default [] (get f.attempts ip)

pub queue-IsShort :
    (f : ConnectionRateFilter) (ip : IpAddr) → IsBounded f → IsShort f.max_attempts (queue f ip)
queue-IsShort f ip b = elim (Option-cases (get f.attempts ip)) [
  | inl unknown ↦ ground (arith, unknown)
  | inr (q, known) ↦
      let short = get-AllValues (IsShort f.max_attempts) f.attempts ip q known b.queues in
      ground (arith, known, short)
]

admit-IsBounded :
    (now : ℕ) (ip : IpAddr) (f : ConnectionRateFilter)
    → (has f.attempts ip ≡ false → len f.attempts < f.max_ips)
    → length f.global_attempts < f.max_global_attempts
    → IsBounded f
    → IsBounded (admit now ip f).0
unfolding admit
admit-IsBounded now ip f room below b =
    let q = drop_expired f.window now (or_default [] (get f.attempts ip)) in
    if_both (λ (r : ConnectionRateFilter × Bool). IsBounded r.0) (leb f.max_attempts (length q))
      (λ full. record {
        unique = put-IsUnique f.attempts ip q b.unique;
        ips = ground (arith, len-put f.attempts ip q, room);
        queues =
            put-AllValues (IsShort f.max_attempts) f.attempts ip q
              (omega (arith, queue-IsShort f ip b, length-drop_expired f.window now (queue f ip)))
              b.queues;
        global = b.global;
      })
      (λ fits. record {
        unique = put-IsUnique f.attempts ip (q ++ now ∷ []) b.unique;
        ips = ground (arith, len-put f.attempts ip (q ++ now ∷ []), room);
        queues =
            put-AllValues (IsShort f.max_attempts) f.attempts ip (q ++ now ∷ [])
              (ground (arith, fits, length-append q (now ∷ []))) b.queues;
        global = omega (arith, length-append f.global_attempts (now ∷ []), below);
      })

pub check-IsBounded :
    (locked : Bool) (now sweep : ℕ) (ip : IpAddr) (f : ConnectionRateFilter)
    → IsBounded f
    → IsBounded (check locked now sweep ip f).0
unfolding check
check-IsBounded false now sweep ip f b = b
check-IsBounded true now sweep ip f b =
    let pruned = record f { global_attempts = drop_expired f.window now f.global_attempts } in
    let p : IsBounded pruned = record {
      unique = b.unique;
      ips = b.ips;
      queues = b.queues;
      global = omega (arith, b.global, length-drop_expired f.window now f.global_attempts);
    } in
    let swept = count_check sweep pruned in
    let s = count_check-IsBounded sweep pruned p in
    if_both (λ (r : ConnectionRateFilter × Bool). IsBounded r.0)
      (leb f.max_global_attempts (length pruned.global_attempts)) (λ _. p)
      (λ below.
        if_both (λ (r : ConnectionRateFilter × Bool). IsBounded r.0)
          (not (has swept.attempts ip) && leb swept.max_ips (len swept.attempts)) (λ _. s)
          (λ room.
            admit-IsBounded now ip swept (λ unknown. ground (arith, room))
              (ground (arith, below, count_check-global sweep pruned)) s))

admit-KeepsLimits :
    (now : ℕ) (ip : IpAddr) (f : ConnectionRateFilter) → KeepsLimits f (admit now ip f).0
unfolding admit
admit-KeepsLimits now ip f = ground arith

pub check-KeepsLimits :
    (locked : Bool) (now sweep : ℕ) (ip : IpAddr) (f : ConnectionRateFilter)
    → KeepsLimits f (check locked now sweep ip f).0
unfolding check
check-KeepsLimits false now sweep ip f = (refl, refl, refl, refl)
check-KeepsLimits true now sweep ip f =
    let p = record f { global_attempts = drop_expired f.window now f.global_attempts } in
    ground (arith, count_check-global sweep p, admit-KeepsLimits now ip (count_check sweep p))
